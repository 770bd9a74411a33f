-- ===== src/ParseQueue/Pumping.antt =====
-- `pump` of metadata/pipeline.go claims every directory that can be claimed, once, and ends.
use byom.Prelude.{
  ℕ, zero, suc, ◌+◌, ◌<◌, ◌≡◌, refl, ap, ◌∙◌, sym, true, List, [], ◌∷◌, ◌++◌, map, keep, length,
  length-append, is_empty, arith, Bool-cases, inl, inr, ◌⊎◌, if◌then◌else◌,
}
use byom.Storage.{DirRow}
use byom.ParseQueue.{ClaimedDir, is_claimable, claimed, lock, dirty_dirs, Pumped, send, pump}

-- The claims that are to be sent, and the rows that they leave.
unfoldable pub claims_of : List DirRow → List ClaimedDir
claims_of ds = map claimed (keep is_claimable ds)

abbrev pub lock_if : DirRow → DirRow
lock_if d = if is_claimable d then lock d else d

unfoldable pub locked_of : List DirRow → List DirRow
locked_of ds = map lock_if ds

-- A claim takes the first of what is to be claimed, and is short only when no more is left.
dirty_dirs-lem :
    (n : ℕ) (ds : List DirRow)
    → ((dirty_dirs n ds).0 ++ claims_of (dirty_dirs n ds).1 ≡ claims_of ds)
      × (locked_of (dirty_dirs n ds).1 ≡ locked_of ds)
      × ((length (dirty_dirs n ds).0 ≡ n) ⊎ (claims_of (dirty_dirs n ds).1 ≡ []))
unfolding dirty_dirs claims_of locked_of
dirty_dirs-lem zero ds = (refl, refl, inl refl)
dirty_dirs-lem (suc n) [] = (refl, refl, inr refl)
dirty_dirs-lem (suc n) (d ∷ ds) = elim (Bool-cases (is_claimable d)) [
  | inl ready ↦
      let (claims, locks, short) = dirty_dirs-lem n ds in
      rw ready (
        ap (◌∷◌ (claimed d)) claims,
        ap (◌∷◌ (lock d)) locks,
        elim short [ inl full ↦ inl (ap suc full) | inr none' ↦ inr none' ],
      )
  | inr busy ↦
      let (claims, locks, short) = dirty_dirs-lem (suc n) ds in
      rw (busy, busy) (claims, ap (◌∷◌ d) locks, short)
]

none_claimed : (ds : List DirRow) → claims_of ds ≡ [] → locked_of ds ≡ ds
unfolding claims_of locked_of
none_claimed [] h = refl
none_claimed (d ∷ ds) h = elim (Bool-cases (is_claimable d)) [
  | inl ready ↦ absurd (ground arith)
  | inr busy ↦ rw busy (ap (◌∷◌ d) (none_claimed ds (rw busy at h)))
]

-- One round, from what the claim returns and what the rest of the loop gives.
round :
    (c : List ClaimedDir) (after ds : List DirRow) (rest : Pumped) (batch fuel : ℕ)
    → 0 < batch
    → length (claims_of ds) < suc fuel
    → c ++ claims_of after ≡ claims_of ds
    → locked_of after ≡ locked_of ds
    → (length c ≡ batch) ⊎ (claims_of after ≡ [])
    → (length (claims_of after) < fuel
        → rest ≡ record { sent = claims_of after; dirs = locked_of after; drained = true })
    → (if is_empty c then record { sent = []; dirs = after; drained = true } else send c rest)
      ≡ record { sent = claims_of ds; dirs = locked_of ds; drained = true }
round [] after ds rest batch fuel pos h claims locks short ih = elim short [
  | inl full ↦ absurd (omega arith)
  | inr none' ↦ rw (← claims, ← locks, none', none_claimed after none') refl
]
round (x ∷ c) after ds rest batch fuel pos h claims locks short ih =
    let size : length (x ∷ c) + length (claims_of after) ≡ length (claims_of ds) =
      sym (length-append (x ∷ c) (claims_of after)) ∙ ap length claims in
    rw (ih (omega arith)) (rw (← claims, ← locks) refl)

-- With a batch of one or more, and more fuel than directories that can be claimed, `pump` ends with
-- none left; it has sent each of them once, and locked and cleaned their rows and no others.
pub pump-drains :
    (fuel batch : ℕ) (ds : List DirRow)
    → 0 < batch
    → length (claims_of ds) < fuel
    → pump fuel batch ds ≡ record { sent = claims_of ds; dirs = locked_of ds; drained = true }
unfolding pump
pump-drains zero batch ds pos h = absurd (omega arith)
pump-drains (suc fuel) batch ds pos h =
    let (claims, locks, short) = dirty_dirs-lem batch ds in
    round (dirty_dirs batch ds).0 (dirty_dirs batch ds).1 ds
      (pump fuel batch (dirty_dirs batch ds).1) batch fuel pos h claims locks short
      (pump-drains fuel batch (dirty_dirs batch ds).1 pos)
