-- ===== src/Scanner/Rows.antt =====
-- The rows of scans with their IDs, in a list: sqlite/scan.go.
use byom.Prelude.{
  ℕ, zero, suc, ◌<◌, ◌≤◌, ◌≡◌, ◌==◌, refl, Bool, true, List, [], ◌∷◌, Option, none, some, arith,
  All, keep, Option-cases, Bool-cases, ==_iff, inl, inr, ◌⊎◌,
}
use byom.Scanner.{StoredScan}
use mathlib.Core.List.{Mem, mem-cons_self, mem-cons_of_mem}

-- A row with its ID.
abbrev pub ScanRow : Type 0
ScanRow = ℕ × StoredScan

-- The rows of the IDs below a number; all of them for the next ID.
unfoldable pub rows_below : ℕ → (ℕ → Option StoredScan) → List ScanRow
rows_below zero scans = []
rows_below (suc n) scans = elim (scans n) [
  | none ↦ rows_below n scans
  | some s ↦ (n, s) ∷ rows_below n scans
]

pub rows_below-step :
    (n : ℕ) (scans : ℕ → Option StoredScan)
    → ((scans n ≡ none) × (rows_below (suc n) scans ≡ rows_below n scans))
      ⊎ ((s : StoredScan) × (scans n ≡ some s)
          × (rows_below (suc n) scans ≡ (n, s) ∷ rows_below n scans))
unfolding rows_below
rows_below-step n scans = elim (Option-cases (scans n)) [
  | inl nothing ↦ inl (nothing, rw (rows_below, nothing) refl)
  | inr (s, row) ↦ inr (s, row, rw (rows_below, row) refl)
]

pub rows_below-All :
    (n m : ℕ) (scans : ℕ → Option StoredScan)
    → n ≤ m
    → All (λ (row : ScanRow). row.0 < m) (rows_below n scans)
rows_below-All zero m scans h = unfold rows_below in tt
rows_below-All (suc n) m scans h =
    let rest = rows_below-All n m scans (omega arith) in
    elim (rows_below-step n scans) [
      | inl (nothing, same) ↦ rw same rest
      | inr (s, row, same) ↦ rw same (omega arith, rest)
    ]

pub rows_below-Mem :
    (n : ℕ) (scans : ℕ → Option StoredScan) (p : ScanRow → Bool) (id : ℕ) (s : StoredScan)
    → id < n
    → scans id ≡ some s
    → p (id, s) ≡ true
    → Mem (id, s) (keep p (rows_below n scans))
rows_below-Mem zero scans p id s below row h = elim below [ ]
rows_below-Mem (suc n) scans p id s below row h = elim (Bool-cases (id == n)) [
  | inl last ↦ elim (rows_below-step n scans) [
    | inl (nothing, same) ↦ absurd (grind arith)
    | inr (t, row', same) ↦
        let number : id ≡ n = (==_iff id n).0 last in
        let content : t ≡ s = grind arith in
        rw same (rw content (rw (← number) (rw h mem-cons_self)))
  ]
  | inr before ↦
      let rest = rows_below-Mem n scans p id s (grind arith) row h in
      elim (rows_below-step n scans) [
        | inl (nothing, same) ↦ rw same rest
        | inr (t, row', same) ↦ rw same (elim (Bool-cases (p (n, t))) [
          | inl kept ↦ rw kept (mem-cons_of_mem (n, t) rest)
          | inr gone ↦ rw gone rest
        ])
      ]
]
