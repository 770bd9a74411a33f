-- ===== src/Paging/Sorting.antt =====
-- `ORDER BY` over a table whose rows have distinct keys, and how `WHERE` goes with it:
-- sqlite/libraryread.go.
use byom.Prelude.{
  suc, length, ◌≡◌, ◌≢◌, refl, ap, ◌∙◌, Bool, true, List, [], ◌∷◌, ◌++◌, arith, Bool-cases, inl,
  inr, All, keep, if◌then◌else◌,
}
use byom.Paging.Orders.{StrictOrder, asym}
use mathlib.Core.List.{Perm}
use mathlib.Core.List.Perm

module _ {ℓ κ} {R : Type ℓ} {K : Type κ} (o : StrictOrder K) (key : R → K) where
  unfoldable pub insert_row : R → List R → List R
  insert_row r [] = r ∷ []
  insert_row r (s ∷ ss) = if o.lt (key s) (key r) then s ∷ insert_row r ss else r ∷ s ∷ ss

  unfoldable pub order_by : List R → List R
  unfolding insert_row
  order_by [] = []
  order_by (r ∷ rs) = insert_row r (order_by rs)

  -- The key of `r` is below those of the rows.
  abbrev pub IsBelow : R → List R → Type 0
  IsBelow r ss = All (λ s. o.lt (key r) (key s) ≡ true) ss

  abbrev pub IsAscending : List R → Type 0
  IsAscending [] = Unit
  IsAscending (r ∷ rs) = IsBelow r rs × IsAscending rs

  -- No key occurs twice.
  abbrev pub IsDistinct : List R → Type κ
  IsDistinct [] = Unit
  IsDistinct (r ∷ rs) = All (λ s. key r ≢ key s) rs × IsDistinct rs

  insert_row-perm : (r : R) (rs : List R) → Perm (insert_row r rs) (r ∷ rs)
  unfolding insert_row
  insert_row-perm r [] = Perm.rfl
  insert_row-perm r (s ∷ ss) = elim (Bool-cases (o.lt (key s) (key r))) [
    | inl after ↦ rw after (Perm.trans (Perm.cons s (insert_row-perm r ss)) (Perm.swap r s ss))
    | inr before ↦ rw before Perm.rfl
  ]

  -- What is listed is what was there.
  pub order_by-perm : (rs : List R) → Perm (order_by rs) rs
  unfolding order_by
  order_by-perm [] = Perm.rfl
  order_by-perm (r ∷ rs) =
      Perm.trans (insert_row-perm r (order_by rs)) (Perm.cons r (order_by-perm rs))

  length-insert_row : (r : R) (rs : List R) → length (insert_row r rs) ≡ suc (length rs)
  unfolding insert_row
  length-insert_row r [] = refl
  length-insert_row r (s ∷ ss) = ground (arith, length-insert_row r ss)

  pub length-order_by : (rs : List R) → length (order_by rs) ≡ length rs
  unfolding order_by
  length-order_by [] = refl
  length-order_by (r ∷ rs) = length-insert_row r (order_by rs) ∙ ap suc (length-order_by rs)

  All-insert_row {υ} :
      (P : R → Type υ) (r : R) (rs : List R) → P r → All P rs → All P (insert_row r rs)
  unfolding insert_row
  All-insert_row P r [] p ps = (p, tt)
  All-insert_row P r (s ∷ ss) p ps = elim (Bool-cases (o.lt (key s) (key r))) [
    | inl after ↦ rw after (ps.0, All-insert_row P r ss p ps.1)
    | inr before ↦ rw before (p, ps)
  ]

  All-order_by {υ} : (P : R → Type υ) (rs : List R) → All P rs → All P (order_by rs)
  unfolding order_by
  All-order_by P [] ps = tt
  All-order_by P (r ∷ rs) ps = All-insert_row P r (order_by rs) ps.0 (All-order_by P rs ps.1)

  IsBelow-trans :
      (r s : R) (ss : List R) → o.lt (key r) (key s) ≡ true → IsBelow s ss → IsBelow r ss
  IsBelow-trans r s [] h k = tt
  IsBelow-trans r s (t ∷ ss) h k =
      (o.trans (key r) (key s) (key t) h k.0, IsBelow-trans r s ss h k.1)

  insert_row-IsAscending :
      (r : R) (rs : List R)
      → All (λ s. key r ≢ key s) rs
      → IsAscending rs
      → IsAscending (insert_row r rs)
  unfolding insert_row
  insert_row-IsAscending r [] new h = (tt, tt)
  insert_row-IsAscending r (s ∷ ss) new h = elim (Bool-cases (o.lt (key s) (key r))) [
    | inl after ↦ rw after (
      All-insert_row (λ t. o.lt (key s) (key t) ≡ true) r ss after h.0,
      insert_row-IsAscending r ss new.1 h.1,
    )
    | inr before ↦ elim (Bool-cases (o.lt (key r) (key s))) [
      | inl below ↦ rw before ((below, IsBelow-trans r s ss below h.0), h)
      | inr same ↦ absurd (new.0 (o.connected (key r) (key s) same before))
    ]
  ]

  pub order_by-IsAscending : (rs : List R) → IsDistinct rs → IsAscending (order_by rs)
  unfolding order_by
  order_by-IsAscending [] h = tt
  order_by-IsAscending (r ∷ rs) h =
      insert_row-IsAscending r (order_by rs) (All-order_by (λ s. key r ≢ key s) rs h.0)
        (order_by-IsAscending rs h.1)

  All-keep {υ} : (P : R → Type υ) (p : R → Bool) (rs : List R) → All P rs → All P (keep p rs)
  All-keep P p [] ps = tt
  All-keep P p (r ∷ rs) ps = elim (Bool-cases (p r)) [
    | inl yes' ↦ rw yes' (ps.0, All-keep P p rs ps.1)
    | inr no' ↦ rw no' (All-keep P p rs ps.1)
  ]

  pub keep-IsDistinct : (p : R → Bool) (rs : List R) → IsDistinct rs → IsDistinct (keep p rs)
  keep-IsDistinct p [] h = tt
  keep-IsDistinct p (r ∷ rs) h = elim (Bool-cases (p r)) [
    | inl yes' ↦ rw yes' (All-keep (λ s. key r ≢ key s) p rs h.0, keep-IsDistinct p rs h.1)
    | inr no' ↦ rw no' (keep-IsDistinct p rs h.1)
  ]

  -- A row that is below the others goes before them.
  insert_row_below : (r : R) (ss : List R) → IsBelow r ss → insert_row r ss ≡ r ∷ ss
  unfolding insert_row
  insert_row_below r [] h = refl
  insert_row_below r (s ∷ ss) h = rw (asym o (key r) (key s) h.0) refl

  keep-insert_row :
      (p : R → Bool) (r : R) (ss : List R)
      → All (λ s. key r ≢ key s) ss
      → IsAscending ss
      → keep p (insert_row r ss) ≡ (if p r then insert_row r (keep p ss) else keep p ss)
  unfolding insert_row
  keep-insert_row p r [] new h = refl
  keep-insert_row p r (s ∷ ss) new h = elim (Bool-cases (o.lt (key s) (key r))) [
    | inl after ↦ rw after (ground (arith, keep-insert_row p r ss new.1 h.1))
    | inr before ↦
        let below : o.lt (key r) (key s) ≡ true = ground (arith, o.connected (key r) (key s)) in
        let rest =
          All-keep (λ t. o.lt (key r) (key t) ≡ true) p ss (IsBelow-trans r s ss below h.0) in
        rw before (ground (arith, insert_row_below r (keep p ss) rest))
  ]

  -- Filtering the ordered rows is ordering the filtered ones.
  pub keep-order_by :
      (p : R → Bool) (rs : List R) → IsDistinct rs → keep p (order_by rs) ≡ order_by (keep p rs)
  unfolding order_by
  keep-order_by p [] h = refl
  keep-order_by p (r ∷ rs) h =
      keep-insert_row p r (order_by rs) (All-order_by (λ s. key r ≢ key s) rs h.0)
        (order_by-IsAscending rs h.1)
      ∙ ground (arith, keep-order_by p rs h.1)

  All-middle {υ} :
      (P : R → Type υ) (front : List R) (r : R) (back : List R) → All P (front ++ r ∷ back) → P r
  All-middle P [] r back ps = ps.0
  All-middle P (s ∷ front) r back ps = All-middle P front r back ps.1

  keep-All : (p : R → Bool) (rs : List R) → All (λ s. p s ≡ true) rs → keep p rs ≡ rs
  keep-All p [] h = refl
  keep-All p (r ∷ rs) h = rw h.0 (ap (◌∷◌ r) (keep-All p rs h.1))

  -- The rows after one of an ascending table are those whose keys are above its own.
  pub keep_above :
      (front : List R) (r : R) (back : List R)
      → IsAscending (front ++ r ∷ back)
      → keep (λ s. o.lt (key r) (key s)) (front ++ r ∷ back) ≡ back
  keep_above [] r back h = rw (o.irrefl (key r)) (keep-All (λ s. o.lt (key r) (key s)) back h.0)
  keep_above (s ∷ front) r back h =
      let below = All-middle (λ t. o.lt (key s) (key t) ≡ true) front r back h.0 in
      rw (asym o (key s) (key r) below) (keep_above front r back h.1)
