-- ===== src/Import/Counts.antt =====
-- Counting the rows of a group, and what an import of sqlite/library.go is to keep of them.
use byom.Prelude.{
  ℕ, suc, ◌≤◌, ◌<◌, ◌≡◌, refl, Text, text_eq, Bool, true, false, not, ◌&&◌, List, [], ◌∷◌, keep,
  All, arith, Bool-cases, inl, inr, if◌then◌else◌,
}
use byom.Import.{AlbumRow, of_group, is_primary, any}

abbrev pub count_of {ℓ} : {A : Type ℓ} → (A → Bool) → List A → ℕ
count_of p [] = 0
count_of p (x ∷ xs) = if p x then suc (count_of p xs) else count_of p xs

abbrev pub members : Text → List AlbumRow → ℕ
members key = count_of (of_group key)

abbrev pub primaries : Text → List AlbumRow → ℕ
primaries key = count_of (is_primary key)

-- A group is led when one of its albums is primary; a group without albums has none that is.
abbrev pub IsLed : Text → List AlbumRow → Type 0
IsLed key rows = primaries key rows ≡ (if any (of_group key) rows then 1 else 0)

-- The table's PRIMARY KEY.
abbrev pub HaveIds : List AlbumRow → Type 0
HaveIds [] = Unit
HaveIds (row ∷ rows) =
    All (λ (other : AlbumRow). text_eq other.album.id row.album.id ≡ false) rows × HaveIds rows

module _ {ℓ} {A : Type ℓ} where
  pub any-count_of : (p : A → Bool) (xs : List A) → any p xs ≡ false → count_of p xs ≡ 0
  any-count_of p [] h = refl
  any-count_of p (x ∷ xs) h = ground (arith, any-count_of p xs)

  pub count_of-any : (p : A → Bool) (xs : List A) → any p xs ≡ true → 0 < count_of p xs
  count_of-any p [] h = absurd (ground arith)
  count_of-any p (x ∷ xs) h = ground (arith, count_of-any p xs)

  -- What is kept are no more, and all where nothing goes.
  pub count_of-keep : (p q : A → Bool) (xs : List A) → count_of p (keep q xs) ≤ count_of p xs
  count_of-keep p q [] = omega arith
  count_of-keep p q (x ∷ xs) = ground (arith, count_of-keep p q xs)

  pub count_of-keep_all :
      (p q : A → Bool) (xs : List A)
      → any (λ x. p x && not (q x)) xs ≡ false
      → count_of p (keep q xs) ≡ count_of p xs
  count_of-keep_all p q [] h = refl
  count_of-keep_all p q (x ∷ xs) h = ground (arith, count_of-keep_all p q xs)

  pub any-keep : (p q : A → Bool) (xs : List A) → any p xs ≡ false → any p (keep q xs) ≡ false
  any-keep p q [] h = refl
  any-keep p q (x ∷ xs) h = ground (arith, any-keep p q xs)

  pub any-keep_some : (p q : A → Bool) (xs : List A) → any p (keep q xs) ≡ true → any p xs ≡ true
  any-keep_some p q xs h = elim (Bool-cases (any p xs)) [
    | inl some' ↦ some'
    | inr none' ↦ absurd (ground (arith, any-keep p q xs none'))
  ]

-- A primary album is one of its group.
pub primary-member :
    (key : Text) (rows : List AlbumRow)
    → any (is_primary key) rows ≡ true
    → any (of_group key) rows ≡ true
primary-member key [] h = absurd (ground arith)
primary-member key (row ∷ rows) h = ground (arith, primary-member key rows)
