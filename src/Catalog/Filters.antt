-- ===== src/Catalog/Filters.antt =====
-- The types that a request for albums filters by: `albumTypeFilter` of rpc/convert.go.
use byom.Prelude.{
  ◌≡◌, refl, ap, ◌∙◌, sym, Bool, true, false, ◌||◌, List, [], ◌∷◌, arith, Bool-cases, inl, inr,
  keep, leb, ltb, ◌==◌, ok, err, ◌&&◌, ◌⊎◌, if◌then◌else◌,
}
use byom.Proto.Library.{AlbumType}
use byom.Catalog.{
  LibraryAlbumType, rank, insert_type, sort_types, compact_types, convert_types, album_type_filter,
  contains_type, type_by_proto, invalid_argument,
}

-- All the types, in the order of their strings.
abbrev pub all_types : List LibraryAlbumType
all_types =
    LibraryAlbumType.unknown ∷ LibraryAlbumType.ep ∷ LibraryAlbumType.main ∷ LibraryAlbumType.other
    ∷ LibraryAlbumType.single ∷ []

abbrev those : (LibraryAlbumType → Bool) → List LibraryAlbumType
those p = keep p all_types

those_cong :
    (p q : LibraryAlbumType → Bool) → ((t : LibraryAlbumType) → p t ≡ q t) → those p ≡ those q
those_cong p q h =
    rw
      (
        h LibraryAlbumType.unknown,
        h LibraryAlbumType.ep,
        h LibraryAlbumType.main,
        h LibraryAlbumType.other,
        h LibraryAlbumType.single,
      )
      refl

-- A type that goes before all of them.
those_cons :
    (t : LibraryAlbumType) (p : LibraryAlbumType → Bool)
    → ((u : LibraryAlbumType) → leb (rank u) (rank t) ≡ true → p u ≡ false)
    → those (λ u. rank t == rank u || p u) ≡ t ∷ those p
those_cons t p h = grind (
  arith,
  h LibraryAlbumType.unknown,
  h LibraryAlbumType.ep,
  h LibraryAlbumType.main,
  h LibraryAlbumType.other,
  h LibraryAlbumType.single,
)

abbrev IsSorted : List LibraryAlbumType → Type 0
IsSorted [] = Unit
IsSorted (t ∷ []) = Unit
IsSorted (t ∷ u ∷ ts) = (leb (rank t) (rank u) ≡ true) × IsSorted (u ∷ ts)

insert_type-IsSorted :
    (t : LibraryAlbumType) (ts : List LibraryAlbumType) → IsSorted ts → IsSorted (insert_type t ts)
unfolding insert_type
insert_type-IsSorted t [] h = tt
insert_type-IsSorted t (u ∷ []) h = elim (Bool-cases (ltb (rank u) (rank t))) [
  | inl after ↦ rw after (ground arith, tt)
  | inr before ↦ rw before (ground arith, tt)
]
insert_type-IsSorted t (u ∷ v ∷ ts) h =
    let rest = insert_type-IsSorted t (v ∷ ts) h.1 in
    elim (Bool-cases (ltb (rank u) (rank t))) [
      | inl after ↦ elim (Bool-cases (ltb (rank v) (rank t))) [
        | inl later ↦ rw after (rw later (h.0, rw later at rest))
        | inr between ↦ rw after (rw between (ground arith, rw between at rest))
      ]
      | inr before ↦ rw before (ground arith, h)
    ]

contains_type-insert_type :
    (x t : LibraryAlbumType) (ts : List LibraryAlbumType)
    → contains_type x (insert_type t ts) ≡ (rank t == rank x || contains_type x ts)
unfolding contains_type insert_type
contains_type-insert_type x t [] = refl
contains_type-insert_type x t (u ∷ ts) = ground (arith, contains_type-insert_type x t ts)

contains_type-sort_types :
    (x : LibraryAlbumType) (ts : List LibraryAlbumType)
    → contains_type x (sort_types ts) ≡ contains_type x ts
unfolding contains_type sort_types
contains_type-sort_types x [] = refl
contains_type-sort_types x (t ∷ ts) =
    contains_type-insert_type x t (sort_types ts)
    ∙ ap (λ b. rank t == rank x || b) (contains_type-sort_types x ts)

-- Nothing before the first of a sorted list is in it.
below_first :
    (x t : LibraryAlbumType) (ts : List LibraryAlbumType)
    → IsSorted (t ∷ ts)
    → ltb (rank x) (rank t) ≡ true
    → contains_type x (t ∷ ts) ≡ false
unfolding contains_type
below_first x t [] h k = ground arith
below_first x t (u ∷ ts) h k = ground (arith, below_first x u ts h.1)

compact_types-those :
    (ts : List LibraryAlbumType) → IsSorted ts → compact_types ts ≡ those (λ x. contains_type x ts)
unfolding compact_types contains_type
compact_types-those [] h = refl
compact_types-those (t ∷ []) h = sym (those_cons t (λ u. false) (λ u k. refl))
compact_types-those (t ∷ u ∷ ts) h =
    let rest = compact_types-those (u ∷ ts) h.1 in
    elim (Bool-cases (rank t == rank u)) [
      | inl same ↦ rw same (
          rest
          ∙ those_cong (λ x. contains_type x (u ∷ ts))
              (λ x. rank t == rank x || contains_type x (u ∷ ts)) (λ x. ground arith))
      | inr other' ↦ rw other' (
          ap (◌∷◌ t) rest
          ∙ sym (
              those_cons t (λ x. contains_type x (u ∷ ts))
                (λ x k. below_first x u ts h.1 (ground arith))))
    ]

sort_types-IsSorted : (ts : List LibraryAlbumType) → IsSorted (sort_types ts)
unfolding sort_types
sort_types-IsSorted [] = tt
sort_types-IsSorted (t ∷ ts) = insert_type-IsSorted t (sort_types ts) (sort_types-IsSorted ts)

-- A type that the enum of the messages names.
abbrev pub is_named : AlbumType → Bool
is_named AlbumType.unspecified = true
is_named AlbumType.main = true
is_named AlbumType.single = true
is_named AlbumType.ep = true
is_named AlbumType.other = true
is_named (AlbumType.unrecognized n) = false

abbrev pub all_named : List AlbumType → Bool
all_named [] = true
all_named (t ∷ ts) = is_named t && all_named ts

-- Whether a request for a type of the messages asks for a stored type.
abbrev pub asks : AlbumType → LibraryAlbumType → Bool
asks AlbumType.unspecified LibraryAlbumType.unknown = true
asks AlbumType.main LibraryAlbumType.main = true
asks AlbumType.single LibraryAlbumType.single = true
asks AlbumType.ep LibraryAlbumType.ep = true
asks AlbumType.other LibraryAlbumType.other = true
asks _ _ = false

abbrev pub asked_in : List AlbumType → LibraryAlbumType → Bool
asked_in [] u = false
asked_in (t ∷ ts) u = asks t u || asked_in ts u

type_by_proto-asks :
    (t : AlbumType)
    → ((is_named t ≡ false) × (type_by_proto t ≡ err invalid_argument))
      ⊎ ((is_named t ≡ true)
          × (u : LibraryAlbumType) × (type_by_proto t ≡ ok u)
          × ((x : LibraryAlbumType) → (rank u == rank x) ≡ asks t x))
unfolding type_by_proto
type_by_proto-asks AlbumType.unspecified =
    inr (refl, LibraryAlbumType.unknown, refl, λ x. ground arith)
type_by_proto-asks AlbumType.main = inr (refl, LibraryAlbumType.main, refl, λ x. ground arith)
type_by_proto-asks AlbumType.single = inr (refl, LibraryAlbumType.single, refl, λ x. ground arith)
type_by_proto-asks AlbumType.ep = inr (refl, LibraryAlbumType.ep, refl, λ x. ground arith)
type_by_proto-asks AlbumType.other = inr (refl, LibraryAlbumType.other, refl, λ x. ground arith)
type_by_proto-asks (AlbumType.unrecognized n) = inl (refl, refl)

convert_types-asked_in :
    (ts : List AlbumType)
    → ((all_named ts ≡ false) × (convert_types ts ≡ err invalid_argument))
      ⊎ ((all_named ts ≡ true)
          × (us : List LibraryAlbumType) × (convert_types ts ≡ ok us)
          × ((x : LibraryAlbumType) → contains_type x us ≡ asked_in ts x))
unfolding convert_types contains_type
convert_types-asked_in [] = inr (refl, [], refl, λ x. refl)
convert_types-asked_in (t ∷ ts) = elim (type_by_proto-asks t) [
  | inl (bad, refused) ↦ inl (rw bad refl, rw refused refl)
  | inr (good, u, taken, asked) ↦ elim (convert_types-asked_in ts) [
    | inl (bad, refused) ↦ inl (rw (good, bad) refl, rw (taken, refused) refl)
    | inr (good', us, taken', asked') ↦
        inr
          (rw (good, good') refl, u ∷ us, rw (taken, taken') refl, λ x. rw (asked x, asked' x) refl)
  ]
]

-- For any requested types, the filter is refused as an invalid argument exactly if the enum does not
-- name one of them, and otherwise it is the types that are asked for, picked out of all of them: each
-- once, in the order of their strings, however often and in whatever order they are requested.
pub album_type_filter-those :
    (ts : List AlbumType)
    → album_type_filter ts
      ≡ (if all_named ts then ok (keep (asked_in ts) all_types) else err invalid_argument)
unfolding album_type_filter
album_type_filter-those ts = elim (convert_types-asked_in ts) [
  | inl (bad, refused) ↦ rw (bad, refused) refl
  | inr (good, us, taken, asked) ↦
      rw (good, taken)
        (ap ok (
          compact_types-those (sort_types us) (sort_types-IsSorted us)
          ∙ those_cong (λ t. contains_type t (sort_types us)) (asked_in ts)
              (λ t. contains_type-sort_types t us ∙ asked t)))
]
