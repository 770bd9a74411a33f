-- ===== src/Import/Promotions.antt =====
-- `promoteOrphanedPrimaries` of sqlite/library.go: a group that lost its primary album has a new one.
use byom.Prelude.{
  suc, ◌≡◌, refl, ap, ◌∙◌, Text, text_eq, text_eq→eq, text_eq_refl, Bool, true, false, ◌&&◌, List,
  [], ◌∷◌, map, All, arith, Bool-cases, Option, none, some, inl, inr,
}
use byom.Paging.Orders.{text_order}
use byom.Import.{
  AlbumRow, of_group, is_primary, any, least, min_id, make_primary, promote_id, promote,
}
use byom.Import.Counts.{primaries, IsLed, HaveIds, any-count_of, count_of-any, primary-member}
use byom.Import.Deletions.{IsSingle}

-- A row of the group with the ID.
abbrev is_least : Text → Text → AlbumRow → Bool
is_least key id row = of_group key row && text_eq row.album.id id

min_id-found :
    (key : Text) (rows : List AlbumRow) (id : Text)
    → min_id key rows ≡ some id
    → any (is_least key id) rows ≡ true
unfolding min_id
min_id-found key [] id h = absurd (ground arith)
min_id-found key (row ∷ rows) id h = elim (Bool-cases (of_group key row)) [
  | inl member ↦ go (min_id key rows) refl (min_id-found key rows) member (rw member at h)
  | inr away ↦ rw away (min_id-found key rows id (rw away at h))
]
  where
    go :
        (o : Option Text)
        → min_id key rows ≡ o
        → ((x : Text) → min_id key rows ≡ some x → any (is_least key x) rows ≡ true)
        → of_group key row ≡ true
        → Path (Option Text) (some (least row.album.id (min_id key rows))) (some id)
        → any (is_least key id) (row ∷ rows) ≡ true
    go none e below member k =
        let at : row.album.id ≡ id = grind (arith, e) in
        rw (← at, member, text_eq_refl row.album.id) refl
    go (some x) e below member k = elim (Bool-cases (text_order.lt x row.album.id)) [
      | inl less ↦
          let at : x ≡ id = grind (arith, e) in
          let found : any (is_least key id) rows ≡ true = below id (e ∙ ap some at) in ground arith
      | inr more ↦
          let at : row.album.id ≡ id = grind (arith, e) in
          rw (← at, member, text_eq_refl row.album.id) refl
    ]

min_id-some :
    (key : Text) (rows : List AlbumRow)
    → any (of_group key) rows ≡ true
    → (id : Text) × (min_id key rows ≡ some id)
unfolding min_id
min_id-some key [] h = absurd (ground arith)
min_id-some key (row ∷ rows) h = elim (Bool-cases (of_group key row)) [
  | inl member ↦ (least row.album.id (min_id key rows), rw member refl)
  | inr away ↦ let (id, at) = min_id-some key rows (ground arith) in (id, rw away at)
]

min_id-none :
    (key : Text) (rows : List AlbumRow) → any (of_group key) rows ≡ false → min_id key rows ≡ none
unfolding min_id
min_id-none key [] h = refl
min_id-none key (row ∷ rows) h = ground (arith, min_id-none key rows)

-- Rows with other IDs stay as they are.
make_primary-apart :
    (id : Text) (rows : List AlbumRow)
    → All (λ (row : AlbumRow). text_eq row.album.id id ≡ false) rows
    → map (make_primary id) rows ≡ rows
make_primary-apart id [] h = refl
make_primary-apart id (row ∷ rows) h = rw h.0 (ap (◌∷◌ row) (make_primary-apart id rows h.1))

any-apart :
    (key id : Text) (rows : List AlbumRow)
    → All (λ (row : AlbumRow). text_eq row.album.id id ≡ false) rows
    → any (is_least key id) rows ≡ false
any-apart key id [] h = refl
any-apart key id (row ∷ rows) h = ground (arith, any-apart key id rows h.1)

-- The one row of the ID is of the group, so that the group has one primary row, and others none more.
make_primary-own :
    (key id : Text) (rows : List AlbumRow)
    → HaveIds rows
    → any (is_least key id) rows ≡ true
    → any (is_primary key) rows ≡ false
    → primaries key (map (make_primary id) rows) ≡ 1
make_primary-own key id [] ids h none' = absurd (ground arith)
make_primary-own key id (row ∷ rows) ids h none' = elim (Bool-cases (text_eq row.album.id id)) [
  | inl here ↦
      let apart : All (λ (other : AlbumRow). text_eq other.album.id id ≡ false) rows =
        rw (← text_eq→eq row.album.id id here) ids.0 in
      let member : of_group key row ≡ true = grind (arith, any-apart key id rows apart) in
      rw (here, member, make_primary-apart id rows apart)
        (ap suc (any-count_of (is_primary key) rows (ground arith)))
  | inr there ↦
      let rest = make_primary-own key id rows ids.1 (ground arith) (ground arith) in
      let plain : is_primary key row ≡ false = ground arith in rw (there, plain) rest
]

make_primary-other :
    (key other id : Text) (rows : List AlbumRow)
    → text_eq key other ≡ false
    → HaveIds rows
    → any (is_least key id) rows ≡ true
    → primaries other (map (make_primary id) rows) ≡ primaries other rows
make_primary-other key other id [] ne ids h = refl
make_primary-other key other id (row ∷ rows) ne ids h =
    elim (Bool-cases (text_eq row.album.id id)) [
      | inl here ↦
          let apart : All (λ (other : AlbumRow). text_eq other.album.id id ≡ false) rows =
            rw (← text_eq→eq row.album.id id here) ids.0 in
          let member : of_group key row ≡ true = grind (arith, any-apart key id rows apart) in
          let away : of_group other row ≡ false =
            rw (text_eq→eq row.album.group_key key member) ne in
          rw (here, away, make_primary-apart id rows apart) refl
      | inr there ↦
          let rest = make_primary-other key other id rows ne ids.1 (ground arith) in
          rw there (rw rest refl)
    ]

make_primary-keeps :
    (id : Text) (row : AlbumRow)
    → ((make_primary id row).album.id ≡ row.album.id)
      × ((make_primary id row).album.group_key ≡ row.album.group_key)
make_primary-keeps id row = elim (Bool-cases (text_eq row.album.id id)) [
  | inl here ↦ rw here (refl, refl)
  | inr there ↦ rw there (refl, refl)
]

map-members :
    (key id : Text) (rows : List AlbumRow)
    → any (of_group key) (map (make_primary id) rows) ≡ any (of_group key) rows
map-members key id [] = refl
map-members key id (row ∷ rows) = rw ((make_primary-keeps id row).1, map-members key id rows) refl

map-HaveIds :
    (id : Text) (rows : List AlbumRow) → HaveIds rows → HaveIds (map (make_primary id) rows)
map-HaveIds id [] h = tt
map-HaveIds id (row ∷ rows) h =
    (rw ((make_primary-keeps id row).0) (others rows h.0), map-HaveIds id rows h.1)
  where
    others :
        (rest : List AlbumRow)
        → All (λ (other : AlbumRow). text_eq other.album.id row.album.id ≡ false) rest
        → All
            (λ (other : AlbumRow). text_eq other.album.id row.album.id ≡ false)
            (map (make_primary id) rest)
    others [] k = tt
    others (r ∷ rest) k = (rw ((make_primary-keeps id r).0) k.0, others rest k.1)

-- A promotion gives a group of which no two albums are primary its one primary album, and changes no
-- other group.
pub promote-HaveIds :
    (key : Text) (rows : List AlbumRow) → HaveIds rows → HaveIds (promote key rows)
unfolding promote
promote-HaveIds key rows h = elim (Bool-cases (any (is_primary key) rows)) [
  | inl has ↦ rw has h
  | inr none' ↦ rw none' (go (min_id key rows))
]
  where
    go : (o : Option Text) → HaveIds (promote_id o rows)
    go none = h
    go (some id) = map-HaveIds id rows h

pub promote-own :
    (key : Text) (rows : List AlbumRow)
    → HaveIds rows
    → IsSingle key rows
    → IsLed key (promote key rows)
unfolding promote
promote-own key rows ids single = elim (Bool-cases (any (is_primary key) rows)) [
  | inl has ↦
      let some' = count_of-any (is_primary key) rows has in
      rw (has, primary-member key rows has) (omega arith)
  | inr none' ↦ elim (Bool-cases (any (of_group key) rows)) [
    | inl member ↦
        let (id, at) = min_id-some key rows member in
        rw (none', at, map-members key id rows, member)
          (make_primary-own key id rows ids (min_id-found key rows id at) none')
    | inr away ↦
        rw (none', min_id-none key rows away, away) (any-count_of (is_primary key) rows none')
  ]
]

pub promote-other :
    (key other : Text) (rows : List AlbumRow)
    → text_eq key other ≡ false
    → HaveIds rows
    → (primaries other (promote key rows) ≡ primaries other rows)
      × (any (of_group other) (promote key rows) ≡ any (of_group other) rows)
unfolding promote
promote-other key other rows ne ids = elim (Bool-cases (any (is_primary key) rows)) [
  | inl has ↦ rw has (refl, refl)
  | inr none' ↦ rw none' (go (min_id key rows) refl)
]
  where
    go :
        (o : Option Text)
        → min_id key rows ≡ o
        → (primaries other (promote_id o rows) ≡ primaries other rows)
          × (any (of_group other) (promote_id o rows) ≡ any (of_group other) rows)
    go none e = (refl, refl)
    go (some id) e = (
      make_primary-other key other id rows ne ids (min_id-found key rows id e),
      map-members other id rows,
    )
