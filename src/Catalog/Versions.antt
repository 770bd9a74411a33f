-- ===== src/Catalog/Versions.antt =====
-- One album and its versions: `Album` and `AlbumVersions` of sqlite/libraryread.go, `GetAlbum` and
-- `ListAlbumVersions` of rpc/library.go.
use byom.Prelude.{
  ℕ, ◌≡◌, ◌≢◌, refl, ap, Text, text_eq, text_eq_iff, text_eq_refl, Bool, true, List, [], ◌∷◌, arith,
  inl, inr, ◌⊎◌, map, keep, find, Option, none, some, Bool-cases, Option-cases, Result, ok, err,
  ◌>>=◌, is_empty, if◌then◌else◌, All, false,
}
use byom.Proto.LibraryService.{
  GetAlbumRequest, GetAlbumResponse, ListAlbumVersionsRequest, ListAlbumVersionsResponse,
}
use byom.Paging.{StoreError, not_found}
use byom.Paging.Orders.{StrictOrder, nat_order, pair_order, text_order}
use byom.Paging.Pages.{is_empty_ne}
use byom.Paging.Sorting.{
  order_by, order_by-perm, order_by-IsAscending, IsAscending, keep-IsDistinct, IsDistinct,
}
use byom.Paging.Answers.{IsDistinct-finer}
use byom.Catalog.{StoredAlbum, Code, missing, or_rpc_error, parse_id, album_proto}
use byom.Catalog.Serving.{HasIds}
use mathlib.Core.List.{Mem, mem-cons_self, mem-cons_of_mem, ne-nil_of_mem, Perm}
use mathlib.Core.List.Perm

-- `WHERE id = ?`.
abbrev pub album_by_id : Text → List StoredAlbum → Option StoredAlbum
album_by_id id rows = find (λ (al : StoredAlbum). text_eq al.id id) rows

-- `LibraryStore.Album`.
unfoldable pub album : List StoredAlbum → Text → Result StoreError StoredAlbum
album rows id = elim (album_by_id id rows) [ none ↦ err not_found | some al ↦ ok al ]

-- `ORDER BY primary_version DESC, release_date, id`.
abbrev pub version_order : StrictOrder (ℕ × (Text × Text))
version_order = pair_order nat_order (pair_order text_order text_order)

abbrev pub version_key : StoredAlbum → ℕ × (Text × Text)
version_key al = (if al.primary_version then 0 else 1, (al.release_date, al.id))

abbrev pub in_group : Text → StoredAlbum → Bool
in_group key al = text_eq al.group_key key

-- The rows of the group of an ID; without a row of the ID the key is NULL, and equals none.
unfoldable pub version_group : List StoredAlbum → Text → List StoredAlbum
version_group rows id = elim (album_by_id id rows) [
  | none ↦ []
  | some al ↦ order_by version_order version_key (keep (in_group al.group_key) rows)
]

-- `LibraryStore.AlbumVersions`.
unfoldable pub album_versions : List StoredAlbum → Text → Result StoreError (List StoredAlbum)
unfolding version_group
album_versions rows id =
    let albums = version_group rows id in if is_empty albums then err not_found else ok albums

-- `GetAlbum` and `ListAlbumVersions`.
unfoldable pub get_album : List StoredAlbum → GetAlbumRequest → Result Code GetAlbumResponse
unfolding album
get_album rows req = do
  id ← parse_id req.id
  al ← or_rpc_error (album rows id)
  ok (record { album = some (album_proto al) })

unfoldable pub list_album_versions :
    List StoredAlbum → ListAlbumVersionsRequest → Result Code ListAlbumVersionsResponse
unfolding album_versions
list_album_versions rows req = do
  id ← parse_id req.album_id
  albums ← or_rpc_error (album_versions rows id)
  ok (record { items = map album_proto albums })

module _ {ℓ} {A : Type ℓ} (p : A → Bool) where
  find-holds : (xs : List A) (x : A) → find p xs ≡ some x → p x ≡ true
  find-holds [] x h = absurd (ground arith)
  find-holds (y ∷ ys) x h = elim (Bool-cases (p y)) [
    | inl yes' ↦ let same : y ≡ x = ground arith in rw⁻¹ same yes'
    | inr no' ↦ find-holds ys x (ground arith)
  ]

  find-none : (xs : List A) → find p xs ≡ none → All (λ x. p x ≡ false) xs
  find-none [] h = tt
  find-none (y ∷ ys) h = elim (Bool-cases (p y)) [
    | inl yes' ↦ absurd (ground arith)
    | inr no' ↦ (no', find-none ys (ground arith))
  ]

  -- What is found stays under a test that it passes.
  find-keep :
      (q : A → Bool) (xs : List A) (x : A) → find p xs ≡ some x → q x ≡ true → Mem x (keep q xs)
  find-keep q [] x h k = absurd (ground arith)
  find-keep q (y ∷ ys) x h k = elim (Bool-cases (p y)) [
    | inl yes' ↦ let same : y ≡ x = ground arith in rw same (rw k mem-cons_self)
    | inr no' ↦
        let rest = find-keep q ys x (ground arith) k in
        elim (Bool-cases (q y)) [
          | inl kept ↦ rw kept (mem-cons_of_mem y rest)
          | inr gone ↦ rw gone rest
        ]
  ]

-- The ID is part of the key of a version.
HasIds-version_key :
    (rows : List StoredAlbum) → HasIds rows → IsDistinct version_order version_key rows
HasIds-version_key =
    IsDistinct-finer text_order version_order (λ (al : StoredAlbum). al.id) version_key
      (λ r s same. ap (λ k. k.1.1) same)

-- No row has the ID.
abbrev pub LacksId : Text → List StoredAlbum → Type 0
LacksId id rows = All (λ (al : StoredAlbum). al.id ≢ id) rows

tests-LacksId :
    (id : Text) (rows : List StoredAlbum)
    → All (λ (al : StoredAlbum). text_eq al.id id ≡ false) rows
    → LacksId id rows
tests-LacksId id [] h = tt
tests-LacksId id (al ∷ rows) h =
    (λ same. grind (arith, h.0, (text_eq_iff al.id id).1 same), tests-LacksId id rows h.1)

module _ (rows : List StoredAlbum) (id : Text) where
  album_by_id-LacksId : album_by_id id rows ≡ none → LacksId id rows
  album_by_id-LacksId nothing =
      tests-LacksId id rows (find-none (λ (al : StoredAlbum). text_eq al.id id) rows nothing)

  album-none : album_by_id id rows ≡ none → album rows id ≡ err not_found
  unfolding album
  album-none nothing = rw (album, nothing) refl

  album_versions-none : album_by_id id rows ≡ none → album_versions rows id ≡ err not_found
  unfolding album_versions version_group
  album_versions-none nothing = rw (album_versions, version_group, nothing) refl

  module _ (al : StoredAlbum) (found : album_by_id id rows ≡ some al) where
    album-some : album rows id ≡ ok al
    unfolding album
    album-some = rw (found, album) refl

    -- The versions of an album, in their order.
    versions_of : List StoredAlbum
    versions_of = order_by version_order version_key (keep (in_group al.group_key) rows)

    versions_of-perm : Perm versions_of (keep (in_group al.group_key) rows)
    unfolding versions_of
    versions_of-perm = order_by-perm version_order version_key (keep (in_group al.group_key) rows)

    versions_of-Mem : Mem al versions_of
    versions_of-Mem = (Perm.mem_iff versions_of-perm).1 (
        find-keep (λ (al' : StoredAlbum). text_eq al'.id id) (in_group al.group_key) rows al found
          (text_eq_refl al.group_key))

    version_group-some : version_group rows id ≡ versions_of
    unfolding version_group versions_of
    version_group-some = rw (version_group, found) refl

    album_versions-some : album_versions rows id ≡ ok versions_of
    unfolding album_versions
    album_versions-some =
        rw (version_group-some, is_empty_ne versions_of (ne-nil_of_mem versions_of-Mem)) refl

    versions_of-IsAscending : HasIds rows → IsAscending version_order version_key versions_of
    unfolding versions_of
    versions_of-IsAscending ids =
        order_by-IsAscending version_order version_key (keep (in_group al.group_key) rows) (
          keep-IsDistinct version_order version_key (in_group al.group_key) rows
            (HasIds-version_key rows ids))

-- For an ID that is not empty, of a table in which no two albums have one ID, either the server has
-- no album of the ID, and refuses both the album and its versions as not found, or it answers the
-- album, and for the versions all the albums of its group and no others, the album among them, in
-- strictly ascending order: the primary one first, then by release date and ID.
pub list_album_versions-get_album :
    (rows : List StoredAlbum) (id : Text)
    → HasIds rows
    → id ≢ []
    → let one = get_album rows (record { id = id }) in
      let all' = list_album_versions rows (record { album_id = id }) in
      (LacksId id rows × (one ≡ err missing) × (all' ≡ err missing))
      ⊎ ((al : StoredAlbum) × (versions : List StoredAlbum) × (one
            ≡ ok (record { album = some (album_proto al) }))
          × (all' ≡ ok (record { items = map album_proto versions }))
          × (al.id ≡ id)
          × Mem al versions
          × Perm versions (keep (in_group al.group_key) rows)
          × IsAscending version_order version_key versions)
unfolding get_album list_album_versions
list_album_versions-get_album rows [] ids given = absurd (given refl)
list_album_versions-get_album rows (c ∷ cs) ids given =
    let id = c ∷ cs in
    elim (Option-cases (album_by_id id rows)) [
      | inl nothing ↦ inl (
        album_by_id-LacksId rows id nothing,
        rw (album-none rows id nothing) refl,
        rw (album_versions-none rows id nothing) refl,
      )
      | inr (al, found) ↦ inr (
        al,
        versions_of rows id al found,
        rw (album-some rows id al found) refl,
        rw (album_versions-some rows id al found) refl,
        (text_eq_iff al.id id).0
            (find-holds (λ (al' : StoredAlbum). text_eq al'.id id) rows al found),
        versions_of-Mem rows id al found,
        versions_of-perm rows id al found,
        versions_of-IsAscending rows id al found ids,
      )
    ]
