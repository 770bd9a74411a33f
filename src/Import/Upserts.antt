-- ===== src/Import/Upserts.antt =====
-- `upsertAlbum` of sqlite/library.go keeps every group led and gives no ID twice.
use byom.Prelude.{
  ℕ, suc, ◌≡◌, refl, ap, ◌∙◌, Text, text_eq, text_eq→eq, text_eq_refl, Bool, true, false, not, List,
  [], ◌∷◌, All, arith, Bool-cases, inl, inr, if◌then◌else◌,
}
use byom.Storage.Tables.{text_eq_sym}
use byom.Catalog.{StoredAlbum}
use byom.Import.{
  AlbumRow, of_group, is_primary, any, is_stored, put_album, upsert_album, upsert_albums,
}
use byom.Import.Counts.{primaries, IsLed, HaveIds, any-count_of, primary-member}

flip : (n : ℕ) (b : Bool) → (if not b then suc n else n) ≡ (if b then n else suc n)
flip n true = refl
flip n false = refl

stored-member :
    (dir : ℕ) (al : StoredAlbum) (rows : List AlbumRow)
    → any (is_stored dir al) rows ≡ true
    → any (of_group al.group_key) rows ≡ true
stored-member dir al [] h = absurd (ground arith)
stored-member dir al (row ∷ rows) h = ground (arith, stored-member dir al rows)

-- The imported albums come with new IDs.
abbrev pub AreNew : List StoredAlbum → List AlbumRow → Type 0
AreNew [] rows = Unit
AreNew (al ∷ als) rows =
    All (λ (row : AlbumRow). text_eq row.album.id al.id ≡ false) rows
    × All (λ (other : StoredAlbum). text_eq al.id other.id ≡ false) als
    × AreNew als rows

module _ (sort_name : Text → Text) where
  -- The groups of other keys stay as they are.
  put_album-other :
      (dir : ℕ) (b : Bool) (al : StoredAlbum) (rows : List AlbumRow) (key : Text)
      → text_eq al.group_key key ≡ false
      → (any (of_group key) (put_album sort_name dir b al rows) ≡ any (of_group key) rows)
        × (primaries key (put_album sort_name dir b al rows) ≡ primaries key rows)
  unfolding put_album
  put_album-other dir b al [] key ne = rw ne (refl, refl)
  put_album-other dir b al (row ∷ rows) key ne =
      let (same, same') = put_album-other dir b al rows key ne in
      elim (Bool-cases (is_stored dir al row)) [
        | inl here ↦ rw here (refl, refl)
        | inr there ↦ rw there (rw (same, same') (refl, refl))
      ]

  -- In its own group the album is an update or one more row.
  put_album-own :
      (dir : ℕ) (b : Bool) (al : StoredAlbum) (rows : List AlbumRow)
      → (any (of_group al.group_key) (put_album sort_name dir b al rows) ≡ true)
        × (primaries al.group_key (put_album sort_name dir b al rows) ≡ (
            if any (is_stored dir al) rows
            then primaries al.group_key rows
            else if b
            then primaries al.group_key rows
            else suc (primaries al.group_key rows)))
  unfolding put_album
  put_album-own dir b al [] = rw (text_eq_refl al.group_key) (refl, flip 0 b)
  put_album-own dir b al (row ∷ rows) =
      let (found, counted) = put_album-own dir b al rows in
      elim (Bool-cases (is_stored dir al row)) [
        | inl here ↦
            let own : text_eq row.album.group_key al.group_key ≡ true = ground arith in
            rw (here, own) (refl, refl)
        | inr there ↦ rw there (rw (found, counted) (ground arith))
      ]

  pub upsert_album-IsLed :
      (dir : ℕ) (al : StoredAlbum) (rows : List AlbumRow) (key : Text)
      → IsLed key rows
      → IsLed key (upsert_album sort_name dir al rows)
  unfolding upsert_album
  upsert_album-IsLed dir al rows key h = elim (Bool-cases (text_eq al.group_key key)) [
    | inl same ↦
        rw (← text_eq→eq al.group_key key same) (own (rw (text_eq→eq al.group_key key same) h))
    | inr other ↦
        let b = any (is_primary al.group_key) rows in
        let (found, counted) = put_album-other dir b al rows key other in rw (found, counted) h
  ]
    where
      own :
          IsLed al.group_key rows
          → IsLed al.group_key
              (put_album sort_name dir (any (is_primary al.group_key) rows) al rows)
      own led =
          let b = any (is_primary al.group_key) rows in
          let (found, counted) = put_album-own dir b al rows in
          rw (found, counted)
            (elim (Bool-cases (any (is_stored dir al) rows)) [
              | inl stored ↦ rw stored (led ∙ rw (stored-member dir al rows stored) refl)
              | inr new ↦ rw new (elim (Bool-cases b) [
                | inl has ↦ rw has (led ∙ rw (primary-member al.group_key rows has) refl)
                | inr none' ↦ rw none' (ap suc (any-count_of (is_primary al.group_key) rows none'))
              ])
            ])

  put_album-ids :
      (dir : ℕ) (b : Bool) (al : StoredAlbum) (rows : List AlbumRow) (id : Text)
      → text_eq al.id id ≡ false
      → All (λ (row : AlbumRow). text_eq row.album.id id ≡ false) rows
      → All
          (λ (row : AlbumRow). text_eq row.album.id id ≡ false)
          (put_album sort_name dir b al rows)
  unfolding put_album
  put_album-ids dir b al [] id ne h = (ne, tt)
  put_album-ids dir b al (row ∷ rows) id ne h = elim (Bool-cases (is_stored dir al row)) [
    | inl here ↦ rw here h
    | inr there ↦ rw there (h.0, put_album-ids dir b al rows id ne h.1)
  ]

  put_album-HaveIds :
      (dir : ℕ) (b : Bool) (al : StoredAlbum) (rows : List AlbumRow)
      → All (λ (row : AlbumRow). text_eq row.album.id al.id ≡ false) rows
      → HaveIds rows
      → HaveIds (put_album sort_name dir b al rows)
  unfolding put_album
  put_album-HaveIds dir b al [] new h = (tt, tt)
  put_album-HaveIds dir b al (row ∷ rows) new h = elim (Bool-cases (is_stored dir al row)) [
    | inl here ↦ rw here h
    | inr there ↦ rw there (
      put_album-ids dir b al rows row.album.id (rw (text_eq_sym al.id row.album.id) new.0) h.0,
      put_album-HaveIds dir b al rows new.1 h.1,
    )
  ]

  put_album-AreNew :
      (dir : ℕ) (b : Bool) (al : StoredAlbum) (als : List StoredAlbum) (rows : List AlbumRow)
      → All (λ (other : StoredAlbum). text_eq al.id other.id ≡ false) als
      → AreNew als rows
      → AreNew als (put_album sort_name dir b al rows)
  put_album-AreNew dir b al [] rows apart h = tt
  put_album-AreNew dir b al (other ∷ als) rows apart h = (
    put_album-ids dir b al rows other.id apart.0 h.0,
    h.1,
    put_album-AreNew dir b al als rows apart.1 h.2,
  )

  -- The whole loop.
  pub upsert_albums_sound :
      (dir : ℕ) (als : List StoredAlbum) (rows : List AlbumRow)
      → AreNew als rows
      → HaveIds rows
      → ((key : Text) → IsLed key rows)
      → HaveIds (upsert_albums sort_name dir als rows).1
        × ((key : Text) → IsLed key (upsert_albums sort_name dir als rows).1)
  unfolding upsert_albums upsert_album
  upsert_albums_sound dir [] rows new ids led = (ids, led)
  upsert_albums_sound dir (al ∷ als) rows new ids led =
      let b = any (is_primary al.group_key) rows in
      upsert_albums_sound dir als (put_album sort_name dir b al rows)
        (put_album-AreNew dir b al als rows new.1 new.2) (put_album-HaveIds dir b al rows new.0 ids)
        (λ key. upsert_album-IsLed dir al rows key (led key))
