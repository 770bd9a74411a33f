-- ===== src/Import/Primaries.antt =====
-- After any import of sqlite/library.go each group of albums has exactly one primary album.
use byom.Prelude.{
  ℕ, ◌≡◌, Text, text_eq, text_eq→eq, true, List, [], ◌∷◌, arith, Bool-cases, inl, inr, ◌⊎◌,
}
use byom.Storage.Tables.{text_eq_sym}
use byom.Catalog.{StoredAlbum}
use byom.Import.{
  AlbumRow, elem_text, upsert_albums, dir_primary_groups, delete_stale, promote,
  promote_orphaned_primaries, replace_dir_albums,
}
use byom.Import.Counts.{IsLed, HaveIds}
use byom.Import.Upserts.{AreNew, upsert_albums_sound}
use byom.Import.Deletions.{IsSingle, keep-HaveIds, delete_stale-IsLed, delete_stale-IsSingle}
use byom.Import.Promotions.{promote-HaveIds, promote-own, promote-other}

led-IsSingle : (key : Text) (rows : List AlbumRow) → IsLed key rows → IsSingle key rows
led-IsSingle key rows h = ground arith

-- One promotion leaves each group as led or single as it was, and its own led.
promote-IsSingle :
    (key other : Text) (rows : List AlbumRow)
    → HaveIds rows
    → ((k : Text) → IsSingle k rows)
    → IsSingle other (promote key rows)
promote-IsSingle key other rows ids single = elim (Bool-cases (text_eq key other)) [
  | inl same ↦
      rw (← text_eq→eq key other same)
        (led-IsSingle key (promote key rows) (promote-own key rows ids (single key)))
  | inr apart ↦ rw (promote-other key other rows apart ids).0 (single other)
]

promote-IsLed :
    (key other : Text) (rows : List AlbumRow)
    → HaveIds rows
    → ((k : Text) → IsSingle k rows)
    → (text_eq key other ≡ true) ⊎ IsLed other rows
    → IsLed other (promote key rows)
promote-IsLed key other rows ids single h = elim (Bool-cases (text_eq key other)) [
  | inl same ↦ rw (← text_eq→eq key other same) (promote-own key rows ids (single key))
  | inr apart ↦
      let (same, same') = promote-other key other rows apart ids in
      elim h [ inl equal ↦ absurd (ground arith) | inr led ↦ rw (same, same') led ]
]

promotions :
    (keys : List Text) (rows : List AlbumRow)
    → HaveIds rows
    → ((k : Text) → IsSingle k rows)
    → (other : Text) → (elem_text other keys ≡ true) ⊎ IsLed other rows
    → IsLed other (promote_orphaned_primaries keys rows)
unfolding promote_orphaned_primaries
promotions [] rows ids single other h = elim h [
  | inl listed ↦ absurd (ground arith)
  | inr led ↦ led
]
promotions (key ∷ keys) rows ids single other h =
    promotions keys (promote key rows) (promote-HaveIds key rows ids)
      (λ k. promote-IsSingle key k rows ids single) other
      (elim h [
        | inl listed ↦ elim (Bool-cases (elem_text other keys)) [
          | inl later ↦ inl later
          | inr now ↦ inr (
              promote-IsLed key other rows ids single (inl (ground (arith, text_eq_sym other key))))
        ]
        | inr led ↦ inr (promote-IsLed key other rows ids single (inr led))
      ])

-- The IDs stay distinct.
promotions-HaveIds :
    (keys : List Text) (rows : List AlbumRow)
    → HaveIds rows
    → HaveIds (promote_orphaned_primaries keys rows)
unfolding promote_orphaned_primaries
promotions-HaveIds [] rows ids = ids
promotions-HaveIds (key ∷ keys) rows ids =
    promotions-HaveIds keys (promote key rows) (promote-HaveIds key rows ids)

-- An import of a directory with new IDs keeps each group of albums led by exactly one primary album, in
-- whatever directories the group has its albums, and no two albums have one ID.
pub replace_dir_albums-IsLed :
    (sort_name : Text → Text) (dir : ℕ) (als : List StoredAlbum) (rows : List AlbumRow)
    → AreNew als rows
    → HaveIds rows
    → ((key : Text) → IsLed key rows)
    → HaveIds (replace_dir_albums sort_name dir als rows)
      × ((key : Text) → IsLed key (replace_dir_albums sort_name dir als rows))
unfolding replace_dir_albums delete_stale
replace_dir_albums-IsLed sort_name dir als rows new ids led =
    let (ids', led') = upsert_albums_sound sort_name dir als rows new ids led in
    let (kept, after) = upsert_albums sort_name dir als rows in
    let keys = dir_primary_groups dir after in
    let left = keep-HaveIds _ after ids' in
    (
      promotions-HaveIds keys (delete_stale dir kept after) left,
      λ key.
          promotions keys (delete_stale dir kept after) left
            (λ k. delete_stale-IsSingle dir k kept after (led' k)) key
            (elim (Bool-cases (elem_text key keys)) [
              | inl listed ↦ inl listed
              | inr unlisted ↦ inr (delete_stale-IsLed dir key kept after (led' key) unlisted)
            ]),
    )
