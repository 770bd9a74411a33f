-- ===== src/Import/Deletions.antt =====
-- `deleteStale` of sqlite/library.go: a group loses its primary album, and none gets a second one.
use byom.Prelude.{
  ℕ, ◌≤◌, ◌≡◌, refl, ◌∙◌, Text, text_eq, Bool, false, not, ◌&&◌, List, [], ◌∷◌, keep, All, arith,
  Bool-cases, inl, inr,
}
use byom.Storage.Tables.{text_eq_sym}
use byom.Import.{
  AlbumRow, of_group, is_primary, any, elem_text, is_stale, delete_stale, dir_primary_groups,
}
use byom.Import.Counts.{
  primaries, IsLed, HaveIds, any-count_of, count_of-keep, count_of-keep_all, any-keep_some,
  primary-member,
}

-- A group without albums has no primary one, and no group has two.
abbrev pub IsSingle : Text → List AlbumRow → Type 0
IsSingle key rows = primaries key rows ≤ 1

All-keep :
    (id : Text) (p : AlbumRow → Bool) (rows : List AlbumRow)
    → All (λ (row : AlbumRow). text_eq row.album.id id ≡ false) rows
    → All (λ (row : AlbumRow). text_eq row.album.id id ≡ false) (keep p rows)
All-keep id p [] h = tt
All-keep id p (row ∷ rows) h = ground (arith, All-keep id p rows h.1)

pub keep-HaveIds :
    (p : AlbumRow → Bool) (rows : List AlbumRow) → HaveIds rows → HaveIds (keep p rows)
keep-HaveIds p [] h = tt
keep-HaveIds p (row ∷ rows) h = elim (Bool-cases (p row)) [
  | inl kept ↦ rw kept (All-keep row.album.id p rows h.0, keep-HaveIds p rows h.1)
  | inr gone ↦ rw gone (keep-HaveIds p rows h.1)
]

-- The groups whose primary album is in the directory.
unlisted :
    (dir : ℕ) (key : Text) (kept : List Text) (rows : List AlbumRow)
    → elem_text key (dir_primary_groups dir rows) ≡ false
    → any (λ row. is_primary key row && not (not (is_stale dir kept row))) rows ≡ false
unfolding dir_primary_groups
unlisted dir key kept [] h = refl
unlisted dir key kept (row ∷ rows) h =
    grind (arith, unlisted dir key kept rows, text_eq_sym key row.album.group_key)

no_primary :
    (key : Text) (rows : List AlbumRow)
    → any (of_group key) rows ≡ false
    → any (is_primary key) rows ≡ false
no_primary key rows h = elim (Bool-cases (any (is_primary key) rows)) [
  | inl has ↦ absurd (ground (arith, primary-member key rows has))
  | inr none' ↦ none'
]

-- A group that is led stays so, unless its primary album was in the directory; none gets a second one.
pub delete_stale-IsLed :
    (dir : ℕ) (key : Text) (kept : List Text) (rows : List AlbumRow)
    → IsLed key rows
    → elem_text key (dir_primary_groups dir rows) ≡ false
    → IsLed key (delete_stale dir kept rows)
unfolding delete_stale
delete_stale-IsLed dir key kept rows led h =
    let keep' : AlbumRow → Bool = λ row. not (is_stale dir kept row) in
    let same = count_of-keep_all (is_primary key) keep' rows (unlisted dir key kept rows h) in
    elim (Bool-cases (any (of_group key) (keep keep' rows))) [
      | inl some' ↦ rw (some', same) (led ∙ rw (any-keep_some (of_group key) keep' rows some') refl)
      | inr none' ↦
          rw none' (any-count_of (is_primary key) (keep keep' rows) (no_primary key _ none'))
    ]

pub delete_stale-IsSingle :
    (dir : ℕ) (key : Text) (kept : List Text) (rows : List AlbumRow)
    → IsLed key rows
    → IsSingle key (delete_stale dir kept rows)
unfolding delete_stale
delete_stale-IsSingle dir key kept rows led =
    let fewer = count_of-keep (is_primary key) (λ row. not (is_stale dir kept row)) rows in
    ground (arith, led, fewer)
