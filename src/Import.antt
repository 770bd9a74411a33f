-- ===== src/Import.antt =====
-- The import of a directory's albums: `ReplaceDirAlbums` of sqlite/library.go on the rows of `albums`
-- with their credits. The tables of tracks, credits of tracks and links to images, which it also
-- writes, are not modelled; what reads the artists' sort names is the parameter `sort_name`.
pub mod Counts
pub mod Upserts
pub mod Deletions
pub mod Promotions
pub mod Primaries
mod Tests
use byom.Prelude.{
  ℕ, suc, ◌+◌, Text, text_eq, Bool, true, false, not, ◌&&◌, ◌||◌, Option, none, some, List, [], ◌∷◌,
  ◌++◌, map, keep, ◌==◌, if◌then◌else◌,
}
use byom.Proto.Library.{AlbumArtist}
use byom.Paging.Orders.{text_order}
use byom.Catalog.{StoredAlbum}

pub record AlbumRow : Type 0 where
  pub dir_id : ℕ
  pub album : StoredAlbum

abbrev pub of_group : Text → AlbumRow → Bool
of_group key row = text_eq row.album.group_key key

abbrev pub is_primary : Text → AlbumRow → Bool
is_primary key row = of_group key row && row.album.primary_version

abbrev pub any {ℓ} : {A : Type ℓ} → (A → Bool) → List A → Bool
any p [] = false
any p (x ∷ xs) = p x || any p xs

abbrev pub elem_text : Text → List Text → Bool
elem_text t = any (λ u. text_eq t u)

-- `replaceAlbumArtists`: of the credits of one artist the first is stored.
unfoldable pub first_credits : List Text → List AlbumArtist → List AlbumArtist
first_credits seen [] = []
first_credits seen (a ∷ artists) =
    let kept = first_credits (a.artist_id ∷ seen) artists in
    let dropped = first_credits seen artists in
    if elem_text a.artist_id seen then dropped else a ∷ kept

-- The row that `ON CONFLICT (dir_id, group_key)` finds.
abbrev pub is_stored : ℕ → StoredAlbum → AlbumRow → Bool
is_stored dir al row = row.dir_id == dir && of_group al.group_key row

-- The ID that `upsertAlbum` returns.
unfoldable pub stored_id : ℕ → StoredAlbum → List AlbumRow → Text
stored_id dir al [] = al.id
stored_id dir al (row ∷ rows) =
    let rest = stored_id dir al rows in if is_stored dir al row then row.album.id else rest

module _ (sort_name : Text → Text) where
  abbrev first_sort_name : List AlbumArtist → Text
  first_sort_name [] = []
  first_sort_name (a ∷ artists) = sort_name a.artist_id

  -- The row that `upsertAlbum` inserts, and the one that it updates: its ID, its group and whether it
  -- is primary stay.
  abbrev pub inserted_album : Bool → StoredAlbum → StoredAlbum
  inserted_album has_primary al = record al {
    primary_version = not has_primary;
    artist_sort = first_sort_name al.artists;
    artists = first_credits [] al.artists;
  }

  abbrev pub updated_album : StoredAlbum → StoredAlbum → StoredAlbum
  updated_album al old = record old {
    title = al.title;
    album_type = al.album_type;
    release_date = al.release_date;
    original_release_date = al.original_release_date;
    release_country = al.release_country;
    bootleg = al.bootleg;
    compilation = al.compilation;
    live = al.live;
    version = al.version;
    artist_sort = first_sort_name al.artists;
    artists = first_credits [] al.artists;
  }

  unfoldable pub put_album : ℕ → Bool → StoredAlbum → List AlbumRow → List AlbumRow
  put_album dir has_primary al [] =
      record { dir_id = dir; album = inserted_album has_primary al } ∷ []
  put_album dir has_primary al (row ∷ rows) =
      let rest = put_album dir has_primary al rows in
      if is_stored dir al row
      then record row { album = updated_album al row.album } ∷ rows
      else row ∷ rest

  -- `upsertAlbum`.
  unfoldable pub upsert_album : ℕ → StoredAlbum → List AlbumRow → List AlbumRow
  unfolding put_album
  upsert_album dir al rows = put_album dir (any (is_primary al.group_key) rows) al rows

  -- The loop over the imported albums, with the IDs that it keeps.
  unfoldable pub upsert_albums : ℕ → List StoredAlbum → List AlbumRow → List Text × List AlbumRow
  unfolding upsert_album stored_id
  upsert_albums dir [] rows = ([], rows)
  upsert_albums dir (al ∷ als) rows =
      let (kept, after) = upsert_albums dir als (upsert_album dir al rows) in
      (stored_id dir al rows ∷ kept, after)

-- `dirPrimaryGroups`.
unfoldable pub dir_primary_groups : ℕ → List AlbumRow → List Text
dir_primary_groups dir rows =
    map (λ (row : AlbumRow). row.album.group_key)
      (keep (λ (row : AlbumRow). row.dir_id == dir && row.album.primary_version) rows)

-- `deleteStale` on the albums of a directory.
abbrev pub is_stale : ℕ → List Text → AlbumRow → Bool
is_stale dir kept row = row.dir_id == dir && not (elem_text row.album.id kept)

unfoldable pub delete_stale : ℕ → List Text → List AlbumRow → List AlbumRow
delete_stale dir kept rows = keep (λ row. not (is_stale dir kept row)) rows

-- `promoteOrphanedPrimaries`: the least ID of a group, and the statement for one group.
abbrev pub least : Text → Option Text → Text
least id none = id
least id (some other) = if text_order.lt other id then other else id

unfoldable pub min_id : Text → List AlbumRow → Option Text
min_id key [] = none
min_id key (row ∷ rows) =
    let rest = min_id key rows in if of_group key row then some (least row.album.id rest) else rest

abbrev pub make_primary : Text → AlbumRow → AlbumRow
make_primary id row =
    if text_eq row.album.id id
    then record row { album = record row.album { primary_version = true } }
    else row

abbrev pub promote_id : Option Text → List AlbumRow → List AlbumRow
promote_id none rows = rows
promote_id (some id) rows = map (make_primary id) rows

unfoldable pub promote : Text → List AlbumRow → List AlbumRow
unfolding min_id
promote key rows = if any (is_primary key) rows then rows else promote_id (min_id key rows) rows

unfoldable pub promote_orphaned_primaries : List Text → List AlbumRow → List AlbumRow
unfolding promote
promote_orphaned_primaries [] rows = rows
promote_orphaned_primaries (key ∷ keys) rows = promote_orphaned_primaries keys (promote key rows)

unfoldable pub replace_dir_albums :
    (Text → Text) → ℕ → List StoredAlbum → List AlbumRow → List AlbumRow
unfolding upsert_albums dir_primary_groups delete_stale promote_orphaned_primaries
replace_dir_albums sort_name dir als rows =
    let (kept, after) = upsert_albums sort_name dir als rows in
    promote_orphaned_primaries (dir_primary_groups dir after) (delete_stale dir kept after)
