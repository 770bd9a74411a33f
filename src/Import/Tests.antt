-- ===== src/Import/Tests.antt =====
-- Two directories with versions of one album, of which the primary one goes, and the theorem there.
use byom.Prelude.{ℕ, ◌≡◌, refl, Text, text_eq, codes, Bool, true, false, List, [], ◌∷◌, map, arith}
use byom.Proto.Library.{AlbumArtist}
use byom.Catalog.{StoredAlbum, LibraryAlbumType}
use byom.Import.{
  AlbumRow, first_credits, put_album, upsert_album, stored_id, upsert_albums, dir_primary_groups,
  delete_stale, min_id, promote, promote_orphaned_primaries, replace_dir_albums,
}
use byom.Import.Counts.{IsLed, HaveIds}
use byom.Import.Primaries.{replace_dir_albums-IsLed}

program : Unit {0}
unfolding byom.Prelude.text_eq first_credits put_album upsert_album stored_id upsert_albums
    dir_primary_groups delete_stale min_id promote promote_orphaned_primaries replace_dir_albums
program = tt

abbrev artist : AlbumArtist
artist = record { artist_id = codes "x"; credited_name = codes "X" }

-- The artist is credited twice.
abbrev version : Text → StoredAlbum
version id = record {
  id = id;
  title = codes "T";
  album_type = LibraryAlbumType.main;
  release_date = [];
  original_release_date = [];
  release_country = [];
  bootleg = false;
  compilation = false;
  live = false;
  group_key = codes "g";
  version = [];
  primary_version = false;
  artist_sort = [];
  artists = artist ∷ artist ∷ [];
  cover_hash = [];
}

abbrev stored : Text → Bool → StoredAlbum
stored id primary = record (version id) {
  primary_version = primary;
  artist_sort = codes "Sort";
  artists = artist ∷ [];
}

abbrev sort_name : Text → Text
sort_name id = codes "Sort"

abbrev first : List AlbumRow
first = replace_dir_albums sort_name 1 (version (codes "a") ∷ []) []

abbrev both : List AlbumRow
both = replace_dir_albums sort_name 2 (version (codes "b") ∷ []) first

import_tests :
    (both
      ≡ record { dir_id = 1; album = stored (codes "a") true }
        ∷ record { dir_id = 2; album = stored (codes "b") false }
        ∷ [])
    × (replace_dir_albums sort_name 1 [] both
        ≡ record { dir_id = 2; album = stored (codes "b") true } ∷ [])
    × (replace_dir_albums sort_name 1 (version (codes "c") ∷ []) both ≡ both)
unfolding program
import_tests = (refl, refl, refl)

none-IsLed : (key : Text) → IsLed key []
none-IsLed key = refl

replace_dir_albums-IsLed_example :
    HaveIds (replace_dir_albums sort_name 1 (version (codes "a") ∷ version (codes "b") ∷ []) [])
    × ((key : Text)
        → IsLed key
            (replace_dir_albums sort_name 1 (version (codes "a") ∷ version (codes "b") ∷ []) []))
unfolding program
replace_dir_albums-IsLed_example =
    replace_dir_albums-IsLed sort_name 1 (version (codes "a") ∷ version (codes "b") ∷ []) []
      (tt, (refl, tt), (tt, tt, tt)) tt none-IsLed
