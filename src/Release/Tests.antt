-- ===== src/Release/Tests.antt =====
-- Two versions of an album, as the tests of ui/src/features/library have them, and the theorems.
use byom.Prelude.{◌≡◌, refl, codes, text_eq, join, decimal, true, false, [], ◌∷◌, pad_start}
use byom.Proto.Library.{Album, AlbumType}
use byom.Format.{album_type_label, album_flags, format_duration, sum_durations, rounded_seconds}
use byom.Release.{
  credits, grid_meta, release_line, chips, version_label, version_meta, versions, version_row,
  version_rows, track_summary,
}

program : Unit {0}
unfolding text_eq join credits grid_meta release_line chips version_label version_meta versions
    version_row version_rows album_type_label album_flags track_summary decimal pad_start
    format_duration sum_durations rounded_seconds
program = tt

abbrev original : Album
original = record {
  id = codes "a1";
  title = codes "Blue";
  album_type = AlbumType.main;
  release_date = codes "1971-06-22";
  original_release_date = [];
  release_country = codes "US";
  media = codes "Vinyl";
  bootleg = false;
  compilation = false;
  live = true;
  group_key = codes "g";
  version = [];
  primary_version = true;
  artists =
      record { artist_id = codes "x"; credited_name = codes "A" }
      ∷ record { artist_id = codes "y"; credited_name = codes "B" }
      ∷ [];
  cover_hash = [];
}

abbrev remaster : Album
remaster = record original {
  id = codes "a2";
  release_date = [];
  version = codes "Remaster";
  primary_version = false;
}

text_tests :
    (credits original ≡ codes "A, B")
    × (grid_meta original ≡ codes "1971-06-22 · Vinyl")
    × (release_line original ≡ codes "RELEASED 1971-06-22 · US · Vinyl")
    × (release_line remaster ≡ codes "RELEASED UNKNOWN · US · Vinyl")
    × (version_label original ≡ codes "Blue")
    × (version_label remaster ≡ codes "Remaster")
    × (version_meta original ≡ codes "1971 · Vinyl")
    × (version_meta remaster ≡ codes "Vinyl")
    × (chips original ≡ codes "ALBUM" ∷ codes "LIVE" ∷ codes "PRIMARY VERSION" ∷ [])
    × (track_summary [] ≡ codes "0 TRACKS · 0:00")
unfolding program
text_tests = (refl, refl, refl, refl, refl, refl, refl, refl, refl, refl)
