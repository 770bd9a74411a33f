-- ===== src/Release.antt =====
-- The texts of an album in the views: ui/src/features/library/AlbumGrid.tsx, ReleaseHeader.tsx and
-- VersionList.tsx beside it, and the album page ui/src/routes/albums/[id].tsx.
pub mod Versions
mod Tests
use byom.Prelude.{
  ℕ, zero, suc, Text, codes, text_eq, truthy, decimal, join, keep, length, Bool, true, false, not,
  List, [], ◌∷◌, ◌++◌, Option, none, some, ltb, if◌then◌else◌,
}
use byom.Proto.Library.{Album, AlbumArtist, Track, Duration}
use byom.Format.{sum_durations, format_duration, album_type_label, album_flags}
use mathlib.Core.List.{map}

-- `a || b` on strings, and `[..].filter(Boolean).join(' · ')`.
abbrev pub or_text : Text → Text → Text
or_text s t = if truthy s then s else t

abbrev pub dotted : List Text → Text
dotted ts = join (codes " · ") (keep truthy ts)

-- `credits` of AlbumGrid and of ReleaseHeader.
unfoldable pub credits : Album → Text
credits a = join (codes ", ") (map (λ (c : AlbumArtist). c.credited_name) a.artists)

-- `meta` of AlbumGrid.
unfoldable pub grid_meta : Album → Text
grid_meta a = dotted (or_text a.original_release_date a.release_date ∷ a.media ∷ [])

unfoldable pub release_line : Album → Text
release_line a = dotted (
    (codes "RELEASED " ++ or_text a.release_date (codes "UNKNOWN"))
    ∷ a.release_country
    ∷ a.media
    ∷ [])

-- The chips of a ReleaseHeader: type, flags, version and primary version.
unfoldable pub chips : Album → List Text
chips a =
    keep truthy (album_type_label a.album_type ∷ [])
    ++ album_flags a
    ++ keep truthy (a.version ∷ [])
    ++ (if a.primary_version then codes "PRIMARY VERSION" ∷ [] else [])

-- `label` and `meta` of VersionList. A date begins with its year.
unfoldable pub version_label : Album → Text
version_label a = or_text a.version a.title

abbrev pub slice : ℕ → Text → Text
slice n [] = []
slice zero (c ∷ t) = []
slice (suc n) (c ∷ t) = c ∷ slice n t

unfoldable pub version_meta : Album → Text
version_meta a = dotted (slice 4 a.release_date ∷ a.media ∷ [])

-- The versions that are listed: none where the album is the only one of its group, or where they
-- have not arrived.
unfoldable pub versions : Option (List Album) → Option (List Album)
versions none = none
versions (some albums) = if ltb 1 (length albums) then some albums else none

-- A row of the list: whether it is the current album's, its link, its texts, and its chip.
pub record Row : Type 0 where
  pub current : Bool
  pub link : Option Text
  pub label : Text
  pub meta : Text
  pub primary : Bool

unfoldable pub version_row : Text → Album → Row
unfolding version_label version_meta
version_row current_id a =
    let current = text_eq a.id current_id in
    record {
      current = current;
      link = if current then none else some (codes "/albums/" ++ a.id);
      label = version_label a;
      meta = version_meta a;
      primary = a.primary_version;
    }

unfoldable pub version_rows : Text → List Album → List Row
unfolding version_row
version_rows current_id albums = map (version_row current_id) albums

-- The line above an album's tracks.
unfoldable pub track_summary : List Track → Text
track_summary ts =
    decimal (length ts)
    ++ codes " TRACKS · "
    ++ format_duration (some (sum_durations (map (λ (t : Track). t.duration) ts)))
