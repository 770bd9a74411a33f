-- ===== src/AlbumPage/Counts.antt =====
-- The figures on an album's page agree with what it lists: ui/src/routes/albums/[id].tsx with
-- ui/src/features/library/TrackList.tsx and VersionList.tsx.
use byom.Prelude.{◌≡◌, refl, Text, codes, decimal, ◌++◌, some, arith, Option-cases, inl, inr}
use byom.Proto.Library.{Album, Track}
use byom.Proto.LibraryService.{LibraryService}
use byom.Rpc.{list_tracks}
use byom.Format.{format_duration, sum_durations}
use byom.TrackList.Counting.{total_tracks, discs-total_tracks}
use byom.Release.{track_summary}
use byom.AlbumPage.{Detail, Reads, preload, shown_detail, album_detail}
use mathlib.Core.List.{map}

-- What the page shows comes from the album of the answer.
pub album_detail_shown :
    (id : Text) (r : Reads) (d : Detail)
    → album_detail id r ≡ some d
    → (a : Album) × (d ≡ shown_detail id r a)
unfolding album_detail
album_detail_shown id r d shown = elim (Option-cases r.album.album) [
  | inl nothing ↦ ground arith
  | inr (a, found) ↦ (a, ground arith)
]

-- If the page of an ID shows an album, the number in the line above the tracks is the number of the
-- tracks on the discs below it, and the time in it is that of the tracks that the server has
-- answered.
album_detail-summary :
    (service : LibraryService) (id : Text) (d : Detail)
    → album_detail id (preload service id) ≡ some d
    → d.summary
      ≡ decimal (total_tracks d.discs)
        ++ codes " TRACKS · "
        ++ format_duration
            (some (sum_durations (map (λ (t : Track). t.duration) (list_tracks service id).items)))
unfolding shown_detail preload track_summary
album_detail-summary service id d shown =
    let (a, same) = album_detail_shown id (preload service id) d shown in
    rw same (rw (discs-total_tracks (list_tracks service id).items) refl)
