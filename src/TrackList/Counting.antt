-- ===== src/TrackList/Counting.antt =====
-- No track is lost or doubled between an album and its discs: ui/src/features/library/TrackList.tsx.
use byom.Prelude.{ℕ, ◌+◌, ◌≡◌, refl, length, length-append, List, [], ◌∷◌, arith}
use byom.Proto.Library.{Track}
use byom.TrackList.{Disc, add_track, push_track, group_from, insert_disc, sort_discs, discs}

-- The number of tracks on the discs.
abbrev pub total_tracks : List Disc → ℕ
total_tracks [] = 0
total_tracks (d ∷ ds) = length d.tracks + total_tracks ds

add_track-total_tracks :
    (t : Track) (ds : List Disc) → total_tracks (add_track t ds) ≡ total_tracks ds + 1
unfolding add_track push_track
add_track-total_tracks t [] = refl
add_track-total_tracks t (d ∷ ds) =
    ground (arith, add_track-total_tracks t ds, length-append d.tracks (t ∷ []))

group_from-total_tracks :
    (ds : List Disc) (ts : List Track)
    → total_tracks (group_from ds ts) ≡ total_tracks ds + length ts
unfolding group_from
group_from-total_tracks ds [] = omega arith
group_from-total_tracks ds (t ∷ ts) =
    omega (arith, group_from-total_tracks (add_track t ds) ts, add_track-total_tracks t ds)

insert_disc-total_tracks :
    (d : Disc) (ds : List Disc)
    → total_tracks (insert_disc d ds) ≡ length d.tracks + total_tracks ds
unfolding insert_disc
insert_disc-total_tracks d [] = refl
insert_disc-total_tracks d (e ∷ ds) = ground (arith, insert_disc-total_tracks d ds)

sort_discs-total_tracks : (ds : List Disc) → total_tracks (sort_discs ds) ≡ total_tracks ds
unfolding sort_discs
sort_discs-total_tracks [] = refl
sort_discs-total_tracks (d ∷ ds) =
    omega (arith, insert_disc-total_tracks d (sort_discs ds), sort_discs-total_tracks ds)

-- The discs of an album hold as many tracks as the album.
pub discs-total_tracks : (ts : List Track) → total_tracks (discs ts) ≡ length ts
unfolding discs
discs-total_tracks ts =
    omega (arith, sort_discs-total_tracks (group_from [] ts), group_from-total_tracks [] ts)
