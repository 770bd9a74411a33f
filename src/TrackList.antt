-- ===== src/TrackList.antt =====
-- The track list of an album page: ui/src/features/library/TrackList.tsx.
--
-- The Map from disc numbers is the list of its discs in the order of insertion, and
-- `Array.prototype.sort`, which is stable, an insertion sort by the number.
pub mod Grouping
pub mod Sorting
pub mod Counting
mod Tests
use byom.Prelude.{
  ℕ, suc, ◌<◌, Text, codes, truthy, decimal, Bool, true, false, ◌||◌, List, [], ◌∷◌, ◌++◌, Option,
  none, some, ltb, ◌==◌, length, if◌then◌else◌,
}
use byom.Proto.Library.{Track}
use byom.Format.{format_track_duration}

pub record Disc : Type 0 where
  pub number : ℕ
  pub heading : Text
  pub tracks : List Track

-- `track.discNumber || 1`.
abbrev pub disc_of : Track → ℕ
disc_of t = if t.disc_number == 0 then 1 else t.disc_number

abbrev pub new_disc : ℕ → Disc
new_disc n = record { number = n; heading = []; tracks = [] }

-- The track's subtitle, if it has one, becomes the heading.
unfoldable pub push_track : Track → Disc → Disc
push_track t d = record d {
  heading = if truthy t.disc_subtitle then t.disc_subtitle else d.heading;
  tracks = d.tracks ++ t ∷ [];
}

-- One round of the loop, on the discs so far.
unfoldable pub add_track : Track → List Disc → List Disc
unfolding push_track
add_track t [] = push_track t (new_disc (disc_of t)) ∷ []
add_track t (d ∷ ds) = if d.number == disc_of t then push_track t d ∷ ds else d ∷ add_track t ds

unfoldable pub group_from : List Disc → List Track → List Disc
group_from ds [] = ds
group_from ds (t ∷ ts) = group_from (add_track t ds) ts

unfoldable pub insert_disc : Disc → List Disc → List Disc
insert_disc d [] = d ∷ []
insert_disc d (e ∷ ds) = if ltb e.number d.number then e ∷ insert_disc d ds else d ∷ e ∷ ds

unfoldable pub sort_discs : List Disc → List Disc
sort_discs [] = []
sort_discs (d ∷ ds) = insert_disc d (sort_discs ds)

unfoldable pub discs : List Track → List Disc
unfolding add_track group_from insert_disc sort_discs
discs ts = sort_discs (group_from [] ts)

-- The heading that is shown for a disc: none where there is one disc alone.
unfoldable pub shown_heading : List Disc → Disc → Option Text
shown_heading ds d =
    if ltb 1 (length ds)
    then some (if truthy d.heading then d.heading else codes "Disc " ++ decimal d.number)
    else none

-- The texts of a track's row: its number, title and length.
unfoldable pub track_row : Track → Text × Text × Text
track_row t = (decimal t.track_number, t.title, format_track_duration t.duration)
