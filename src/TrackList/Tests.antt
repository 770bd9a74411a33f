-- ===== src/TrackList/Tests.antt =====
-- An album of two discs whose tracks come mixed, and the theorem at it.
use byom.Prelude.{◌≡◌, refl, Text, codes, ℕ, false, [], ◌∷◌, none, some, decimal}
use byom.Proto.Library.{Track}
use byom.TrackList.{discs, shown_heading}
use byom.TrackList.Sorting.{IsGrouped, discs-IsGrouped}

abbrev track : Text → ℕ → Text → Track
track title disc subtitle = record {
  id = title;
  album_id = codes "a1";
  title = title;
  disc_number = disc;
  disc_subtitle = subtitle;
  track_number = 1;
  release_date = [];
  original_release_date = [];
  recording_location = [];
  recording_date = [];
  live = false;
  duration = none;
  audio = none;
  credits = [];
}

abbrev a : Track
a = track (codes "a") 2 []

abbrev b : Track
b = track (codes "b") 0 []

abbrev c : Track
c = track (codes "c") 2 (codes "Live")

discs_test :
    (discs (a ∷ b ∷ c ∷ [])
      ≡ record { number = 1; heading = []; tracks = b ∷ [] }
        ∷ record { number = 2; heading = codes "Live"; tracks = a ∷ c ∷ [] }
        ∷ [])
    × (shown_heading (discs (a ∷ b ∷ c ∷ [])) (record { number = 1; heading = []; tracks = b ∷ [] })
        ≡ some (codes "Disc 1"))
unfolding discs shown_heading decimal
discs_test = (refl, refl)

discs-IsGrouped_example : IsGrouped (a ∷ b ∷ c ∷ []) (discs (a ∷ b ∷ c ∷ []))
discs-IsGrouped_example = discs-IsGrouped (a ∷ b ∷ c ∷ [])
