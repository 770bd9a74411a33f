-- ===== src/TrackList/Grouping.antt =====
-- The discs of ui/src/features/library/TrackList.tsx hold the tracks of their number, in order.
use byom.Prelude.{
  ℕ, ◌≡◌, refl, ap, ◌∙◌, Text, truthy, Bool, false, ◌||◌, List, [], ◌∷◌, ◌++◌, ◌==◌, keep, arith,
  if◌then◌else◌, Bool-cases, inl, inr,
}
use mathlib.Core.List.{append_assoc, append-nil}
use byom.Proto.Library.{Track}
use byom.TrackList.{Disc, disc_of, new_disc, push_track, add_track, group_from}

-- The disc with a number among some discs, an empty one if there is none.
abbrev pub find_disc : ℕ → List Disc → Disc
find_disc n [] = new_disc n
find_disc n (d ∷ ds) = if d.number == n then d else find_disc n ds

abbrev pub has_disc : ℕ → List Disc → Bool
has_disc n [] = false
has_disc n (d ∷ ds) = d.number == n || has_disc n ds

-- The last subtitle that is not empty.
abbrev pub last_subtitle : Text → List Track → Text
last_subtitle s [] = s
last_subtitle s (t ∷ ts) = last_subtitle (if truthy t.disc_subtitle then t.disc_subtitle else s) ts

-- The disc of a number as an album has it: its tracks in the album's order.
abbrev pub disc_of_tracks : ℕ → List Track → Disc
disc_of_tracks n ts =
    let own = keep (λ t. disc_of t == n) ts in
    record { number = n; heading = last_subtitle [] own; tracks = own }

abbrev pub has_track : ℕ → List Track → Bool
has_track n [] = false
has_track n (t ∷ ts) = disc_of t == n || has_track n ts

find_disc-add_track :
    (n : ℕ) (t : Track) (ds : List Disc)
    → find_disc n (add_track t ds)
      ≡ (if disc_of t == n then push_track t (find_disc n ds) else find_disc n ds)
unfolding add_track push_track
find_disc-add_track n t [] = ground arith
find_disc-add_track n t (d ∷ ds) = ground (arith, find_disc-add_track n t ds)

has_disc-add_track :
    (n : ℕ) (t : Track) (ds : List Disc)
    → has_disc n (add_track t ds) ≡ (disc_of t == n || has_disc n ds)
unfolding add_track push_track
has_disc-add_track n t [] = ground arith
has_disc-add_track n t (d ∷ ds) = ground (arith, has_disc-add_track n t ds)

-- Pushes the tracks of a number onto a disc, one after another.
abbrev push_all : ℕ → List Track → Disc → Disc
push_all n [] d = d
push_all n (t ∷ ts) d = push_all n ts (if disc_of t == n then push_track t d else d)

find_disc-group_from :
    (n : ℕ) (ds : List Disc) (ts : List Track)
    → find_disc n (group_from ds ts) ≡ push_all n ts (find_disc n ds)
unfolding group_from
find_disc-group_from n ds [] = refl
find_disc-group_from n ds (t ∷ ts) =
    find_disc-group_from n (add_track t ds) ts ∙ ap (push_all n ts) (find_disc-add_track n t ds)

has_disc-group_from :
    (n : ℕ) (ds : List Disc) (ts : List Track)
    → has_disc n (group_from ds ts) ≡ (has_disc n ds || has_track n ts)
unfolding group_from
has_disc-group_from n ds [] = ground arith
has_disc-group_from n ds (t ∷ ts) =
    ground (arith, has_disc-group_from n (add_track t ds) ts, has_disc-add_track n t ds)

push_all_lem :
    (n : ℕ) (ts : List Track) (d : Disc)
    → let own = keep (λ t. disc_of t == n) ts in
      push_all n ts d ≡ record {
        number = d.number;
        heading = last_subtitle d.heading own;
        tracks = d.tracks ++ own;
      }
unfolding push_track
push_all_lem n [] d = rw append-nil
push_all_lem n (t ∷ ts) d = elim (Bool-cases (disc_of t == n)) [
  | inl own ↦ rw own (push_all_lem n ts (push_track t d) ∙ rw append_assoc)
  | inr other ↦ rw other (push_all_lem n ts d)
]

pub find_disc-group :
    (n : ℕ) (ts : List Track) → find_disc n (group_from [] ts) ≡ disc_of_tracks n ts
find_disc-group n ts = find_disc-group_from n [] ts ∙ push_all_lem n ts (new_disc n)

pub has_disc-group : (n : ℕ) (ts : List Track) → has_disc n (group_from [] ts) ≡ has_track n ts
has_disc-group n ts = has_disc-group_from n [] ts

-- No two discs have one number.
abbrev pub IsDistinct : List Disc → Type 0
IsDistinct [] = Unit
IsDistinct (d ∷ ds) = (has_disc d.number ds ≡ false) × IsDistinct ds

add_track-IsDistinct : (t : Track) (ds : List Disc) → IsDistinct ds → IsDistinct (add_track t ds)
unfolding add_track push_track
add_track-IsDistinct t [] h = (refl, tt)
add_track-IsDistinct t (d ∷ ds) h = elim (Bool-cases (d.number == disc_of t)) [
  | inl own ↦ rw own (h.0, h.1)
  | inr other ↦
      rw other (ground (arith, has_disc-add_track d.number t ds), add_track-IsDistinct t ds h.1)
]

pub group_from-IsDistinct :
    (ds : List Disc) (ts : List Track) → IsDistinct ds → IsDistinct (group_from ds ts)
unfolding group_from
group_from-IsDistinct ds [] h = h
group_from-IsDistinct ds (t ∷ ts) h =
    group_from-IsDistinct (add_track t ds) ts (add_track-IsDistinct t ds h)
