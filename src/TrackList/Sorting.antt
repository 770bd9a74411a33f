-- ===== src/TrackList/Sorting.antt =====
-- The discs of ui/src/features/library/TrackList.tsx stand in the order of their numbers, and what
-- the whole list of them is.
use byom.Prelude.{
  ℕ, ◌≡◌, ◌<◌, refl, ◌∙◌, ap, false, ◌||◌, List, [], ◌∷◌, ◌==◌, ltb, ltb→lt, arith, if◌then◌else◌,
  Bool-cases, inl, inr, All,
}
use byom.Proto.Library.{Track}
use byom.TrackList.{Disc, insert_disc, sort_discs, group_from, discs}
use byom.TrackList.Grouping.{
  find_disc, has_disc, has_track, disc_of_tracks, find_disc-group, has_disc-group, IsDistinct,
  group_from-IsDistinct,
}

find_disc-insert_disc :
    (n : ℕ) (d : Disc) (ds : List Disc)
    → find_disc n (insert_disc d ds) ≡ (if d.number == n then d else find_disc n ds)
unfolding insert_disc
find_disc-insert_disc n d [] = refl
find_disc-insert_disc n d (e ∷ ds) = ground (arith, find_disc-insert_disc n d ds)

has_disc-insert_disc :
    (n : ℕ) (d : Disc) (ds : List Disc)
    → has_disc n (insert_disc d ds) ≡ (d.number == n || has_disc n ds)
unfolding insert_disc
has_disc-insert_disc n d [] = refl
has_disc-insert_disc n d (e ∷ ds) = ground (arith, has_disc-insert_disc n d ds)

find_disc-sort_discs : (n : ℕ) (ds : List Disc) → find_disc n (sort_discs ds) ≡ find_disc n ds
unfolding sort_discs
find_disc-sort_discs n [] = refl
find_disc-sort_discs n (d ∷ ds) =
    find_disc-insert_disc n d (sort_discs ds)
    ∙ ap (λ e. if d.number == n then d else e) (find_disc-sort_discs n ds)

has_disc-sort_discs : (n : ℕ) (ds : List Disc) → has_disc n (sort_discs ds) ≡ has_disc n ds
unfolding sort_discs
has_disc-sort_discs n [] = refl
has_disc-sort_discs n (d ∷ ds) =
    has_disc-insert_disc n d (sort_discs ds)
    ∙ ap (λ b. d.number == n || b) (has_disc-sort_discs n ds)

-- Every number is below those after it.
abbrev pub IsAscending : List Disc → Type 0
IsAscending [] = Unit
IsAscending (d ∷ ds) = All (λ e. d.number < e.number) ds × IsAscending ds

All-insert_disc :
    (n : ℕ) (d : Disc) (ds : List Disc)
    → n < d.number
    → All (λ e. n < e.number) ds
    → All (λ e. n < e.number) (insert_disc d ds)
unfolding insert_disc
All-insert_disc n d [] h k = (h, tt)
All-insert_disc n d (e ∷ ds) h k = elim (Bool-cases (ltb e.number d.number)) [
  | inl below ↦ rw below (k.0, All-insert_disc n d ds h k.1)
  | inr above ↦ rw above (h, k)
]

All-below :
    (m n : ℕ) (ds : List Disc) → m < n → All (λ e. n < e.number) ds → All (λ e. m < e.number) ds
All-below m n [] h k = tt
All-below m n (e ∷ ds) h k = (omega arith, All-below m n ds h k.1)

insert_disc-IsAscending :
    (d : Disc) (ds : List Disc)
    → has_disc d.number ds ≡ false
    → IsAscending ds
    → IsAscending (insert_disc d ds)
unfolding insert_disc
insert_disc-IsAscending d [] new h = (tt, tt)
insert_disc-IsAscending d (e ∷ ds) new h = elim (Bool-cases (ltb e.number d.number)) [
  | inl below ↦ rw below (
    All-insert_disc e.number d ds (ltb→lt _ _ below) h.0,
    insert_disc-IsAscending d ds (ground arith) h.1,
  )
  | inr above ↦
      let first : d.number < e.number = ground (arith) in
      rw above ((first, All-below d.number e.number ds first h.0), h)
]

sort_discs-IsAscending : (ds : List Disc) → IsDistinct ds → IsAscending (sort_discs ds)
unfolding sort_discs
sort_discs-IsAscending [] h = tt
sort_discs-IsAscending (d ∷ ds) h =
    insert_disc-IsAscending d (sort_discs ds) (has_disc-sort_discs d.number ds ∙ h.0)
      (sort_discs-IsAscending ds h.1)

-- `ds` are the discs of the tracks.
pub record IsGrouped (ts : List Track) (ds : List Disc) : Type 0 where
  pub ascending : IsAscending ds
  pub content : (n : ℕ) → find_disc n ds ≡ disc_of_tracks n ts
  pub present : (n : ℕ) → has_disc n ds ≡ has_track n ts

-- The discs of any tracks stand in strictly ascending order of their numbers; there is one for a
-- number exactly when some track has that number; and the disc of a number holds the tracks of
-- that number in the order of the album, under the last of their subtitles that is not empty.
pub discs-IsGrouped : (ts : List Track) → IsGrouped ts (discs ts)
unfolding discs
discs-IsGrouped ts = record {
  ascending = sort_discs-IsAscending (group_from [] ts) (group_from-IsDistinct [] ts tt);
  content = λ n. find_disc-sort_discs n (group_from [] ts) ∙ find_disc-group n ts;
  present = λ n. has_disc-sort_discs n (group_from [] ts) ∙ has_disc-group n ts;
}
