-- ===== src/Walk/Tests.antt =====
-- Names of disc folders, a location with two discs, a disc in a disc, and the theorems there.
use byom.Prelude.{
  ℕ, ◌≡◌, refl, Text, codes, Bool, true, false, none, some, List, [], ◌∷◌, Result, ok, err,
}
use byom.Storage.{audio, image, path_eq}
use byom.Sync.{WalkEntry, WalkResult}
use byom.Walk.{
  Folder, Entries, unreadable, listing, done, regular, folder, WalkError, not_read, cancelled, ext,
  classify_kind, regular_files, walk_post_order, is_disc_name, is_disc, drop_word, no_newline,
  after_digits, after_word, put_pending, disc_files, merge, scan_folders,
}
use byom.Walk.Visits.{visits, run, visit, walk_post_order-run}
use byom.Walk.Discs.{IsMergeable, albums, disc_results, discs_in, with_discs}
use byom.Walk.Merging.{scan_folders-albums}

program : Unit {0}
unfolding byom.Prelude.text_eq path_eq ext classify_kind regular_files walk_post_order is_disc_name
    is_disc drop_word no_newline after_digits after_word put_pending disc_files merge scan_folders
    visits run visit IsMergeable albums disc_results discs_in with_discs
program = tt

-- Names of lower case stay as they are.
abbrev as_is : Text → Text
as_is t = t

disc_tests :
    (is_disc_name (codes "CD1") ≡ true)
    × (is_disc_name (codes "cd 2") ≡ true)
    × (is_disc_name (codes "Disc_3 - Remixes") ≡ true)
    × (is_disc_name (codes "Discography") ≡ false)
    × (is_disc_name (codes "CD") ≡ false)
    × (is_disc_name (codes "Vinyl 1") ≡ false)
    × (is_disc_name (codes "Disc 10a") ≡ false)
unfolding program
disc_tests = (refl, refl, refl, refl, refl, refl, refl)

kind_tests :
    (classify_kind as_is (codes "01.flac") ≡ some audio)
    × (classify_kind as_is (codes "a.b.jpeg") ≡ some image)
    × (classify_kind as_is (codes "notes.txt") ≡ none)
    × (classify_kind as_is (codes "flac") ≡ none)
unfolding program
kind_tests = (refl, refl, refl, refl)

abbrev song : Entries → Entries
song = regular (codes "01.flac") none

abbrev album : Folder
album = listing (
    folder (codes "CD1") (listing (song done)) (
      folder (codes "Disc 2") (listing (song done))
        (regular (codes "cover.jpg") none (regular (codes ".hidden.mp3") none done))))

abbrev location : Folder
location = listing (folder (codes "Album") album (folder (codes ".git") unreadable done))

abbrev entry : Text → WalkEntry
entry name = record { name = name; kind = audio; info = none }

abbrev synced : List WalkResult
synced =
    record {
      dir = codes "Album" ∷ [];
      files =
          record { name = codes "cover.jpg"; kind = image; info = none }
          ∷ entry (codes "CD1/01.flac")
          ∷ entry (codes "Disc 2/01.flac")
          ∷ [];
    }
    ∷ record { dir = []; files = [] }
    ∷ []

-- A disc in a disc is left pending, with its files.
abbrev nested : Folder
nested =
    listing (folder (codes "CD1") (listing (folder (codes "CD2") (listing (song done)) done)) done)

walk_tests :
    (scan_folders as_is location ≡ ok ([], synced))
    × (scan_folders as_is nested
        ≡ ok (
          record { dir = codes "CD2" ∷ codes "CD1" ∷ []; files = entry (codes "01.flac") ∷ [] }
              ∷ [],
          record { dir = []; files = [] } ∷ [],
        ))
    × (scan_folders as_is (listing (folder (codes "Album") unreadable done))
        ≡ err (not_read (codes "Album" ∷ [])))
unfolding program
walk_tests = (refl, refl, refl)

abbrev tally : WalkResult → ℕ → Result WalkError ℕ
tally res n = err cancelled

walk_post_order-run_example :
    walk_post_order as_is tally [] location 0 ≡ run tally (visits as_is [] location) 0
walk_post_order-run_example = walk_post_order-run tally as_is [] location 0

scan_folders-albums_example : scan_folders as_is location ≡ ok ([], albums as_is [] location)
unfolding program
scan_folders-albums_example =
    scan_folders-albums as_is location
      (((((tt, refl), (refl, tt), ((tt, refl), tt, tt)), refl), (refl, tt), (tt, tt, tt)))
