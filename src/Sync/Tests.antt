-- ===== src/Sync/Tests.antt =====
-- A directory that is synced four times, a change set of every kind, and the theorems at this run.
use byom.Prelude.{ℕ, ◌≡◌, refl, codes, true, false, none, some, List, [], ◌∷◌, arith, ◌⊎◌, text_eq}
use byom.Scanner.{no_counts}
use byom.Storage.{
  File, DirRow, audio, image, lookup, dir_id, known_files, sync_dir, sweep, dir_files, issue_ids,
  insert_files, upsert_file, upsert_dir, mark_missing_files, upsert_files, path_eq,
}
use byom.Sync.{
  WalkEntry, WalkResult, Scope, Synced, compare_files, add_changes, compute_changeset, payload_of,
  sync_walked, find_entry,
}
use byom.Sync.Files.{synced_file, new_id}
use byom.Sync.Directories.{IsSound, sync_walked-files}
use byom.Sync.Soundness.{sync_walked-IsSound}
use byom.Sync.Repeats.{sync_walked-again}
use byom.Sync.Scans.{has_dir, row_at, left_behind, sync_all, scan_all, scan_all-rows}
use byom.Sync.Returns.{IsReturn, sync_rounds, sync_rounds-missing}

program : Unit {0}
unfolding text_eq path_eq dir_id known_files issue_ids upsert_file insert_files upsert_files
    upsert_dir mark_missing_files sync_dir sweep dir_files add_changes compare_files
    compute_changeset payload_of sync_walked find_entry sync_rounds sync_all scan_all
program = tt

abbrev no_store : Synced
no_store = record {
  store = record { dirs = []; files = λ dir. []; issued = 1 };
  counts = no_counts;
  wakes = 0;
}

no_store-IsSound : IsSound no_store.store
no_store-IsSound = record {
  named = λ dir. tt;
  ids = λ d e n m f g a b same. absurd (ground arith);
  used = λ d n f h. absurd (ground arith);
  unused = λ d h. refl;
  dirs_used = tt;
}

abbrev first_scan : Scope
first_scan = record { location_id = 7; generation = 1; force = false }

abbrev second_scan : Scope
second_scan = record { location_id = 7; generation = 2; force = false }

abbrev forced_scan : Scope
forced_scan = record { location_id = 7; generation = 3; force = true }

abbrev song : WalkEntry
song = record {
  name = codes "1.flac";
  kind = audio;
  info = some (record { size = 5; mod_time = 9 });
}

abbrev cover : WalkEntry
cover = record {
  name = codes "cover.jpg";
  kind = image;
  info = some (record { size = 2; mod_time = 9 });
}

abbrev both : WalkResult
both = record { dir = codes "Album" ∷ []; files = song ∷ cover ∷ [] }

abbrev song_only : WalkResult
song_only = record { dir = codes "Album" ∷ []; files = song ∷ [] }

-- Both files are stored, then the cover is gone, then it is back.
abbrev w1 : Synced
w1 = sync_walked first_scan both no_store

abbrev w2 : Synced
w2 = sync_walked second_scan song_only w1

abbrev w3 : Synced
w3 = sync_walked forced_scan both w2

abbrev stored_song : File
stored_song = record {
  id = 2;
  name = codes "1.flac";
  kind = audio;
  size = 5;
  mod_time = 9;
  missing = false;
}

abbrev stored_cover : File
stored_cover = record {
  id = 3;
  name = codes "cover.jpg";
  kind = image;
  size = 2;
  mod_time = 9;
  missing = false;
}

abbrev gone_cover : File
gone_cover = record stored_cover { missing = true }

sync_tests :
    (w1.store.files 1 ≡ stored_song ∷ stored_cover ∷ [])
    × (w2.store.files 1 ≡ stored_song ∷ gone_cover ∷ [])
    × (w3.store.files 1 ≡ stored_song ∷ gone_cover ∷ [])
    × (dir_files 1 w3.store ≡ stored_song ∷ [])
    × (dir_id 7 (codes "Album" ∷ []) w3.store ≡ some 1)
    × (w1.wakes ≡ 1)
    × (w3.wakes ≡ 3)
    × ((payload_of forced_scan song_only w2.store).missing ≡ 3 ∷ [])
    × ((payload_of second_scan both w1.store).dirty ≡ false)
unfolding program
sync_tests = (refl, refl, refl, refl, refl, refl, refl, refl, refl)

w1-IsSound : IsSound w1.store
unfolding program
w1-IsSound = sync_walked-IsSound first_scan both no_store no_store-IsSound ((refl, tt), (tt, tt))

w2-IsSound : IsSound w2.store
w2-IsSound = sync_walked-IsSound second_scan song_only w1 w1-IsSound (tt, tt)

sync_walked-files_example :
    lookup (codes "cover.jpg") (w2.store.files 1)
    ≡ synced_file
        (new_id (codes "cover.jpg") 5 (song ∷ []) (w1.store.files 1))
        none
        (some stored_cover)
unfolding program
sync_walked-files_example =
    sync_walked-files second_scan song_only w1 (tt, tt) w1-IsSound 1 (codes "cover.jpg")

sync_walked-IsSound_example : IsSound w3.store
unfolding program
sync_walked-IsSound_example =
    sync_walked-IsSound forced_scan both w2 w2-IsSound ((refl, tt), (tt, tt))

sync_walked-again_example :
    ((payload_of second_scan both w1.store).changed ≡ [])
    × ((name : List ℕ)
        → lookup name ((sync_walked second_scan both w1).store.files 1)
          ≡ lookup name (w1.store.files 1))
unfolding program
sync_walked-again_example =
    sync_walked-again first_scan both no_store ((refl, tt), (tt, tt)) no_store-IsSound second_scan
      refl

is_back :
    (r : Scope)
    → r.location_id ≡ 7
    → IsReturn 7
        (codes "Album" ∷ [])
        (codes "cover.jpg")
        (record { size = 2; mod_time = 9 })
        (r, both)
unfolding program
is_back r h = record {
  of_location = h;
  of_dir = refl;
  entries = ((refl, tt), (tt, tt));
  entry = cover;
  finds = refl;
  has = refl;
}

sync_rounds-missing_example :
    (after : File) × (lookup
        (codes "cover.jpg")
        ((sync_rounds ((second_scan, both) ∷ (forced_scan, both) ∷ []) w2).store.files 1)
      ≡ some after)
    × (after.missing ≡ true)
unfolding program
sync_rounds-missing_example =
    sync_rounds-missing 7 1 (codes "Album" ∷ []) (codes "cover.jpg")
      (record { size = 2; mod_time = 9 }) gone_cover
      ((second_scan, both) ∷ (forced_scan, both) ∷ []) w2 w2-IsSound refl refl refl refl
      (is_back second_scan refl, (is_back forced_scan refl, tt))

-- The album is handed on again; another location's walk does not tell of it.
scan_all-rows_example :
    ((has_dir (codes "Album" ∷ []) (song_only ∷ []) ≡ true)
      × (d : DirRow) × (row_at 7 (codes "Album" ∷ []) (scan_all second_scan (song_only ∷ []) w1)
          ≡ some d)
      × (d.missing ≡ false)
      × (d.seen_generation ≡ 2))
    ⊎ ((has_dir (codes "Album" ∷ []) (song_only ∷ []) ≡ false)
        × (row_at 7 (codes "Album" ∷ []) (scan_all second_scan (song_only ∷ []) w1)
            ≡ left_behind (row_at 7 (codes "Album" ∷ []) w1.store)))
unfolding program
scan_all-rows_example =
    scan_all-rows second_scan (codes "Album" ∷ []) (song_only ∷ []) w1 (omega arith, tt)
