-- ===== src/Sync/Returns.antt =====
-- A file that was marked missing and comes back as it was: scan/sync.go over many scans.
use byom.Prelude.{ℕ, ◌≡◌, refl, Text, true, some, List, [], ◌∷◌, All}
use byom.Storage.{File, RelPath, lookup, dir_id}
use byom.Sync.{FileInfo, WalkEntry, WalkResult, Scope, Synced, sync_walked, find_entry}
use byom.Sync.Changes.{AreEntries}
use byom.Sync.Files.{has_info}
use byom.Sync.Directories.{IsSound, dir_of}
use byom.Sync.Soundness.{sync_walked-IsSound}
use byom.Sync.Repeats.{files_at, dir_id-sync_walked}

-- Syncs of one after the other.
unfoldable pub sync_rounds : List (Scope × WalkResult) → Synced → Synced
sync_rounds [] w = w
sync_rounds (round ∷ rounds) w = sync_rounds rounds (sync_walked round.0 round.1 w)

-- A sync of the directory whose walk finds the name, with this size and time.
pub record IsReturn (loc : ℕ) (rel : RelPath) (name : Text) (info : FileInfo)
    (round : Scope × WalkResult) : Type 0 where
  pub of_location : round.0.location_id ≡ loc
  pub of_dir : round.1.dir ≡ rel
  pub entries : AreEntries round.1.files
  pub entry : WalkEntry
  pub finds : find_entry name round.1.files ≡ some entry
  pub has : entry.info ≡ some info

-- A row that is marked missing and whose file is back with the stored size and time is missing after
-- every sync of its directory, however many there are and forced or not.
pub sync_rounds-missing :
    (loc dir : ℕ) (rel : RelPath) (name : Text) (info : FileInfo) (row : File)
    (rounds : List (Scope × WalkResult)) (w : Synced)
    → IsSound w.store
    → dir_id loc rel w.store ≡ some dir
    → lookup name (w.store.files dir) ≡ some row
    → row.missing ≡ true
    → has_info row info ≡ true
    → All (IsReturn loc rel name info) rounds
    → (after : File) × (lookup name ((sync_rounds rounds w).store.files dir) ≡ some after)
      × (after.missing ≡ true)
unfolding sync_rounds
sync_rounds-missing loc dir rel name info row [] w v at found gone same h = (row, found, gone)
sync_rounds-missing loc dir rel name info row (round ∷ rounds) w v at found gone same h =
    let back = h.0 in
    let here : dir_of round.0.location_id round.1.dir w.store ≡ dir =
      rw (back.of_location, back.of_dir, at) refl in
    let (new, next) = files_at round.0 round.1 w dir back.entries v here name in
    let kept : lookup name ((sync_walked round.0 round.1 w).store.files dir) ≡ some row =
      rw (next, back.finds, found, back.has, same) refl in
    let stays : dir_id loc rel (sync_walked round.0 round.1 w).store ≡ some dir =
      rw (← back.of_location, ← back.of_dir, dir_id-sync_walked round.0 round.1 w, here) refl in
    sync_rounds-missing loc dir rel name info row rounds (sync_walked round.0 round.1 w)
      (sync_walked-IsSound round.0 round.1 w v back.entries) stays kept gone same h.1
