-- ===== src/Sync.antt =====
-- The change set of one directory: scan/sync.go. A walked file has what the file system says of it,
-- or nothing where that fails. The map of known files is a list, which the walk's files leave one by
-- one; the order of what stays in it is the map's, which nothing here depends on.
pub mod Changes
pub mod Missing
pub mod Files
pub mod Directories
pub mod Soundness
pub mod Repeats
pub mod Returns
pub mod Scans
mod Tests
use byom.Prelude.{
  ℕ, suc, ◌+◌, Text, text_eq, Bool, true, false, not, ◌&&◌, ◌||◌, Option, none, some, List, [], ◌∷◌,
  map, keep, ◌==◌, length, if◌then◌else◌,
}
use byom.Scanner.{Counts}
use byom.Storage.{
  RelPath, FileKind, audio, File, SyncPayload, Store, lookup, dir_id, known_files, sync_dir,
}

pub record FileInfo : Type 0 where
  pub size : ℕ
  pub mod_time : ℕ

pub record WalkEntry : Type 0 where
  pub name : Text
  pub kind : FileKind
  pub info : Option FileInfo

pub record WalkResult : Type 0 where
  pub dir : RelPath
  pub files : List WalkEntry

-- The zero value that a lookup of an unknown name gives. Its kind is the empty text, which nothing
-- reads.
abbrev pub zero_file : File
zero_file = record { id = 0; name = []; kind = audio; size = 0; mod_time = 0; missing = false }

abbrev pub file_or_zero : Option File → File
file_or_zero none = zero_file
file_or_zero (some f) = f

abbrev pub remove_name : Text → List File → List File
remove_name name = keep (λ (f : File). not (text_eq f.name name))

abbrev pub walked_file : File → WalkEntry → FileInfo → File
walked_file old f info = record {
  id = old.id;
  name = f.name;
  kind = f.kind;
  size = info.size;
  mod_time = info.mod_time;
  missing = false;
}

abbrev pub is_unchanged : File → FileInfo → Bool
is_unchanged old info = not old.missing && (old.size == info.size && old.mod_time == info.mod_time)

-- One round of the loop: what it puts before the change set of the rest.
unfoldable pub add_changes : Option File → WalkEntry → List File × List ℕ → List File × List ℕ
add_changes old f (changed, missing) = elim f.info [
  | none ↦ elim old [ none ↦ (changed, missing) | some o ↦ (changed, o.id ∷ missing) ]
  | some info ↦
      if is_unchanged (file_or_zero old) info
      then (changed, missing)
      else (walked_file (file_or_zero old) f info ∷ changed, missing)
]

unfoldable pub compare_files : List WalkEntry → List File → List File × List ℕ
unfolding add_changes
compare_files [] known = ([], map (λ (f : File). f.id) known)
compare_files (f ∷ fs) known =
    add_changes (lookup f.name known) f (compare_files fs (remove_name f.name known))

-- `computeChangeset`.
pub record Changeset : Type 0 where
  pub changed : List File
  pub missing : List ℕ
  pub dirty : Bool

abbrev pub has_any {ℓ} : {A : Type ℓ} → List A → Bool
has_any [] = false
has_any (x ∷ xs) = true

unfoldable pub compute_changeset : List File → WalkResult → Changeset
unfolding compare_files
compute_changeset known res =
    let (changed, missing) = compare_files res.files known in
    record { changed = changed; missing = missing; dirty = has_any missing || has_any changed }

-- A run's location, generation and force; the sync counts and calls `OnDirty`.
pub record Scope : Type 0 where
  pub location_id : ℕ
  pub generation : ℕ
  pub force : Bool

pub record Synced : Type 0 where
  pub store : Store
  pub counts : Counts
  pub wakes : ℕ

-- `syncDir`: no file is known of a directory without a row.
abbrev pub known_of : Option ℕ → Store → List File
known_of none s = []
known_of (some dir) s = known_files dir s

unfoldable pub payload_of : Scope → WalkResult → Store → SyncPayload
unfolding compute_changeset
payload_of r res s =
    let c = compute_changeset (known_of (dir_id r.location_id res.dir s) s) res in
    record {
      location_id = r.location_id;
      relpath = res.dir;
      generation = r.generation;
      changed = c.changed;
      missing = c.missing;
      dirty = c.dirty || r.force;
    }

unfoldable pub sync_walked : Scope → WalkResult → Synced → Synced
unfolding payload_of
sync_walked r res w =
    let p = payload_of r res w.store in
    record {
      store = sync_dir p w.store;
      counts = record w.counts {
        dirs_seen = w.counts.dirs_seen + 1;
        files_seen = w.counts.files_seen + length res.files;
        files_missing = w.counts.files_missing + length p.missing;
      };
      wakes = if p.dirty then suc w.wakes else w.wakes;
    }

unfoldable pub find_entry : Text → List WalkEntry → Option WalkEntry
find_entry name [] = none
find_entry name (f ∷ fs) =
    let rest = find_entry name fs in if text_eq f.name name then some f else rest
