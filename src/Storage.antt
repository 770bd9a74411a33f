-- ===== src/Storage.antt =====
-- The tables of directories and files that sqlite/scan.go and sqlite/parsequeue.go keep, with the
-- types of storage/file.go and the operations on files of scan/sync.go's store. IDs, generations
-- and times are numbers: the nil UUID and Go's zero time are 0. The rows of `files` are grouped by
-- their directory. A call of the database that fails changes nothing.
pub mod Tables
use byom.Prelude.{
  ℕ, suc, ◌+◌, Text, text_eq, Bool, true, false, ◌&&◌, ◌||◌, Option, none, some, List, [], ◌∷◌, map,
  keep, find, ◌==◌, ltb, length, not, update, if◌then◌else◌,
}

-- The path of a directory in its location: its names, the innermost first; the root has none.
abbrev pub RelPath : Type 0
RelPath = List Text

unfoldable pub path_eq : RelPath → RelPath → Bool
path_eq [] [] = true
path_eq [] (b ∷ q) = false
path_eq (a ∷ p) [] = false
path_eq (a ∷ p) (b ∷ q) = text_eq a b && path_eq p q

pub data FileKind : Type 0 where
  audio image : FileKind

-- `storage.File`.
pub record File : Type 0 where
  pub id : ℕ
  pub name : Text
  pub kind : FileKind
  pub size : ℕ
  pub mod_time : ℕ
  pub missing : Bool

pub record DirRow : Type 0 where
  pub id : ℕ
  pub location_id : ℕ
  pub relpath : RelPath
  pub seen_generation : ℕ
  pub missing : Bool
  pub dirty : Bool
  pub locked_generation : Option ℕ

-- Every ID that was issued is below `issued`.
pub record Store : Type 0 where
  pub dirs : List DirRow
  pub files : ℕ → List File
  pub issued : ℕ

-- `SyncPayload`; its file IDs and the new rows' are 0 where the store is to give one.
pub record SyncPayload : Type 0 where
  pub location_id : ℕ
  pub relpath : RelPath
  pub generation : ℕ
  pub changed : List File
  pub missing : List ℕ
  pub dirty : Bool

abbrev pub is_at : ℕ → RelPath → DirRow → Bool
is_at loc rel d = d.location_id == loc && path_eq d.relpath rel

abbrev pub id_of : Option DirRow → Option ℕ
id_of none = none
id_of (some d) = some d.id

-- `DirID`; none is `ErrNotExists`.
unfoldable pub dir_id : ℕ → RelPath → Store → Option ℕ
dir_id loc rel s = id_of (find (is_at loc rel) s.dirs)

-- `KnownFiles`: its query does not read the column `missing`.
abbrev pub without_missing : File → File
without_missing f = record f { missing = false }

unfoldable pub known_files : ℕ → Store → List File
known_files dir s = map without_missing (s.files dir)

abbrev pub lookup : Text → List File → Option File
lookup name = find (λ f. text_eq f.name name)

-- `markMissingFiles`.
abbrev pub elem : ℕ → List ℕ → Bool
elem i [] = false
elem i (j ∷ js) = i == j || elem i js

abbrev pub mark_file : List ℕ → File → File
mark_file ids f = if elem f.id ids then record f { missing = true } else f

unfoldable pub mark_missing_files : List ℕ → Store → Store
mark_missing_files ids s = record s { files = λ dir. map (mark_file ids) (s.files dir) }

-- `upsertFiles`: the rows to insert, then the statement that inserts them.
abbrev pub with_id : ℕ → File → File
with_id new f = if f.id == 0 then record f { id = new } else f

unfoldable pub issue_ids : ℕ → List File → List File
issue_ids new [] = []
issue_ids new (f ∷ fs) = with_id new f ∷ issue_ids (suc new) fs

abbrev pub overwrite : File → File → File
overwrite f row = record row {
  kind = f.kind;
  size = f.size;
  mod_time = f.mod_time;
  missing = false;
}

unfoldable pub upsert_file : File → List File → List File
upsert_file f [] = record f { missing = false } ∷ []
upsert_file f (row ∷ rows) =
    let rest = upsert_file f rows in
    if text_eq row.name f.name then overwrite f row ∷ rows else row ∷ rest

unfoldable pub insert_files : List File → List File → List File
insert_files [] rows = rows
insert_files (f ∷ fs) rows = insert_files fs (upsert_file f rows)

unfoldable pub upsert_files : ℕ → List File → Store → Store
unfolding issue_ids insert_files
upsert_files dir files s = record s {
  files = update s.files dir (insert_files (issue_ids s.issued files) (s.files dir));
  issued = s.issued + length files;
}

-- `SyncDir`: the row is new, or is seen and never made clean.
abbrev pub new_dir : ℕ → SyncPayload → DirRow
new_dir new p = record {
  id = new;
  location_id = p.location_id;
  relpath = p.relpath;
  seen_generation = p.generation;
  missing = false;
  dirty = p.dirty;
  locked_generation = none;
}

abbrev pub seen_dir : SyncPayload → DirRow → DirRow
seen_dir p d = record d {
  seen_generation = p.generation;
  missing = false;
  dirty = p.dirty || d.dirty;
}

unfoldable pub upsert_dir : ℕ → SyncPayload → List DirRow → List DirRow
upsert_dir new p [] = new_dir new p ∷ []
upsert_dir new p (d ∷ ds) =
    let rest = upsert_dir new p ds in
    if is_at p.location_id p.relpath d then seen_dir p d ∷ ds else d ∷ rest

abbrev pub id_or : ℕ → Option ℕ → ℕ
id_or new none = new
id_or new (some id) = id

unfoldable pub sync_dir : SyncPayload → Store → Store
unfolding mark_missing_files upsert_files upsert_dir
sync_dir p s =
    let dir = id_or s.issued (dir_id p.location_id p.relpath s) in
    let synced = record s { dirs = upsert_dir s.issued p s.dirs; issued = suc s.issued } in
    upsert_files dir p.changed (mark_missing_files p.missing synced)

-- `Sweep`: the files of the directories that the scan did not see, then these directories.
abbrev pub is_unseen : ℕ → ℕ → DirRow → Bool
is_unseen loc gen d = d.location_id == loc && (ltb d.seen_generation gen && not d.missing)

abbrev pub sweep_row : ℕ → ℕ → DirRow → DirRow
sweep_row loc gen d = if is_unseen loc gen d then record d { missing = true } else d

abbrev pub holds_id : ℕ → List DirRow → Bool
holds_id id [] = false
holds_id id (d ∷ ds) = d.id == id || holds_id id ds

unfoldable pub sweep : ℕ → ℕ → Store → Store
sweep loc gen s = record s {
  files = λ dir.
      if holds_id dir (keep (is_unseen loc gen) s.dirs)
      then map (λ (f : File). record f { missing = true }) (s.files dir)
      else s.files dir;
  dirs = map (sweep_row loc gen) s.dirs;
}

-- `DirFiles` reads the files that are not missing.
unfoldable pub dir_files : ℕ → Store → List File
dir_files dir s = keep (λ (f : File). not f.missing) (s.files dir)
