-- ===== src/Sync/Directories.antt =====
-- What `syncDir` of scan/sync.go leaves in the store of the directory that it syncs, and of the others.
use byom.Prelude.{
  if◌then◌else◌, ℕ, suc, ◌≤◌, ◌<◌, ◌≡◌, ◌≢◌, refl, inl, inr, Text, text_eq, true, false, Option,
  none, some, List, [], map, ◌==◌, ==_iff, All, arith, Bool-cases, update, update_self,
}
use byom.Storage.{
  File, DirRow, Store, RelPath, lookup, without_missing, mark_file, dir_id, id_or, known_files,
  sync_dir, upsert_files, mark_missing_files,
}
use byom.Storage.Tables.{AreNamed, each, each-some, lookup-map, map-AreNamed}
use byom.Sync.{
  WalkResult, Scope, Synced, compare_files, compute_changeset, known_of, payload_of, sync_walked,
  find_entry,
}
use byom.Sync.Changes.{AreEntries}
use byom.Sync.Missing.{missing_none, All-lookup}
use byom.Sync.Files.{sync_rows, synced_file, new_id, lookup-sync_rows}

-- What the constraints of the two tables and the issue of IDs give of a store.
pub record IsSound (s : Store) : Type 0 where
  pub named : (dir : ℕ) → AreNamed (s.files dir)
  pub ids :
      (d e : ℕ) (n m : Text) (f g : File)
      → lookup n (s.files d) ≡ some f
      → lookup m (s.files e) ≡ some g
      → (f.id == g.id) ≡ true
      → (d ≡ e) × (text_eq n m ≡ true)
  pub used :
      (d : ℕ) (n : Text) (f : File) → lookup n (s.files d) ≡ some f → (0 < f.id) × (f.id < s.issued)
  pub unused : (d : ℕ) → s.issued ≤ d → s.files d ≡ []
  pub dirs_used : All (λ (d : DirRow). d.id < s.issued) s.dirs

-- The directory that a sync writes: its row's, or that of the next ID.
abbrev pub dir_of : ℕ → RelPath → Store → ℕ
dir_of loc rel s = id_or s.issued (dir_id loc rel s)

pub known_of-rows :
    (o : Option ℕ) (s : Store)
    → IsSound s
    → known_of o s ≡ map without_missing (s.files (id_or s.issued o))
unfolding known_files
known_of-rows none s v = rw (v.unused s.issued (omega arith)) refl
known_of-rows (some dir) s v = refl

-- The tables of files after a sync, in terms of the rows before.
abbrev pub missing_ids : WalkResult → List File → List ℕ
missing_ids res rows = (compare_files res.files (map without_missing rows)).1

pub sync_walked-tables :
    (r : Scope) (res : WalkResult) (w : Synced)
    → IsSound w.store
    → let dir = dir_of r.location_id res.dir w.store in
      (sync_walked r res w).store.files
      ≡ update
          (λ d. map (mark_file (missing_ids res (w.store.files dir))) (w.store.files d))
          dir
          (sync_rows (suc w.store.issued) res.files (w.store.files dir))
unfolding sync_walked payload_of compute_changeset sync_dir upsert_files mark_missing_files
    sync_rows
sync_walked-tables r res w v =
    rw (known_of-rows (dir_id r.location_id res.dir w.store) w.store v) refl

-- No row of another directory has an ID among the missing.
lookup-mark_others :
    (res : WalkResult) (s : Store) (dir other : ℕ) (name : Text)
    → IsSound s
    → other ≢ dir
    → lookup name (map (mark_file (missing_ids res (s.files dir))) (s.files other))
      ≡ lookup name (s.files other)
lookup-mark_others res s dir other name v ne =
    rw (lookup-map (mark_file ms) name (s.files other) (λ f. ground arith))
      (go (lookup name (s.files other)) refl)
  where
    known : List File
    known = map without_missing (s.files dir)

    ms : List ℕ
    ms = missing_ids res (s.files dir)

    apart :
        (g : File)
        → lookup name (s.files other) ≡ some g
        → All (λ (h : File). (g.id == h.id) ≡ false) known
    apart g found =
        All-lookup (λ (h : File). (g.id == h.id) ≡ false) known
          (map-AreNamed without_missing (s.files dir) (λ f. refl) (v.named dir))
          (λ m h e.
            let (row, at, is) =
              each-some without_missing (lookup m (s.files dir)) h
                (rw (← lookup-map without_missing m (s.files dir) (λ f. refl)) e) in
            elim (Bool-cases (g.id == h.id)) [
              | inl same ↦ absurd (ne (v.ids other dir name m g row found at (grind arith)).0)
              | inr different ↦ different
            ])

    go : (o : Option File) → lookup name (s.files other) ≡ o → each (mark_file ms) o ≡ o
    go none h = refl
    go (some g) h = rw (missing_none g.id res.files known (apart g h)) refl

pub sync_walked-lookup :
    (r : Scope) (res : WalkResult) (w : Synced)
    → AreEntries res.files
    → IsSound w.store
    → (name : Text)
    → let dir = dir_of r.location_id res.dir w.store in
      let rows = w.store.files dir in
      let w' = sync_walked r res w in
      (lookup name (w'.store.files dir)
        ≡ synced_file
            (new_id name (suc w.store.issued) res.files rows)
            (find_entry name res.files)
            (lookup name rows))
      × ((other : ℕ)
          → other ≢ dir
          → lookup name (w'.store.files other) ≡ lookup name (w.store.files other))
sync_walked-lookup r res w entries v name = rw (sync_walked-tables r res w v) (
  rw (update_self files dir (sync_rows (suc w.store.issued) res.files rows)) (
      lookup-sync_rows (suc w.store.issued) res.files rows entries (v.named dir)
        (λ n m f g a b same. (v.ids dir dir n m f g a b same).1) (λ n g e. (v.used dir n g e).0)
        name),
  λ other ne. rw (differs other ne) (lookup-mark_others res w.store dir other name v ne),
)
  where
    dir : ℕ
    dir = dir_of r.location_id res.dir w.store

    rows : List File
    rows = w.store.files dir

    files : ℕ → List File
    files d = map (mark_file (missing_ids res rows)) (w.store.files d)

    differs : (other : ℕ) → other ≢ dir → (other == dir) ≡ false
    differs other ne = ground arith

-- The files of the synced directory are those that the walk and the rows before it ask for, name by
-- name, and the files of any other directory stay as they are.
pub sync_walked-files :
    (r : Scope) (res : WalkResult) (w : Synced)
    → AreEntries res.files
    → IsSound w.store
    → (d : ℕ) (name : Text)
    → let dir = dir_of r.location_id res.dir w.store in
      let rows = w.store.files dir in
      lookup name ((sync_walked r res w).store.files d) ≡ (
        if d == dir
        then synced_file
            (new_id name (suc w.store.issued) res.files rows)
            (find_entry name res.files)
            (lookup name rows)
        else lookup name (w.store.files d))
sync_walked-files r res w entries v d name =
    let dir = dir_of r.location_id res.dir w.store in
    elim (Bool-cases (d == dir)) [
      | inl same ↦
          rw same (rw ((==_iff d dir).0 same) (sync_walked-lookup r res w entries v name).0)
      | inr other ↦ rw other ((sync_walked-lookup r res w entries v name).1 d (ground arith))
    ]
