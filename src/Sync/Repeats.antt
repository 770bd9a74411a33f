-- ===== src/Sync/Repeats.antt =====
-- Later syncs of one directory: scan/sync.go run again on the store that it left.
use byom.Prelude.{
  ℕ, ◌≡◌, refl, Text, text_eq_refl, Option, none, some, List, [], ◌∷◌, map, ◌==◌, arith, Bool-cases,
  inl, inr, find, ◌||◌, ◌&&◌,
}
use byom.Storage.{
  File, DirRow, Store, SyncPayload, lookup, without_missing, is_at, dir_id, id_of, id_or, new_dir,
  seen_dir, upsert_dir, sync_dir, upsert_files, mark_missing_files,
}
use byom.Storage.Tables.{path_eq_refl, each, lookup-map}
use byom.Sync.{
  FileInfo, WalkEntry, WalkResult, Scope, Synced, compare_files, compute_changeset, payload_of,
  sync_walked, find_entry, has_any,
}
use byom.Sync.Changes.{AreEntries, changed_for, changed_of, lookup-changed}
use byom.Sync.Files.{synced_file, store_walked, has_info}
use byom.Sync.Directories.{IsSound, dir_of, known_of-rows, sync_walked-lookup}
use byom.Sync.Soundness.{sync_walked-IsSound}

-- The row of a directory after its sync.
abbrev pub synced_dir : ℕ → SyncPayload → Option DirRow → DirRow
synced_dir new p none = new_dir new p
synced_dir new p (some d) = seen_dir p d

pub find-upsert_dir :
    (new : ℕ) (p : SyncPayload) (ds : List DirRow)
    → find (is_at p.location_id p.relpath) (upsert_dir new p ds)
      ≡ some (synced_dir new p (find (is_at p.location_id p.relpath) ds))
unfolding upsert_dir
find-upsert_dir new p [] = rw (path_eq_refl p.relpath) (ground arith)
find-upsert_dir new p (d ∷ ds) = elim (Bool-cases (is_at p.location_id p.relpath d)) [
  | inl here ↦ rw here (rw here refl)
  | inr there ↦ rw there (rw there (find-upsert_dir new p ds))
]

-- The directory's row is the one before, seen in this generation, not missing, and dirty if it was or
-- if the change set says so.
pub sync_walked-row :
    (r : Scope) (res : WalkResult) (w : Synced)
    → find (is_at r.location_id res.dir) (sync_walked r res w).store.dirs
      ≡ some (
          synced_dir w.store.issued
            (payload_of r res w.store)
            (find (is_at r.location_id res.dir) w.store.dirs))
unfolding sync_walked sync_dir upsert_files mark_missing_files
sync_walked-row r res w = find-upsert_dir w.store.issued (payload_of r res w.store) w.store.dirs

id_of-synced_dir :
    (new : ℕ) (p : SyncPayload) (o : Option DirRow)
    → id_of (some (synced_dir new p o)) ≡ some (id_or new (id_of o))
id_of-synced_dir new p none = refl
id_of-synced_dir new p (some d) = refl

pub dir_id-sync_walked :
    (r : Scope) (res : WalkResult) (w : Synced)
    → dir_id r.location_id res.dir (sync_walked r res w).store
      ≡ some (dir_of r.location_id res.dir w.store)
unfolding dir_id
dir_id-sync_walked r res w = rw (sync_walked-row r res w) (
    id_of-synced_dir w.store.issued (payload_of r res w.store)
      (find (is_at r.location_id res.dir) w.store.dirs))

settled :
    (new again : ℕ) (e : Option WalkEntry) (row : Option File)
    → (synced_file again e (synced_file new e row) ≡ synced_file new e row)
      × (changed_for e (each without_missing (synced_file new e row)) ≡ none)
settled new again none none = (refl, refl)
settled new again none (some old) = (refl, refl)
settled new again (some f) row = go f.info row
  where
    go :
        (i : Option FileInfo) (o : Option File)
        → (store_walked again f i (store_walked new f i o) ≡ store_walked new f i o)
          × (changed_of i f (each without_missing (store_walked new f i o)) ≡ none)
    go none none = (refl, refl)
    go none (some old) = (refl, refl)
    go (some info) none = elim (Bool-cases (info.size == 0 && info.mod_time == 0)) [
      | inl zero ↦ rw zero (ground arith)
      | inr full ↦ rw full (ground arith)
    ]
    go (some info) (some old) = elim (Bool-cases (has_info old info)) [
      | inl same ↦ rw same (ground arith)
      | inr other ↦ rw other (ground arith)
    ]

no_names : (fs : List File) → ((name : Text) → lookup name fs ≡ none) → fs ≡ []
no_names [] h = refl
no_names (f ∷ fs) h =
    let found : lookup f.name (f ∷ fs) ≡ some f = rw (text_eq_refl f.name) refl in
    absurd (ground (arith, h f.name))

-- The lists of a payload, over the rows of the directory that it is for.
payload_of-lists :
    (r : Scope) (res : WalkResult) (s : Store) (dir : ℕ)
    → IsSound s
    → dir_of r.location_id res.dir s ≡ dir
    → let c = compare_files res.files (map without_missing (s.files dir)) in
      ((payload_of r res s).changed ≡ c.0)
      × ((payload_of r res s).missing ≡ c.1)
      × ((payload_of r res s).dirty ≡ ((has_any c.1 || has_any c.0) || r.force))
unfolding payload_of compute_changeset
payload_of-lists r res s dir v at =
    rw (← at) (rw (known_of-rows (dir_id r.location_id res.dir s) s v) (refl, refl, refl))

pub files_at :
    (r : Scope) (res : WalkResult) (w : Synced) (dir : ℕ)
    → AreEntries res.files
    → IsSound w.store
    → dir_of r.location_id res.dir w.store ≡ dir
    → (name : Text)
    → (new : ℕ) × (lookup name ((sync_walked r res w).store.files dir)
        ≡ synced_file new (find_entry name res.files) (lookup name (w.store.files dir)))
files_at r res w dir entries v at name =
    rw (← at) (_, (sync_walked-lookup r res w entries v name).0)

module _ (r : Scope) (res : WalkResult) (w : Synced) (entries : AreEntries res.files)
    (v : IsSound w.store) where
  abbrev once : Synced
  once = sync_walked r res w

  dir : ℕ
  dir = dir_of r.location_id res.dir w.store

  same_dir :
      (again : Scope)
      → again.location_id ≡ r.location_id
      → dir_of again.location_id res.dir once.store ≡ dir
  unfolding dir
  same_dir again loc = rw (loc, dir_id-sync_walked r res w) refl

  -- A second sync of the same walk, of whatever generation and forced or not, finds no changed file
  -- and leaves the files as the first did.
  pub sync_walked-again :
      (again : Scope)
      → again.location_id ≡ r.location_id
      → ((payload_of again res once.store).changed ≡ [])
        × ((name : Text)
            → let dir = dir_of r.location_id res.dir w.store in
              lookup name ((sync_walked again res once).store.files dir)
              ≡ lookup name (once.store.files dir))
  unfolding dir
  sync_walked-again again loc = (nothing, same)
    where
      sound : IsSound once.store
      sound = sync_walked-IsSound r res w v entries

      at : dir_of again.location_id res.dir once.store ≡ dir
      at = same_dir again loc

      nothing : (payload_of again res once.store).changed ≡ []
      nothing = rw (payload_of-lists again res once.store dir sound at).0 (
          no_names _ (λ name.
            let (new, first) = files_at r res w dir entries v refl name in
            rw
              (
                lookup-changed name res.files (map without_missing (once.store.files dir)) entries,
                lookup-map without_missing name (once.store.files dir) (λ f. refl),
                first,
              )
              (settled new 0 (find_entry name res.files) (lookup name (w.store.files dir))).1))

      same :
          (name : Text)
          → lookup name ((sync_walked again res once).store.files dir)
            ≡ lookup name (once.store.files dir)
      same name =
          let (new, first) = files_at r res w dir entries v refl name in
          let (new', second) = files_at again res once dir entries sound at name in
          rw (second, first)
            (settled new new' (find_entry name res.files) (lookup name (w.store.files dir))).0
