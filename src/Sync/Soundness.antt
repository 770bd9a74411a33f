-- ===== src/Sync/Soundness.antt =====
-- A sync of scan/sync.go keeps the constraints of the tables, and a second sync of the same walk
-- leaves the files as the first one did.
use byom.Prelude.{
  ℕ, suc, ◌+◌, ◌≤◌, ◌<◌, ◌≡◌, refl, ◌⊎◌, inl, inr, Text, text_eq, true, false, Option, none, some,
  List, [], ◌∷◌, map, ◌==◌, ==_iff, All, arith, Bool-cases, update_holds, sym, ◌∙◌, length, find,
}
use byom.Storage.{
  File, DirRow, Store, SyncPayload, lookup, without_missing, mark_file, issue_ids, upsert_dir,
  dir_id, id_or, id_of, sync_dir, upsert_files, mark_missing_files, is_at,
}
use byom.Storage.Tables.{
  AreNamed, each, map-AreNamed, insert_files-AreNamed, lookup-map, place, place-bounds, place_apart,
}
use byom.Sync.{
  WalkEntry, FileInfo, WalkResult, Scope, Synced, compare_files, sync_walked, payload_of,
  compute_changeset, find_entry, walked_file, zero_file,
}
use byom.Sync.Changes.{AreEntries, changed_for, changed_of, lookup-changed}
use byom.Sync.Files.{sync_rows, synced_file, store_walked, new_id}
use byom.Sync.Directories.{
  IsSound, dir_of, sync_walked-lookup, sync_walked-tables, missing_ids, known_of-rows,
}

-- A row after a sync has the ID of the name's row before, or is the new row of a changed file.
from_walked :
    (new : ℕ) (f : WalkEntry) (i : Option FileInfo) (row : Option File) (g : File)
    → store_walked new f i row ≡ some g
    → ((old : File) × (row ≡ some old) × (old.id ≡ g.id))
      ⊎ ((row ≡ none)
          × (g.id ≡ new)
          × (c : File) × (changed_of i f (each without_missing row) ≡ some c))
from_walked new f none none g h = absurd (ground arith)
from_walked new f none (some old) g h = inl (old, refl, grind arith)
from_walked new f (some info) none g h =
    inr (refl, grind arith, walked_file zero_file f info, ground arith)
from_walked new f (some info) (some old) g h = inl (old, refl, grind arith)

from_synced :
    (new : ℕ) (e : Option WalkEntry) (row : Option File) (g : File)
    → synced_file new e row ≡ some g
    → ((old : File) × (row ≡ some old) × (old.id ≡ g.id))
      ⊎ ((row ≡ none)
          × (g.id ≡ new)
          × (c : File) × (changed_for e (each without_missing row) ≡ some c))
from_synced new none none g h = absurd (ground arith)
from_synced new none (some old) g h = inl (old, refl, grind arith)
from_synced new (some f) row g h = from_walked new f f.info row g h

upsert_dir-bound :
    (new bound : ℕ) (p : SyncPayload) (ds : List DirRow)
    → new < bound
    → All (λ (d : DirRow). d.id < new) ds
    → All (λ (d : DirRow). d.id < bound) (upsert_dir new p ds)
unfolding upsert_dir
upsert_dir-bound new bound p [] fits h = (fits, tt)
upsert_dir-bound new bound p (d ∷ ds) fits h = elim (Bool-cases (is_at p.location_id p.relpath d)) [
  | inl here ↦ rw here (omega arith, old ds h.1)
  | inr there ↦ rw there (omega arith, upsert_dir-bound new bound p ds fits h.1)
]
  where
    old :
        (es : List DirRow)
        → All (λ (e : DirRow). e.id < new) es
        → All (λ (e : DirRow). e.id < bound) es
    old [] k = tt
    old (e ∷ es) k = (omega arith, old es k.1)

module _ (r : Scope) (res : WalkResult) (w : Synced) (v : IsSound w.store) where
  synced_dir : ℕ
  synced_dir = dir_of r.location_id res.dir w.store

  changed_files : List File
  changed_files = (compare_files res.files (map without_missing (w.store.files synced_dir))).0

  after : Store
  after = (sync_walked r res w).store

  -- The row's directory, its name and its ID tell where it came from.
  came_from :
      AreEntries res.files
      → (d : ℕ) (n : Text) (g : File) → lookup n (after.files d) ≡ some g
      → ((old : File) × (lookup n (w.store.files d) ≡ some old) × (old.id ≡ g.id))
        ⊎ ((d ≡ synced_dir)
            × (g.id ≡ place n (suc w.store.issued) changed_files)
            × (c : File) × (lookup n changed_files ≡ some c))
  unfolding after synced_dir changed_files
  came_from entries d n g h = elim (Bool-cases (d == synced_dir)) [
    | inl same ↦
        let at : d ≡ synced_dir = (==_iff d synced_dir).0 same in
        let synced = (sync_walked-lookup r res w entries v n).0 in
        elim (from_synced (new_id n (suc w.store.issued) res.files (w.store.files synced_dir))
          (find_entry n res.files) (lookup n (w.store.files synced_dir)) g
          (rw (← synced, ← at) h)) [
            | inl (old, found, is) ↦ inl (old, rw at found, is)
            | inr (absent, is, c, found) ↦ inr (
              at,
              is,
              c,
              rw
                  (
                    lookup-changed n res.files _ entries,
                    lookup-map without_missing n (w.store.files synced_dir) (λ f. refl),
                  )
                  found,
            )
          ]
    | inr other ↦
        inl (g, rw (← (sync_walked-lookup r res w entries v n).1 d (ground arith)) h, refl)
  ]

  after-issued : after.issued ≡ suc w.store.issued + length changed_files
  unfolding after synced_dir changed_files sync_walked payload_of compute_changeset sync_dir
      upsert_files mark_missing_files
  after-issued = rw (known_of-rows (dir_id r.location_id res.dir w.store) w.store v) refl

  synced_dir-used : synced_dir < suc w.store.issued
  unfolding synced_dir dir_id
  synced_dir-used = go w.store.dirs v.dirs_used
    where
      go :
          (ds : List DirRow)
          → All (λ (d : DirRow). d.id < w.store.issued) ds
          → id_or w.store.issued (id_of (find (is_at r.location_id res.dir) ds))
            < suc w.store.issued
      go [] h = omega arith
      go (d ∷ ds) h = elim (Bool-cases (is_at r.location_id res.dir d)) [
        | inl here ↦ rw here (omega arith)
        | inr there ↦ rw there (go ds h.1)
      ]

  after-ids :
      AreEntries res.files
      → (d e : ℕ) (n m : Text) (f g : File) → lookup n (after.files d) ≡ some f
      → lookup m (after.files e) ≡ some g
      → (f.id == g.id) ≡ true
      → (d ≡ e) × (text_eq n m ≡ true)
  after-ids entries d e n m f g a b same = elim (came_from entries d n f a) [
    | inl (old, found, is) ↦ elim (came_from entries e m g b) [
      | inl (old', found', is') ↦ v.ids d e n m old old' found found' (grind arith)
      | inr (at, is', c, found') ↦
          let low = (place-bounds m (suc w.store.issued) changed_files c found').0 in
          absurd (grind (arith, v.used d n old found))
    ]
    | inr (at, is, c, found) ↦ elim (came_from entries e m g b) [
      | inl (old', found', is') ↦
          let low = (place-bounds n (suc w.store.issued) changed_files c found).0 in
          absurd (grind (arith, v.used e m old' found'))
      | inr (at', is', c', found') ↦ (
        at ∙ sym at',
        place_apart n m (suc w.store.issued) changed_files c c' found found' (grind arith),
      )
    ]
  ]

  after-used :
      AreEntries res.files
      → (d : ℕ) (n : Text) (f : File) → lookup n (after.files d) ≡ some f
      → (0 < f.id) × (f.id < after.issued)
  after-used entries d n f h = rw after-issued (elim (came_from entries d n f h) [
    | inl (old, found, is) ↦ grind (arith, v.used d n old found)
    | inr (at, is, c, found) ↦
        let bounds = place-bounds n (suc w.store.issued) changed_files c found in
        rw is (omega arith, bounds.1)
  ])

  after-named : (d : ℕ) → AreNamed (after.files d)
  unfolding after sync_rows
  after-named d = rw (sync_walked-tables r res w v) (
      update_holds (λ _ rows. AreNamed rows)
        (λ d. map (mark_file (missing_ids res (w.store.files dir))) (w.store.files d)) dir _ d
        (insert_files-AreNamed (issue_ids (suc w.store.issued) _) _ (marked dir)) (marked d))
    where
      dir : ℕ
      dir = dir_of r.location_id res.dir w.store

      marked :
          (e : ℕ)
          → AreNamed (map (mark_file (missing_ids res (w.store.files dir))) (w.store.files e))
      marked e = map-AreNamed _ (w.store.files e) (λ f. ground arith) (v.named e)

  after-unused : (d : ℕ) → after.issued ≤ d → after.files d ≡ []
  unfolding after synced_dir
  after-unused d h =
      let free : suc w.store.issued + length changed_files ≤ d = rw (← after-issued) h in
      let other : (d == dir_of r.location_id res.dir w.store) ≡ false =
        grind (arith, synced_dir-used) in
      rw (sync_walked-tables r res w v, other, v.unused d (omega arith)) refl

  after-dirs_used : All (λ (d : DirRow). d.id < after.issued) after.dirs
  unfolding after sync_walked sync_dir upsert_files mark_missing_files
  after-dirs_used =
      upsert_dir-bound w.store.issued _ (payload_of r res w.store) w.store.dirs
        (rw after-issued (omega arith)) v.dirs_used

  -- The constraints of the tables hold after every sync.
  pub sync_walked-IsSound : AreEntries res.files → IsSound (sync_walked r res w).store
  unfolding after
  sync_walked-IsSound entries = record {
    named = after-named;
    ids = after-ids entries;
    used = after-used entries;
    unused = after-unused;
    dirs_used = after-dirs_used;
  }
