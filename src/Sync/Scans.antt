-- ===== src/Sync/Scans.antt =====
-- A whole scan of a location: each directory that the walk hands on is synced, then the rest is swept,
-- as `sync` of scan/scanner.go does when nothing fails.
use byom.Prelude.{
  ℕ, ◌≡◌, ◌<◌, refl, Bool, true, false, ◌&&◌, ◌||◌, Option, none, some, List, [], ◌∷◌, map, find,
  ◌==◌, arith, All, Bool-cases, inl, inr, ◌⊎◌,
}
use byom.Storage.{
  RelPath, DirRow, Store, SyncPayload, path_eq, is_at, upsert_dir, sync_dir, upsert_files,
  mark_missing_files, sweep, sweep_row, is_unseen,
}
use byom.Storage.Tables.{path_eq→eq}
use byom.Sync.{WalkResult, Scope, Synced, payload_of, sync_walked}
use byom.Sync.Repeats.{sync_walked-row, synced_dir}

unfoldable pub sync_all : Scope → List WalkResult → Synced → Synced
sync_all r [] w = w
sync_all r (res ∷ rs) w = sync_all r rs (sync_walked r res w)

-- The scan, in the order in which the results are taken.
unfoldable pub scan_all : Scope → List WalkResult → Synced → Store
unfolding sync_all
scan_all r rs w = sweep r.location_id r.generation (sync_all r rs w).store

abbrev pub has_dir : RelPath → List WalkResult → Bool
has_dir rel [] = false
has_dir rel (res ∷ rs) = path_eq res.dir rel || has_dir rel rs

-- The row of a directory, in one location.
abbrev pub row_at : ℕ → RelPath → Store → Option DirRow
row_at loc rel s = find (is_at loc rel) s.dirs

at_key :
    (loc : ℕ) (rel : RelPath) (d : DirRow)
    → is_at loc rel d ≡ true
    → (d.location_id ≡ loc) × (d.relpath ≡ rel)
at_key loc rel d h = ground (arith, path_eq→eq d.relpath rel)

find-upsert_dir_ne :
    (loc : ℕ) (rel : RelPath) (new : ℕ) (p : SyncPayload) (ds : List DirRow)
    → (p.location_id == loc && path_eq p.relpath rel) ≡ false
    → find (is_at loc rel) (upsert_dir new p ds) ≡ find (is_at loc rel) ds
unfolding upsert_dir
find-upsert_dir_ne loc rel new p [] ne = rw ne refl
find-upsert_dir_ne loc rel new p (d ∷ ds) ne = elim (Bool-cases (is_at p.location_id p.relpath d)) [
  | inl here ↦ rw here (rw (elsewhere here) refl)
  | inr there ↦ rw there (rw (find-upsert_dir_ne loc rel new p ds ne) refl)
]
  where
    elsewhere : is_at p.location_id p.relpath d ≡ true → is_at loc rel d ≡ false
    elsewhere here =
        let (same_loc, same_rel) = at_key p.location_id p.relpath d here in
        rw (same_loc, same_rel) ne

-- A sync of another directory leaves the row.
row_at-other :
    (loc : ℕ) (rel : RelPath) (r : Scope) (res : WalkResult) (w : Synced)
    → r.location_id ≡ loc
    → path_eq res.dir rel ≡ false
    → row_at loc rel (sync_walked r res w).store ≡ row_at loc rel w.store
unfolding sync_walked payload_of sync_dir upsert_files mark_missing_files
row_at-other loc rel r res w at ne =
    find-upsert_dir_ne loc rel w.store.issued (payload_of r res w.store) w.store.dirs (ground arith)

-- Whether a row was seen in this generation.
IsSeen : ℕ → Option DirRow → Type 0
IsSeen gen row = (d : DirRow) × (row ≡ some d) × (d.missing ≡ false) × (d.seen_generation ≡ gen)

row_at-own :
    (r : Scope) (res : WalkResult) (w : Synced)
    → IsSeen r.generation (row_at r.location_id res.dir (sync_walked r res w).store)
unfolding IsSeen payload_of
row_at-own r res w = (
  _,
  sync_walked-row r res w,
  go (find (is_at r.location_id res.dir) w.store.dirs),
  go' (find (is_at r.location_id res.dir) w.store.dirs),
)
  where
    go :
        (o : Option DirRow)
        → (synced_dir w.store.issued (payload_of r res w.store) o).missing ≡ false
    go none = refl
    go (some d) = refl

    go' :
        (o : Option DirRow)
        → (synced_dir w.store.issued (payload_of r res w.store) o).seen_generation ≡ r.generation
    go' none = refl
    go' (some d) = refl

-- A row that was seen stays so, whatever is synced after it.
sync_all-IsSeen :
    (r : Scope) (rel : RelPath) (rs : List WalkResult) (w : Synced)
    → IsSeen r.generation (row_at r.location_id rel w.store)
    → IsSeen r.generation (row_at r.location_id rel (sync_all r rs w).store)
unfolding sync_all
sync_all-IsSeen r rel [] w h = h
sync_all-IsSeen r rel (res ∷ rs) w h =
    sync_all-IsSeen r rel rs (sync_walked r res w) (elim (Bool-cases (path_eq res.dir rel)) [
      | inl same ↦ rw (← path_eq→eq res.dir rel same) (row_at-own r res w)
      | inr other ↦ rw (row_at-other r.location_id rel r res w refl other) h
    ])

sync_all-rows :
    (r : Scope) (rel : RelPath) (rs : List WalkResult) (w : Synced)
    → ((has_dir rel rs ≡ true)
        × IsSeen r.generation (row_at r.location_id rel (sync_all r rs w).store))
      ⊎ ((has_dir rel rs ≡ false)
          × (row_at r.location_id rel (sync_all r rs w).store ≡ row_at r.location_id rel w.store))
unfolding sync_all
sync_all-rows r rel [] w = inr (refl, refl)
sync_all-rows r rel (res ∷ rs) w = elim (Bool-cases (path_eq res.dir rel)) [
  | inl same ↦ inl (
    rw same refl,
    sync_all-IsSeen r rel rs (sync_walked r res w)
        (rw (← path_eq→eq res.dir rel same) (row_at-own r res w)),
  )
  | inr other ↦
      rw (other, ← row_at-other r.location_id rel r res w refl other)
        (sync_all-rows r rel rs (sync_walked r res w))
]

-- The sweep keeps the rows' keys.
abbrev pub swept : ℕ → ℕ → Option DirRow → Option DirRow
swept loc gen none = none
swept loc gen (some d) = some (sweep_row loc gen d)

sweep_key :
    (loc gen : ℕ) (rel : RelPath) (d : DirRow)
    → is_at loc rel (sweep_row loc gen d) ≡ is_at loc rel d
sweep_key loc gen rel d = elim (Bool-cases (is_unseen loc gen d)) [
  | inl unseen ↦ rw unseen refl
  | inr seen ↦ rw seen refl
]

row_at-sweep :
    (loc gen : ℕ) (rel : RelPath) (s : Store)
    → row_at loc rel (sweep loc gen s) ≡ swept loc gen (row_at loc rel s)
unfolding sweep
row_at-sweep loc gen rel s = go s.dirs
  where
    go :
        (ds : List DirRow)
        → find (is_at loc rel) (map (sweep_row loc gen) ds)
          ≡ swept loc gen (find (is_at loc rel) ds)
    go [] = refl
    go (d ∷ ds) = elim (Bool-cases (is_at loc rel d)) [
      | inl here ↦ rw (sweep_key loc gen rel d, here) refl
      | inr there ↦ rw (sweep_key loc gen rel d, there) (go ds)
    ]

-- A row of an earlier generation is swept.
abbrev pub left_behind : Option DirRow → Option DirRow
left_behind none = none
left_behind (some d) = some (record d { missing = true })

swept-old :
    (loc gen : ℕ) (rel : RelPath) (ds : List DirRow)
    → All (λ (d : DirRow). d.seen_generation < gen) ds
    → swept loc gen (find (is_at loc rel) ds) ≡ left_behind (find (is_at loc rel) ds)
swept-old loc gen rel [] h = refl
swept-old loc gen rel (d ∷ ds) h = elim (Bool-cases (is_at loc rel d)) [
  | inl here ↦ rw here (old (d.missing) refl (at_key loc rel d here).0)
  | inr there ↦ rw there (swept-old loc gen rel ds h.1)
]
  where
    old :
        (b : Bool)
        → d.missing ≡ b
        → d.location_id ≡ loc
        → Path (Option DirRow) (some (sweep_row loc gen d)) (some (record d { missing = true }))
    old b same at = elim (Bool-cases (is_unseen loc gen d)) [
      | inl unseen ↦ rw unseen refl
      | inr seen ↦ let gone : d.missing ≡ true = grind (arith, h.0) in rw (seen, ← gone) refl
    ]

swept-IsSeen : (loc gen : ℕ) (row : Option DirRow) → IsSeen gen row → IsSeen gen (swept loc gen row)
unfolding IsSeen
swept-IsSeen loc gen row (d, at, here, seen) =
    let still : is_unseen loc gen d ≡ false = ground (arith, here, seen) in
    rw at (d, rw still refl, here, seen)

-- After a scan that finishes, a directory that was handed on has a row that this generation has seen
-- and that is not missing, and any other row of the location is marked missing and otherwise kept,
-- when the rows before were of earlier generations.
pub scan_all-rows :
    (r : Scope) (rel : RelPath) (rs : List WalkResult) (w : Synced)
    → All (λ (d : DirRow). d.seen_generation < r.generation) w.store.dirs
    → ((has_dir rel rs ≡ true)
        × (d : DirRow) × (row_at r.location_id rel (scan_all r rs w) ≡ some d)
        × (d.missing ≡ false)
        × (d.seen_generation ≡ r.generation))
      ⊎ ((has_dir rel rs ≡ false)
          × (row_at r.location_id rel (scan_all r rs w)
              ≡ left_behind (row_at r.location_id rel w.store)))
unfolding scan_all IsSeen
scan_all-rows r rel rs w old =
    let after = (sync_all r rs w).store in
    let same = row_at-sweep r.location_id r.generation rel after in
    elim (sync_all-rows r rel rs w) [
      | inl (walked, seen) ↦
          let (d, at, here, now) =
            swept-IsSeen r.location_id r.generation (row_at r.location_id rel after) seen in
          inl (walked, d, rw same at, here, now)
      | inr (absent, kept) ↦
          inr (absent, rw (same, kept) (swept-old r.location_id r.generation rel w.store.dirs old))
    ]
