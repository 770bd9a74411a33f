-- ===== src/ParseQueue/Releases.antt =====
-- A directory that is synced while it is parsed: sqlite/parsequeue.go with `SyncDir` of sqlite/scan.go.
use byom.Prelude.{
  ℕ, ◌≡◌, refl, true, none, some, List, [], ◌∷◌, map, find, arith, Bool-cases, inl, inr, ok,
}
use byom.Storage.{RelPath, DirRow, SyncPayload, is_at, upsert_dir, seen_dir}
use byom.Sync.Repeats.{find-upsert_dir}
use byom.ParseQueue.{is_claimable, holds_lock, any_holds, release_row, release_dir}

-- A release keeps where the rows are.
release_row-at :
    (id gen loc : ℕ) (rel : RelPath) (d : DirRow)
    → is_at loc rel (release_row id gen d) ≡ is_at loc rel d
release_row-at id gen loc rel d = elim (Bool-cases (holds_lock id gen d)) [
  | inl held ↦ rw held refl
  | inr other ↦ rw other refl
]

find-release :
    (id gen loc : ℕ) (rel : RelPath) (ds : List DirRow) (d : DirRow)
    → find (is_at loc rel) ds ≡ some d
    → find (is_at loc rel) (map (release_row id gen) ds) ≡ some (release_row id gen d)
find-release id gen loc rel [] d h = absurd (ground arith)
find-release id gen loc rel (e ∷ es) d h = elim (Bool-cases (is_at loc rel e)) [
  | inl here ↦ let at : e ≡ d = grind arith in rw (release_row-at id gen loc rel e, here, at) refl
  | inr there ↦
      rw (release_row-at id gen loc rel e, there) (find-release id gen loc rel es d (rw there at h))
]

found-held :
    (id gen loc : ℕ) (rel : RelPath) (ds : List DirRow) (d : DirRow)
    → find (is_at loc rel) ds ≡ some d
    → holds_lock id gen d ≡ true
    → any_holds id gen ds ≡ true
found-held id gen loc rel [] d h held = absurd (ground arith)
found-held id gen loc rel (e ∷ es) d h held = elim (Bool-cases (is_at loc rel e)) [
  | inl here ↦ let at : e ≡ d = grind arith in rw (at, held) refl
  | inr there ↦ grind (arith, found-held id gen loc rel es d)
]

-- A change that a sync finds while a directory is parsed is not lost: after the worker's release, which
-- has its lock, the directory can be claimed again, and it is the row that the sync wrote.
pub synced-claimable :
    (new gen : ℕ) (p : SyncPayload) (ds : List DirRow) (d : DirRow)
    → find (is_at p.location_id p.relpath) ds ≡ some d
    → d.locked_generation ≡ some gen
    → p.dirty ≡ true
    → (after : List DirRow) × (e : DirRow) × (release_dir d.id gen (upsert_dir new p ds) ≡ ok after)
      × (find (is_at p.location_id p.relpath) after ≡ some e)
      × (is_claimable e ≡ true)
      × (e.id ≡ d.id)
      × (e.seen_generation ≡ p.generation)
unfolding release_dir
synced-claimable new gen p ds d found locked dirty =
    let seen = seen_dir p d in
    let row : find (is_at p.location_id p.relpath) (upsert_dir new p ds) ≡ some seen =
      rw (find-upsert_dir new p ds, found) refl in
    let held : holds_lock d.id gen seen ≡ true = rw locked (ground arith) in
    let any' = found-held d.id gen p.location_id p.relpath (upsert_dir new p ds) seen row held in
    let released = find-release d.id gen p.location_id p.relpath (upsert_dir new p ds) seen row in
    (
      map (release_row d.id gen) (upsert_dir new p ds),
      record seen { locked_generation = none },
      rw any' refl,
      rw (released, held) refl,
      rw dirty refl,
      refl,
      refl,
    )
