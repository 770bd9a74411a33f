-- ===== src/ParseQueue.antt =====
-- The queue of directories to parse: sqlite/parsequeue.go on the rows of `dirs`, the part of
-- `BeginScan` in sqlite/scan.go that writes them, and `pump`, `recordFailure`, `releaseFailed` and the
-- end of `parseClaimed` in metadata/pipeline.go. The rows are claimed in the order of the table, where
-- the code leaves the order open. A call of the database that fails changes nothing.
pub mod Pumping
pub mod Releases
mod Tests
use byom.Prelude.{
  ℕ, zero, suc, ◌+◌, ◌-◌, ◌*◌, ◌^◌, Bool, true, false, not, ◌&&◌, ◌||◌, Option, none, some, List,
  [], ◌∷◌, ◌++◌, map, ◌==◌, leb, is_empty, update, Result, ok, err, if◌then◌else◌,
}
use byom.Storage.{RelPath, DirRow}

pub record ClaimedDir : Type 0 where
  pub id : ℕ
  pub relpath : RelPath
  pub location_id : ℕ
  pub locked_generation : ℕ

abbrev pub is_none {ℓ} : {A : Type ℓ} → Option A → Bool
is_none none = true
is_none (some a) = false

-- `DirtyDirs`.
abbrev pub is_claimable : DirRow → Bool
is_claimable d = d.dirty && is_none d.locked_generation

abbrev pub claimed : DirRow → ClaimedDir
claimed d = record {
  id = d.id;
  relpath = d.relpath;
  location_id = d.location_id;
  locked_generation = d.seen_generation;
}

abbrev pub lock : DirRow → DirRow
lock d = record d { dirty = false; locked_generation = some d.seen_generation }

unfoldable pub dirty_dirs : ℕ → List DirRow → List ClaimedDir × List DirRow
dirty_dirs zero ds = ([], ds)
dirty_dirs (suc limit) [] = ([], [])
dirty_dirs (suc limit) (d ∷ ds) =
    let (claims, locked) = dirty_dirs limit ds in
    let (claims', locked') = dirty_dirs (suc limit) ds in
    if is_claimable d then (claimed d ∷ claims, lock d ∷ locked) else (claims', d ∷ locked')

-- `ReleaseDir` and `ReleaseAndRedirty`, which report a lock that is lost.
pub data QueueError : Type 0 where
  lock_lost : QueueError

abbrev pub is_locked_at : ℕ → Option ℕ → Bool
is_locked_at gen none = false
is_locked_at gen (some g) = g == gen

abbrev pub holds_lock : ℕ → ℕ → DirRow → Bool
holds_lock id gen d = d.id == id && is_locked_at gen d.locked_generation

abbrev pub any_holds : ℕ → ℕ → List DirRow → Bool
any_holds id gen [] = false
any_holds id gen (d ∷ ds) = holds_lock id gen d || any_holds id gen ds

abbrev pub release_row : ℕ → ℕ → DirRow → DirRow
release_row id gen d = if holds_lock id gen d then record d { locked_generation = none } else d

abbrev pub redirty_row : ℕ → ℕ → DirRow → DirRow
redirty_row id gen d =
    if holds_lock id gen d then record d { locked_generation = none; dirty = true } else d

unfoldable pub release_dir : ℕ → ℕ → List DirRow → Result QueueError (List DirRow)
release_dir id gen ds =
    if any_holds id gen ds then ok (map (release_row id gen) ds) else err lock_lost

unfoldable pub release_and_redirty : ℕ → ℕ → List DirRow → Result QueueError (List DirRow)
release_and_redirty id gen ds =
    if any_holds id gen ds then ok (map (redirty_row id gen) ds) else err lock_lost

-- `BeginScan` takes every lock of its location for one that a dead process left.
abbrev pub requeue_row : ℕ → DirRow → DirRow
requeue_row loc d =
    if d.location_id == loc && not (is_none d.locked_generation)
    then record d { locked_generation = none; dirty = true }
    else d

unfoldable pub requeue : ℕ → List DirRow → List DirRow
requeue loc = map (requeue_row loc)

-- `pump`, with the claims that it sends to the workers; a fuel of more than the rows that can be
-- claimed is never used up.
pub record Pumped : Type 0 where
  pub sent : List ClaimedDir
  pub dirs : List DirRow
  pub drained : Bool

abbrev pub send : List ClaimedDir → Pumped → Pumped
send claims p = record p { sent = claims ++ p.sent }

unfoldable pub pump : ℕ → ℕ → List DirRow → Pumped
unfolding dirty_dirs
pump zero batch ds = record { sent = []; dirs = ds; drained = false }
pump (suc fuel) batch ds =
    let (claims, after) = dirty_dirs batch ds in
    let rest = pump fuel batch after in
    if is_empty claims then record { sent = []; dirs = after; drained = true } else send claims rest

-- The failures of a directory in one generation; a directory without an entry has the zero value.
pub record ParseAttempts : Type 0 where
  pub generation : ℕ
  pub failures : ℕ

pub record Queue : Type 0 where
  pub dirs : List DirRow
  pub attempts : ℕ → ParseAttempts
  -- the delays after which the pipeline is to wake, the last one first
  pub wakes : List ℕ

abbrev pub max_parse_attempts : ℕ
max_parse_attempts = 3

-- `recordFailure`, `clearAttempts` and `retryDelay` with a positive base.
abbrev pub failed_again : ℕ → ParseAttempts → ParseAttempts
failed_again gen at =
    if at.generation == gen
    then record at { failures = at.failures + 1 }
    else record { generation = gen; failures = 1 }

abbrev pub no_attempts : ParseAttempts
no_attempts = record { generation = 0; failures = 0 }

abbrev pub retry_delay : ℕ → ℕ → ℕ
retry_delay base failures = base * 2 ^ (failures - 1)

abbrev pub or_unchanged : List DirRow → Result QueueError (List DirRow) → List DirRow
or_unchanged ds (ok after) = after
or_unchanged ds (err e) = ds

-- `releaseFailed`, when its context is live.
abbrev pub requeued : ℕ → ParseAttempts → Queue → Result QueueError (List DirRow) → Queue
requeued base at q (err e) = q
requeued base at q (ok after) = record q {
  dirs = after;
  wakes = retry_delay base at.failures ∷ q.wakes;
}

unfoldable pub release_failed : ℕ → ClaimedDir → Queue → Queue
unfolding release_dir release_and_redirty
release_failed base c q =
    let at = failed_again c.locked_generation (q.attempts c.id) in
    let counted = record q { attempts = update q.attempts c.id at } in
    if leb max_parse_attempts at.failures
    then record counted { dirs = or_unchanged q.dirs (release_dir c.id c.locked_generation q.dirs) }
    else requeued base at counted (release_and_redirty c.id c.locked_generation q.dirs)

-- `parseClaimed` from the result on: whether all before it and the import went well.
unfoldable pub end_parse : ℕ → ClaimedDir → Bool → Queue → Queue
unfolding release_failed
end_parse base c true q = record q {
  attempts = update q.attempts c.id no_attempts;
  dirs = or_unchanged q.dirs (release_dir c.id c.locked_generation q.dirs);
}
end_parse base c false q = release_failed base c q
