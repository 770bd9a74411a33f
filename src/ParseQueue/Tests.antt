-- ===== src/ParseQueue/Tests.antt =====
-- A queue of two directories, a parse that fails three times, a scan that begins while a directory is
-- parsed, and the theorems at these runs.
use byom.Prelude.{
  ℕ, ◌≡◌, refl, codes, Bool, true, false, none, some, List, [], ◌∷◌, ok, err, find, arith,
}
use byom.Storage.{DirRow, SyncPayload, is_at, path_eq, upsert_dir}
use byom.ParseQueue.{
  ClaimedDir, is_claimable, dirty_dirs, release_dir, release_and_redirty, requeue, pump, Queue,
  no_attempts, release_failed, end_parse, lock_lost,
}
use byom.ParseQueue.Pumping.{claims_of, locked_of, pump-drains}
use byom.ParseQueue.Releases.{synced-claimable}

program : Unit {0}
unfolding byom.Prelude.text_eq path_eq upsert_dir dirty_dirs release_dir release_and_redirty requeue
    pump release_failed end_parse claims_of locked_of
program = tt

abbrev album : DirRow
album = record {
  id = 1;
  location_id = 7;
  relpath = codes "A" ∷ [];
  seen_generation = 4;
  missing = false;
  dirty = true;
  locked_generation = none;
}

abbrev other : DirRow
other = record album { id = 2; relpath = [] }

abbrev parsing : DirRow
parsing = record album { dirty = false; locked_generation = some 4 }

abbrev album_claim : ClaimedDir
album_claim = record { id = 1; relpath = codes "A" ∷ []; location_id = 7; locked_generation = 4 }

abbrev idle : Queue
idle = record { dirs = parsing ∷ []; attempts = λ id. no_attempts; wakes = [] }

abbrev failed_once : Queue
failed_once = end_parse 5 album_claim false idle

-- Claimed and failed again.
abbrev failed_twice : Queue
failed_twice = end_parse 5 album_claim false (record failed_once { dirs = parsing ∷ [] })

abbrev failed_thrice : Queue
failed_thrice = end_parse 5 album_claim false (record failed_twice { dirs = parsing ∷ [] })

queue_tests :
    (dirty_dirs 1 (album ∷ other ∷ []) ≡ (album_claim ∷ [], parsing ∷ other ∷ []))
    × (failed_once.dirs ≡ album ∷ [])
    × (failed_twice.wakes ≡ 10 ∷ 5 ∷ [])
    × (failed_thrice.dirs ≡ record album { dirty = false } ∷ [])
    × (failed_thrice.wakes ≡ 10 ∷ 5 ∷ [])
    × ((end_parse 5 album_claim true failed_once).dirs ≡ album ∷ [])
unfolding program
queue_tests = (refl, refl, refl, refl, refl, refl)

-- A scan that begins while a worker parses: another worker claims the directory, the release of the
-- first one takes the lock of the second, and that of the second finds it lost.
begin_tests :
    (requeue 7 (parsing ∷ []) ≡ album ∷ [])
    × (dirty_dirs 1 (requeue 7 (parsing ∷ [])) ≡ (album_claim ∷ [], parsing ∷ []))
    × (release_dir 1 4 (parsing ∷ []) ≡ ok (record album { dirty = false } ∷ []))
    × (release_dir 1 4 (record album { dirty = false } ∷ []) ≡ err lock_lost)
unfolding program
begin_tests = (refl, refl, refl, refl)

pump-drains_example : pump 3 1 (album ∷ other ∷ []) ≡ record {
  sent = claims_of (album ∷ other ∷ []);
  dirs = locked_of (album ∷ other ∷ []);
  drained = true;
}
unfolding program
pump-drains_example = pump-drains 3 1 (album ∷ other ∷ []) (omega arith) (omega arith)

abbrev change : SyncPayload
change = record {
  location_id = 7;
  relpath = codes "A" ∷ [];
  generation = 5;
  changed = [];
  missing = [];
  dirty = true;
}

synced-claimable_example :
    (after : List DirRow) × (e : DirRow) × (release_dir 1 4
        (upsert_dir 9 change (other ∷ parsing ∷ []))
      ≡ ok after)
    × (find (is_at 7 (codes "A" ∷ [])) after ≡ some e)
    × (is_claimable e ≡ true)
    × (e.id ≡ 1)
    × (e.seen_generation ≡ 5)
unfolding program
synced-claimable_example = synced-claimable 9 4 change (other ∷ parsing ∷ []) parsing refl refl refl
