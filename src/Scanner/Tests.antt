-- ===== src/Scanner/Tests.antt =====
-- A scan that is started, counts, is cancelled and ends, and the theorems at this run.
use byom.Prelude.{ℕ, ◌<◌, ◌≡◌, refl, true, false, [], none, some, ok, err, arith, ◌⊎◌}
use byom.Scanner.{
  Scanner, StoredState, StoredScan, Counts, no_counts, not_running, no_scan, scan_running,
  is_running, new_scanner, claim, add_run, begin_scan, register, count, mark, find_running, cancel,
  finish_scan, finish_fails, release, restart, overlay, read_scan, cut_short,
}
use byom.Scanner.Validity.{is_over}
use byom.Scanner.Reach.{
  Reach, now', next, claims, begins, registers, counts, marks, finishes, releases, restarts,
}
use byom.Scanner.Guarantees.{
  Reach-claim, Reach-running_row, Reach-cancel, Later-scans, finish_fails-running,
}

program : Unit {0}
unfolding claim add_run begin_scan register count mark find_running cancel finish_scan finish_fails
    release restart overlay read_scan
program = tt

-- Location 7 claimed, the record opened at time 100, the run registered.
abbrev s1 : Scanner
s1 = add_run 7 new_scanner

abbrev s2 : Scanner
s2 = begin_scan 100 0 s1

abbrev s3 : Scanner
s3 = register 0 0 s2

abbrev counted : Counts
counted = record no_counts { dirs_seen = 4 }

abbrev s4 : Scanner
s4 = count 0 counted s3

-- Cancelled, closed as aborted at time 105, and released.
abbrev s5 : Scanner
s5 = mark 0 s4

abbrev s6 : Scanner
s6 = finish_scan 105 cut_short 0 0 s5

abbrev s7 : Scanner
s7 = release 0 s6

s4-Reach : Reach s4
unfolding program
s4-Reach =
    next
      (next (next (next now' (claims 7 refl)) (begins 100 0 (omega arith) refl))
        (registers 0 0 (omega arith) refl))
      (counts 0 counted)

s7-Reach : Reach s7
unfolding program
s7-Reach =
    next (next (next s4-Reach (marks 0)) (finishes 105 cut_short 0 0 (omega arith) refl))
      (releases 0 0 (omega arith) refl)

abbrev opened : StoredScan
opened = record {
  location_id = 7;
  state = StoredState.running;
  start_time = 100;
  finish_time = none;
  error = [];
  progress = no_counts;
}

abbrev ended : StoredScan
ended = record opened { state = StoredState.aborted; finish_time = some 105; progress = counted }

run_tests :
    (claim 7 s4 ≡ err scan_running)
    × (read_scan 0 s4 ≡ ok (record opened { progress = counted }))
    × (read_scan 0 s5 ≡ ok (record opened { progress = counted; state = StoredState.cancelling }))
    × (read_scan 0 s7 ≡ ok ended)
    × (cancel 0 s7 ≡ err not_running)
    × (cancel 1 s7 ≡ err no_scan)
    × (claim 7 s7 ≡ ok (add_run 7 s7))
unfolding program
run_tests = (refl, refl, refl, refl, refl, refl, refl)

Reach-claim_example :
    ((r : ℕ) × (r < s4.made)
      × ((s4.runs r).location_id ≡ 7)
      × (is_over (s4.runs r).phase ≡ false)
      × ((r' : ℕ)
          → r' < s4.made
          → (s4.runs r').location_id ≡ 7
          → is_over (s4.runs r').phase ≡ false
          → r' ≡ r)
      × (claim 7 s4 ≡ err scan_running))
    ⊎ (((r' : ℕ) → r' < s4.made → (s4.runs r').location_id ≡ 7 → is_over (s4.runs r').phase ≡ true)
        × (claim 7 s4 ≡ ok (add_run 7 s4)))
Reach-claim_example = Reach-claim s4-Reach 7

Reach-running_row_example :
    (s : StoredScan) × (s4.scans 0 ≡ some s)
    × (s.location_id ≡ 7)
    × (is_running s.state ≡ true)
    × ((id' : ℕ) (s' : StoredScan)
        → s4.scans id' ≡ some s'
        → s'.location_id ≡ s.location_id
        → is_running s'.state ≡ true
        → id' ≡ 0)
unfolding program
Reach-running_row_example = Reach-running_row s4-Reach 0 0 (omega arith) refl refl

Reach-cancel_example :
    ((r : ℕ) × (s : StoredScan) × (s4.by_scan 0 ≡ some r)
      × (s4.scans 0 ≡ some s)
      × (cancel 0 s4 ≡ ok (mark r s4)))
    ⊎ ((s4.by_scan 0 ≡ none)
        × (((s4.scans 0 ≡ none) × (cancel 0 s4 ≡ err no_scan))
            ⊎ ((s : StoredScan) × (s4.scans 0 ≡ some s) × (cancel 0 s4 ≡ err not_running))))
Reach-cancel_example = Reach-cancel s4-Reach 0

Later-scans_example : (restart 200 s7).scans 0 ≡ some ended
unfolding program
Later-scans_example = Later-scans s7-Reach (next now' (restarts 200)) 0 ended refl refl

finish_fails-running_example :
    let s' = release 0 (finish_fails 0 0 s4) in
    (s : StoredScan) × (read_scan 0 s' ≡ ok s)
    × (is_running s.state ≡ true)
    × (cancel 0 s' ≡ err not_running)
    × (claim 7 s' ≡ ok (add_run 7 s'))
unfolding program
finish_fails-running_example = finish_fails-running s4-Reach 0 0 (omega arith) refl
