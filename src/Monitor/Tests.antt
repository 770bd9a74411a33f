-- ===== src/Monitor/Tests.antt =====
-- Runs of ui/src/lib/rpc/scan-monitor.ts, as in scan-monitor.test.ts, and the theorems at runs.
use byom.Prelude.{◌≡◌, true, false, codes, List, [], ◌∷◌, none, arith, refl}
use byom.Proto.Management.{Scan, ScanState}
use byom.Monitor.{
  Monitor, Event, starts, stops, pokes, shows, fires, answers, new_monitor, step, run, stop_monitor,
}
use byom.Monitor.Watching.{IsWatching, run-IsWatching}
use byom.Monitor.Quiet.{IsQuiet, stop_monitor-IsQuiet}

abbrev scan : Scan
scan = record {
  id = codes "s1";
  location_id = codes "l1";
  state = ScanState.running;
  start_time = none;
  finish_time = none;
  error = [];
  progress = none;
}

abbrev scans : List Scan
scans = scan ∷ []

-- Started in a visible tab; a scan runs; its timer fires.
abbrev begun : Monitor
begun = run (starts ∷ []) (new_monitor true)

abbrev busy : Monitor
busy = run (starts ∷ answers 0 scans ∷ fires 0 ∷ []) (new_monitor true)

run_tests :
    (begun.issued ≡ 1)
    × (busy.running ≡ scans)
    × (busy.issued ≡ 2)
    × ((run (answers 1 [] ∷ []) busy).invalidations ≡ 1)
    × ((run (answers 1 [] ∷ fires 1 ∷ []) busy).issued ≡ 2)
    × ((run (stops ∷ answers 1 scans ∷ fires 1 ∷ []) busy).issued ≡ 2)
unfolding run step
run_tests = (refl, refl, refl, refl, refl, refl)

run-IsWatching_example : IsWatching busy
unfolding run step
run-IsWatching_example =
    run-IsWatching (starts ∷ answers 0 scans ∷ fires 0 ∷ []) true (omega arith) refl refl refl

stop_monitor-IsQuiet_example :
    IsQuiet busy (run (answers 1 scans ∷ fires 1 ∷ shows true ∷ pokes ∷ []) (stop_monitor busy))
stop_monitor-IsQuiet_example =
    stop_monitor-IsQuiet (answers 1 scans ∷ fires 1 ∷ shows true ∷ pokes ∷ []) busy
      (tt, (tt, (tt, (tt, tt))))

abbrev ending : List Event
ending = pokes ∷ shows false ∷ answers 2 scans ∷ stops ∷ starts ∷ answers 1 [] ∷ answers 3 [] ∷ []

ending_test : ((run ending busy).running ≡ []) × ((run ending busy).invalidations ≡ 2)
unfolding run step
ending_test = (refl, refl)

-- Started, with its first poll answered by a running scan.
abbrev armed : Monitor
armed = run (starts ∷ answers 0 scans ∷ []) (new_monitor true)
