-- ===== src/Monitor/Noticing.antt =====
-- Two orders of events at the end of the running scans, in ui/src/lib/rpc/scan-monitor.ts.
use byom.Prelude.{ℕ, ◌+◌, ◌<◌, ◌≡◌, true, false, List, [], ◌∷◌, some, is_empty, arith}
use byom.Proto.Management.{Scan}
use byom.Monitor.{Monitor, pokes, fires, answers, step, run}

-- If a started monitor shows running scans and one of its timers is armed, the poll that the timer
-- starts, when it is answered with none, makes the monitor show none, invalidates the library once,
-- and schedules nothing.
fires-invalidates :
    (m : Monitor) (h : ℕ)
    → m.stopped ≡ false
    → m.armed h ≡ true
    → is_empty m.running ≡ false
    → let m' = run (fires h ∷ answers m.issued [] ∷ []) m in
      (m'.running ≡ []) × (m'.invalidations ≡ m.invalidations + 1) × (m'.timers ≡ m.timers)
unfolding run step
fires-invalidates m h on armed busy = ground arith

-- If a started monitor that shows no scans is poked while a poll waits, the first poll is answered
-- with running scans and the second with none, then the library is not invalidated for these scans,
-- by that answer or by the poll of the timer that the first answer has set.
pokes-misses :
    (m : Monitor) (id : ℕ) (xs : List Scan)
    → m.stopped ≡ false
    → m.polls id ≡ some []
    → m.running ≡ []
    → id < m.issued
    → is_empty xs ≡ false
    → let m1 = run (pokes ∷ answers id xs ∷ []) m in
      let m2 = run (answers m.issued [] ∷ fires m.timers ∷ answers (m.issued + 1) [] ∷ []) m1 in
      (m1.running ≡ xs)
      × (m2.running ≡ [])
      × (m2.invalidations ≡ m.invalidations)
      × (m2.timers ≡ m.timers + 1)
      × (m2.armed m.timers ≡ false)
unfolding run step
pokes-misses m id xs on waits idle old busy = ground arith
