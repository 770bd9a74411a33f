-- ===== src/Monitor/Quiet.antt =====
-- When the monitor of ui/src/lib/rpc/scan-monitor.ts polls, and when it does not.
use byom.Prelude.{
  ℕ, ◌+◌, ◌<◌, ◌≡◌, true, false, List, [], ◌∷◌, some, is_empty, arith, refl, All, ◌∙◌,
}
use byom.Proto.Management.{Scan}
use byom.Monitor.{
  Monitor, Event, starts, stops, pokes, shows, fires, answers, fails, step, run, clear_timer,
  stop_monitor,
}

abbrev pub IsNotStart : Event → Type 0
IsNotStart starts = ⊥
IsNotStart _ = Unit

-- `m'` is stopped, and has asked, shown and invalidated what `m` had.
pub record IsQuiet (m m' : Monitor) : Type 0 where
  pub stopped : m'.stopped ≡ true
  pub issued : m'.issued ≡ m.issued
  pub running : m'.running ≡ m.running
  pub invalidations : m'.invalidations ≡ m.invalidations

step-IsQuiet : (e : Event) (m : Monitor) → IsNotStart e → m.stopped ≡ true → IsQuiet m (step e m)
unfolding step
step-IsQuiet starts m ok off = absurd ok
step-IsQuiet stops m ok off = ground arith
step-IsQuiet pokes m ok off = ground arith
step-IsQuiet (shows visible) m ok off = ground arith
step-IsQuiet (fires h) m ok off = ground arith
step-IsQuiet (answers id items) m ok off = ground arith
step-IsQuiet (fails id) m ok off = ground arith

run-IsQuiet :
    (es : List Event) (m : Monitor) → All IsNotStart es → m.stopped ≡ true → IsQuiet m (run es m)
unfolding run
run-IsQuiet [] m ok off = record {
  stopped = off;
  issued = refl;
  running = refl;
  invalidations = refl;
}
run-IsQuiet (e ∷ es) m ok off =
    let one = step-IsQuiet e m ok.0 off in
    let rest = run-IsQuiet es (step e m) ok.1 one.stopped in
    record {
      stopped = rest.stopped;
      issued = rest.issued ∙ one.issued;
      running = rest.running ∙ one.running;
      invalidations = rest.invalidations ∙ one.invalidations;
    }

-- Once a monitor is stopped, and until it is started again, it asks for nothing, shows what it
-- showed and invalidates nothing, whatever fires, is answered, shown or poked.
pub stop_monitor-IsQuiet :
    (es : List Event) (m : Monitor) → All IsNotStart es → IsQuiet m (run es (stop_monitor m))
unfolding stop_monitor clear_timer
stop_monitor-IsQuiet es m ok =
    let rest = run-IsQuiet es (stop_monitor m) ok (ground arith) in
    record {
      stopped = rest.stopped;
      issued = rest.issued ∙ ground arith;
      running = rest.running ∙ ground arith;
      invalidations = rest.invalidations ∙ ground arith;
    }

-- A tab that is hidden while a poll waits, and whose answer has running scans, polls again while
-- it is hidden.
shows-polls_on :
    (m : Monitor) (id : ℕ) (previous items : List Scan)
    → m.stopped ≡ false
    → m.listening ≡ true
    → m.polls id ≡ some previous
    → is_empty items ≡ false
    → let m' = run (shows false ∷ answers id items ∷ fires m.timers ∷ []) m in
      (m'.visible ≡ false) × (m'.issued ≡ m.issued + 1)
unfolding run step
shows-polls_on m id previous items on heard waits more = ground arith

-- A monitor that is poked while a poll waits runs two timers from then on: when both polls have
-- been answered with running scans, hiding the tab clears the later timer alone, and the earlier
-- one polls again.
pokes-doubles :
    (m : Monitor) (id : ℕ) (previous xs ys : List Scan)
    → m.stopped ≡ false
    → m.listening ≡ true
    → m.polls id ≡ some previous
    → id < m.issued
    → is_empty xs ≡ false
    → is_empty ys ≡ false
    → let m' = run (pokes ∷ answers id xs ∷ answers m.issued ys ∷ shows false ∷ []) m in
      (m'.visible ≡ false)
      × (m'.armed m.timers ≡ true)
      × (m'.armed (m.timers + 1) ≡ false)
      × ((step (fires m.timers) m').issued ≡ m.issued + 2)
unfolding run step
pokes-doubles m id previous xs ys on heard waits old more more' = ground arith
