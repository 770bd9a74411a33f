-- ===== src/Monitor/Watching.antt =====
-- A started monitor does not lose sight of running scans: ui/src/lib/rpc/scan-monitor.ts.
use byom.Prelude.{
  ℕ, ◌≡◌, ◌⊎◌, inl, inr, Bool, true, false, not, List, [], ◌∷◌, none, some, update, is_empty, arith,
  refl, if_holds, ◌∙◌, Option-cases, All,
}
use byom.Proto.Management.{Scan}
use byom.Monitor.{
  Monitor, Event, starts, stops, pokes, shows, fires, answers, fails, new_monitor, step, run,
  start_poll, clear_timer, poke_scan_monitor, on_visibility, visibility_changes, timer_fires,
  take_answer, set_timer, poll_answered, stop_monitor,
}

-- A timer is armed, or a poll waits for its answer.
abbrev pub IsWatching : Monitor → Type 0
IsWatching m =
    ((h : ℕ) × (m.armed h ≡ true))
    ⊎ ((id : ℕ) × (previous : List Scan) × (m.polls id ≡ some previous))

pub record IsSound (m : Monitor) : Type 0 where
  pub registered : m.listening ≡ not m.stopped
  pub watching : m.stopped ≡ false → m.visible ≡ true → is_empty m.running ≡ false → IsWatching m

new_monitor-IsSound : (visible : Bool) → IsSound (new_monitor visible)
new_monitor-IsSound visible = record { registered = refl; watching = λ s v r. cc }

-- The event is no failure of a poll.
abbrev pub Succeeds : Event → Type 0
Succeeds (fails id) = ⊥
Succeeds _ = Unit

start_poll-IsSound : (m : Monitor) → m.listening ≡ not m.stopped → IsSound (start_poll m)
unfolding start_poll
start_poll-IsSound m registered =
    if_holds IsSound m.stopped
      (λ off. record { registered = registered; watching = λ s v r. absurd (ground arith) })
      (λ on. record {
        registered = registered;
        watching = λ s v r. inr (m.issued, m.running, ground arith);
      })

-- A monitor that is stopped, or not shown, has nothing to watch.
off-IsSound : (m : Monitor) → m.stopped ≡ true → m.listening ≡ false → IsSound m
off-IsSound m off silent = record {
  registered = ground arith;
  watching = λ s v r. absurd (ground arith);
}

hidden-IsSound : (m : Monitor) → m.listening ≡ not m.stopped → m.visible ≡ false → IsSound m
hidden-IsSound m registered hidden = record {
  registered = registered;
  watching = λ s v r. absurd (ground arith);
}

clear_timer-registered :
    (m : Monitor)
    → m.listening ≡ not m.stopped
    → (clear_timer m).listening ≡ not (clear_timer m).stopped
unfolding clear_timer
clear_timer-registered m h = ground arith

clear_timer-visible : (m : Monitor) → (clear_timer m).visible ≡ m.visible
unfolding clear_timer
clear_timer-visible m = ground arith

poke_scan_monitor-IsSound : (m : Monitor) → IsSound m → IsSound (poke_scan_monitor m)
unfolding poke_scan_monitor
poke_scan_monitor-IsSound m s =
    if_holds IsSound m.stopped (λ off. s)
      (λ on. start_poll-IsSound (clear_timer m) (clear_timer-registered m s.registered))

-- The listener makes the monitor sound whatever it watched before.
on_visibility-IsSound :
    (m : Monitor) → m.listening ≡ not m.stopped → m.stopped ≡ false → IsSound (on_visibility m)
unfolding on_visibility poke_scan_monitor
on_visibility-IsSound m registered on =
    if_holds IsSound m.visible
      (λ shown.
        if_holds IsSound m.stopped (λ off. cc)
          (λ on. start_poll-IsSound (clear_timer m) (clear_timer-registered m registered)))
      (λ hidden.
        hidden-IsSound (clear_timer m) (clear_timer-registered m registered)
          (clear_timer-visible m ∙ hidden))

visibility_changes-IsSound :
    (visible : Bool) (m : Monitor) → IsSound m → IsSound (visibility_changes visible m)
unfolding visibility_changes
visibility_changes-IsSound visible m s =
    if_holds IsSound m.listening
      (λ heard.
        on_visibility-IsSound (record m { visible = visible }) s.registered
          (ground (arith, s.registered)))
      (λ silent. off-IsSound (record m { visible = visible }) (ground (arith, s.registered)) silent)

timer_fires-IsSound : (h : ℕ) (m : Monitor) → IsSound m → IsSound (timer_fires h m)
unfolding timer_fires
timer_fires-IsSound h m s =
    if_holds IsSound (m.armed h)
      (λ armed. start_poll-IsSound (record m { armed = update m.armed h false }) s.registered)
      (λ idle. s)

take_answer-IsSound :
    (previous items : List Scan) (m : Monitor)
    → m.listening ≡ not m.stopped
    → IsSound (take_answer previous items m)
unfolding take_answer set_timer
take_answer-IsSound previous [] m registered = record {
  registered = registered;
  watching = λ s v r. cc;
}
take_answer-IsSound previous (x ∷ items) m registered = record {
  registered = registered;
  watching = λ s v r. inl (m.timers, ground arith);
}

poll_answered-IsSound :
    (id : ℕ) (items : List Scan) (m : Monitor) → IsSound m → IsSound (poll_answered id items m)
unfolding poll_answered
poll_answered-IsSound id items m s = elim (Option-cases (m.polls id)) [
  | inl none' ↦ rw (none', poll_answered) s
  | inr (previous, waits) ↦
      rw (waits, poll_answered)
        (if_holds IsSound m.stopped
          (λ off.
            off-IsSound (record m { polls = update m.polls id none }) off
              (ground (arith, s.registered)))
          (λ on.
            take_answer-IsSound previous items (record m { polls = update m.polls id none })
              s.registered))
]

stop_monitor-IsSound : (m : Monitor) → IsSound (stop_monitor m)
unfolding stop_monitor clear_timer
stop_monitor-IsSound m = off-IsSound (stop_monitor m) (ground arith) refl

step-IsSound : (e : Event) (m : Monitor) → Succeeds e → IsSound m → IsSound (step e m)
unfolding step
step-IsSound starts m ok s =
    start_poll-IsSound (record m { stopped = false; listening = true }) refl
step-IsSound stops m ok s = stop_monitor-IsSound m
step-IsSound pokes m ok s = poke_scan_monitor-IsSound m s
step-IsSound (shows visible) m ok s = visibility_changes-IsSound visible m s
step-IsSound (fires h) m ok s = timer_fires-IsSound h m s
step-IsSound (answers id items) m ok s = poll_answered-IsSound id items m s
step-IsSound (fails id) m ok s = absurd ok

run-IsSound : (es : List Event) (m : Monitor) → All Succeeds es → IsSound m → IsSound (run es m)
unfolding run
run-IsSound [] m ok s = s
run-IsSound (e ∷ es) m ok s = run-IsSound es (step e m) ok.1 (step-IsSound e m ok.0 s)

-- After any events in which no poll fails, a monitor that is started, in a visible tab, and shows
-- running scans has a timer armed or a poll waiting: it will see the scans change.
pub run-IsWatching :
    (es : List Event) (visible : Bool)
    → All Succeeds es
    → let m = run es (new_monitor visible) in
      m.stopped ≡ false → m.visible ≡ true → is_empty m.running ≡ false → IsWatching m
run-IsWatching es visible ok on shown busy =
    (run-IsSound es (new_monitor visible) ok (new_monitor-IsSound visible)).watching on shown busy

-- A poll that fails is the end of it: if it was the only one, and no timer is armed, the monitor
-- goes on showing the scans that it showed, and watches nothing.
poll_failed-stalls :
    (m : Monitor) (id : ℕ)
    → ((h : ℕ) → m.armed h ≡ false)
    → ((id' : ℕ) (previous : List Scan) → m.polls id' ≡ some previous → id' ≡ id)
    → ((step (fails id) m).running ≡ m.running) × (¬ IsWatching (step (fails id) m))
unfolding step
poll_failed-stalls m id unarmed only = (refl, nothing)
  where
    nothing : ¬ IsWatching (step (fails id) m)
    nothing (inl (h, armed)) = ground (arith, unarmed h)
    nothing (inr (id', previous, waits)) = ground (arith, only id' previous)
