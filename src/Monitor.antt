-- ===== src/Monitor.antt =====
-- The scan monitor: ui/src/lib/rpc/scan-monitor.ts.
--
-- The module's variables, with what the browser keeps for it: which timers are armed, which polls
-- wait for their answer, whether the tab is visible and whether `onVisibility` is registered. A
-- poll is two pieces of code, before and after its await. `invalidations` counts the calls of
-- `invalidateLibrary`; `issued`, the requests for the running scans.
pub mod Watching
pub mod Quiet
pub mod Invalidation
pub mod Noticing
mod Tests
use byom.Prelude.{
  ℕ, ◌+◌, Bool, true, false, not, ◌&&◌, List, [], ◌∷◌, Option, none, some, update, is_empty,
  if◌then◌else◌,
}
use byom.Proto.Management.{Scan}

pub record Monitor : Type 0 where
  pub running : List Scan
  pub timer : Option ℕ
  pub stopped : Bool
  pub armed : ℕ → Bool
  pub timers : ℕ
  -- A waiting poll, with the `previous` that it has read.
  pub polls : ℕ → Option (List Scan)
  pub issued : ℕ
  pub visible : Bool
  pub listening : Bool
  pub invalidations : ℕ

abbrev pub new_monitor : Bool → Monitor
new_monitor visible = record {
  running = [];
  timer = none;
  stopped = true;
  armed = λ h. false;
  timers = 0;
  polls = λ id. none;
  issued = 0;
  visible = visible;
  listening = false;
  invalidations = 0;
}

-- `poll` up to its await.
unfoldable pub start_poll : Monitor → Monitor
start_poll m =
    if m.stopped
    then m
    else record m { polls = update m.polls m.issued (some m.running); issued = m.issued + 1 }

-- `timer = setTimeout(poll)`.
unfoldable pub set_timer : Monitor → Monitor
set_timer m = record m {
  timer = some m.timers;
  armed = update m.armed m.timers true;
  timers = m.timers + 1;
}

-- `clearTimeout(timer)`: the variable keeps the handle.
unfoldable pub clear_timer : Monitor → Monitor
clear_timer m = elim m.timer [ some h ↦ record m { armed = update m.armed h false } | none ↦ m ]

-- The assignments of `poll` after its await, when it has not been stopped.
unfoldable pub take_answer : List Scan → List Scan → Monitor → Monitor
take_answer previous items m =
    let invalidate = not (is_empty previous) && is_empty items in
    let taken = record m {
      running = items;
      invalidations = if invalidate then m.invalidations + 1 else m.invalidations;
    } in
    if is_empty items then taken else set_timer taken

-- `poll` after its await: the answer arrives, or the request fails and the poll ends there.
unfoldable pub poll_answered : ℕ → List Scan → Monitor → Monitor
poll_answered id items m = elim (m.polls id) [
  | some previous ↦
      let m' = record m { polls = update m.polls id none } in
      if m.stopped then m' else take_answer previous items m'
  | none ↦ m
]

unfoldable pub poll_failed : ℕ → Monitor → Monitor
poll_failed id m = record m { polls = update m.polls id none }

unfoldable pub timer_fires : ℕ → Monitor → Monitor
timer_fires h m = if m.armed h then start_poll (record m { armed = update m.armed h false }) else m

unfoldable pub poke_scan_monitor : Monitor → Monitor
poke_scan_monitor m = if m.stopped then m else start_poll (clear_timer m)

unfoldable pub on_visibility : Monitor → Monitor
on_visibility m = if m.visible then poke_scan_monitor m else clear_timer m

-- The tab is shown or hidden; the listener runs if it is registered.
unfoldable pub visibility_changes : Bool → Monitor → Monitor
visibility_changes visible m =
    let m' = record m { visible = visible } in if m.listening then on_visibility m' else m'

unfoldable pub stop_monitor : Monitor → Monitor
stop_monitor m = record (clear_timer (record m { stopped = true })) { listening = false }

unfoldable pub start_scan_monitor : Monitor → Monitor
start_scan_monitor m = start_poll (record m { stopped = false; listening = true })

-- What happens to a monitor, by itself or from outside. A failed poll is an event of its own.
pub data Event : Type 0 where
  starts stops pokes : Event
  shows : Bool → Event
  fires : ℕ → Event
  answers : ℕ → List Scan → Event
  fails : ℕ → Event

unfoldable pub step : Event → Monitor → Monitor
unfolding start_poll set_timer clear_timer take_answer poll_answered poll_failed timer_fires
    poke_scan_monitor on_visibility visibility_changes stop_monitor start_scan_monitor
step starts m = start_scan_monitor m
step stops m = stop_monitor m
step pokes m = poke_scan_monitor m
step (shows visible) m = visibility_changes visible m
step (fires h) m = timer_fires h m
step (answers id items) m = poll_answered id items m
step (fails id) m = poll_failed id m

unfoldable pub run : List Event → Monitor → Monitor
run [] m = m
run (e ∷ es) m = run es (step e m)
