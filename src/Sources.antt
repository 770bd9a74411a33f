-- ===== src/Sources.antt =====
-- The library sources on the settings page: ui/src/features/management/LocationCard.tsx,
-- AddSourceForm.tsx, ScanPanel.tsx, ScanHistory.tsx and ScanIndicator.tsx beside it, and
-- `runningFor` of ui/src/routes/settings.tsx.
--
-- A card is one source's LocationCard with the scan monitor that it reads and pokes. A click is
-- one event and the answer to the request that it makes is another, as in the monitor.
pub mod Requests
pub mod Rows
pub mod Texts
mod Tests
use byom.Prelude.{
  ℕ, ◌+◌, ◌-◌, ◌/◌, ◌%◌, Text, text_eq, truthy, codes, decimal, pad_start, Bool, true, false, not,
  ◌||◌, List, [], ◌∷◌, ◌++◌, Option, none, some, update, find, is_empty, if◌then◌else◌,
}
use byom.Proto.Management.{Location, Scan, ScanState, Timestamp, Progress}
use byom.Format.{relative_time}
use byom.Monitor.{Monitor, poke_scan_monitor, poll_answered}

-- `runningFor`.
abbrev pub running_for : Text → List Scan → Option Scan
running_for location_id scans = find (λ s. text_eq s.location_id location_id) scans

-- `scanLocation(id, force)` and `cancelScan(id)`.
pub data Request : Type 0 where
  scans : Text → Bool → Request
  cancels : Text → Request

pub record Card : Type 0 where
  pub location : Location
  pub show_history : Bool
  pub error : Text
  pub monitor : Monitor
  pub waiting : ℕ → Option Request
  pub asked : ℕ

-- The prop `running`.
abbrev pub card_running : Card → Option Scan
card_running c = running_for c.location.id c.monitor.running

-- `start` and `stop` up to their await.
unfoldable pub ask : Request → Card → Card
ask r c = record c { error = []; waiting = update c.waiting c.asked (some r); asked = c.asked + 1 }

unfoldable pub start : Card → Card
unfolding ask
start c = ask (scans c.location.id true) c

unfoldable pub stop : Card → Card
unfolding ask
stop c = elim (card_running c) [ some scan ↦ ask (cancels scan.id) c | none ↦ c ]

-- The rest of `start` and `stop`, when the request succeeds and when it fails with `String(e)`.
unfoldable pub answered : ℕ → Card → Card
answered id c = elim (c.waiting id) [
  | some r ↦ record c { monitor = poke_scan_monitor c.monitor; waiting = update c.waiting id none }
  | none ↦ c
]

unfoldable pub failed : ℕ → Text → Card → Card
failed id e c = elim (c.waiting id) [
  | some r ↦ record c { error = e; waiting = update c.waiting id none }
  | none ↦ c
]

unfoldable pub toggle_history : Card → Card
toggle_history c = record c { show_history = not c.show_history }

-- The monitor's poll `id` is answered.
unfoldable pub polled : ℕ → List Scan → Card → Card
polled id items c = record c { monitor = poll_answered id items c.monitor }

-- What the card shows: the rescan button, or the panel of a scan with its cancel button.
unfoldable pub shows_rescan : Card → Bool
shows_rescan c = elim (card_running c) [ some scan ↦ false | none ↦ true ]

unfoldable pub shows_error : Card → Bool
shows_error c = truthy c.error

-- `ScanPanel`: cancelling scans have no cancel button; `elapsed` runs from the start time to now.
unfoldable pub cancelling : Scan → Bool
cancelling s = elim s.state [ ScanState.cancelling ↦ true | _ ↦ false ]

unfoldable pub elapsed : Scan → ℕ → Text
elapsed s now_ms = elim s.start_time [
  | none ↦ codes "--:--"
  | some t ↦
      let seconds = now_ms / 1000 - t.seconds in
      decimal (seconds / 60) ++ b':' ∷ pad_start 2 (decimal (seconds % 60))
]

-- `scan.progress?.dirsSeen ?? 0`, and the same of the files.
abbrev pub dirs_seen : Scan → ℕ
dirs_seen s = elim s.progress [ some p ↦ p.dirs_seen | none ↦ 0 ]

abbrev pub files_seen : Scan → ℕ
files_seen s = elim s.progress [ some p ↦ p.files_seen | none ↦ 0 ]

-- `ScanIndicator`: shown while scans run, with the sum of their directories.
unfoldable pub indicated_dirs : ℕ → List Scan → ℕ
indicated_dirs total [] = total
indicated_dirs total (s ∷ ss) = indicated_dirs (total + dirs_seen s) ss

unfoldable pub indicator : List Scan → Option ℕ
unfolding indicated_dirs
indicator ss = if is_empty ss then none else some (indicated_dirs 0 ss)

-- `ScanHistory`.
unfoldable pub state_label : ScanState → Text
state_label ScanState.unspecified = codes "UNKNOWN"
state_label ScanState.running = codes "RUNNING"
state_label ScanState.cancelling = codes "CANCELLING"
state_label ScanState.done = codes "DONE"
state_label ScanState.failed = codes "FAILED"
state_label ScanState.aborted = codes "ABORTED"

unfoldable pub row_failed : Scan → Bool
row_failed s = elim s.state [ ScanState.failed ↦ true | ScanState.aborted ↦ true | _ ↦ false ]

-- The age in a row: of the finish time, or of the start time of a scan that has none.
unfoldable pub row_age : Scan → ℕ → Text
row_age s now_ms =
    relative_time (elim s.finish_time [ some t ↦ some t | none ↦ s.start_time ]) now_ms

-- The scans that have a row, where the source has been scanned at all.
unfoldable pub history_rows : Bool → List Scan → Option (List Scan)
history_rows expanded [] = none
history_rows expanded (s ∷ ss) = some (if expanded then s ∷ ss else s ∷ [])

-- `AddSourceForm`, with the paths that wait to be created and the calls of `onAdded`.
pub record Form : Type 0 where
  pub shown : Bool
  pub path : Text
  pub error : Text
  pub waiting : ℕ → Option Text
  pub asked : ℕ
  pub added : ℕ

abbrev pub new_form : Form
new_form = record {
  shown = false;
  path = [];
  error = [];
  waiting = λ id. none;
  asked = 0;
  added = 0;
}

unfoldable pub submit : Form → Form
submit f = record f {
  error = [];
  waiting = update f.waiting f.asked (some f.path);
  asked = f.asked + 1;
}

unfoldable pub submitted : ℕ → Form → Form
submitted id f = elim (f.waiting id) [
  | some path ↦ record f {
    path = [];
    shown = false;
    added = f.added + 1;
    waiting = update f.waiting id none;
  }
  | none ↦ f
]

unfoldable pub refused : ℕ → Text → Form → Form
refused id e f = elim (f.waiting id) [
  | some path ↦ record f { error = e; waiting = update f.waiting id none }
  | none ↦ f
]

unfoldable pub show_form : Bool → Form → Form
show_form b f = record f { shown = b }

unfoldable pub type_path : Text → Form → Form
type_path path f = record f { path = path }
