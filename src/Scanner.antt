-- ===== src/Scanner.antt =====
-- The lifecycle of scans on the server: `Scanner` of scan/scanner.go on the rows of `scans` that
-- sqlite/scan.go keeps. Each function is a piece of code that runs under one lock or in one
-- transaction, so the pieces of different requests and scans may come in any order. The pointers to
-- runs are numbers, and so are locations, scans and times; the generator of IDs gives a new one each
-- time.
pub mod Steps
pub mod Records
pub mod Validity
pub mod Reach
pub mod Guarantees
pub mod Rows
pub mod Listing
pub mod Cancelling
mod Tests
mod ListingTests
use byom.Prelude.{
  ℕ, suc, Text, Bool, true, false, not, ◌&&◌, Option, none, some, [], ◌==◌, update, Result, ok, err,
  if◌then◌else◌,
}

pub data StoredState : Type 0 where
  running cancelling done failed aborted : StoredState

pub record Counts : Type 0 where
  pub dirs_seen : ℕ
  pub dirs_missing : ℕ
  pub files_seen : ℕ
  pub files_missing : ℕ

abbrev pub no_counts : Counts
no_counts = record { dirs_seen = 0; dirs_missing = 0; files_seen = 0; files_missing = 0 }

-- A row of `scans`; its ID is the place that it has.
pub record StoredScan : Type 0 where
  pub location_id : ℕ
  pub state : StoredState
  pub start_time : ℕ
  pub finish_time : Option ℕ
  pub error : Text
  pub progress : Counts

-- Where the code that a run is in stands, with the ID of its scan: it has claimed the location, its
-- record is open, it is registered and syncs, its record is closed, it is released.
pub data Phase : Type 0 where
  claimed : Phase
  begun syncing closed : ℕ → Phase
  over : Phase

pub record Run : Type 0 where
  pub location_id : ℕ
  pub phase : Phase
  pub cancelling : Bool
  pub progress : Counts

abbrev pub new_run : ℕ → Run
new_run loc = record {
  location_id = loc;
  phase = claimed;
  cancelling = false;
  progress = no_counts;
}

-- The runs that were made, the two maps of a scanner, and the rows.
pub record Scanner : Type 0 where
  pub runs : ℕ → Run
  pub made : ℕ
  pub by_loc : ℕ → Option ℕ
  pub by_scan : ℕ → Option ℕ
  pub scans : ℕ → Option StoredScan
  pub issued : ℕ

abbrev pub new_scanner : Scanner
new_scanner = record {
  runs = λ r. record (new_run 0) { phase = over };
  made = 0;
  by_loc = λ loc. none;
  by_scan = λ id. none;
  scans = λ id. none;
  issued = 0;
}

pub data ScanError : Type 0 where
  scan_running not_running no_scan : ScanError

abbrev pub is_running : StoredState → Bool
is_running StoredState.running = true
is_running StoredState.cancelling = false
is_running StoredState.done = false
is_running StoredState.failed = false
is_running StoredState.aborted = false

abbrev pub is_unfinished : StoredState → Bool
is_unfinished StoredState.running = true
is_unfinished StoredState.cancelling = true
is_unfinished StoredState.done = false
is_unfinished StoredState.failed = false
is_unfinished StoredState.aborted = false

abbrev pub set_phase : ℕ → Phase → Scanner → Scanner
set_phase r p w = record w { runs = update w.runs r (record (w.runs r) { phase = p }) }

-- `claim`.
unfoldable pub add_run : ℕ → Scanner → Scanner
add_run loc w = record w {
  runs = update w.runs w.made (new_run loc);
  made = suc w.made;
  by_loc = update w.by_loc loc (some w.made);
}

unfoldable pub claim : ℕ → Scanner → Result ScanError Scanner
unfolding add_run
claim loc w = elim (w.by_loc loc) [ some r ↦ err scan_running | none ↦ ok (add_run loc w) ]

-- `BeginScan`: the location's running rows are those of scans that have crashed.
abbrev pub abort_row : ℕ → ℕ → Option StoredScan → Option StoredScan
abort_row now loc none = none
abort_row now loc (some s) =
    if s.location_id == loc && is_running s.state
    then some (record s { state = StoredState.aborted; finish_time = some now })
    else some s

abbrev pub opened_row : ℕ → ℕ → StoredScan
opened_row now loc = record {
  location_id = loc;
  state = StoredState.running;
  start_time = now;
  finish_time = none;
  error = [];
  progress = no_counts;
}

unfoldable pub begin_scan : ℕ → ℕ → Scanner → Scanner
begin_scan now r w =
    let loc = (w.runs r).location_id in
    set_phase r (begun w.issued) (record w {
      scans = update (λ id. abort_row now loc (w.scans id)) w.issued (some (opened_row now loc));
      issued = suc w.issued;
    })

-- The end of `Start`: the run is registered under the ID of its scan.
unfoldable pub register : ℕ → ℕ → Scanner → Scanner
register r id w = set_phase r (syncing id) (record w { by_scan = update w.by_scan id (some r) })

-- How a sync ends: with no error, with that of its cancelled context, or with another.
pub data Outcome : Type 0 where
  completed cut_short : Outcome
  failing : Text → Outcome

abbrev pub outcome_state : Outcome → StoredState
outcome_state completed = StoredState.done
outcome_state cut_short = StoredState.aborted
outcome_state (failing e) = StoredState.failed

abbrev pub outcome_error : Outcome → Text
outcome_error completed = []
outcome_error cut_short = []
outcome_error (failing e) = e

-- `FinishScan`.
abbrev pub close_row : ℕ → Outcome → Counts → Option StoredScan → Option StoredScan
close_row now o progress none = none
close_row now o progress (some s) =
    if is_running s.state
    then some (record s {
      state = outcome_state o;
      finish_time = some now;
      error = outcome_error o;
      progress = progress;
    })
    else some s

unfoldable pub finish_scan : ℕ → Outcome → ℕ → ℕ → Scanner → Scanner
finish_scan now o r id w =
    set_phase r (closed id)
      (record w { scans = update w.scans id (close_row now o (w.runs r).progress (w.scans id)) })

-- A `FinishScan` that fails changes no row.
unfoldable pub finish_fails : ℕ → ℕ → Scanner → Scanner
finish_fails r id w = set_phase r (closed id) w

-- `release`; a run that has no scan yet is under no ID.
abbrev pub forget_scan : Phase → (ℕ → Option ℕ) → ℕ → Option ℕ
forget_scan claimed by_scan = by_scan
forget_scan (begun id) by_scan = by_scan
forget_scan (syncing id) by_scan = update by_scan id none
forget_scan (closed id) by_scan = update by_scan id none
forget_scan over by_scan = by_scan

unfoldable pub release : ℕ → Scanner → Scanner
release r w = set_phase r over (record w {
  by_loc = update w.by_loc (w.runs r).location_id none;
  by_scan = forget_scan (w.runs r).phase w.by_scan;
})

-- The process ends, and another one starts with `Recover`: `AbortRunningScans`.
abbrev pub stop_row : ℕ → Option StoredScan → Option StoredScan
stop_row now none = none
stop_row now (some s) =
    if is_unfinished s.state
    then some (record s { state = StoredState.aborted; finish_time = some now })
    else some s

unfoldable pub restart : ℕ → Scanner → Scanner
restart now w = record w {
  runs = λ r. record (w.runs r) { phase = over };
  by_loc = λ loc. none;
  by_scan = λ id. none;
  scans = λ id. stop_row now (w.scans id);
}

-- What a sync counts, and the mark of a request to cancel.
unfoldable pub count : ℕ → Counts → Scanner → Scanner
count r p w = record w { runs = update w.runs r (record (w.runs r) { progress = p }) }

unfoldable pub mark : ℕ → Scanner → Scanner
mark r w = record w { runs = update w.runs r (record (w.runs r) { cancelling = true }) }

-- `Cancel`: the run that it finds running, and what it reports of one that it does not.
unfoldable pub find_running : ℕ → Scanner → Option ℕ
find_running id w = elim (w.by_scan id) [
  | none ↦ none
  | some r ↦ elim (w.by_loc (w.runs r).location_id) [
    | none ↦ none
    | some r' ↦ if r' == r then some r else none
  ]
]

unfoldable pub cancel : ℕ → Scanner → Result ScanError Scanner
unfolding find_running mark
cancel id w = elim (find_running id w) [
  | some r ↦ ok (mark r w)
  | none ↦ elim (w.scans id) [ none ↦ err no_scan | some s ↦ err not_running ]
]

-- `Scan` with its `overlay`: live progress and the transient state.
unfoldable pub overlay : Run → StoredScan → StoredScan
overlay r s = record s {
  progress = r.progress;
  state = if is_running s.state && r.cancelling then StoredState.cancelling else s.state;
}

unfoldable pub read_scan : ℕ → Scanner → Result ScanError StoredScan
unfolding overlay
read_scan id w = elim (w.scans id) [
  | none ↦ err no_scan
  | some s ↦ elim (w.by_scan id) [ none ↦ ok s | some r ↦ ok (overlay (w.runs r) s) ]
]
