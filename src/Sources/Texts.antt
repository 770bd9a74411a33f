-- ===== src/Sources/Texts.antt =====
-- The texts of scans and the rows of the settings page: ui/src/features/management/ScanPanel.tsx,
-- ScanHistory.tsx and ScanIndicator.tsx, and ui/src/routes/settings.tsx. How a number is written in
-- the reader's locale is a parameter.
use byom.Prelude.{
  ℕ, Text, codes, truthy, Bool, List, Option, none, some, ◌++◌, is_empty, if◌then◌else◌,
}
use byom.Proto.Management.{Location, Scan}
use byom.Sources.{
  cancelling, elapsed, dirs_seen, files_seen, state_label, row_failed, row_age, running_for,
  indicator,
}
use mathlib.Core.List.{map}

-- `ScanPanel`.
pub record Panel : Type 0 where
  pub status : Text
  pub elapsed_text : Text
  pub button : Text
  pub disabled : Bool
  pub dirs : Text
  pub files : Text
  pub missing : Text

-- `ScanRow`; the error is shown where there is one.
pub record ScanRow : Type 0 where
  pub state : Text
  pub danger : Bool
  pub age : Text
  pub dirs : Text
  pub files : Text
  pub error : Option Text

module _ (to_locale : ℕ → Text) where
  -- `count`.
  unfoldable pub count : Option ℕ → Text
  count n = to_locale (elim n [ some k ↦ k | none ↦ 0 ])

  unfoldable pub scan_panel : Scan → ℕ → Panel
  unfolding count
  scan_panel s now_ms = record {
    status = if cancelling s then codes "CANCELLING" else codes "RUNNING";
    elapsed_text = elapsed s now_ms;
    button = if cancelling s then codes "Cancelling…" else codes "Cancel";
    disabled = cancelling s;
    dirs = count (elim s.progress [ some p ↦ some p.dirs_seen | none ↦ none ]);
    files = count (elim s.progress [ some p ↦ some p.files_seen | none ↦ none ]);
    missing = count (elim s.progress [ some p ↦ some p.dirs_missing | none ↦ none ]);
  }

  unfoldable pub scan_row : Scan → ℕ → ScanRow
  scan_row s now_ms = record {
    state = state_label s.state;
    danger = row_failed s;
    age = row_age s now_ms;
    dirs = to_locale (dirs_seen s) ++ codes " dirs";
    files = to_locale (files_seen s) ++ codes " files";
    error = if truthy s.error then some s.error else none;
  }

  unfoldable pub indicator_text : List Scan → Option Text
  indicator_text ss = elim (indicator ss) [
    | some n ↦ some (codes "SCANNING · " ++ (to_locale n ++ codes " dirs"))
    | none ↦ none
  ]

-- The settings page: a card for each source, with the scan that it shows, and the note that there
-- is none.
unfoldable pub source_cards : List Location → List Scan → List (Location × Option Scan)
source_cards locations scans = map (λ (l : Location). (l, running_for l.id scans)) locations

unfoldable pub no_sources : List Location → Bool
no_sources locations = is_empty locations
