-- ===== src/Sources/Tests.antt =====
-- A source's card and its scans, as the tests of ui/src/features/management have them, and the
-- theorems at these runs.
use byom.Prelude.{
  ◌≡◌, refl, Text, codes, text_eq, decimal, pad_start, read_fields, true, false, List, [], ◌∷◌,
  none, some,
}
use byom.Proto.Management.{Scan, ScanState}
use byom.Monitor.{
  new_monitor, start_scan_monitor, poke_scan_monitor, start_poll, clear_timer, poll_answered,
  take_answer, set_timer,
}
use byom.Sources.{
  row_age, Card, scans, cancels, ask, start, stop, answered, failed, toggle_history, polled,
  shows_rescan, shows_error, cancelling, elapsed, indicated_dirs, indicator, state_label,
  row_failed, history_rows, new_form, submit, submitted, refused, show_form, type_path,
}
use byom.Sources.Texts.{scan_panel, scan_row, indicator_text, source_cards}
use byom.Format.{relative_time}

program : Unit {0}
unfolding start_scan_monitor poke_scan_monitor start_poll clear_timer poll_answered take_answer
    set_timer ask start stop answered failed toggle_history polled shows_rescan shows_error
    cancelling elapsed indicated_dirs indicator state_label row_failed history_rows submit submitted
    refused show_form type_path text_eq decimal pad_start read_fields
program = tt

abbrev scan_of : Text → Text → Scan
scan_of id location_id = record {
  id = id;
  location_id = location_id;
  state = ScanState.running;
  start_time = some (record { seconds = 100; nanos = 0 });
  finish_time = none;
  error = [];
  progress = some (record { dirs_seen = 7; dirs_missing = 0; files_seen = 70; files_missing = 0 });
}

abbrev card : Card
card = record {
  location = record { id = codes "loc"; path = codes "/mnt/music" };
  show_history = false;
  error = codes "boom";
  monitor = poll_answered 0 [] (start_scan_monitor (new_monitor true));
  waiting = λ id. none;
  asked = 0;
}

abbrev found : List Scan
found = scan_of (codes "s0") (codes "other") ∷ scan_of (codes "s1") (codes "loc") ∷ []

-- The card after a rescan has been asked for, answered and seen by the monitor.
abbrev busy : Card
busy = polled 1 found (answered 0 (start card))

card_tests :
    ((start card).waiting 0 ≡ some (scans (codes "loc") true))
    × (shows_rescan card ≡ true)
    × (shows_rescan busy ≡ false)
    × (shows_error busy ≡ false)
    × ((stop card).waiting 0 ≡ none)
    × ((stop busy).waiting 1 ≡ some (cancels (codes "s1")))
    × ((failed 0 (codes "down") (start card)).error ≡ codes "down")
unfolding program
card_tests = (refl, refl, refl, refl, refl, refl, refl)

row_tests :
    (elapsed (scan_of [] []) 225999 ≡ codes "2:05")
    × (indicator found ≡ some 14)
    × (indicator [] ≡ none)
    × (history_rows false found ≡ some (scan_of (codes "s0") (codes "other") ∷ []))
    × (cancelling (scan_of [] []) ≡ false)
unfolding program
row_tests = (refl, refl, refl, refl, refl)

form_tests :
    let f = submit (type_path (codes "/a") (show_form true new_form)) in
    (f.waiting 0 ≡ some (codes "/a"))
    × ((submitted 0 f).added ≡ 1)
    × ((submitted 0 f).shown ≡ false)
    × ((refused 0 (codes "no") f).path ≡ codes "/a")
    × ((refused 0 (codes "no") f).error ≡ codes "no")
unfolding program
form_tests = (refl, refl, refl, refl, refl)

text_tests :
    ((scan_panel decimal (scan_of [] []) 225999).status ≡ codes "RUNNING")
    × ((scan_panel decimal (scan_of [] []) 225999).files ≡ codes "70")
    × ((scan_row decimal (scan_of [] []) 225999).age ≡ codes "2m ago")
    × ((scan_row decimal (scan_of [] []) 225999).dirs ≡ codes "7 dirs")
    × (indicator_text decimal found ≡ some (codes "SCANNING · 14 dirs"))
    × (source_cards (card.location ∷ []) found
        ≡ (card.location, some (scan_of (codes "s1") (codes "loc"))) ∷ [])
unfolding program scan_panel scan_row row_age relative_time indicator_text source_cards
text_tests = (refl, refl, refl, refl, refl, refl)
