-- ===== src/Scanner/Records.antt =====
-- The pieces of sqlite/scan.go and scan/scanner.go that change the rows of scans keep the scanner
-- valid.
use byom.Prelude.{
  ℕ, ◌<◌, ◌≡◌, refl, sym, ap, ◌∙◌, true, false, Option, none, some, arith, Bool-cases, inl, inr,
  ◌&&◌, ◌==◌, ==_iff,
}
use byom.Scanner.{
  Scanner, claimed, syncing, StoredScan, Outcome, outcome_state, outcome_error, is_running,
  is_unfinished, stop_row, begin_scan, finish_scan, restart, abort_row, opened_row, close_row,
}
use byom.Scanner.Validity.{IsValid, scan_of, scan_of-over, one_scan, one_run}

-- A row that runs after a location's rows were aborted is of another location, and as it was.
abort_row-running :
    (now loc : ℕ) (o : Option StoredScan) (s : StoredScan)
    → abort_row now loc o ≡ some s
    → is_running s.state ≡ true
    → (o ≡ some s) × (s.location_id == loc ≡ false)
abort_row-running now loc none s h k = absurd (ground arith)
abort_row-running now loc (some t) s h k =
    elim (Bool-cases (t.location_id == loc && is_running t.state)) [
      | inl yes' ↦ absurd (grind arith)
      | inr no' ↦ let same : t ≡ s = ground arith in (ap some same, grind arith)
    ]

-- No row runs after a restart.
stop_row-running :
    (now : ℕ) (o : Option StoredScan) (s : StoredScan)
    → stop_row now o ≡ some s
    → is_running s.state ≡ false
stop_row-running now none s h = absurd (ground arith)
stop_row-running now (some t) s h = elim (Bool-cases (is_unfinished t.state)) [
  | inl yes' ↦ grind arith
  | inr no' ↦ grind arith
]

pub begin_scan-IsValid :
    (now r : ℕ) {w : Scanner}
    → r < w.made
    → (w.runs r).phase ≡ claimed
    → IsValid w
    → IsValid (begin_scan now r w)
unfolding begin_scan
begin_scan-IsValid now r {w} made at v =
    let loc = (w.runs r).location_id in
    record {
      held = λ r' k h. grind (arith, v.held r' k);
      holds = λ loc' r' h. grind (arith, v.holds loc' r' h);
      registered = λ r' id' k h. grind (arith, v.registered r' id' k);
      found = λ id' r' h. grind (arith, v.found id' r' h);
      recorded = λ r' id' k h. elim (Bool-cases (r' == r)) [
        | inl same ↦ (opened_row now loc, grind arith, grind arith, λ o. refl)
        | inr other ↦
            let at' : scan_of (w.runs r').phase ≡ some id' = grind arith in
            let (s, before, loc', live) = v.recorded r' id' k at' in
            let apart : (s.location_id == loc) ≡ false = elim (Bool-cases (s.location_id == loc)) [
              | inl same ↦
                  let one =
                    one_run v r r' made k (rw at refl) (scan_of-over (w.runs r').phase id' at')
                      (sym ((==_iff s.location_id loc).0 same) ∙ loc') in
                  absurd (ground arith)
              | inr differs ↦ differs
            ] in
            (s, grind (arith, v.fresh id'), grind arith, λ o. live (grind arith))
      ];
      fresh = λ id h. grind (arith, v.fresh id);
      alone = λ i i' s s' h h' k k' same. grind (
        arith,
        v.alone i i' s s',
        abort_row-running now loc (w.scans i) s,
        abort_row-running now loc (w.scans i') s',
      );
    }

pub finish_scan-IsValid :
    (now : ℕ) (o : Outcome) (r id : ℕ) {w : Scanner}
    → r < w.made
    → (w.runs r).phase ≡ syncing id
    → IsValid w
    → IsValid (finish_scan now o r id w)
unfolding finish_scan
finish_scan-IsValid now o r id {w} made at v =
    let (s, row, loc, live) = v.recorded r id made (rw at refl) in
    let progress = (w.runs r).progress in
    let running' : is_running s.state ≡ true = live (rw at refl) in
    let new = record s {
      state = outcome_state o;
      finish_time = some now;
      error = outcome_error o;
      progress = progress;
    } in
    let row' : close_row now o progress (w.scans id) ≡ some new = rw row (rw running' refl) in
    let ended : is_running (outcome_state o) ≡ false = ground arith in
    record {
      held = λ r' k h. grind (arith, v.held r' k);
      holds = λ loc r' h. grind (arith, v.holds loc r' h);
      registered = λ r' id' k h. grind (arith, v.registered r' id' k);
      found = λ id' r' h. grind (arith, v.found id' r' h);
      recorded = λ r' id' k h. elim (Bool-cases (r' == r)) [
        | inl same ↦ (new, grind arith, grind arith, λ o. grind arith)
        | inr other ↦
            let at' : scan_of (w.runs r').phase ≡ some id' = grind arith in
            let (s', before, loc', live') = v.recorded r' id' k at' in
            (s', grind (arith, one_scan v r r' made k id), grind arith, λ o. live' (grind arith))
      ];
      fresh = λ id' h. grind (arith, v.fresh id' h);
      alone = λ i i' s s' h h' k k' same. grind (arith, v.alone i i' s s');
    }

pub restart-IsValid : (now : ℕ) {w : Scanner} → IsValid w → IsValid (restart now w)
unfolding restart
restart-IsValid now {w} v = record {
  held = λ r k h. absurd (ground arith);
  holds = λ loc r h. absurd (ground arith);
  registered = λ r id k h. absurd (ground arith);
  found = λ id r h. absurd (ground arith);
  recorded = λ r id k h. absurd (ground arith);
  fresh = λ id h. rw (v.fresh id h) refl;
  alone = λ i i' s s' h h' k k' same. absurd (grind (arith, stop_row-running now (w.scans i) s h));
}
