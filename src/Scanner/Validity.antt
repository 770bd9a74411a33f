-- ===== src/Scanner/Validity.antt =====
-- The invariant of the scanner of scan/scanner.go: the maps hold the runs in flight, each location
-- has one of them at most, and the row of a scan in flight is the location's one running row.
use byom.Prelude.{arith, sym, ap, ◌∙◌, ℕ, ◌<◌, ◌≤◌, ◌≡◌, Bool, true, false, Option, none, some}
use byom.Scanner.{Scanner, Phase, claimed, begun, syncing, closed, over, StoredScan, is_running}

abbrev pub is_over : Phase → Bool
is_over claimed = false
is_over (begun id) = false
is_over (syncing id) = false
is_over (closed id) = false
is_over over = true

abbrev pub is_closed : Phase → Bool
is_closed claimed = false
is_closed (begun id) = false
is_closed (syncing id) = false
is_closed (closed id) = true
is_closed over = false

-- The ID of a run's scan, and the ID under which it is registered.
abbrev pub scan_of : Phase → Option ℕ
scan_of claimed = none
scan_of (begun id) = some id
scan_of (syncing id) = some id
scan_of (closed id) = some id
scan_of over = none

abbrev pub registered_as : Phase → Option ℕ
registered_as claimed = none
registered_as (begun id) = none
registered_as (syncing id) = some id
registered_as (closed id) = some id
registered_as over = none

pub record IsValid (w : Scanner) : Type 0 where
  pub held :
      (r : ℕ)
      → r < w.made
      → is_over (w.runs r).phase ≡ false
      → w.by_loc (w.runs r).location_id ≡ some r
  pub holds :
      (loc r : ℕ)
      → w.by_loc loc ≡ some r
      → (r < w.made) × ((w.runs r).location_id ≡ loc) × (is_over (w.runs r).phase ≡ false)
  pub registered :
      (r id : ℕ) → r < w.made → registered_as (w.runs r).phase ≡ some id → w.by_scan id ≡ some r
  pub found :
      (id r : ℕ) → w.by_scan id ≡ some r → (r < w.made) × (registered_as (w.runs r).phase ≡ some id)
  pub recorded :
      (r id : ℕ)
      → r < w.made
      → scan_of (w.runs r).phase ≡ some id
      → (s : StoredScan) × (w.scans id ≡ some s)
        × (s.location_id ≡ (w.runs r).location_id)
        × (is_closed (w.runs r).phase ≡ false → is_running s.state ≡ true)
  pub fresh : (id : ℕ) → w.issued ≤ id → w.scans id ≡ none
  pub alone :
      (id id' : ℕ) (s s' : StoredScan)
      → w.scans id ≡ some s
      → w.scans id' ≡ some s'
      → is_running s.state ≡ true
      → is_running s'.state ≡ true
      → s.location_id ≡ s'.location_id
      → id ≡ id'

pub scan_of-over : (p : Phase) (id : ℕ) → scan_of p ≡ some id → is_over p ≡ false
scan_of-over p id h = ground arith

pub registered_as-scan_of : (p : Phase) (id : ℕ) → registered_as p ≡ some id → scan_of p ≡ some id
registered_as-scan_of p id h = ground arith

module _ {w : Scanner} (v : IsValid w) (r r' : ℕ) (made : r < w.made) (made' : r' < w.made) where
  -- Of the runs of a location one at most is not over.
  pub one_run :
      is_over (w.runs r).phase ≡ false
      → is_over (w.runs r').phase ≡ false
      → (w.runs r).location_id ≡ (w.runs r').location_id
      → r ≡ r'
  one_run live live' same =
      let first = v.held r made live in let second = v.held r' made' live' in cc

  -- A scan is that of one run.
  pub one_scan :
      (id : ℕ) → scan_of (w.runs r).phase ≡ some id → scan_of (w.runs r').phase ≡ some id → r ≡ r'
  one_scan id h h' =
      let (s, row, loc, _) = v.recorded r id made h in
      let (s', row', loc', _) = v.recorded r' id made' h' in
      let same : s ≡ s' = cc in
      one_run (scan_of-over (w.runs r).phase id h) (scan_of-over (w.runs r').phase id h')
        (sym loc ∙ ap (λ x. x.location_id) same ∙ loc')
