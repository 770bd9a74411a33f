-- ===== src/Scanner/Guarantees.antt =====
-- What every reachable state of the scanner of scan/scanner.go guarantees.
use byom.Prelude.{
  ℕ, ◌<◌, ◌≡◌, refl, sym, ◌∙◌, true, false, none, some, ok, err, arith, Option-cases, inl, inr, ◌⊎◌,
  ==_iff, update_self,
}
use byom.Scanner.{
  Scanner, syncing, StoredState, StoredScan, scan_running, not_running, no_scan, is_running,
  is_unfinished, claim, begin_scan, finish_scan, finish_fails, release, restart, count, mark,
  register, find_running, cancel, overlay, read_scan, add_run,
}
use byom.Scanner.Validity.{
  IsValid, is_over, is_closed, scan_of, registered_as-scan_of, scan_of-over, one_run,
}
use byom.Scanner.Reach.{
  Step, claims, begins, stops, registers, counts, marks, finishes, fails, releases, restarts, Later,
  now', next, Reach, Reach-IsValid, Later-IsValid,
}

-- In every reachable state, whatever the order in which scans are started, cancelled, fail and end,
-- a claim of a location is refused, as a scan is running, exactly if the location has a run that is
-- not over, and then it has one such run alone; otherwise the claim adds a run.
pub Reach-claim :
    {w : Scanner}
    → Reach w
    → (loc : ℕ)
    → ((r : ℕ) × (r < w.made)
        × ((w.runs r).location_id ≡ loc)
        × (is_over (w.runs r).phase ≡ false)
        × ((r' : ℕ)
            → r' < w.made
            → (w.runs r').location_id ≡ loc
            → is_over (w.runs r').phase ≡ false
            → r' ≡ r)
        × (claim loc w ≡ err scan_running))
      ⊎ (((r' : ℕ) → r' < w.made → (w.runs r').location_id ≡ loc → is_over (w.runs r').phase ≡ true)
          × (claim loc w ≡ ok (add_run loc w)))
unfolding claim
Reach-claim {w} reach loc =
    let v = Reach-IsValid reach in
    elim (Option-cases (w.by_loc loc)) [
      | inl free ↦ inr (λ r' made at. grind (arith, v.held r' made), rw (claim, free) refl)
      | inr (r, held) ↦
          let (made, at, live) = v.holds loc r held in
          inl (
            r,
            made,
            at,
            live,
            λ r' made' at' live'. one_run v r' r made' made live' live (at' ∙ sym at),
            rw (claim, held) refl,
          )
    ]

-- In every reachable state the row of the scan of a run whose record is open and not closed is
-- running, and is the only running row of its location: no start aborts a scan in flight.
pub Reach-running_row :
    {w : Scanner}
    → Reach w
    → (r id : ℕ) → r < w.made
    → scan_of (w.runs r).phase ≡ some id
    → is_closed (w.runs r).phase ≡ false
    → (s : StoredScan) × (w.scans id ≡ some s)
      × (s.location_id ≡ (w.runs r).location_id)
      × (is_running s.state ≡ true)
      × ((id' : ℕ) (s' : StoredScan)
          → w.scans id' ≡ some s'
          → s'.location_id ≡ s.location_id
          → is_running s'.state ≡ true
          → id' ≡ id)
Reach-running_row reach r id made at open' =
    let v = Reach-IsValid reach in
    let (s, row, loc, live) = v.recorded r id made at in
    (
      s,
      row,
      loc,
      live open',
      λ id' s' row' same run. v.alone id' id s' s row' row run (live open') same,
    )

-- In every reachable state the scan of an ID is found running exactly when it is registered.
find_running_lem : {w : Scanner} → IsValid w → (id : ℕ) → find_running id w ≡ w.by_scan id
unfolding find_running
find_running_lem {w} v id = elim (Option-cases (w.by_scan id)) [
  | inl nothing ↦ rw (find_running, nothing) refl
  | inr (r, registered) ↦
      let (made, at) = v.found id r registered in
      let live = scan_of-over (w.runs r).phase id (registered_as-scan_of (w.runs r).phase id at) in
      rw (find_running, registered, v.held r made live, (==_iff r r).1 refl) refl
]

-- In every reachable state a request to cancel an ID marks the run of that scan if there is a run
-- that is registered under the ID, and then the store has a row of it; otherwise it changes nothing,
-- and reports that there is no such scan if the store has no row, and else that it is not running.
pub Reach-cancel :
    {w : Scanner}
    → Reach w
    → (id : ℕ)
    → ((r : ℕ) × (s : StoredScan) × (w.by_scan id ≡ some r)
        × (w.scans id ≡ some s)
        × (cancel id w ≡ ok (mark r w)))
      ⊎ ((w.by_scan id ≡ none)
          × (((w.scans id ≡ none) × (cancel id w ≡ err no_scan))
              ⊎ ((s : StoredScan) × (w.scans id ≡ some s) × (cancel id w ≡ err not_running))))
unfolding cancel
Reach-cancel {w} reach id =
    let v = Reach-IsValid reach in
    let at = find_running_lem v id in
    elim (Option-cases (w.by_scan id)) [
      | inl nothing ↦ elim (Option-cases (w.scans id)) [
        | inl gone ↦ inr (nothing, inl (gone, rw (cancel, at, nothing, gone) refl))
        | inr (s, row) ↦ inr (nothing, inr (s, row, rw (cancel, at, nothing, row) refl))
      ]
      | inr (r, registered) ↦
          let (made, known) = v.found id r registered in
          let (s, row, _, _) =
            v.recorded r id made (registered_as-scan_of (w.runs r).phase id known) in
          inl (r, s, registered, row, rw (cancel, at, registered) refl)
    ]

-- In a reachable state the scan of a run that syncs can be cancelled, and is from then on read as
-- cancelling, with the counts of the run.
cancel-read_scan :
    {w : Scanner}
    → Reach w
    → (r id : ℕ) → r < w.made
    → (w.runs r).phase ≡ syncing id
    → (s : StoredScan) × (cancel id w ≡ ok (mark r w))
      × (read_scan id (mark r w) ≡ ok s)
      × (s.state ≡ StoredState.cancelling)
      × (s.progress ≡ (w.runs r).progress)
      × (s.location_id ≡ (w.runs r).location_id)
unfolding cancel mark read_scan overlay
cancel-read_scan {w} reach r id made at =
    let v = Reach-IsValid reach in
    let registered = v.registered r id made (rw at refl) in
    let (s, row, loc, live) = v.recorded r id made (rw at refl) in
    let run = live (rw at refl) in
    (
      overlay (record (w.runs r) { cancelling = true }) s,
      rw (cancel, find_running_lem v id, registered) refl,
      rw
          (
            read_scan,
            row,
            registered,
            update_self w.runs r (record (w.runs r) { cancelling = true }),
          )
          refl,
      rw run refl,
      refl,
      loc,
    )

Step-scans :
    {w w' : Scanner}
    → IsValid w
    → Step w w'
    → (id : ℕ) (s : StoredScan) → w.scans id ≡ some s
    → is_unfinished s.state ≡ false
    → w'.scans id ≡ some s
unfolding claim add_run begin_scan register count mark finish_scan finish_fails release restart
Step-scans {w} {w'} v (claims loc h) id s row ended = elim (Option-cases (w.by_loc loc)) [
  | inl free ↦ let same : add_run loc w ≡ w' = ground arith in rw⁻¹ same row
  | inr (r, held) ↦ absurd (ground arith)
]
Step-scans {w} v (begins now r made at) id s row ended = grind (arith, v.fresh id)
Step-scans v (stops r made at) id s row ended = row
Step-scans v (registers r i made at) id s row ended = row
Step-scans v (counts r p) id s row ended = row
Step-scans v (marks r) id s row ended = row
Step-scans {w} v (finishes now o r i made at) id s row ended = grind arith
Step-scans v (fails r i made at) id s row ended = row
Step-scans v (releases r i made at) id s row ended = row
Step-scans {w} v (restarts now) id s row ended = rw row (rw ended refl)

-- Once a reachable state has a row that is done, failed or aborted, the row stays as it is in every
-- later state: its outcome and its times are never written again.
pub Later-scans :
    {w w' : Scanner}
    → Reach w
    → Later w w'
    → (id : ℕ) (s : StoredScan) → w.scans id ≡ some s
    → is_unfinished s.state ≡ false
    → w'.scans id ≡ some s
Later-scans reach now' id s row ended = row
Later-scans reach (next later step) id s row ended =
    Step-scans (Later-IsValid later (Reach-IsValid reach)) step id s
      (Later-scans reach later id s row ended) ended

-- If the record of a scan that syncs cannot be closed, then once its run is released the store still
-- has its row as running, a request to cancel it reports that it is not running, and its location
-- can be scanned again.
pub finish_fails-running :
    {w : Scanner}
    → Reach w
    → (r id : ℕ) → r < w.made
    → (w.runs r).phase ≡ syncing id
    → let w' = release r (finish_fails r id w) in
      (s : StoredScan) × (read_scan id w' ≡ ok s)
      × (is_running s.state ≡ true)
      × (cancel id w' ≡ err not_running)
      × (claim (w.runs r).location_id w' ≡ ok (add_run (w.runs r).location_id w'))
unfolding read_scan cancel find_running claim release finish_fails
finish_fails-running {w} reach r id made at =
    let v = Reach-IsValid reach in
    let (s, row, loc, live) = v.recorded r id made (rw at refl) in
    let w' = release r (finish_fails r id w) in
    let unheld : w'.by_loc (w.runs r).location_id ≡ none = ground arith in
    let unlisted : w'.by_scan id ≡ none = ground arith in
    let row' : w'.scans id ≡ some s = row in
    (
      s,
      rw (read_scan, row', unlisted) refl,
      live (rw at refl),
      rw (cancel, find_running, unlisted, row') refl,
      rw (claim, unheld) refl,
    )
