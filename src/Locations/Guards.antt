-- ===== src/Locations/Guards.antt =====
-- What the scans of a location refuse of its row: sqlite/location.go on Scanner.
use byom.Prelude.{
  ℕ, zero, ◌∷◌, suc, ◌<◌, ◌≡◌, refl, sym, ◌∙◌, true, false, ltb, ◌==◌, ==_iff, List, Option, some,
  arith, ok, err, ◌⊎◌, inl, inr, Bool-cases,
}
use byom.Import.{any}
use byom.Locations.{
  StoredLocation, LocationError, is_scan_of, err_if_scan_running, update_location, delete_location,
}
use byom.Scanner.{Scanner, StoredScan, is_running}
use byom.Scanner.Guarantees.{Reach-running_row}
use byom.Scanner.Reach.{Reach, Reach-IsValid}
use byom.Scanner.Rows.{rows_below, rows_below-step}
use byom.Scanner.Validity.{scan_of, is_closed}

pub err_if_scan_running_cases :
    (id : ℕ) (w : Scanner)
    → (err_if_scan_running id w ≡ ok tt)
      ⊎ (err_if_scan_running id w ≡ err LocationError.scan_running)
unfolding err_if_scan_running
err_if_scan_running_cases id w =
    elim (Bool-cases (any (is_scan_of id) (rows_below w.issued w.scans))) [
      | inl busy ↦ inr (rw busy refl)
      | inr idle ↦ inl (rw idle refl)
    ]

any-rows_below :
    (n loc id : ℕ) (scans : ℕ → Option StoredScan) (s : StoredScan)
    → id < n
    → scans id ≡ some s
    → is_scan_of loc (id, s) ≡ true
    → any (is_scan_of loc) (rows_below n scans) ≡ true
any-rows_below zero loc id scans s below row h = elim below [ ]
any-rows_below (suc n) loc id scans s below row h = elim (Bool-cases (id == n)) [
  | inl same ↦
      let number : id ≡ n = (==_iff id n).0 same in
      elim (rows_below-step n scans) [
        | inl (nothing, _) ↦ absurd (grind (arith, number))
        | inr (x, row', next) ↦
            let kept : x ≡ s = grind (arith, number) in rw (next, kept) (ground arith)
      ]
  | inr before ↦
      let rest = any-rows_below n loc id scans s (ground arith) row h in
      elim (rows_below-step n scans) [
        | inl (nothing, next) ↦ rw next rest
        | inr (x, row', next) ↦ rw next (ground arith)
      ]
]

-- In every reachable state of the scanner, whatever the table has, the location of a run whose record
-- is open and not closed is neither updated nor deleted: both are refused, as a scan is running.
pub Reach-update_location :
    {w : Scanner}
    → Reach w
    → (r id : ℕ) → r < w.made
    → scan_of (w.runs r).phase ≡ some id
    → is_closed (w.runs r).phase ≡ false
    → (loc : StoredLocation) (rows : List StoredLocation) → loc.id ≡ (w.runs r).location_id
    → (update_location w loc rows ≡ err LocationError.scan_running)
      × (delete_location w loc.id rows ≡ err LocationError.scan_running)
unfolding update_location delete_location err_if_scan_running
Reach-update_location {w} reach r id made at open' loc rows same =
    let (s, row, place, live, _) = Reach-running_row reach r id made at open' in
    let below : id < w.issued = elim (Bool-cases (ltb id w.issued)) [
      | inl less ↦ ground arith
      | inr more ↦ absurd (grind (arith, row, (Reach-IsValid reach).fresh id (ground arith)))
    ] in
    let its : is_scan_of loc.id (id, s) ≡ true =
      grind (arith, (==_iff s.location_id loc.id).1 (place ∙ sym same)) in
    let busy = any-rows_below w.issued loc.id id w.scans s below row its in
    (rw busy refl, rw busy refl)

-- The store has a running scan of the location.
abbrev pub HasRunning : Scanner → ℕ → Type 0
HasRunning w loc =
    (id : ℕ) × (s : StoredScan) × (w.scans id ≡ some s)
    × (s.location_id ≡ loc)
    × (is_running s.state ≡ true)

rows_below-running :
    (n loc : ℕ) (scans : ℕ → Option StoredScan)
    → any (is_scan_of loc) (rows_below n scans) ≡ true
    → (id : ℕ) × (s : StoredScan) × (scans id ≡ some s)
      × (s.location_id ≡ loc)
      × (is_running s.state ≡ true)
rows_below-running zero loc scans h = absurd (unfold rows_below in ground arith)
rows_below-running (suc n) loc scans h = elim (rows_below-step n scans) [
  | inl (nothing, next) ↦ rows_below-running n loc scans (rw next at h)
  | inr (s, row, next) ↦
      let found : any (is_scan_of loc) ((n, s) ∷ rows_below n scans) ≡ true = rw next at h in
      elim (Bool-cases (is_scan_of loc (n, s))) [
        | inl its ↦ (n, s, row, (==_iff s.location_id loc).0 (ground arith), ground arith)
        | inr other ↦ rows_below-running n loc scans (ground arith)
      ]
]

-- The guard fails exactly if the store has such a scan.
pub err_if_scan_running_lem :
    {w : Scanner}
    → Reach w
    → (loc : ℕ)
    → (HasRunning w loc × (err_if_scan_running loc w ≡ err LocationError.scan_running))
      ⊎ ((¬ HasRunning w loc) × (err_if_scan_running loc w ≡ ok tt))
unfolding err_if_scan_running
err_if_scan_running_lem {w} reach loc =
    elim (Bool-cases (any (is_scan_of loc) (rows_below w.issued w.scans))) [
      | inl busy ↦ inl (rows_below-running w.issued loc w.scans busy, rw busy refl)
      | inr idle ↦ inr (
        λ (id, s, row, place, live).
            let below : id < w.issued = elim (Bool-cases (ltb id w.issued)) [
              | inl less ↦ ground arith
              | inr more ↦
                  absurd (grind (arith, row, (Reach-IsValid reach).fresh id (ground arith)))
            ] in
            let its : is_scan_of loc (id, s) ≡ true =
              grind (arith, (==_iff s.location_id loc).1 place) in
            let found = any-rows_below w.issued loc id w.scans s below row its in
            absurd (ground arith),
        rw idle refl,
      )
    ]
