-- ===== src/Scanner/Cancelling.antt =====
-- The listing of the scans that are being cancelled: `cancellingScans` of scan/scanner.go. The map of
-- registered runs is read in the descending order of IDs, where the code leaves the order open.
use byom.Prelude.{
  ℕ, zero, suc, ◌<◌, ◌≤◌, ◌≡◌, ◌↔◌, ap, refl, Bool, true, ◌&&◌, ltb, List, [], ◌∷◌, length, take,
  Option, none, some, arith, All, Result, ok, ◌>>=◌, inl, inr, ◌⊎◌, Bool-cases, Option-cases, ◌==◌,
  ==_iff, if◌then◌else◌,
}
use byom.Scanner.{Scanner, StoredScan, Run, ScanError, overlay, read_scan}
use byom.Scanner.Validity.{IsValid, registered_as-scan_of}
use byom.Scanner.Rows.{ScanRow}
use byom.Scanner.Listing.{passes}
use byom.Scanner.Reach.{Reach, Reach-IsValid}

abbrev pub is_unwinding : Option ℕ → Run → Bool
is_unwinding loc run = run.cancelling && passes (λ n. n) loc run.location_id

unfoldable pub cancelling_ids : ℕ → Option ℕ → Scanner → List ℕ
cancelling_ids zero loc w = []
cancelling_ids (suc n) loc w =
    let rest = cancelling_ids n loc w in
    elim (w.by_scan n) [
      | none ↦ rest
      | some r ↦ if is_unwinding loc (w.runs r) then n ∷ rest else rest
    ]

unfoldable pub read_all : List ℕ → Scanner → Result ScanError (List ScanRow)
read_all [] w = ok []
read_all (id ∷ ids) w = do s ← read_scan id w; rows ← read_all ids w; ok ((id, s) ∷ rows)

-- `slices.SortFunc` by start time, the newest first.
unfoldable pub insert_newest : ScanRow → List ScanRow → List ScanRow
insert_newest row [] = row ∷ []
insert_newest row (first ∷ rows) =
    let rest = insert_newest row rows in
    if ltb row.1.start_time first.1.start_time then first ∷ rest else row ∷ first ∷ rows

unfoldable pub sort_newest : List ScanRow → List ScanRow
unfolding insert_newest
sort_newest [] = []
sort_newest (row ∷ rows) = insert_newest row (sort_newest rows)

abbrev pub cut_scans : ℕ → List ScanRow → List ScanRow
cut_scans limit rows = if ltb 0 limit && ltb limit (length rows) then take limit rows else rows

unfoldable pub cancelling_scans : Option ℕ → ℕ → Scanner → Result ScanError (List ScanRow)
unfolding cancelling_ids read_all sort_newest
cancelling_scans loc limit w = do
  rows ← read_all (cancelling_ids w.issued loc w) w
  ok (cut_scans limit (sort_newest rows))

insert_newest-All {κ} :
    (P : ScanRow → Type κ) (row : ScanRow) (rows : List ScanRow)
    → P row
    → All P rows
    → All P (insert_newest row rows)
unfolding insert_newest
insert_newest-All P row [] h k = (h, tt)
insert_newest-All P row (first ∷ rows) h k =
    elim (Bool-cases (ltb row.1.start_time first.1.start_time)) [
      | inl older ↦ rw older (k.0, insert_newest-All P row rows h k.1)
      | inr newer ↦ rw newer (h, k)
    ]

abbrev pub IsIn : ScanRow → List ScanRow → Type 0
IsIn row [] = ⊥
IsIn row (first ∷ rows) = (row ≡ first) ⊎ IsIn row rows

insert_newest-IsIn_self : (row : ScanRow) (rows : List ScanRow) → IsIn row (insert_newest row rows)
unfolding insert_newest
insert_newest-IsIn_self row [] = inl refl
insert_newest-IsIn_self row (first ∷ rows) =
    elim (Bool-cases (ltb row.1.start_time first.1.start_time)) [
      | inl older ↦ rw older (inr (insert_newest-IsIn_self row rows))
      | inr newer ↦ rw newer (inl refl)
    ]

insert_newest-IsIn :
    (other row : ScanRow) (rows : List ScanRow)
    → IsIn other rows
    → IsIn other (insert_newest row rows)
unfolding insert_newest
insert_newest-IsIn other row [] h = inr h
insert_newest-IsIn other row (first ∷ rows) h =
    elim (Bool-cases (ltb row.1.start_time first.1.start_time)) [
      | inl older ↦ rw older (elim h [
        | inl same ↦ inl same
        | inr later ↦ inr (insert_newest-IsIn other row rows later)
      ])
      | inr newer ↦ rw newer (inr h)
    ]

sort_newest-All {κ} :
    (P : ScanRow → Type κ) (rows : List ScanRow) → All P rows → All P (sort_newest rows)
unfolding sort_newest
sort_newest-All P [] h = tt
sort_newest-All P (row ∷ rows) h =
    insert_newest-All P row (sort_newest rows) h.0 (sort_newest-All P rows h.1)

sort_newest-IsIn :
    (row : ScanRow) (rows : List ScanRow) → IsIn row rows → IsIn row (sort_newest rows)
unfolding sort_newest
sort_newest-IsIn row [] h = h
sort_newest-IsIn row (first ∷ rows) h = elim h [
  | inl same ↦ rw same (insert_newest-IsIn_self first (sort_newest rows))
  | inr later ↦ insert_newest-IsIn row first (sort_newest rows) (sort_newest-IsIn row rows later)
]

-- The newest first.
abbrev pub IsNewest : List ScanRow → Type 0
IsNewest [] = Unit
IsNewest (row ∷ rows) =
    All (λ (later : ScanRow). later.1.start_time ≤ row.1.start_time) rows × IsNewest rows

All-older :
    (row : ScanRow) (n : ℕ) (rows : List ScanRow)
    → row.1.start_time ≤ n
    → All (λ (later : ScanRow). later.1.start_time ≤ row.1.start_time) rows
    → All (λ (later : ScanRow). later.1.start_time ≤ n) rows
All-older row n [] h k = tt
All-older row n (first ∷ rows) h k = (omega arith, All-older row n rows h k.1)

insert_newest-IsNewest :
    (row : ScanRow) (rows : List ScanRow) → IsNewest rows → IsNewest (insert_newest row rows)
unfolding insert_newest
insert_newest-IsNewest row [] h = (tt, tt)
insert_newest-IsNewest row (first ∷ rows) h =
    elim (Bool-cases (ltb row.1.start_time first.1.start_time)) [
      | inl older ↦ rw older (
        insert_newest-All (λ later. later.1.start_time ≤ first.1.start_time) row rows (ground arith)
            h.0,
        insert_newest-IsNewest row rows h.1,
      )
      | inr newer ↦
          let first' : first.1.start_time ≤ row.1.start_time = ground arith in
          rw newer ((first', All-older first row.1.start_time rows first' h.0), h)
    ]

sort_newest-IsNewest : (rows : List ScanRow) → IsNewest (sort_newest rows)
unfolding sort_newest
sort_newest-IsNewest [] = tt
sort_newest-IsNewest (row ∷ rows) =
    insert_newest-IsNewest row (sort_newest rows) (sort_newest-IsNewest rows)

-- What a row of the listing is of.
abbrev pub IsShown : Scanner → Option ℕ → ScanRow → Type 0
IsShown w loc row =
    (r : ℕ) × (s : StoredScan) × (w.by_scan row.0 ≡ some r)
    × (is_unwinding loc (w.runs r) ≡ true)
    × (w.scans row.0 ≡ some s)
    × (row.1 ≡ overlay (w.runs r) s)

-- What the rows of the IDs below a number are.
abbrev AreRows : ℕ → Option ℕ → Scanner → List ScanRow → Type 0
AreRows n loc w rows =
    (read_all (cancelling_ids n loc w) w ≡ ok rows)
    × All (IsShown w loc) rows
    × ((id r : ℕ)
        → id < n
        → w.by_scan id ≡ some r
        → is_unwinding loc (w.runs r) ≡ true
        → (s : StoredScan) × (w.scans id ≡ some s) × IsIn (id, overlay (w.runs r) s) rows)

read_scan-registered :
    {w : Scanner}
    → IsValid w
    → (id r : ℕ) → w.by_scan id ≡ some r
    → (s : StoredScan) × (w.scans id ≡ some s) × (read_scan id w ≡ ok (overlay (w.runs r) s))
unfolding read_scan overlay
read_scan-registered {w} v id r at =
    let (made, known) = v.found id r at in
    let (s, row, _, _) = v.recorded r id made (registered_as-scan_of (w.runs r).phase id known) in
    (s, row, rw (read_scan, row, at) refl)

-- The IDs of one more number.
cancelling_ids-none :
    (n : ℕ) (loc : Option ℕ) (w : Scanner)
    → w.by_scan n ≡ none
    → cancelling_ids (suc n) loc w ≡ cancelling_ids n loc w
unfolding cancelling_ids
cancelling_ids-none n loc w h = rw (cancelling_ids, h) refl

cancelling_ids-some :
    (n r : ℕ) (loc : Option ℕ) (w : Scanner)
    → w.by_scan n ≡ some r
    → cancelling_ids (suc n) loc w
      ≡ (if is_unwinding loc (w.runs r) then n ∷ cancelling_ids n loc w else cancelling_ids n loc w)
unfolding cancelling_ids
cancelling_ids-some n r loc w h = rw (cancelling_ids, h) refl

read_all-cons :
    (id : ℕ) (ids : List ℕ) (w : Scanner) {s : StoredScan} {rows : List ScanRow}
    → read_scan id w ≡ ok s
    → read_all ids w ≡ ok rows
    → read_all (id ∷ ids) w ≡ ok ((id, s) ∷ rows)
unfolding read_all
read_all-cons id ids w h k = rw (h, k) refl

read_all-rows :
    {w : Scanner} (loc : Option ℕ)
    → IsValid w
    → (n : ℕ) → (rows : List ScanRow) × AreRows n loc w rows
read_all-rows loc v zero =
    ([], (unfold cancelling_ids read_all in refl, tt, λ id r below at h. elim below [ ]))
read_all-rows {w} loc v (suc n) =
    let (rows, known) = read_all-rows loc v n in
    elim (Option-cases (w.by_scan n)) [
      | inl nothing ↦ (
        rows,
        (
          rw (cancelling_ids-none n loc w nothing) known.0,
          known.1,
          λ id r below at h. elim (Bool-cases (id == n)) [
            | inl same ↦ absurd (grind (arith, ==_iff id n))
            | inr before ↦ known.2 id r (ground arith) at h
          ],
        ),
      )
      | inr (r, at) ↦ elim (Bool-cases (is_unwinding loc (w.runs r))) [
        | inl unwinding ↦
            let (s, row, reads) = read_scan-registered v n r at in
            (
              (n, overlay (w.runs r) s) ∷ rows,
              (
                rw (cancelling_ids-some n r loc w at, unwinding)
                    (read_all-cons n _ w reads known.0),
                ((r, s, at, unwinding, row, refl), known.1),
                λ id r' below at' h. elim (Bool-cases (id == n)) [
                  | inl same ↦
                      let number : id ≡ n = (==_iff id n).0 same in
                      let same_run : r' ≡ r = grind (arith, number) in
                      rw (number, same_run) (s, row, inl refl)
                  | inr before ↦
                      let (x, row', within) = known.2 id r' (ground arith) at' h in
                      (x, row', inr within)
                ],
              ),
            )
        | inr steady ↦ (
          rows,
          (
            rw (cancelling_ids-some n r loc w at, steady) known.0,
            known.1,
            λ id r' below at' h. elim (Bool-cases (id == n)) [
              | inl same ↦ absurd (grind (arith, ==_iff id n))
              | inr before ↦ known.2 id r' (ground arith) at' h
            ],
          ),
        )
      ]
    ]

IsIn-All {κ} :
    (P : ScanRow → Type κ) (row : ScanRow) (rows : List ScanRow)
    → IsIn row rows
    → All P rows
    → P row
IsIn-All P row [] h k = absurd h
IsIn-All P row (first ∷ rows) h k = elim h [
  | inl same ↦ rw same k.0
  | inr later ↦ IsIn-All P row rows later k.1
]

-- In a reachable state the listing of the scans that are being cancelled, of one location or of all and
-- without a limit, succeeds. A row is in it exactly if it shows the stored scan of a registered run
-- that a request to cancel has marked, with the counts of the run. The newest scan is first.
pub Reach-cancelling_scans :
    {w : Scanner}
    → Reach w
    → (loc : Option ℕ)
    → (rows : List ScanRow) × (cancelling_scans loc 0 w ≡ ok rows)
      × ((row : ScanRow) → IsIn row rows ↔ IsShown w loc row)
      × IsNewest rows
unfolding cancelling_scans
Reach-cancelling_scans {w} reach loc =
    let v = Reach-IsValid reach in
    let (rows, known) = read_all-rows loc v w.issued in
    let shown = sort_newest-All (IsShown w loc) rows known.1 in
    (
      sort_newest rows,
      rw known.0 refl,
      λ row. (
        λ within. IsIn-All (IsShown w loc) row (sort_newest rows) within shown,
        λ shows.
            let (r, s, at, unwinding, stored, counts) = shows in
            let below : row.0 < w.issued = elim (Bool-cases (ltb row.0 w.issued)) [
              | inl less ↦ ground arith
              | inr more ↦ absurd (grind (arith, stored, v.fresh row.0 (ground arith)))
            ] in
            let (s', stored', within) = known.2 row.0 r below at unwinding in
            let same : s' ≡ s = grind (arith, stored, stored') in
            let row_eq : row ≡ (row.0, overlay (w.runs r) s') =
              rw same (ap (λ x. (row.0, x)) counts) in
            rw row_eq (sort_newest-IsIn (row.0, overlay (w.runs r) s') rows within),
      ),
      sort_newest-IsNewest rows,
    )
