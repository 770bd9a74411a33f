-- ===== src/Scanner/ListingTests.antt =====
-- The listing of running scans while one of two scans is being cancelled.
use byom.Prelude.{
  ℕ, suc, List, ok, ◌-◌, ◌≡◌, ◌↔◌, refl, [], ◌∷◌, Option, none, some, arith, if◌then◌else◌, ◌==◌,
}
use byom.Pagination.Walk.{walk, advance}
use byom.Paging.{Codec, page_size, cut_page, fetch, resume, list_page}
use byom.Paging.Codecs.{nat_serial, via, pair_serial, codec_of}
use byom.Paging.Sorting.{insert_row, order_by}
use byom.Paging.Walks.{page_of}
use byom.Scanner.{
  Scanner, StoredState, StoredScan, no_counts, new_scanner, claim, add_run, begin_scan, register,
  mark, overlay, read_scan,
}
use byom.Scanner.Reach.{Reach, now', next, claims, begins, registers, marks}
use byom.Scanner.Rows.{ScanRow, rows_below}
use byom.Scanner.Listing.{ScanCursor, state_rank, shown_row, list_scans, Reach-list_scans}
use byom.Scanner.Cancelling.{
  cancelling_ids, read_all, insert_newest, sort_newest, cancelling_scans, IsIn, IsShown, IsNewest,
  Reach-cancelling_scans,
}
use mathlib.Core.List.{Mem}

program : Unit {0}
unfolding claim add_run begin_scan register mark overlay walk advance page_size cut_page fetch
    resume list_page insert_row order_by rows_below shown_row list_scans cancelling_ids read_all
    insert_newest sort_newest cancelling_scans read_scan
program = tt

abbrev option_code : Option ℕ → ℕ
option_code none = 0
option_code (some n) = suc n

abbrev option_of_code : ℕ → Option ℕ
option_of_code n = if n == 0 then none else some (n - 1)

option_of_code-option_code : (o : Option ℕ) → option_of_code (option_code o) ≡ o
option_of_code-option_code o = ground arith

abbrev state_code : Option StoredState → ℕ
state_code none = 0
state_code (some t) = suc (state_rank t)

abbrev state_of_code : ℕ → Option StoredState
state_of_code n =
    if n == 0
    then none
    else if n == 1
    then some StoredState.running
    else if n == 2
    then some StoredState.cancelling
    else if n == 3
    then some StoredState.done
    else if n == 4
    then some StoredState.failed
    else some StoredState.aborted

state_of_code-state_code : (o : Option StoredState) → state_of_code (state_code o) ≡ o
state_of_code-state_code o = ground arith

abbrev scan_codec : Codec ScanCursor
scan_codec = codec_of (
    via
      (pair_serial (via nat_serial option_code option_of_code option_of_code-option_code) (
        pair_serial (via nat_serial state_code state_of_code state_of_code-state_code)
          (pair_serial nat_serial nat_serial)))
      (λ c. (c.location_id, (c.state, (c.start_time, c.id))))
      (λ p. record { location_id = p.0; state = p.1.0; start_time = p.1.1.0; id = p.1.1.1 })
      (λ c. refl))

-- Scans of the locations 7 and 8, the first of which is being cancelled.
abbrev s1 : Scanner
s1 = register 0 0 (begin_scan 100 0 (add_run 7 new_scanner))

abbrev s2 : Scanner
s2 = register 1 1 (begin_scan 110 1 (add_run 8 s1))

abbrev s3 : Scanner
s3 = mark 0 s2

s1-Reach : Reach s1
unfolding program
s1-Reach =
    next (next (next now' (claims 7 refl)) (begins 100 0 (omega arith) refl))
      (registers 0 0 (omega arith) refl)

s3-Reach : Reach s3
unfolding program
s3-Reach =
    next
      (next (next (next s1-Reach (claims 8 refl)) (begins 110 1 (omega arith) refl))
        (registers 1 1 (omega arith) refl))
      (marks 0)

abbrev row_of : ℕ → ℕ → StoredState → StoredScan
row_of loc start state = record {
  location_id = loc;
  state = state;
  start_time = start;
  finish_time = none;
  error = [];
  progress = no_counts;
}

-- The newer scan stands on the first page, the older one on the last.
list_scans_test :
    (walk
      (λ token. page_of (list_scans scan_codec s3 none (some StoredState.running) token 1))
      2).items
    ≡ (1, row_of 8 110 StoredState.running) ∷ (0, row_of 7 100 StoredState.cancelling) ∷ []
unfolding program
list_scans_test = refl

Reach-list_scans_example :
    (s : StoredScan) × Mem
      (0, s)
      (walk
        (λ token. page_of (list_scans scan_codec s3 none (some StoredState.running) token 1))
        2).items
    × (s.location_id ≡ 7)
    × (s.progress ≡ no_counts)
    × (s.state ≡ StoredState.cancelling)
unfolding program
Reach-list_scans_example = Reach-list_scans scan_codec s3-Reach 1 2 refl 0 0 (omega arith) refl

-- Of both locations and of the other one.
cancelling_scans_test :
    cancelling_scans none 0 s3 ≡ ok ((0, row_of 7 100 StoredState.cancelling) ∷ [])
unfolding program
cancelling_scans_test = refl

cancelling_scans_other_test : cancelling_scans (some 8) 0 s3 ≡ ok []
unfolding program
cancelling_scans_other_test = refl

sort_newest_test :
    sort_newest ((2, row_of 7 90 StoredState.running) ∷ (1, row_of 8 110 StoredState.running) ∷ [])
    ≡ (1, row_of 8 110 StoredState.running) ∷ (2, row_of 7 90 StoredState.running) ∷ []
unfolding program
sort_newest_test = refl

Reach-cancelling_scans_example :
    (rows : List ScanRow) × (cancelling_scans none 0 s3 ≡ ok rows)
    × ((row : ScanRow) → IsIn row rows ↔ IsShown s3 none row)
    × IsNewest rows
Reach-cancelling_scans_example = Reach-cancelling_scans s3-Reach none
