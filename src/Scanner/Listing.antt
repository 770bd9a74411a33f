-- ===== src/Scanner/Listing.antt =====
-- The listing of scans: `Scans` of sqlite/scan.go and scan/scanner.go, with a filter by state other
-- than cancelling.
use byom.Prelude.{
  ℕ, zero, suc, ◌<◌, ◌≡◌, ◌≢◌, ◌==◌, refl, ap, Text, Bool, true, false, ◌&&◌, List, [], ◌∷◌, Option,
  none, some, arith, All, keep, map, Result, ok, err, ◌>>=◌, inl, inr, if◌then◌else◌,
}
use byom.Pagination.{Page}
use byom.Pagination.Walk.{walk}
use byom.Paging.{Codec, Listing, StoreError, list_page}
use byom.Paging.Orders.{nat_order, flip_order, pair_order}
use byom.Paging.Pages.{IsKeyset, catalog}
use byom.Paging.Sorting.{IsDistinct, order_by-perm}
use byom.Paging.Walks.{page_of}
use byom.Paging.Answers.{walk-answers_done}
use byom.Scanner.{Scanner, StoredScan, StoredState, syncing, is_running, overlay}
use byom.Scanner.Rows.{ScanRow, rows_below, rows_below-step, rows_below-All, rows_below-Mem}
use byom.Scanner.Reach.{Reach, Reach-IsValid}
use mathlib.Core.List.{Mem, mem-map_of_mem}
use mathlib.Core.List.Perm

abbrev pub state_rank : StoredState → ℕ
state_rank StoredState.running = 0
state_rank StoredState.cancelling = 1
state_rank StoredState.done = 2
state_rank StoredState.failed = 3
state_rank StoredState.aborted = 4

pub record ScanCursor : Type 0 where
  pub location_id : Option ℕ
  pub state : Option StoredState
  pub start_time : ℕ
  pub id : ℕ

abbrev pub option_eq {ℓ} : {A : Type ℓ} → (A → ℕ) → Option A → Option A → Bool
option_eq f none none = true
option_eq f none (some b) = false
option_eq f (some a) none = false
option_eq f (some a) (some b) = f a == f b

-- A filter that is left out, or that the row passes.
abbrev pub passes {ℓ} : {A : Type ℓ} → (A → ℕ) → Option A → A → Bool
passes f none a = true
passes f (some b) a = f a == f b

module _ (codec : Codec ScanCursor) where
  abbrev pub scans_of : Option ℕ → Option StoredState → Listing ScanRow (ℕ × ℕ) ScanCursor
  scans_of location_id state = record {
    order = pair_order (flip_order nat_order) nat_order;
    key = λ row. (row.1.start_time, row.0);
    selects =
        λ row. passes (λ n. n) location_id row.1.location_id && passes state_rank state row.1.state;
    codec = codec;
    mint = λ row. record {
      location_id = location_id;
      state = state;
      start_time = row.1.start_time;
      id = row.0;
    };
    resumes_at = λ cur. (cur.start_time, cur.id);
    of_query = λ cur.
        option_eq (λ n. n) cur.location_id location_id && option_eq state_rank cur.state state;
  }

  scans_of-IsKeyset :
      (location_id : Option ℕ) (state : Option StoredState) → IsKeyset (scans_of location_id state)
  scans_of-IsKeyset location_id state = record {
    resumes = λ row. refl;
    accepted = λ row. ground arith;
  }

-- A row as `Scans` gives it.
unfoldable pub shown_row : Scanner → ScanRow → ScanRow
shown_row w row =
    (row.0, elim (w.by_scan row.0) [ none ↦ row.1 | some r ↦ overlay (w.runs r) row.1 ])

abbrev row_key : ScanRow → ℕ × ℕ
row_key row = (row.1.start_time, row.0)

-- Rows with smaller IDs have other keys.
apart_below :
    (first : ScanRow) (rows : List ScanRow)
    → All (λ (row : ScanRow). row.0 < first.0) rows
    → All (λ (row : ScanRow). row_key first ≢ row_key row) rows
apart_below first [] h = tt
apart_below first (row ∷ rows) h = (
  λ same. let equal : first.0 ≡ row.0 = ap (λ k. k.1) same in absurd (omega (arith, h.0)),
  apart_below first rows h.1,
)

rows_below-IsDistinct :
    (codec : Codec ScanCursor) (location_id : Option ℕ) (state : Option StoredState) (n : ℕ)
    (scans : ℕ → Option StoredScan)
    → IsDistinct
        (scans_of codec location_id state).order
        (scans_of codec location_id state).key
        (rows_below n scans)
rows_below-IsDistinct codec location_id state zero scans = unfold rows_below in tt
rows_below-IsDistinct codec location_id state (suc n) scans =
    let rest = rows_below-IsDistinct codec location_id state n scans in
    elim (rows_below-step n scans) [
      | inl (nothing, same) ↦ rw same rest
      | inr (s, row, same) ↦
          rw same
            (apart_below (n, s) (rows_below n scans) (rows_below-All n n scans (omega arith)), rest)
    ]

module _ (codec : Codec ScanCursor) (w : Scanner) (location_id : Option ℕ)
    (state : Option StoredState) where
  -- `Scans`.
  unfoldable pub list_scans : Text → ℕ → Result StoreError (Page ScanRow)
  list_scans token limit = do
    page ← list_page (scans_of codec location_id state) (rows_below w.issued w.scans) token limit
    ok (record { items = map (shown_row w) page.items; next_page_token = page.next_page_token })

  page_of-shown :
      (r : Result StoreError (Page ScanRow))
      → page_of (
          r >>= λ p.
          ok (record { items = map (shown_row w) p.items; next_page_token = p.next_page_token }))
        ≡ record {
          items = map (shown_row w) (page_of r).items;
          next_page_token = (page_of r).next_page_token;
        }
  page_of-shown (ok p) = refl
  page_of-shown (err e) = refl

  -- Pages that are followed to their end are all the rows that pass the filters.
  walk-list_scans :
      (n m : ℕ)
      → (walk (λ token. page_of (list_scans token n)) m).done ≡ true
      → (walk (λ token. page_of (list_scans token n)) m).items
        ≡ map
            (shown_row w)
            (catalog (scans_of codec location_id state) (rows_below w.issued w.scans))
  unfolding list_scans
  walk-list_scans n m =
      let l = scans_of codec location_id state in
      let rows = rows_below w.issued w.scans in
      walk-answers_done l (shown_row w) rows n (λ token. page_of (list_scans token n))
        (scans_of-IsKeyset codec location_id state)
        (rows_below-IsDistinct codec location_id state w.issued w.scans)
        (λ token. page_of-shown (list_page l rows token n)) m

is_running_eq : (t : StoredState) → is_running t ≡ true → t ≡ StoredState.running
is_running_eq t h = ground arith

-- In every reachable state of the scanner, when the pages of the scans with the state running, of all
-- locations, are followed to their end, the scan of each run that syncs is among them, with the
-- counts of the run, and as cancelling exactly if a request to cancel it has been made.
pub Reach-list_scans :
    (codec : Codec ScanCursor) {w : Scanner}
    → Reach w
    → (n m : ℕ)
    → let followed =
        walk (λ token. page_of (list_scans codec w none (some StoredState.running) token n)) m in
      followed.done ≡ true
      → (r id : ℕ) → r < w.made
      → (w.runs r).phase ≡ syncing id
      → (s : StoredScan) × Mem (id, s) followed.items
        × (s.location_id ≡ (w.runs r).location_id)
        × (s.progress ≡ (w.runs r).progress)
        × (s.state
            ≡ (if (w.runs r).cancelling then StoredState.cancelling else StoredState.running))
unfolding shown_row overlay
Reach-list_scans codec {w} reach n m ended r id made at =
    let v = Reach-IsValid reach in
    let l = scans_of codec none (some StoredState.running) in
    let registered = v.registered r id made (rw at refl) in
    let (s, row, loc, live) = v.recorded r id made (rw at refl) in
    let run = is_running_eq s.state (live (rw at refl)) in
    let below : id < w.issued = grind (arith, v.fresh id) in
    let stored = rows_below-Mem w.issued w.scans l.selects id s below row (rw run refl) in
    let listed =
      (Perm.mem_iff (order_by-perm l.order l.key (keep l.selects (rows_below w.issued w.scans)))).1
        stored in
    let shown : Mem (shown_row w (id, s))
        (map (shown_row w) (catalog l (rows_below w.issued w.scans))) =
      mem-map_of_mem (shown_row w) listed in
    let same : shown_row w (id, s) ≡ (id, overlay (w.runs r) s) = rw registered refl in
    (
      overlay (w.runs r) s,
      rw⁻¹ same (rw (walk-list_scans codec w none (some StoredState.running) n m ended) shown),
      loc,
      refl,
      rw run refl,
    )
