-- ===== src/Locations/Listing.antt =====
-- The pages of locations: `Locations` and its cursor in sqlite/location.go, an instance of Paging, on
-- the rows that Uniqueness is about.
use byom.Prelude.{
  ℕ, suc, ◌*◌, ◌≤◌, ◌≡◌, ◌≢◌, refl, ap, ◌∙◌, sym, true, List, [], ◌∷◌, length, take-all, arith,
  keep, Text, Result, All,
}
use byom.Pagination.{Page}
use byom.Pagination.Walk.{walk}
use byom.Paging.{Codec, Listing, StoreError, list_page, page_size}
use byom.Paging.Orders.{nat_order}
use byom.Paging.Pages.{IsKeyset, catalog, catalog-IsAscending}
use byom.Paging.Sorting
use byom.Paging.Sorting.{order_by, order_by-perm, IsAscending, length-order_by}
use byom.Paging.Walks.{page_of, walk-catalog}
use byom.Locations.{StoredLocation}
use byom.Locations.Uniqueness.{LocationOp, run, Differs, IsDistinct, run-IsDistinct}
use mathlib.Core.List.{Perm}

pub record LocationCursor : Type 0 where
  pub id : ℕ

module _ (codec : Codec LocationCursor) where
  abbrev pub locations_of : Listing StoredLocation ℕ LocationCursor
  locations_of = record {
    order = nat_order;
    key = λ loc. loc.id;
    selects = λ loc. true;
    codec = codec;
    mint = λ loc. record { id = loc.id };
    resumes_at = λ cur. cur.id;
    of_query = λ cur. true;
  }

  unfoldable pub locations :
      List StoredLocation → Text → ℕ → Result StoreError (Page StoredLocation)
  locations rows token limit = list_page locations_of rows token limit

  locations_of-IsKeyset : IsKeyset locations_of
  locations_of-IsKeyset = record { resumes = λ loc. refl; accepted = λ loc. refl }

  Differs-ids :
      (loc : StoredLocation) (rows : List StoredLocation)
      → All (Differs loc) rows
      → All (λ (s : StoredLocation). loc.id ≢ s.id) rows
  Differs-ids loc [] h = tt
  Differs-ids loc (row ∷ rows) h = (λ e. h.0.0 (sym e), Differs-ids loc rows h.1)

  IsDistinct-ids :
      (rows : List StoredLocation)
      → IsDistinct rows
      → Sorting.IsDistinct nat_order (λ (loc : StoredLocation). loc.id) rows
  IsDistinct-ids [] h = tt
  IsDistinct-ids (row ∷ rows) h = (Differs-ids row rows h.0, IsDistinct-ids rows h.1)

  keep-true : (rows : List StoredLocation) → keep (λ loc. true) rows ≡ rows
  keep-true [] = refl
  keep-true (row ∷ rows) = ap (◌∷◌ row) (keep-true rows)

  -- After any sequence of insertions, updates and deletions on an empty table, the pages of locations
  -- that are followed for as many pages as have room for all of them are done, and are all the
  -- locations of the table, each once, in strictly ascending order of their IDs.
  pub run-locations :
      (ops : List LocationOp) (n m : ℕ)
      → length (run ops []) ≤ suc m * page_size n
      → let followed = walk (λ token. page_of (locations (run ops []) token n)) (suc m) in
        (followed.done ≡ true)
        × Perm followed.items (run ops [])
        × IsAscending nat_order (λ (loc : StoredLocation). loc.id) followed.items
  unfolding locations
  run-locations ops n m fits =
      let rows = run ops [] in
      let l = locations_of in
      let distinct = IsDistinct-ids rows (run-IsDistinct ops [] tt) in
      let (items, done) = walk-catalog l rows n locations_of-IsKeyset distinct m in
      let all' : catalog l rows ≡ order_by l.order l.key rows =
        ap (order_by l.order l.key) (keep-true rows) in
      let size : length (catalog l rows) ≡ length rows =
        ap length all' ∙ length-order_by l.order l.key rows in
      let whole = items ∙ take-all (suc m * page_size n) (catalog l rows) (ground arith) in
      (
        done ∙ ground arith,
        rw (whole, all') (order_by-perm l.order l.key rows),
        rw whole (catalog-IsAscending l rows distinct),
      )
