-- ===== src/Paging/Answers.antt =====
-- What a client sees that pages through the converted rows of a listing of rpc/library.go.
use byom.Prelude.{
  ℕ, zero, suc, ◌*◌, ◌≡◌, ◌≢◌, ◌≤◌, ap, ◌∙◌, Text, true, List, [], ◌∷◌, arith, All, length, map,
  take, take-all, leb,
}
use byom.Pagination.{Page}
use byom.Pagination.Walk.{walk, walk-map}
use byom.Paging.{Listing, page_size}
use byom.Paging.Pages.{catalog, IsKeyset}
use byom.Paging.Sorting.{IsDistinct}
use byom.Paging.Orders.{StrictOrder}
use byom.Paging.Walks.{pages, walk-catalog}

module _ {ℓ κ υ} {R : Type ℓ} {K : Type κ} {L : Type υ} (o : StrictOrder K)
    (u : StrictOrder L) where
  All-finer :
      (key : R → K) (finer : R → L)
      → ((r s : R) → finer r ≡ finer s → key r ≡ key s)
      → (r : R) (rs : List R) → All (λ s. key r ≢ key s) rs
      → All (λ s. finer r ≢ finer s) rs
  All-finer key finer h r [] new = tt
  All-finer key finer h r (s ∷ rs) new =
      (λ same. new.0 (h r s same), All-finer key finer h r rs new.1)

  -- Rows that one key tells apart are told apart by any key that determines it.
  pub IsDistinct-finer :
      (key : R → K) (finer : R → L)
      → ((r s : R) → finer r ≡ finer s → key r ≡ key s)
      → (rs : List R) → IsDistinct o key rs
      → IsDistinct u finer rs
  IsDistinct-finer key finer h [] d = tt
  IsDistinct-finer key finer h (r ∷ rs) d =
      (All-finer key finer h r rs d.0, IsDistinct-finer key finer h rs d.1)

module _ {ℓ κ υ ι} {R : Type ℓ} {K : Type κ} {C : Type υ} {A : Type ι} (l : Listing R K C)
    (f : R → A) (rows : List R) (n : ℕ) (answers : Text → Page A) where
  -- The answers are the converted pages of the listing.
  abbrev pub IsConverted : Type ι
  IsConverted =
      (token : Text)
      → answers token ≡ record {
        items = map f (pages l rows n token).items;
        next_page_token = (pages l rows n token).next_page_token;
      }

  module _ (keyset : IsKeyset l) (distinct : IsDistinct l.order l.key rows) (h : IsConverted) where
    -- The first pages are the first rows of the catalogue.
    pub walk-answers :
        (m : ℕ)
        → ((walk answers (suc m)).items ≡ map f (take (suc m * page_size n) (catalog l rows)))
          × ((walk answers (suc m)).done ≡ leb (length (catalog l rows)) (suc m * page_size n))
    walk-answers m =
        let (items, done) = walk-catalog l rows n keyset distinct m in
        rw (walk-map f (pages l rows n) answers h (suc m)) (ap (map f) items, done)

    -- A walk that is done has the whole catalogue.
    pub walk-answers_done :
        (m : ℕ) → (walk answers m).done ≡ true → (walk answers m).items ≡ map f (catalog l rows)
    unfolding walk
    walk-answers_done zero over = absurd (ground arith)
    walk-answers_done (suc m) over =
        let (items, done) = walk-answers m in
        let fits : length (catalog l rows) ≤ suc m * page_size n = ground arith in
        items ∙ ap (map f) (take-all (suc m * page_size n) (catalog l rows) fits)
