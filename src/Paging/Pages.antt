-- ===== src/Paging/Pages.antt =====
-- One page of a listing of sqlite/libraryread.go, as a part of the whole listing.
use byom.Prelude.{
  ℕ, suc, ◌+◌, ◌-◌, ◌≡◌, ◌≢◌, subst, ◌≤◌, refl, sym, ap, ◌∙◌, Text, Bool, true, false, List, [],
  ◌∷◌, ◌++◌, arith, Bool-cases, inl, inr, length, length-append, length-take, take, take-all,
  take-take, take-append_cons, get_elem?, get_elem?-append, keep, keep-keep, ok, some, ◌&&◌,
  is_empty, leb,
}
use byom.Paging.{Listing, cut_page, page_size, fetch, resume, list_page}
use byom.Paging.Sorting.{
  order_by, keep-order_by, keep_above, order_by-IsAscending, keep-IsDistinct, IsDistinct,
  IsAscending,
}

-- The effective page size is between 1 and 200.
pub page_size_bounds : (n : ℕ) → (1 ≤ page_size n) × (page_size n ≤ 200)
unfolding page_size
page_size_bounds n = ground arith

pub is_empty_ne {ℓ} : {A : Type ℓ} (xs : List A) → xs ≢ [] → is_empty xs ≡ false
is_empty_ne [] h = absurd (h refl)
is_empty_ne (x ∷ xs) h = refl

module _ {ℓ} {R : Type ℓ} (limit : ℕ) (token_of : R → Text) where
  pub cut_page-fits :
      (xs : List R)
      → length xs ≤ limit
      → cut_page limit token_of xs ≡ record { items = xs; next_page_token = [] }
  unfolding cut_page
  cut_page-fits xs h = ground arith

  pub cut_page-more :
      (front : List R) (r : R) (back : List R)
      → suc (length front) ≡ limit
      → 1 ≤ length back
      → cut_page limit token_of (front ++ r ∷ back)
        ≡ record { items = front ++ r ∷ []; next_page_token = token_of r }
  unfolding cut_page
  cut_page-more front r back h k =
      let long : leb (length (front ++ r ∷ back)) limit ≡ false =
        ground (arith, length-append front (r ∷ back)) in
      let full : take limit (front ++ r ∷ back) ≡ front ++ r ∷ [] =
        ap (λ n. take n (front ++ r ∷ back)) (sym h) ∙ take-append_cons front r back in
      let last : get_elem? (front ++ r ∷ []) (limit - 1) ≡ some r =
        ap (get_elem? (front ++ r ∷ [])) (omega arith) ∙ get_elem?-append front r [] in
      rw (long, full, last) refl

  -- The row that is fetched beyond the page is enough to tell whether it is the last one.
  pub cut_page-take :
      (xs : List R) → cut_page limit token_of (take (limit + 1) xs) ≡ cut_page limit token_of xs
  unfolding cut_page
  cut_page-take xs = elim (Bool-cases (leb (length xs) limit)) [
    | inl fits ↦ rw (take-all (limit + 1) xs (ground arith)) refl
    | inr more ↦
        let size = length-take (limit + 1) xs (ground arith) in
        let long : leb (length (take (limit + 1) xs)) limit ≡ false = ground (arith, size) in
        rw (long, more, take-take limit (limit + 1) xs (omega arith)) refl
  ]

module _ {ℓ κ υ} {R : Type ℓ} {K : Type κ} {C : Type υ} (l : Listing R K C) where
  -- All that the listing gives, in its order.
  abbrev pub catalog : List R → List R
  catalog rows = order_by l.order l.key (keep l.selects rows)

  -- A cursor resumes at the row that it was made of, under the query that made it.
  pub record IsKeyset : Type (ℓ ⊔ κ) where
    pub resumes : (r : R) → l.resumes_at (l.mint r) ≡ l.key r
    pub accepted : (r : R) → l.of_query (l.mint r) ≡ true

  abbrev pub token_of : R → Text
  token_of r = l.codec.encode (l.mint r)

  pub list_page_start :
      (rows : List R) (n : ℕ)
      → list_page l rows [] n ≡ ok (cut_page (page_size n) token_of (catalog rows))
  unfolding list_page fetch resume
  list_page_start rows n = ap ok (cut_page-take (page_size n) token_of (catalog rows))

  resume-token_of : IsKeyset → (r : R) → resume l (token_of r) ≡ ok (some (l.mint r))
  unfolding resume
  resume-token_of keyset r =
      rw
        (
          is_empty_ne (token_of r) (l.codec.encode-ne-nil (l.mint r)),
          l.codec.decode-encode (l.mint r),
          keyset.accepted r,
        )
        refl

  pub catalog-IsAscending :
      (rows : List R) → IsDistinct l.order l.key rows → IsAscending l.order l.key (catalog rows)
  catalog-IsAscending rows distinct =
      order_by-IsAscending l.order l.key (keep l.selects rows)
        (keep-IsDistinct l.order l.key l.selects rows distinct)

  rows_after :
      IsKeyset
      → (rows : List R) → IsDistinct l.order l.key rows
      → (front : List R) (r : R) (back : List R) → catalog rows ≡ front ++ r ∷ back
      → order_by l.order l.key
          (keep (λ s. l.selects s && l.order.lt (l.resumes_at (l.mint r)) (l.key s)) rows)
        ≡ back
  rows_after keyset rows distinct front r back whole =
      let above : R → Bool = λ s. l.order.lt (l.key r) (l.key s) in
      let ascending : IsAscending l.order l.key (front ++ r ∷ back) =
        subst (IsAscending l.order l.key) whole (catalog-IsAscending rows distinct) in
      rw (keyset.resumes r) (
        ap (order_by l.order l.key) (sym (keep-keep above l.selects rows))
        ∙ sym (
            keep-order_by l.order l.key above (keep l.selects rows)
              (keep-IsDistinct l.order l.key l.selects rows distinct))
        ∙ ap (keep above) whole
        ∙ keep_above l.order l.key front r back ascending)

  -- The token of a row of the listing resumes right after it.
  pub list_page_after :
      IsKeyset
      → (rows : List R) → IsDistinct l.order l.key rows
      → (front : List R) (r : R) (back : List R) → catalog rows ≡ front ++ r ∷ back
      → (n : ℕ) → list_page l rows (token_of r) n ≡ ok (cut_page (page_size n) token_of back)
  unfolding list_page fetch
  list_page_after keyset rows distinct front r back whole n =
      rw (resume-token_of keyset r, rows_after keyset rows distinct front r back whole)
        (ap ok (cut_page-take (page_size n) token_of back))
