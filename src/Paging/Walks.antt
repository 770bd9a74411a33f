-- ===== src/Paging/Walks.antt =====
-- Following the tokens of a listing of sqlite/libraryread.go gives the whole of it, in its order,
-- each row once: what a client that pages through it sees.
use byom.Prelude.{
  ℕ, zero, suc, ◌+◌, ◌*◌, ◌-◌, ◌≡◌, ◌≢◌, ◌≤◌, refl, sym, ap, ◌∙◌, subst, Text, true, false, List,
  [], ◌∷◌, ◌++◌, arith, Bool-cases, inl, inr, ◌⊎◌, length, length-append, take, take-append,
  take-all, ok, err, leb, Result, truthy, split_at,
}
use byom.Pagination.{Page}
use byom.Pagination.Walk.{Cursor, walk, advance}
use byom.Paging.{Listing, StoreError, page_size, list_page, cut_page}
use byom.Paging.Pages.{
  catalog, IsKeyset, token_of, list_page_start, list_page_after, cut_page-fits, cut_page-more,
  page_size_bounds,
}
use byom.Paging.Sorting.{IsDistinct}
use mathlib.Core.List.{append_assoc, append-nil}

-- The page of an answer; a refusal gives nothing.
abbrev pub page_of {ℓ} : {R : Type ℓ} → Result StoreError (Page R) → Page R
page_of (ok p) = p
page_of (err e) = record { items = []; next_page_token = [] }

truthy_ne : (t : Text) → t ≢ [] → truthy t ≡ true
truthy_ne [] h = absurd (h refl)
truthy_ne (c ∷ t) h = refl

module _ {ℓ κ υ} {R : Type ℓ} {K : Type κ} {C : Type υ} (l : Listing R K C) (rows : List R)
    (n : ℕ) where
  abbrev pub pages : Text → Page R
  pages token = page_of (list_page l rows token n)

  -- Where a walk stands after `m` pages: what it has, and what is left of the listing.
  pub record IsAfter (m : ℕ) (c : Cursor R) : Type ℓ where
    pub rest : List R
    pub split : catalog l rows ≡ c.items ++ rest
    pub bound : length c.items ≤ m * page_size n
    pub full : c.done ≡ false → length c.items ≡ m * page_size n
    pub ended : c.done ≡ true → rest ≡ []
    pub more : c.done ≡ false → 1 ≤ m → 1 ≤ length rest
    pub resumes :
        c.done ≡ false
        → ((c.token ≡ []) × (c.items ≡ []))
          ⊎ ((front : List R) × (r : R) × (c.items ≡ front ++ r ∷ []) × (c.token ≡ token_of l r))

  module _ (keyset : IsKeyset l) (distinct : IsDistinct l.order l.key rows) where
    -- A walk that is not done gets the next page of what is left.
    next_page :
        (m : ℕ) (c : Cursor R) (a : IsAfter m c)
        → c.done ≡ false
        → pages c.token ≡ cut_page (page_size n) (token_of l) a.rest
    next_page m c a going = elim (a.resumes going) [
      | inl (first, none') ↦
          rw (first, list_page_start l rows n)
            (ap (cut_page (page_size n) (token_of l)) (a.split ∙ ap (λ xs. xs ++ a.rest) none'))
      | inr (front, r, shown, token) ↦
          rw
            (
              token,
              list_page_after l keyset rows distinct front r a.rest
                  (a.split ∙ ap (λ xs. xs ++ a.rest) shown ∙ append_assoc front (r ∷ []) a.rest) n,
            )
            refl
    ]

    more_size : (m : ℕ) → suc m * page_size n ≡ m * page_size n + page_size n
    more_size m = grind arith

    -- The last page.
    last-IsAfter :
        (m : ℕ) (c : Cursor R) (a : IsAfter m c)
        → c.done ≡ false
        → length a.rest ≤ page_size n
        → IsAfter (suc m) (record { items = c.items ++ a.rest; token = []; done = true })
    last-IsAfter m c a going fits = record {
      rest = [];
      split = a.split ∙ sym (append-nil (c.items ++ a.rest));
      bound = omega (arith, length-append c.items a.rest, more_size m, a.bound);
      full = λ h. cc;
      ended = λ h. refl;
      more = λ h. cc;
      resumes = λ h. cc;
    }

    -- A page with another one after it.
    middle-IsAfter :
        (m : ℕ) (c : Cursor R) (a : IsAfter m c)
        → c.done ≡ false
        → (front : List R) (r : R) (back : List R) → a.rest ≡ front ++ r ∷ back
        → suc (length front) ≡ page_size n
        → 1 ≤ length back
        → IsAfter
            (suc m)
            (record { items = c.items ++ (front ++ r ∷ []); token = token_of l r; done = false })
    middle-IsAfter m c a going front r back whole size left =
        let long = length-append c.items (front ++ r ∷ []) in
        let short = length-append front (r ∷ []) in
        record {
          rest = back;
          split =
              a.split
              ∙ ap (λ xs. c.items ++ xs) (whole ∙ sym (append_assoc front (r ∷ []) back))
              ∙ sym (append_assoc c.items (front ++ r ∷ []) back);
          bound = omega (arith, long, short, more_size m, a.bound);
          full = λ h. omega (arith, long, short, more_size m, a.full going);
          ended = λ h. cc;
          more = λ h k. left;
          resumes = λ h. inr (c.items ++ front, r, sym (append_assoc c.items front (r ∷ [])), refl);
        }

    advance-IsAfter : (m : ℕ) (c : Cursor R) → IsAfter m c → IsAfter (suc m) (advance pages c)
    unfolding advance
    advance-IsAfter m c a = elim (Bool-cases c.done) [
      | inl over ↦ rw over (record {
        rest = a.rest;
        split = a.split;
        bound = omega (arith, more_size m, a.bound);
        full = λ h. cc;
        ended = λ h. a.ended over;
        more = λ h. cc;
        resumes = λ h. cc;
      })
      | inr going ↦ elim (Bool-cases (leb (length a.rest) (page_size n))) [
        | inl fits ↦
            let short : length a.rest ≤ page_size n = ground arith in
            rw (going, next_page m c a going, cut_page-fits (page_size n) (token_of l) a.rest short)
              (last-IsAfter m c a going short)
        | inr long ↦
            let positive = (page_size_bounds n).0 in
            let (front, r, back, whole, size) = split_at (page_size n - 1) a.rest (ground arith) in
            let total = ap length whole ∙ length-append front (r ∷ back) in
            let full : suc (length front) ≡ page_size n = omega arith in
            let left : 1 ≤ length back = ground arith in
            let next =
              next_page m c a going
              ∙ ap (cut_page (page_size n) (token_of l)) whole
              ∙ cut_page-more (page_size n) (token_of l) front r back full left in
            rw (going, next, truthy_ne (token_of l r) (l.codec.encode-ne-nil (l.mint r)))
              (middle-IsAfter m c a going front r back whole full left)
      ]
    ]

    pub walk-IsAfter : (m : ℕ) → IsAfter m (walk pages m)
    unfolding walk
    walk-IsAfter zero = record {
      rest = catalog l rows;
      split = refl;
      bound = omega arith;
      full = λ h. omega arith;
      ended = λ h. cc;
      more = λ h k. elim k [ ];
      resumes = λ h. inl (refl, refl);
    }
    walk-IsAfter (suc m) = advance-IsAfter m (walk pages m) (walk-IsAfter m)

    -- The first pages are the first rows of the ordered listing, and they are all of them exactly
    -- when the walk says that it is done.
    pub walk-catalog :
        (m : ℕ)
        → ((walk pages (suc m)).items ≡ take (suc m * page_size n) (catalog l rows))
          × ((walk pages (suc m)).done ≡ leb (length (catalog l rows)) (suc m * page_size n))
    walk-catalog m =
        let w = walk pages (suc m) in
        let a = walk-IsAfter (suc m) in
        let size = ap length a.split ∙ length-append w.items a.rest in
        elim (Bool-cases w.done) [
          | inl over ↦
              let whole : catalog l rows ≡ w.items =
                a.split ∙ ap (λ xs. w.items ++ xs) (a.ended over) ∙ append-nil w.items in
              let fits : length (catalog l rows) ≤ suc m * page_size n =
                subst (λ xs. length xs ≤ suc m * page_size n) (sym whole) a.bound in
              (
                sym whole ∙ sym (take-all (suc m * page_size n) (catalog l rows) fits),
                over ∙ ground arith,
              )
          | inr going ↦
              let left = a.more going (omega arith) in
              (
                sym (take-append w.items a.rest)
                    ∙ ap (λ k. take k (w.items ++ a.rest)) (a.full going)
                    ∙ ap (take (suc m * page_size n)) (sym a.split),
                going ∙ ground (arith, a.full going),
              )
        ]
