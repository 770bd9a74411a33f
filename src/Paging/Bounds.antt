-- ===== src/Paging/Bounds.antt =====
-- What every page of a listing of sqlite/libraryread.go keeps to, whatever its token.
use byom.Prelude.{
  ℕ, zero, suc, ◌≡◌, ◌≢◌, ◌≤◌, refl, ap, Text, List, [], ◌∷◌, arith, Bool-cases, inl, inr, length,
  map, take, length-take, if◌then◌else◌, leb, ok, err, ◌+◌, ◌⊎◌, Option, subst, Result-cases,
}
use byom.Pagination.{Page}
use byom.Paging.Pages.{token_of}
use byom.Paging.{Listing, StoreError, page_size, list_page, resume, fetch, cut_page}

pub length-take_le {ℓ} : {A : Type ℓ} (n : ℕ) (xs : List A) → length (take n xs) ≤ n
length-take_le zero xs = omega arith
length-take_le (suc n) [] = omega arith
length-take_le (suc n) (x ∷ xs) = omega (arith, length-take_le n xs)

pub length-map {ℓ κ} :
    {A : Type ℓ} {B : Type κ} (f : A → B) (xs : List A) → length (map f xs) ≡ length xs
length-map f [] = refl
length-map f (x ∷ xs) = ap suc (length-map f xs)

-- A page is at most `limit` rows long, and exactly that long when another one follows.
abbrev pub IsWithin {ℓ} : {A : Type ℓ} → ℕ → List A → Text → Type 0
IsWithin limit items token = (length items ≤ limit) × (token ≢ [] → length items ≡ limit)

pub cut_page-IsWithin {ℓ} :
    {R : Type ℓ} (limit : ℕ) (token_of : R → Text) (rows : List R)
    → IsWithin limit
        (cut_page limit token_of rows).items
        (cut_page limit token_of rows).next_page_token
unfolding cut_page
cut_page-IsWithin limit token_of rows = elim (Bool-cases (leb (length rows) limit)) [
  | inl fits ↦ rw fits (ground arith, λ more. absurd (more refl))
  | inr long ↦ rw long (length-take_le limit rows, λ more. length-take limit rows (ground arith))
]

pub cut_page-length {ℓ} :
    {R : Type ℓ} (limit : ℕ) (token_of : R → Text) (rows : List R)
    → length (cut_page limit token_of rows).items
      ≡ (if leb (length rows) limit then length rows else limit)
unfolding cut_page
cut_page-length limit token_of rows = elim (Bool-cases (leb (length rows) limit)) [
  | inl fits ↦ rw fits refl
  | inr long ↦ rw long (length-take limit rows (ground arith))
]

module _ {ℓ κ υ} {R : Type ℓ} {K : Type κ} {C : Type υ} (l : Listing R K C) where
  -- A listing refuses its token, or answers the page that the token's cursor resumes at.
  pub list_page-cases :
      (rows : List R) (token : Text) (n : ℕ)
      → ((e : StoreError) × (resume l token ≡ err e) × (list_page l rows token n ≡ err e))
        ⊎ ((c : Option C) × (resume l token ≡ ok c)
            × (list_page l rows token n
                ≡ ok (cut_page (page_size n) (token_of l) (fetch l c (page_size n + 1) rows))))
  unfolding list_page
  list_page-cases rows token n = elim (Result-cases (resume l token)) [
    | inl (e, refused) ↦ inl (e, refused, rw refused refl)
    | inr (c, resumed) ↦ inr (c, resumed, rw resumed refl)
  ]

  pub list_page-IsWithin :
      (rows : List R) (token : Text) (n : ℕ) (p : Page R)
      → list_page l rows token n ≡ ok p
      → IsWithin (page_size n) p.items p.next_page_token
  list_page-IsWithin rows token n p answered = elim (list_page-cases rows token n) [
    | inl (e, refused, same) ↦ absurd (ground arith)
    | inr (c, resumed, same) ↦
        let it : cut_page (page_size n) (token_of l) (fetch l c (page_size n + 1) rows) ≡ p =
          ground arith in
        subst (λ q. IsWithin (page_size n) q.items q.next_page_token) it
          (cut_page-IsWithin (page_size n) (token_of l) (fetch l c (page_size n + 1) rows))
  ]
