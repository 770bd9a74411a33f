-- ===== src/Paging.antt =====
-- Keyset pagination: page/page.go, and what the listings of sqlite/libraryread.go,
-- sqlite/location.go and sqlite/scan.go share.
--
-- A token is the base64 of the JSON of a cursor; the codec of each cursor type is a parameter. A
-- query `SELECT .. WHERE p ORDER BY key LIMIT n` gives the first `n` of the ordered rows of the
-- table that pass `p`. Keys end with the ID, so no two rows have one key. Page sizes are not
-- negative here; the code takes a negative one for 0.
pub mod Orders
pub mod Sorting
pub mod Pages
pub mod Walks
pub mod Answers
pub mod Bounds
pub mod Codecs
use byom.Prelude.{
  ℕ, ◌+◌, ◌-◌, ◌≡◌, ◌≢◌, Text, Bool, true, ◌&&◌, List, [], Option, none, some, Result, ok, err,
  ◌>>=◌, ◌>>◌, guard, leb, ltb, ◌==◌, length, get_elem?, take, keep, is_empty, if◌then◌else◌,
}
use byom.Pagination.{Page}
use byom.Paging.Orders.{StrictOrder}
use byom.Paging.Sorting.{order_by}

abbrev pub default_size : ℕ
default_size = 50

abbrev pub max_size : ℕ
max_size = 200

-- `page.Size`.
unfoldable pub page_size : ℕ → ℕ
page_size n = if n == 0 then default_size else if ltb n max_size then n else max_size

-- `page.ErrInvalidToken` and `library.ErrNotFound`.
pub data StoreError : Type 0 where
  invalid_token not_found : StoreError

-- `page.Encode` and `page.Decode` at one type of cursors: a token that was encoded is decoded to
-- its cursor, and is never the empty one, since JSON is never empty.
pub record Codec {ℓ} (C : Type ℓ) : Type ℓ where
  pub encode : C → Text
  pub decode : Text → Option C
  pub decode-encode : (c : C) → decode (encode c) ≡ some c
  pub encode-ne-nil : (c : C) → encode c ≢ []

-- The end of a listing, on the `limit + 1` rows that it has fetched: the rows and no token if they
-- fit the page, and else the page and the token of its last row.
unfoldable pub cut_page {ℓ} : {R : Type ℓ} → ℕ → (R → Text) → List R → Page R
cut_page limit token_of rows =
    let items = take limit rows in
    if leb (length rows) limit then record { items = rows; next_page_token = [] } else record {
      items = items;
      next_page_token = elim (get_elem? items (limit - 1)) [
        | some last ↦ token_of last
        | none ↦ []
      ];
    }

-- What the listings have each of their own: the order of the rows' keys, which rows they select,
-- and their cursors, with the key at which a cursor resumes and whether it is of this query.
pub record Listing {ℓ κ υ} (R : Type ℓ) (K : Type κ) (C : Type υ) : Type (ℓ ⊔ κ ⊔ υ) where
  pub order : StrictOrder K
  pub key : R → K
  pub selects : R → Bool
  pub codec : Codec C
  pub mint : R → C
  pub resumes_at : C → K
  pub of_query : C → Bool

module _ {ℓ κ υ} {R : Type ℓ} {K : Type κ} {C : Type υ} (l : Listing R K C) where
  -- The rows of a page, with one more: from the start, or after a cursor.
  unfoldable pub fetch : Option C → ℕ → List R → List R
  fetch none limit rows = take limit (order_by l.order l.key (keep l.selects rows))
  fetch (some c) limit rows = take limit (
      order_by l.order l.key
        (keep (λ r. l.selects r && l.order.lt (l.resumes_at c) (l.key r)) rows))

  -- The cursor of a token, which must be of this query.
  unfoldable pub resume : Text → Result StoreError (Option C)
  resume token = if is_empty token then ok none else elim (l.codec.decode token) [
    | none ↦ err invalid_token
    | some c ↦ if l.of_query c then ok (some c) else err invalid_token
  ]

  -- A page of the listing.
  unfoldable pub list_page : List R → Text → ℕ → Result StoreError (Page R)
  unfolding fetch resume cut_page
  list_page rows token requested = do
    let limit = page_size requested
    cursor ← resume token
    ok (cut_page limit (λ r. l.codec.encode (l.mint r)) (fetch cursor (limit + 1) rows))
