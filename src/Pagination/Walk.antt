-- ===== src/Pagination/Walk.antt =====
-- The listing that a fetcher serves, and what following its page tokens gives: the specification
-- of the lists of ui/src/lib/pagination.ts.
use byom.Prelude.{
  ℕ, zero, suc, ◌+◌, ◌≡◌, refl, Text, truthy, Bool, true, false, not, List, [], ◌++◌, if◌then◌else◌,
  arith, map, Bool-cases, inl, inr,
}
use native.Mathlib.Nat.{zero-add, suc-add}
use mathlib.Core.List.{map-append}
use byom.Pagination.{Page, Entry, InfiniteList}

pub record Cursor {ℓ} (A : Type ℓ) : Type ℓ where
  pub items : List A
  pub token : Text
  pub done : Bool

module _ {ℓ} {A : Type ℓ} where
  -- One more page; an empty next token ends the walk.
  unfoldable pub advance : (Text → Page A) → Cursor A → Cursor A
  advance pages c =
      let page = pages c.token in
      if c.done then c else record {
        items = c.items ++ page.items;
        token = page.next_page_token;
        done = not (truthy page.next_page_token);
      }

  -- The first `n` pages, from the empty token on.
  unfoldable pub walk : (Text → Page A) → ℕ → Cursor A
  walk pages zero = record { items = []; token = []; done = false }
  walk pages (suc n) = advance pages (walk pages n)

-- What a fetcher answers depends on the list's key and the page token alone.
module _ {ℓ} {A : Type ℓ} (listing : Text → Text → Page A) where
  -- An entry holds the first pages of its key's listing, each once and in order.
  abbrev pub IsWalked : Text → Entry A → Type ℓ
  IsWalked k e =
      (n : ℕ) × (e.items ≡ (walk (listing k) n).items)
      × (e.page_token ≡ (walk (listing k) n).token)
      × (e.done ≡ (walk (listing k) n).done)

  -- A list shows the first pages of its own key's listing.
  abbrev pub IsShown : InfiniteList A → Type ℓ
  IsShown s =
      (n : ℕ) × (s.items ≡ (walk (listing s.key) n).items)
      × (s.done ≡ (walk (listing s.key) n).done)

-- A walk that has ended stays as it is: what a finished list shows is the whole listing.
pub walk_done {ℓ} :
    {A : Type ℓ} (pages : Text → Page A) (n m : ℕ)
    → (walk pages n).done ≡ true
    → walk pages (m + n) ≡ walk pages n
unfolding walk advance
walk_done pages n zero h = rw zero-add
walk_done pages n (suc m) h = rw suc-add (ground (arith, walk_done pages n m))

pub advance-done {ℓ} :
    {A : Type ℓ} (pages : Text → Page A) (c : Cursor A) → c.done ≡ true → advance pages c ≡ c
unfolding advance
advance-done pages c h = ground arith

pub walk-suc {ℓ} :
    {A : Type ℓ} (pages : Text → Page A) (n : ℕ) → walk pages (suc n) ≡ advance pages (walk pages n)
unfolding walk
walk-suc pages n = refl

-- A walk over converted pages has the converted items.
pub walk-map {ℓ κ} :
    {A : Type ℓ} {B : Type κ} (f : A → B) (pages : Text → Page A) (converted : Text → Page B)
    → ((token : Text)
        → converted token ≡ record {
          items = map f (pages token).items;
          next_page_token = (pages token).next_page_token;
        })
    → (n : ℕ)
    → walk converted n ≡ record {
      items = map f (walk pages n).items;
      token = (walk pages n).token;
      done = (walk pages n).done;
    }
unfolding walk advance
walk-map f pages converted h zero = refl
walk-map f pages converted h (suc n) =
    rw (walk-map f pages converted h n, h (walk pages n).token)
      (elim (Bool-cases (walk pages n).done) [
        | inl over ↦ rw over refl
        | inr going ↦ rw (going, map-append) refl
      ])
