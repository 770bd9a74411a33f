-- ===== src/Pagination.antt =====
-- Infinite lists over a token-cursored listing: ui/src/lib/pagination.ts.
--
-- The cache of that module holds references to entries that a fetch in flight keeps using, so the
-- entries live in a heap, by reference. A list is one call of `createInfiniteList`; its signals
-- are a record. JavaScript runs each piece of code between two awaits at once, so each such piece
-- is one function on the world: `load_more` up to the await, `resolve` or `reject` after it. Solid
-- runs the effect on the key when the list is mounted and when the key has changed.
pub mod Walk
pub mod Validity
pub mod Entries
pub mod Fetches
pub mod Steps
pub mod Listing
pub mod Progress
pub mod Mounting
pub mod Late
pub mod Stalls
mod Tests
use byom.Prelude.{
  ℕ, ◌+◌, Text, text_eq, truthy, Bool, true, false, not, ◌&&◌, ◌||◌, List, [], ◌++◌, ◌∷◌, Option,
  none, some, update, update_text, is_empty, if◌then◌else◌,
}

pub record Page {ℓ} (A : Type ℓ) : Type ℓ where
  pub items : List A
  pub next_page_token : Text

pub record Entry {ℓ} (A : Type ℓ) : Type ℓ where
  pub items : List A
  pub page_token : Text
  pub done : Bool
  pub scroll_y : ℕ
  pub inflight : Bool

-- The signals of a list, and the value of its `key` accessor.
pub record InfiniteList {ℓ} (A : Type ℓ) : Type ℓ where
  pub key : Text
  pub items : List A
  pub loading : Bool
  pub done : Bool
  pub error : Option Text
  pub scroll_y : ℕ

-- A `loadMore` that waits for its page: what its closure holds.
pub record Call : Type 0 where
  pub list : ℕ
  pub key : Text
  pub entry : ℕ
  pub token : Text

-- Entries, lists and calls are numbered in the order in which they are made.
pub record World {ℓ} (A : Type ℓ) : Type ℓ where
  pub cache : Text → Option ℕ
  pub heap : ℕ → Entry A
  pub entries : ℕ
  pub lists : ℕ → InfiniteList A
  pub mounted : ℕ
  pub calls : ℕ → Option Call
  pub issued : ℕ

module _ {ℓ} {A : Type ℓ} where
  abbrev pub empty_entry : Entry A
  empty_entry = record { items = []; page_token = []; done = false; scroll_y = 0; inflight = false }

  abbrev pub new_list : Text → InfiniteList A
  new_list k = record {
    key = k;
    items = [];
    loading = false;
    done = false;
    error = none;
    scroll_y = 0;
  }

  abbrev pub new_world : World A
  new_world = record {
    cache = λ k. none;
    heap = λ r. empty_entry;
    entries = 0;
    lists = λ i. new_list [];
    mounted = 0;
    calls = λ id. none;
    issued = 0;
  }

  unfoldable pub clear_list_cache : World A → World A
  clear_list_cache w = record w { cache = λ k. none }

  -- `entryFor`: the entry's reference, and the world in which it is cached.
  unfoldable pub entry_for : Text → World A → ℕ × World A
  entry_for k w = elim (w.cache k) [
    | some r ↦ (r, w)
    | none ↦ (
      w.entries,
      record w {
        cache = update_text w.cache k (some w.entries);
        heap = update w.heap w.entries empty_entry;
        entries = w.entries + 1;
      },
    )
  ]

  -- What `loadMore` does before its await, once the guard has let it through.
  unfoldable pub start_fetch : ℕ → Text → ℕ → World A → World A
  start_fetch i k r w = record w {
    heap = update w.heap r (record (w.heap r) { inflight = true });
    lists = update w.lists i (record (w.lists i) { loading = true });
    calls =
        update w.calls w.issued
          (some (record { list = i; key = k; entry = r; token = (w.heap r).page_token }));
    issued = w.issued + 1;
  }

  unfoldable pub load_more : ℕ → World A → World A
  load_more i w =
      let k = (w.lists i).key in
      let (r, w') = entry_for k w in
      if (w'.heap r).inflight || (w'.heap r).done then w' else start_fetch i k r w'

  -- Sets signals of the call's list if `untrack(key) === k`: unless the key of the list has changed
  -- since the call was made.
  unfoldable pub when_current :
      Call → (InfiniteList A → InfiniteList A) → (ℕ → InfiniteList A) → ℕ → InfiniteList A
  when_current c f lists =
      if text_eq (lists c.list).key c.key then update lists c.list (f (lists c.list)) else lists

  unfoldable pub store_page : Call → Page A → World A → World A
  store_page c page w =
      let e = w.heap c.entry in
      let items = e.items ++ page.items in
      let done = not (truthy page.next_page_token) in
      let stored = record e { items = items; page_token = page.next_page_token; done = done } in
      record w {
        heap = update w.heap c.entry stored;
        lists = when_current c (λ s. record s { items = items; done = done; error = none }) w.lists;
      }

  unfoldable pub store_error : Call → Text → World A → World A
  store_error c e w = record w { lists = when_current c (λ s. record s { error = some e }) w.lists }

  -- The `finally` block; the call is over.
  unfoldable pub finish_call : ℕ → Call → World A → World A
  finish_call id c w = record w {
    heap = update w.heap c.entry (record (w.heap c.entry) { inflight = false });
    lists = when_current c (λ s. record s { loading = false }) w.lists;
    calls = update w.calls id none;
  }

  -- The rest of `loadMore` when the promise is fulfilled, and when it is rejected.
  unfoldable pub resolve : ℕ → Page A → World A → World A
  resolve id page w = elim (w.calls id) [
    | some c ↦ finish_call id c (store_page c page w)
    | none ↦ w
  ]

  unfoldable pub reject : ℕ → Text → World A → World A
  reject id e w = elim (w.calls id) [ some c ↦ finish_call id c (store_error c e w) | none ↦ w ]

  -- The effect's assignments, from the entry of the new key, which the accessor now gives.
  unfoldable pub show_entry : ℕ → Text → Entry A → World A → World A
  show_entry i k e w = record w {
    lists = update w.lists i (record (w.lists i) {
      key = k;
      items = e.items;
      done = e.done;
      scroll_y = e.scroll_y;
      error = none;
    });
  }

  -- The effect on the key `k` of the list `i`.
  unfoldable pub key_effect : ℕ → Text → World A → World A
  key_effect i k w =
      let (r, w') = entry_for k w in
      let e = w'.heap r in
      let shown = show_entry i k e w' in
      if is_empty e.items && not e.done then load_more i shown else shown

  -- `createInfiniteList`: a new list, numbered `w.mounted`, and the first run of its effect.
  unfoldable pub mount : Text → World A → World A
  mount k w =
      key_effect w.mounted k
        (record w { lists = update w.lists w.mounted (new_list k); mounted = w.mounted + 1 })

  -- The key accessor gets the value `k`: the effect runs if it is a new one.
  unfoldable pub change_key : ℕ → Text → World A → World A
  change_key i k w = if text_eq k (w.lists i).key then w else key_effect i k w

  unfoldable pub set_scroll_y : ℕ → ℕ → World A → World A
  set_scroll_y i y w =
      let (r, w') = entry_for (w.lists i).key w in
      record w' {
        heap = update w'.heap r (record (w'.heap r) { scroll_y = y });
        lists = update w'.lists i (record (w'.lists i) { scroll_y = y });
      }
