-- ===== src/Pagination/Entries.antt =====
-- `entryFor`, `clearListCache` and `setScrollY` of ui/src/lib/pagination.ts keep the world valid.
use byom.Prelude.{
  ℕ, ◌+◌, ◌<◌, ◌≡◌, refl, Text, text_eq_refl, text_eq→eq, true, false, some, arith, Bool-cases,
  Option-cases, ◌==◌, ==_iff, inl, inr, update, update_text, update_holds,
}
use byom.Pagination.{Page, Call, World, empty_entry, entry_for, clear_list_cache, set_scroll_y}
use byom.Pagination.Walk.{walk, IsWalked, IsShown}
use byom.Pagination.Validity.{IsValid, Valid}

module _ {ℓ} {A : Type ℓ} (listing : Text → Text → Page A) (owner : ℕ → Text) (w : World A)
    (v : IsValid listing owner w) (k : Text) where
  add_entry : World A
  add_entry = record w {
    cache = update_text w.cache k (some w.entries);
    heap = update w.heap w.entries empty_entry;
    entries = w.entries + 1;
  }

  add_entry-cached :
      (k' : Text) (r : ℕ)
      → add_entry.cache k' ≡ some r
      → (r < add_entry.entries) × (update owner w.entries k r ≡ k')
  unfolding add_entry
  add_entry-cached k' r h = ground (arith, v.cached k' r, text_eq→eq k' k)

  add_entry-IsWalked :
      (r : ℕ)
      → r < add_entry.entries
      → IsWalked listing (update owner w.entries k r) (add_entry.heap r)
  unfolding add_entry walk
  add_entry-IsWalked r h = elim (Bool-cases (r == w.entries)) [
    | inl e ↦ rw e (0, refl, refl, refl)
    | inr e ↦ rw e (v.walked r (ground arith))
  ]

  add_entry-busy :
      (r : ℕ)
      → r < add_entry.entries
      → (add_entry.heap r).inflight ≡ true
      → (id : ℕ) × (c : Call) × (add_entry.calls id ≡ some c) × (c.entry ≡ r)
  unfolding add_entry
  add_entry-busy r h b = v.busy r (ground arith) (ground arith)

  add_entry-called :
      (id : ℕ) (c : Call)
      → add_entry.calls id ≡ some c
      → (c.entry < add_entry.entries)
        × (update owner w.entries k c.entry ≡ c.key)
        × ((add_entry.heap c.entry).inflight ≡ true)
        × ((add_entry.heap c.entry).done ≡ false)
        × (c.token ≡ (add_entry.heap c.entry).page_token)
  unfolding add_entry
  add_entry-called id c h = ground (arith, v.called id c h)

  add_entry-IsValid : IsValid listing (update owner w.entries k) add_entry
  unfolding add_entry
  add_entry-IsValid = record {
    cached = add_entry-cached;
    walked = add_entry-IsWalked;
    busy = add_entry-busy;
    made = v.made;
    called = add_entry-called;
    alone = v.alone;
    shown = v.shown;
  }

module _ {ℓ} {A : Type ℓ} (listing : Text → Text → Page A) where
  -- What `entryFor` returns is the entry that the cache holds for the key from then on.
  pub entry_for-IsValid :
      (k : Text) {w : World A}
      → Valid listing w
      → Valid listing (entry_for k w).1 × ((entry_for k w).1.cache k ≡ some (entry_for k w).0)
  unfolding entry_for add_entry
  entry_for-IsValid k {w} (owner, v) = elim (Option-cases (w.cache k)) [
    | inl new ↦
        rw (new, entry_for)
          ((update owner w.entries k, add_entry-IsValid listing owner w v k), rw (text_eq_refl k))
    | inr (r, old) ↦ rw (old, entry_for) ((owner, v), old)
  ]

  pub clear_list_cache-IsValid :
      {w : World A} → Valid listing w → Valid listing (clear_list_cache w)
  unfolding clear_list_cache
  clear_list_cache-IsValid (owner, v) = (
    owner,
    record {
      cached = λ k r h. cc;
      walked = v.walked;
      busy = v.busy;
      made = v.made;
      called = v.called;
      alone = v.alone;
      shown = v.shown;
    },
  )

  -- A scroll offset is of no concern to the invariant.
  rescroll : ℕ → ℕ → ℕ → World A → World A
  rescroll i r y w = record w {
    heap = update w.heap r (record (w.heap r) { scroll_y = y });
    lists = update w.lists i (record (w.lists i) { scroll_y = y });
  }

  rescroll-IsValid : (i r y : ℕ) {w : World A} → Valid listing w → Valid listing (rescroll i r y w)
  unfolding rescroll
  rescroll-IsValid i r y {w} (owner, v) = (
    owner,
    record {
      cached = v.cached;
      walked = λ r' h.
          update_holds (λ j e. j < w.entries → IsWalked listing (owner j) e) w.heap r _ r'
            (v.walked r) (v.walked r') h;
      busy = λ r' h b. v.busy r' h (ground (arith, ==_iff r' r));
      made = v.made;
      called = λ id c h. ground (arith, v.called id c h);
      alone = v.alone;
      shown = λ i' h.
          update_holds (λ j s. j < w.mounted → IsShown listing s) w.lists i _ i' (v.shown i)
            (v.shown i') h;
    },
  )

  pub set_scroll_y-IsValid :
      (i y : ℕ) {w : World A} → Valid listing w → Valid listing (set_scroll_y i y w)
  unfolding set_scroll_y rescroll
  set_scroll_y-IsValid i y {w} v =
      rescroll-IsValid i (entry_for (w.lists i).key w).0 y (entry_for-IsValid (w.lists i).key v).0
