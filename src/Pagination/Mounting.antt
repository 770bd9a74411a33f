-- ===== src/Pagination/Mounting.antt =====
-- Mounting a list, returning to it, and retrying after a failure: ui/src/lib/pagination.ts.
use byom.Prelude.{
  is_empty, ℕ, ◌+◌, ◌≤◌, ◌≡◌, refl, Text, text_eq_refl, text_eq_iff, not, false, ◌&&◌, some, none,
  arith, Option-cases, inl, inr, update, update_text, update_self, [], ◌∙◌, ap,
}
use byom.Pagination.{
  Page, Call, World, new_list, empty_entry, entry_for, start_fetch, load_more, show_entry,
  key_effect, mount, store_error, finish_call, when_current, reject, clear_list_cache,
}
use byom.Pagination.Walk.{walk, walk-suc}
use byom.Pagination.Steps.{Reach, Reach-IsValid}
use byom.Pagination.Progress.{
  answer, load_rounds, load_round, IsAt, load_round-IsAt, load_rounds-IsAt, load_more-cached,
}

module _ {ℓ} {A : Type ℓ} where
  -- The world in which a list for a new key has been made, before it loads.
  unfoldable pub opened : Text → World A → World A
  opened k w = show_entry w.mounted k empty_entry (record w {
    cache = update_text w.cache k (some w.entries);
    heap = update w.heap w.entries empty_entry;
    entries = w.entries + 1;
    lists = update w.lists w.mounted (new_list k);
    mounted = w.mounted + 1;
  })

  pub mount_new :
      (k : Text) (w : World A) → w.cache k ≡ none → mount k w ≡ load_more w.mounted (opened k w)
  unfolding mount key_effect entry_for opened
  mount_new k w new = rw (new, entry_for) (rw update_self)

  -- A list that is mounted for a key whose cached entry has items, or is done, shows that entry at
  -- once, its scroll offset too, and asks the server for nothing.
  mount-restores :
      (k : Text) (r : ℕ) (w : World A)
      → w.cache k ≡ some r
      → (is_empty (w.heap r).items && not (w.heap r).done) ≡ false
      → let w' = mount k w in
        let s = w'.lists w.mounted in
        let e = w.heap r in
        (s.items ≡ e.items)
        × (s.done ≡ e.done)
        × (s.scroll_y ≡ e.scroll_y)
        × (s.loading ≡ false)
        × (w'.calls ≡ w.calls)
        × (w'.heap ≡ w.heap)
  unfolding mount key_effect entry_for show_entry
  mount-restores k r w cached full =
      rw (cached, entry_for)
        (rw full (ground arith, ground arith, ground arith, ground arith, refl, refl))

  load_more-opened :
      (k : Text) (w : World A)
      → (load_more w.mounted (opened k w)).calls w.issued
        ≡ some (record { list = w.mounted; key = k; entry = w.entries; token = [] })
  unfolding start_fetch opened show_entry
  load_more-opened k w =
      ap (λ u. u.calls w.issued)
        (load_more-cached w.mounted w.entries (opened k w) (ground (arith, text_eq_refl k)))
      ∙ ground arith

  -- After the cache is cleared the next list of any key asks for the first page again.
  mount-clear_list_cache :
      (k : Text) (w : World A)
      → (mount k (clear_list_cache w)).calls w.issued
        ≡ some (record { list = w.mounted; key = k; entry = w.entries; token = [] })
  unfolding clear_list_cache
  mount-clear_list_cache k w =
      ap (λ u. u.calls w.issued) (mount_new k (clear_list_cache w) refl)
      ∙ load_more-opened k (clear_list_cache w)

module _ {ℓ} {A : Type ℓ} (listing : Text → Text → Page A) where
  pub unused_calls : {w : World A} → Reach listing w → (id : ℕ) → w.issued ≤ id → w.calls id ≡ none
  unused_calls {w} reach id h =
      let (owner, v) = Reach-IsValid listing reach in
      elim (Option-cases (w.calls id)) [
        | inl e ↦ e
        | inr (c, call) ↦ absurd (omega (arith, v.made id c call))
      ]

  pub opened-IsAt :
      (k : Text) (w : World A)
      → ((id : ℕ) → w.issued ≤ id → w.calls id ≡ none)
      → IsAt listing w.mounted w.entries k (walk (listing k) 0) (opened k w)
  unfolding opened walk show_entry
  opened-IsAt k w unused = record {
    keyed = ground arith;
    cached = ground (arith, text_eq_refl k);
    idle = ground arith;
    items = ground arith;
    token = ground arith;
    done = ground arith;
    shown = ground arith;
    shown_done = ground arith;
    quiet = ground arith;
    unused = unused;
  }

  pub answer_new :
      (k : Text) {w : World A}
      → Reach listing w
      → w.cache k ≡ none
      → IsAt listing w.mounted w.entries k
          (walk (listing k) 1)
          (answer listing w.issued (mount k w))
  unfolding opened show_entry load_round
  answer_new k {w} reach new =
      let at =
        load_round-IsAt listing w.mounted w.entries k _ _ (opened-IsAt k w (unused_calls reach)) in
      rw (mount_new k w new, walk-suc) at

  -- A list that is mounted for a key with no cached entry fetches by itself, and shows `n + 1`
  -- pages when its first fetch and `n` loads more have been answered; then nothing is in flight.
  pub mount-load_rounds :
      (k : Text) {w : World A}
      → Reach listing w
      → w.cache k ≡ none
      → (n : ℕ)
      → let w' = load_rounds listing n w.mounted (answer listing w.issued (mount k w)) in
        ((w'.lists w.mounted).items ≡ (walk (listing k) (n + 1)).items)
        × ((w'.lists w.mounted).done ≡ (walk (listing k) (n + 1)).done)
        × ((w'.lists w.mounted).loading ≡ false)
  mount-load_rounds k {w} reach new n =
      let at = load_rounds-IsAt listing w.mounted w.entries k 1 n _ (answer_new k reach new) in
      (at.shown, at.shown_done, at.quiet)

  module _ (id : ℕ) (c : Call) (e : Text) (w : World A) (now : (w.lists c.list).key ≡ c.key) where
    failed : World A
    failed = finish_call id c (store_error c e w)

    failed_list : failed.lists c.list ≡ record (w.lists c.list) { error = some e; loading = false }
    unfolding failed store_error finish_call when_current
    failed_list = ground (arith, (text_eq_iff (w.lists c.list).key c.key).1 now)

    failed_items : (r : ℕ) → (failed.heap r).items ≡ (w.heap r).items
    unfolding failed store_error finish_call
    failed_items r = ground arith

    failed-load_more :
        w.cache c.key ≡ some c.entry
        → (w.heap c.entry).done ≡ false
        → c.token ≡ (w.heap c.entry).page_token
        → (load_more c.list failed).calls w.issued ≡ some c
    unfolding failed store_error finish_call start_fetch
    failed-load_more cached more token =
        ap (λ u. u.calls w.issued)
          (load_more-cached c.list c.entry failed (rw failed_list (rw now cached)))
        ∙ ground (arith, failed_list)

  -- A fetch that fails changes no page: its list keeps what it shows, stops loading and has the
  -- error. If the entry is still cached, loading more makes the same call again.
  pub reject-load_more :
      (id : ℕ) (c : Call) (e : Text) {w : World A}
      → Reach listing w
      → w.calls id ≡ some c
      → (w.lists c.list).key ≡ c.key
      → w.cache c.key ≡ some c.entry
      → let w' = reject id e w in
        (w'.lists c.list ≡ record (w.lists c.list) { error = some e; loading = false })
        × ((r : ℕ) → (w'.heap r).items ≡ (w.heap r).items)
        × ((load_more c.list w').calls w.issued ≡ some c)
  unfolding reject failed
  reject-load_more id c e {w} reach call now cached =
      let (owner, v) = Reach-IsValid listing reach in
      let (_, _, _, more, token) = v.called id c call in
      rw (call, reject)
        (
          failed_list id c e w now,
          failed_items id c e w now,
          failed-load_more id c e w now cached more token,
        )
