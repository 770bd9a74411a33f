-- ===== src/Pagination/Fetches.antt =====
-- A fetch from its start to its end keeps the world of ui/src/lib/pagination.ts valid.
use byom.Prelude.{
  ℕ, suc, ◌<◌, ◌≡◌, ◌≢◌, ◌++◌, Text, text_eq→eq, text_eq, truthy, not, true, false, some, none,
  arith, Bool-cases, Option-cases, ◌==◌, ==_iff, inl, inr, update, update_holds,
}
use byom.Pagination.{
  Page, Entry, InfiniteList, Call, World, start_fetch, when_current, store_page, store_error,
  finish_call, resolve, reject,
}
use byom.Pagination.Walk.{walk, advance, IsWalked, IsShown}
use byom.Pagination.Validity.{IsValid, Valid}

when_current-IsShown {ℓ} :
    {A : Type ℓ} (listing : Text → Text → Page A) (c : Call) (f : InfiniteList A → InfiniteList A)
    (lists : ℕ → InfiniteList A) (mounted : ℕ)
    → c.list < mounted
    → ((s : InfiniteList A) → s.key ≡ c.key → IsShown listing s → IsShown listing (f s))
    → ((i : ℕ) → i < mounted → IsShown listing (lists i))
    → (i : ℕ) → i < mounted
    → IsShown listing (when_current c f lists i)
unfolding when_current
when_current-IsShown listing c f lists mounted listed change shown i h =
    elim (Bool-cases (text_eq (lists c.list).key c.key)) [
      | inl now ↦ rw now (
          update_holds (λ j s. IsShown listing s) lists c.list (f (lists c.list)) i
            (change (lists c.list) (text_eq→eq _ _ now) (shown c.list listed)) (shown i h))
      | inr past ↦ rw past (shown i h)
    ]

module _ {ℓ} {A : Type ℓ} (listing : Text → Text → Page A) (owner : ℕ → Text) (w : World A)
    (v : IsValid listing owner w) where
  module _ (i r : ℕ) (k : Text) (listed : i < w.mounted) (made : r < w.entries) (own : owner r ≡ k)
      (idle : (w.heap r).inflight ≡ false) (more : (w.heap r).done ≡ false) where
    started : World A
    started = start_fetch i k r w

    started-busy :
        (r' : ℕ)
        → r' < w.entries
        → (started.heap r').inflight ≡ true
        → (id : ℕ) × (c : Call) × (started.calls id ≡ some c) × (c.entry ≡ r')
    unfolding started start_fetch
    started-busy r' h b = elim (Bool-cases (r' == r)) [
      | inl e ↦ (
        w.issued,
        record { list = i; key = k; entry = r; token = (w.heap r).page_token },
        ground arith,
        ground arith,
      )
      | inr e ↦
          let (id, c, call, at) = v.busy r' h (ground arith) in
          (id, c, ground (arith, v.made id c), at)
    ]

    started-called :
        (id : ℕ) (c : Call)
        → started.calls id ≡ some c
        → (c.entry < w.entries)
          × (owner c.entry ≡ c.key)
          × ((started.heap c.entry).inflight ≡ true)
          × ((started.heap c.entry).done ≡ false)
          × (c.token ≡ (started.heap c.entry).page_token)
    unfolding started start_fetch
    started-called id c h = ground (arith, v.called id c)

    started-alone :
        (id id' : ℕ) (c c' : Call)
        → started.calls id ≡ some c
        → started.calls id' ≡ some c'
        → c.entry ≡ c'.entry
        → id ≡ id'
    unfolding started start_fetch
    started-alone id id' c c' h h' e =
        ground (arith, v.called id c, v.called id' c', v.alone id id' c c')

    pub start_fetch-IsValid : IsValid listing owner (start_fetch i k r w)
    unfolding started start_fetch
    start_fetch-IsValid = record {
      cached = v.cached;
      walked = λ r' h.
          update_holds (λ j e. j < w.entries → IsWalked listing (owner j) e) w.heap r _ r'
            (v.walked r) (v.walked r') h;
      busy = started-busy;
      made = λ id c h. ground (arith, v.made id c);
      called = started-called;
      alone = started-alone;
      shown = λ i' h.
          update_holds (λ j s. j < w.mounted → IsShown listing s) w.lists i _ i' (v.shown i)
            (v.shown i') h;
    }

  -- The end of the call `id`: its entry is `heap c.entry`, and no other entry has changed.
  module _ (id : ℕ) (c : Call) (call : w.calls id ≡ some c) (heap : ℕ → Entry A)
      (lists : ℕ → InfiniteList A) (over : (heap c.entry).inflight ≡ false)
      (page : IsWalked listing (owner c.entry) (heap c.entry))
      (same : (r : ℕ) → r ≢ c.entry → heap r ≡ w.heap r)
      (show : (i : ℕ) → i < w.mounted → IsShown listing (lists i)) where
    settled : World A
    settled = record w { heap = heap; lists = lists; calls = update w.calls id none }

    settled-IsWalked : (r : ℕ) → r < w.entries → IsWalked listing (owner r) (heap r)
    settled-IsWalked r h = elim (Bool-cases (r == c.entry)) [
      | inl e ↦ rw ((==_iff r c.entry).0 e) page
      | inr e ↦ rw (same r (ground arith)) (v.walked r h)
    ]

    settled-busy :
        (r : ℕ)
        → r < w.entries
        → (heap r).inflight ≡ true
        → (id' : ℕ) × (c' : Call) × (settled.calls id' ≡ some c') × (c'.entry ≡ r)
    unfolding settled
    settled-busy r h b =
        let (id', c', call', at) = v.busy r h (ground (arith, same r)) in
        (id', c', ground arith, at)

    settled-called :
        (id' : ℕ) (c' : Call)
        → settled.calls id' ≡ some c'
        → (c'.entry < w.entries)
          × (owner c'.entry ≡ c'.key)
          × ((heap c'.entry).inflight ≡ true)
          × ((heap c'.entry).done ≡ false)
          × (c'.token ≡ (heap c'.entry).page_token)
    unfolding settled
    settled-called id' c' h = ground (arith, v.called id' c', v.alone id id' c c', same c'.entry)

    settled-IsValid : IsValid listing owner settled
    unfolding settled
    settled-IsValid = record {
      cached = v.cached;
      walked = settled-IsWalked;
      busy = settled-busy;
      made = λ id' c' h. ground (arith, v.made id' c');
      called = settled-called;
      alone = λ a b x y p q e. ground (arith, v.alone a b x y);
      shown = show;
    }

  module _ (id : ℕ) (c : Call) (call : w.calls id ≡ some c) where
    after_page : World A
    after_page = finish_call id c (store_page c (listing c.key c.token) w)

    after_error : Text → World A
    after_error e = finish_call id c (store_error c e w)

    -- One page more of the listing.
    page_shown :
        (n : ℕ) × ((w.heap c.entry).items ++ (listing c.key c.token).items
          ≡ (walk (listing c.key) n).items)
        × (not (truthy (listing c.key c.token).next_page_token) ≡ (walk (listing c.key) n).done)
    unfolding walk advance
    page_shown =
        let (n, items, token, done) = v.walked c.entry (v.called id c call).0 in
        (suc n, ground (arith, v.called id c call), ground (arith, v.called id c call))

    after_page-IsWalked : IsWalked listing (owner c.entry) (after_page.heap c.entry)
    unfolding after_page finish_call store_page when_current walk advance
    after_page-IsWalked =
        let (n, items, token, done) = v.walked c.entry (v.called id c call).0 in
        (
          suc n,
          ground (arith, v.called id c call),
          ground (arith, v.called id c call),
          ground (arith, v.called id c call),
        )

    after_page-IsShown : (i : ℕ) → i < w.mounted → IsShown listing (after_page.lists i)
    unfolding after_page finish_call store_page
    after_page-IsShown =
        let listed = (v.made id c call).1 in
        when_current-IsShown listing c _ _ w.mounted listed (λ s _ shown. shown)
          (when_current-IsShown listing c _ w.lists w.mounted listed (λ s now _. rw now page_shown)
            v.shown)

    after_error-IsShown :
        (e : Text) (i : ℕ) → i < w.mounted → IsShown listing ((after_error e).lists i)
    unfolding after_error finish_call store_error
    after_error-IsShown e =
        let listed = (v.made id c call).1 in
        when_current-IsShown listing c _ _ w.mounted listed (λ s _ shown. shown)
          (when_current-IsShown listing c _ w.lists w.mounted listed (λ s _ shown. shown) v.shown)

    after_page-IsValid : IsValid listing owner after_page
    unfolding after_page finish_call store_page settled
    after_page-IsValid =
        settled-IsValid id c call _ _ (ground arith) after_page-IsWalked (λ r ne. ground arith)
          after_page-IsShown

    after_error-IsValid : (e : Text) → IsValid listing owner (after_error e)
    unfolding after_error finish_call store_error settled
    after_error-IsValid e =
        settled-IsValid id c call _ _ (ground arith)
          (update_holds (λ j e. IsWalked listing (owner j) e) w.heap c.entry _ c.entry
            (v.walked c.entry (v.called id c call).0) (v.walked c.entry (v.called id c call).0))
          (λ r ne. ground arith) (after_error-IsShown e)

module _ {ℓ} {A : Type ℓ} (listing : Text → Text → Page A) (id : ℕ) {w : World A} where
  -- The page of the call's key and token arrives.
  pub resolve-IsValid :
      (c : Call)
      → w.calls id ≡ some c
      → Valid listing w
      → Valid listing (resolve id (listing c.key c.token) w)
  unfolding resolve after_page
  resolve-IsValid c call (owner, v) =
      rw (call, resolve) (owner, after_page-IsValid listing owner w v id c call)

  pub reject-IsValid : (e : Text) → Valid listing w → Valid listing (reject id e w)
  unfolding reject after_error
  reject-IsValid e (owner, v) = elim (Option-cases (w.calls id)) [
    | inl over ↦ rw (over, reject) (owner, v)
    | inr (c, call) ↦ rw (call, reject) (owner, after_error-IsValid listing owner w v id c call e)
  ]
