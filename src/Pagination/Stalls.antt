-- ===== src/Pagination/Stalls.antt =====
-- Two orders of events after which a list of ui/src/lib/pagination.ts waits for nothing: it is
-- marked as loading, or shows nothing, and no call that is in flight will change that.
use byom.Prelude.{
  is_empty, ℕ, ◌+◌, ◌<◌, ◌≡◌, ◌≢◌, ◌++◌, sym, Text, text_eq_iff, text_eq_ne, not, true, false, ◌&&◌,
  some, none, arith, update, [], ◌∙◌, ap,
}
use byom.Pagination.{
  Page, Entry, Call, World, new_list, entry_for, load_more, show_entry, key_effect, mount,
  store_page, finish_call, when_current, change_key, resolve,
}
use byom.Pagination.Steps.{Reach, Reach-IsValid}

module _ {ℓ} {A : Type ℓ} where
  -- What a list shows is out of reach of the end of a call for another key.
  resolve-other_key :
      (id : ℕ) (c : Call) (page : Page A) (w : World A)
      → w.calls id ≡ some c
      → (w.lists c.list).key ≢ c.key
      → (resolve id page w).lists ≡ w.lists
  unfolding resolve finish_call store_page when_current
  resolve-other_key id c page w call other = ground (arith, text_eq_iff (w.lists c.list).key c.key)

  change_key-full :
      (i r : ℕ) (k : Text) (w : World A)
      → k ≢ (w.lists i).key
      → w.cache k ≡ some r
      → (is_empty (w.heap r).items && not (w.heap r).done) ≡ false
      → change_key i k w ≡ show_entry i k (w.heap r) w
  unfolding change_key key_effect entry_for
  change_key-full i r k w other cached full =
      rw (text_eq_ne k _ other) (rw (cached, entry_for) (rw full))

  resolve-calls :
      (id : ℕ) (c : Call) (page : Page A) (w : World A)
      → w.calls id ≡ some c
      → (resolve id page w).calls ≡ update w.calls id none
  unfolding resolve finish_call store_page
  resolve-calls id c page w call = rw (call, resolve)

  show_entry-key :
      (i : ℕ) (k : Text) (e : Entry A) (w : World A) → ((show_entry i k e w).lists i).key ≡ k
  unfolding show_entry
  show_entry-key i k e w = ground arith

  show_entry-loading :
      (i : ℕ) (k : Text) (e : Entry A) (w : World A)
      → ((show_entry i k e w).lists i).loading ≡ (w.lists i).loading
  unfolding show_entry
  show_entry-loading i k e w = ground arith

  shown-resolve :
      (id : ℕ) (c : Call) (page : Page A) (k : Text) (e : Entry A) (w : World A)
      → w.calls id ≡ some c
      → k ≢ c.key
      → (resolve id page (show_entry c.list k e w)).lists ≡ (show_entry c.list k e w).lists
  unfolding show_entry
  shown-resolve id c page k e w call other =
      resolve-other_key id c page (show_entry c.list k e w) call
        (λ h. other (sym (show_entry-key c.list k e w) ∙ h))

  only_call :
      (id : ℕ) (c : Call) (page : Page A) (k : Text) (e : Entry A) (w : World A)
      → w.calls id ≡ some c
      → ((id' : ℕ) (c' : Call) → w.calls id' ≡ some c' → c'.list ≡ c.list → id' ≡ id)
      → (id' : ℕ) (c' : Call) → (resolve id page (show_entry c.list k e w)).calls id' ≡ some c'
      → c'.list ≢ c.list
  unfolding show_entry
  only_call id c page k e w call only id' c' call' same =
      let calls = resolve-calls id c page (show_entry c.list k e w) call in
      ground (arith, only id' c', ap (λ f. f id') calls)

  -- A list that is loading and whose key changes to one with a cached entry starts no fetch for
  -- it. When the old key's page arrives, the list is left marked as loading, although no call of
  -- it is in flight.
  change_key-loading_stuck :
      (id : ℕ) (c : Call) (page : Page A) (k : Text) (r : ℕ) (w : World A)
      → w.calls id ≡ some c
      → (w.lists c.list).key ≡ c.key
      → (w.lists c.list).loading ≡ true
      → ((id' : ℕ) (c' : Call) → w.calls id' ≡ some c' → c'.list ≡ c.list → id' ≡ id)
      → k ≢ c.key
      → w.cache k ≡ some r
      → (is_empty (w.heap r).items && not (w.heap r).done) ≡ false
      → let w' = resolve id page (change_key c.list k w) in
        ((w'.lists c.list).loading ≡ true)
        × ((w'.lists c.list).key ≡ k)
        × ((id' : ℕ) (c' : Call) → w'.calls id' ≡ some c' → c'.list ≢ c.list)
  change_key-loading_stuck id c page k r w call now loading only other cached full =
      let e = w.heap r in
      let w1 = show_entry c.list k e w in
      let same = shown-resolve id c page k e w call other in
      rw (change_key-full c.list r k w (λ h. other (h ∙ now)) cached full) (
        ap (λ ls. (ls c.list).loading) same ∙ show_entry-loading c.list k e w ∙ loading,
        ap (λ ls. (ls c.list).key) same ∙ show_entry-key c.list k e w,
        only_call id c page k e w call only,
      )

  load_more-busy :
      (i r : ℕ) (w : World A)
      → w.cache (w.lists i).key ≡ some r
      → (w.heap r).inflight ≡ true
      → load_more i w ≡ w
  unfolding load_more entry_for
  load_more-busy i r w cached busy = rw (cached, entry_for) (rw busy)

  remounted : Text → Entry A → World A → World A
  remounted k e w =
      show_entry w.mounted k e
        (record w { lists = update w.lists w.mounted (new_list k); mounted = w.mounted + 1 })

  remounted-load_more :
      (k : Text) (r : ℕ) (w : World A)
      → w.cache k ≡ some r
      → (w.heap r).inflight ≡ true
      → load_more w.mounted (remounted k (w.heap r) w) ≡ remounted k (w.heap r) w
  unfolding remounted show_entry
  remounted-load_more k r w cached busy = load_more-busy w.mounted r _ (ground arith) busy

  mount_busy :
      (k : Text) (r : ℕ) (w : World A)
      → w.cache k ≡ some r
      → (w.heap r).inflight ≡ true
      → mount k w ≡ remounted k (w.heap r) w
  unfolding mount key_effect entry_for remounted
  mount_busy k r w cached busy =
      rw (cached, entry_for) (ground (arith, remounted-load_more k r w cached busy))

  -- The new list is not the call's, so the end of the call does not reach it.
  module _ (id : ℕ) (c : Call) (page : Page A) (w : World A) (call : w.calls id ≡ some c)
      (others : (id' : ℕ) (c' : Call) → w.calls id' ≡ some c' → c'.list < w.mounted) where
    after : World A
    after = finish_call id c (store_page c page (remounted c.key (w.heap c.entry) w))

    after-list : after.lists w.mounted ≡ (remounted c.key (w.heap c.entry) w).lists w.mounted
    unfolding after finish_call store_page when_current
    after-list = ground (arith, others id c)

    remounted-list :
        (remounted c.key (w.heap c.entry) w).lists w.mounted ≡ record (new_list c.key) {
          items = (w.heap c.entry).items;
          done = (w.heap c.entry).done;
          scroll_y = (w.heap c.entry).scroll_y;
        }
    unfolding remounted show_entry
    remounted-list = ground arith

    after-items : (after.heap c.entry).items ≡ (w.heap c.entry).items ++ page.items
    unfolding after finish_call store_page remounted show_entry
    after-items = ground arith

    after-calls : (id' : ℕ) (c' : Call) → after.calls id' ≡ some c' → c'.list ≢ w.mounted
    unfolding after finish_call store_page remounted show_entry
    after-calls id' c' call' = ground (arith, others id' c')

    resolve-remounted : resolve id page (remounted c.key (w.heap c.entry) w) ≡ after
    unfolding resolve after remounted show_entry
    resolve-remounted = rw (call, resolve)

module _ {ℓ} {A : Type ℓ} (listing : Text → Text → Page A) where
  -- A list that is mounted while the first fetch of its key is in flight for another list makes no
  -- call. When the page arrives the entry has it, and the new list shows nothing, is neither
  -- loading nor done, and has no call in flight.
  mount-stays_empty :
      (id : ℕ) (c : Call) (page : Page A) {w : World A}
      → Reach listing w
      → w.calls id ≡ some c
      → w.cache c.key ≡ some c.entry
      → (w.heap c.entry).items ≡ []
      → let w' = resolve id page (mount c.key w) in
        let s = w'.lists w.mounted in
        (s.items ≡ [])
        × (s.loading ≡ false)
        × (s.done ≡ false)
        × ((w'.heap c.entry).items ≡ page.items)
        × ((id' : ℕ) (c' : Call) → w'.calls id' ≡ some c' → c'.list ≢ w.mounted)
  mount-stays_empty id c page {w} reach call cached empty =
      let (owner, v) = Reach-IsValid listing reach in
      let (_, _, busy, more, _) = v.called id c call in
      let others = λ (id' : ℕ) (c' : Call) (h : w.calls id' ≡ some c'). (v.made id' c' h).1 in
      let list = after-list id c page w call others ∙ remounted-list id c page w call others in
      rw (mount_busy c.key c.entry w cached busy, resolve-remounted id c page w call others)
        (
          ap (λ s. s.items) list ∙ empty,
          ap (λ s. s.loading) list,
          ap (λ s. s.done) list ∙ more,
          after-items id c page w call others ∙ ap (λ xs. xs ++ page.items) empty,
          after-calls id c page w call others,
        )
