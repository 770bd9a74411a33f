-- ===== src/Pagination/Listing.antt =====
-- What every reachable world of ui/src/lib/pagination.ts guarantees.
use byom.Prelude.{ℕ, ◌+◌, ◌<◌, ◌≡◌, sym, ap, Text, true, false, some, ◌∙◌}
use byom.Pagination.{Page, Call, World}
use byom.Pagination.Walk.{walk, walk_done, IsWalked, IsShown}
use byom.Pagination.Steps.{Reach, Reach-IsValid}

module _ {ℓ} {A : Type ℓ} (listing : Text → Text → Page A) where
  -- Whatever the order of events, a mounted list shows the first pages of the listing of its own
  -- key, each page once and in order, and its `done` is that of these pages.
  pub Reach-IsShown :
      {w : World A} → Reach listing w → (i : ℕ) → i < w.mounted → IsShown listing (w.lists i)
  Reach-IsShown reach = let (owner, v) = Reach-IsValid listing reach in v.shown

  -- What a cached entry holds are the first pages of its key's listing.
  Reach-IsWalked :
      {w : World A}
      → Reach listing w
      → (k : Text) (r : ℕ) → w.cache k ≡ some r
      → IsWalked listing k (w.heap r)
  Reach-IsWalked {w} reach k r cached =
      let (owner, v) = Reach-IsValid listing reach in
      let (made, own) = v.cached k r cached in rw own at (v.walked r made)

  -- A list that is done shows the whole listing: following more tokens gives nothing more.
  Reach-done_complete :
      {w : World A}
      → Reach listing w
      → (i : ℕ) → i < w.mounted
      → (w.lists i).done ≡ true
      → (n : ℕ) × ((m : ℕ) → (w.lists i).items ≡ (walk (listing (w.lists i).key) (m + n)).items)
  Reach-done_complete {w} reach i listed done =
      let (n, items, ended) = Reach-IsShown reach i listed in
      (
        n,
        λ m.
            items
            ∙ ap (λ c. c.items) (sym (walk_done (listing (w.lists i).key) n m (sym ended ∙ done))),
      )

  -- An entry has at most one fetch in flight, it is for the entry's key and next token, and an
  -- entry that is done has none.
  pub Reach-one_fetch :
      {w : World A}
      → Reach listing w
      → (id : ℕ) (c : Call) → w.calls id ≡ some c
      → (c.token ≡ (w.heap c.entry).page_token)
        × ((w.heap c.entry).done ≡ false)
        × ((w.heap c.entry).inflight ≡ true)
        × ((id' : ℕ) (c' : Call) → w.calls id' ≡ some c' → c'.entry ≡ c.entry → id' ≡ id)
  Reach-one_fetch reach id c call =
      let (owner, v) = Reach-IsValid listing reach in
      let (_, own, inflight, more, token) = v.called id c call in
      (token, more, inflight, λ id' c' call' same. v.alone id' id c' c call' call same)

  -- An entry that is marked as being fetched has a call in flight, whose end will clear the mark.
  Reach-inflight_called :
      {w : World A}
      → Reach listing w
      → (k : Text) (r : ℕ) → w.cache k ≡ some r
      → (w.heap r).inflight ≡ true
      → (id : ℕ) × (c : Call) × (w.calls id ≡ some c) × (c.entry ≡ r) × (c.key ≡ k)
  Reach-inflight_called reach k r cached inflight =
      let (owner, v) = Reach-IsValid listing reach in
      let (made, own) = v.cached k r cached in
      let (id, c, call, at) = v.busy r made inflight in
      let (_, own', _, _, _) = v.called id c call in (id, c, call, at, sym own' ∙ ap owner at ∙ own)
