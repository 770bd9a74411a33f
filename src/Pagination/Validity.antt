-- ===== src/Pagination/Validity.antt =====
-- The invariant of the world of ui/src/lib/pagination.ts: entries hold whole pages of their own
-- key's listing, and an entry has a fetch in flight exactly when it is marked so, and only one.
use byom.Prelude.{ℕ, ◌<◌, ◌≡◌, Text, true, false, some}
use byom.Pagination.{Page, Call, World}
use byom.Pagination.Walk.{IsWalked, IsShown}

module _ {ℓ} {A : Type ℓ} (listing : Text → Text → Page A) where
  -- `owner` tells for which key an entry was made, also when it is no longer in the cache.
  pub record IsValid (owner : ℕ → Text) (w : World A) : Type ℓ where
    pub cached : (k : Text) (r : ℕ) → w.cache k ≡ some r → (r < w.entries) × (owner r ≡ k)
    pub walked : (r : ℕ) → r < w.entries → IsWalked listing (owner r) (w.heap r)
    pub busy :
        (r : ℕ)
        → r < w.entries
        → (w.heap r).inflight ≡ true
        → (id : ℕ) × (c : Call) × (w.calls id ≡ some c) × (c.entry ≡ r)
    pub made : (id : ℕ) (c : Call) → w.calls id ≡ some c → (id < w.issued) × (c.list < w.mounted)
    pub called :
        (id : ℕ) (c : Call)
        → w.calls id ≡ some c
        → (c.entry < w.entries)
          × (owner c.entry ≡ c.key)
          × ((w.heap c.entry).inflight ≡ true)
          × ((w.heap c.entry).done ≡ false)
          × (c.token ≡ (w.heap c.entry).page_token)
    pub alone :
        (id id' : ℕ) (c c' : Call)
        → w.calls id ≡ some c
        → w.calls id' ≡ some c'
        → c.entry ≡ c'.entry
        → id ≡ id'
    pub shown : (i : ℕ) → i < w.mounted → IsShown listing (w.lists i)

  -- Some assignment of keys to entries makes the world valid.
  abbrev pub Valid : World A → Type ℓ
  Valid w = (owner : ℕ → Text) × IsValid owner w
