-- ===== src/Scrolling/Loading.antt =====
-- A sentinel in view loads a whole list: ui/src/components/InfiniteScrollSentinel.tsx on a list of
-- ui/src/lib/pagination.ts.
use byom.Prelude.{
  ℕ, zero, suc, ◌+◌, ◌≡◌, refl, Text, true, false, none, arith, Bool-cases, inl, inr, ap, ◌∙◌,
}
use byom.Pagination.{Page, World, mount, start_fetch}
use byom.Pagination.Walk.{Cursor, walk}
use byom.Pagination.Steps.{Reach}
use byom.Pagination.Progress.{
  answer, load_round, load_rounds, IsAt, load_more-done, load_more-more, load_rounds-IsAt,
  load_round-done,
}
use byom.Pagination.Mounting.{answer_new, mount-load_rounds}
use byom.Scrolling.{Sentinel, wants, settle}

-- A sentinel that is in view and has not just asked.
abbrev pub in_view : Sentinel
in_view = record { intersecting = true; should_load = false }

module _ {ℓ} {A : Type ℓ} (listing : Text → Text → Page A) where
  -- The sentinel settles, and the server answers what it has asked for.
  unfoldable pub settle_round : ℕ → Sentinel → World A → Sentinel × World A
  settle_round i s w = let (s', w') = settle i s w in (s', answer listing w.issued w')

  unfoldable pub settle_rounds : ℕ → ℕ → Sentinel → World A → Sentinel × World A
  settle_rounds zero i s w = (s, w)
  settle_rounds (suc n) i s w = let (s', w') = settle_rounds n i s w in settle_round i s' w'

  module _ (i r : ℕ) (k : Text) where
    settle_round-done :
        (c : Cursor A) (w : World A)
        → IsAt listing i r k c w
        → c.done ≡ true
        → settle_round i in_view w ≡ (in_view, load_round listing i w)
    unfolding settle_round settle wants load_round
    settle_round-done c w a done =
        rw (load_more-done listing i r k c w a done) (ground (arith, a.shown_done, a.quiet))

    settle_round-more :
        (c : Cursor A) (w : World A)
        → IsAt listing i r k c w
        → c.done ≡ false
        → settle_round i in_view w ≡ (in_view, load_round listing i w)
    unfolding settle_round settle wants load_round start_fetch
    settle_round-more c w a more =
        rw (load_more-more listing i r k c w a more) (ground (arith, a.shown_done, a.quiet))

    settle_round-load_round :
        (c : Cursor A) (w : World A)
        → IsAt listing i r k c w
        → settle_round i in_view w ≡ (in_view, load_round listing i w)
    settle_round-load_round c w a = elim (Bool-cases c.done) [
      | inl done ↦ settle_round-done c w a done
      | inr more ↦ settle_round-more c w a more
    ]

    -- From an idle list, `n` rounds are `n` loads, after which the sentinel may ask again.
    settle_rounds-load_rounds :
        (m n : ℕ) (w : World A)
        → IsAt listing i r k (walk (listing k) m) w
        → settle_rounds n i in_view w ≡ (in_view, load_rounds listing n i w)
    unfolding settle_rounds load_rounds
    settle_rounds-load_rounds m zero w a = refl
    settle_rounds-load_rounds m (suc n) w a =
        ap (λ p. settle_round i p.0 p.1) (settle_rounds-load_rounds m n w a)
        ∙ settle_round-load_round (walk (listing k) (n + m)) (load_rounds listing n i w)
            (load_rounds-IsAt listing i r k m n w a)

    -- Once the walk is done, no further round changes anything, and none makes a call.
    settle_rounds-rest :
        (m n : ℕ) (w : World A)
        → IsAt listing i r k (walk (listing k) m) w
        → (walk (listing k) m).done ≡ true
        → settle_rounds n i in_view w ≡ (in_view, w)
    unfolding settle_rounds
    settle_rounds-rest m zero w a done = refl
    settle_rounds-rest m (suc n) w a done =
        ap (λ p. settle_round i p.0 p.1) (settle_rounds-rest m n w a done)
        ∙ settle_round-load_round (walk (listing k) m) w a
        ∙ ap (λ u. (in_view, u)) (load_round-done listing i r k (walk (listing k) m) w a done)

  -- While the sentinel of a list that is mounted, in a reachable world, for a key with no cached
  -- entry stays in view, the list loads by itself: when its first fetch and the requests of `n`
  -- rounds of the sentinel have been answered it shows `n + 1` pages of the listing of its key, with
  -- their `done`, and is not loading.
  pub mount-settle_rounds :
      (k : Text) {w : World A}
      → Reach listing w
      → w.cache k ≡ none
      → (n : ℕ)
      → let w' = (settle_rounds n w.mounted in_view (answer listing w.issued (mount k w))).1 in
        ((w'.lists w.mounted).items ≡ (walk (listing k) (n + 1)).items)
        × ((w'.lists w.mounted).done ≡ (walk (listing k) (n + 1)).done)
        × ((w'.lists w.mounted).loading ≡ false)
  mount-settle_rounds k {w} reach new n =
      let at = answer_new listing k reach new in
      rw (settle_rounds-load_rounds w.mounted w.entries k 1 n _ at)
        (mount-load_rounds listing k reach new n)

  -- If, for such a list, the listing of the key ends within `n + 1` pages, then after `n` rounds any
  -- further rounds of the sentinel leave it and the world as they are.
  pub mount-settle_rounds_end :
      (k : Text) {w : World A}
      → Reach listing w
      → w.cache k ≡ none
      → (n m : ℕ) → (walk (listing k) (n + 1)).done ≡ true
      → let (s', w') = settle_rounds n w.mounted in_view (answer listing w.issued (mount k w)) in
        settle_rounds m w.mounted s' w' ≡ (s', w')
  mount-settle_rounds_end k {w} reach new n m done =
      let at = answer_new listing k reach new in
      rw (settle_rounds-load_rounds w.mounted w.entries k 1 n _ at) (
        settle_rounds-rest w.mounted w.entries k (n + 1) m _
          (load_rounds-IsAt listing w.mounted w.entries k 1 n _ at) done)
