-- ===== src/Pagination/Progress.antt =====
-- What follows from a load, a failure, a return to a list and a cleared cache:
-- ui/src/lib/pagination.ts.
use byom.Prelude.{
  ℕ, zero, suc, ◌+◌, ◌≤◌, ◌≡◌, sym, Text, text_eq_refl, true, false, ◌||◌, some, none, arith,
  Bool-cases, inl, inr, if◌then◌else◌, ◌∙◌, subst, ap,
}
use byom.Pagination.{
  Page, World, entry_for, start_fetch, load_more, store_page, finish_call, when_current, resolve,
}
use byom.Pagination.Walk.{Cursor, walk, advance, advance-done, walk-suc}
use native.Mathlib.Nat.{zero-add, suc-add}

module _ {ℓ} {A : Type ℓ} where
  pub load_more-cached :
      (i r : ℕ) (w : World A)
      → w.cache (w.lists i).key ≡ some r
      → load_more i w
        ≡ (if (w.heap r).inflight || (w.heap r).done then w else start_fetch i (w.lists i).key r w)
  unfolding load_more entry_for
  load_more-cached i r w cached = rw (cached, entry_for)

module _ {ℓ} {A : Type ℓ} (listing : Text → Text → Page A) where
  -- The server answers the call `id`.
  unfoldable pub answer : ℕ → World A → World A
  answer id w = elim (w.calls id) [ some c ↦ resolve id (listing c.key c.token) w | none ↦ w ]

  -- The list `i` loads more, and the server answers.
  unfoldable pub load_round : ℕ → World A → World A
  load_round i w = answer w.issued (load_more i w)

  unfoldable pub load_rounds : ℕ → ℕ → World A → World A
  load_rounds zero i w = w
  load_rounds (suc n) i w = load_round i (load_rounds n i w)

  -- Nothing is in flight for the list `i` and its entry `r`, and both hold what `c` holds.
  pub record IsAt (i r : ℕ) (k : Text) (c : Cursor A) (w : World A) : Type ℓ where
    pub keyed : (w.lists i).key ≡ k
    pub cached : w.cache k ≡ some r
    pub idle : (w.heap r).inflight ≡ false
    pub items : (w.heap r).items ≡ c.items
    pub token : (w.heap r).page_token ≡ c.token
    pub done : (w.heap r).done ≡ c.done
    pub shown : (w.lists i).items ≡ c.items
    pub shown_done : (w.lists i).done ≡ c.done
    pub quiet : (w.lists i).loading ≡ false
    pub unused : (id : ℕ) → w.issued ≤ id → w.calls id ≡ none

  -- The call that `load_more` has made for an idle entry.
  answer-start_fetch :
      (i r : ℕ) (k : Text) (w : World A)
      → answer w.issued (start_fetch i k r w)
        ≡ finish_call w.issued
            (record { list = i; key = k; entry = r; token = (w.heap r).page_token })
            (store_page
              (record { list = i; key = k; entry = r; token = (w.heap r).page_token })
              (listing k (w.heap r).page_token)
              (start_fetch i k r w))
  unfolding answer resolve start_fetch
  answer-start_fetch i r k w = ground arith

  module _ (i r : ℕ) (k : Text) where
    round_of_more :
        (c : Cursor A) (w : World A)
        → IsAt i r k c w
        → c.done ≡ false
        → IsAt i r k (advance (listing k) c) (
            finish_call w.issued
              (record { list = i; key = k; entry = r; token = (w.heap r).page_token })
              (store_page
                (record { list = i; key = k; entry = r; token = (w.heap r).page_token })
                (listing k (w.heap r).page_token)
                (start_fetch i k r w)))
    unfolding finish_call store_page start_fetch when_current advance
    round_of_more c w a more = record {
      keyed = ground (arith, text_eq_refl k);
      cached = a.cached;
      idle = ground (arith, text_eq_refl k);
      items = ground (arith, text_eq_refl k);
      token = ground (arith, text_eq_refl k);
      done = ground (arith, text_eq_refl k);
      shown = ground (arith, text_eq_refl k);
      shown_done = ground (arith, text_eq_refl k);
      quiet = ground (arith, text_eq_refl k);
      unused = λ id h. ground (arith, a.unused id);
    }

    pub load_more-done :
        (c : Cursor A) (w : World A) → IsAt i r k c w → c.done ≡ true → load_more i w ≡ w
    load_more-done c w a done =
        load_more-cached i r w (subst (λ j. w.cache j ≡ some r) (sym a.keyed) a.cached)
        ∙ ground arith

    pub load_more-more :
        (c : Cursor A) (w : World A)
        → IsAt i r k c w
        → c.done ≡ false
        → load_more i w ≡ start_fetch i k r w
    load_more-more c w a more =
        load_more-cached i r w (subst (λ j. w.cache j ≡ some r) (sym a.keyed) a.cached)
        ∙ ground arith

    pub load_round-done :
        (c : Cursor A) (w : World A) → IsAt i r k c w → c.done ≡ true → load_round i w ≡ w
    unfolding load_round answer
    load_round-done c w a done =
        ap (answer w.issued) (load_more-done c w a done) ∙ ground (arith, a.unused w.issued)

    load_round-more :
        (c : Cursor A) (w : World A)
        → IsAt i r k c w
        → c.done ≡ false
        → IsAt i r k (advance (listing k) c) (load_round i w)
    unfolding load_round
    load_round-more c w a more =
        subst (IsAt i r k (advance (listing k) c))
          (sym (ap (answer w.issued) (load_more-more c w a more) ∙ answer-start_fetch i r k w))
          (round_of_more c w a more)

    -- A round brings the list and its entry one page further, or leaves them if they are done.
    pub load_round-IsAt :
        (c : Cursor A) (w : World A)
        → IsAt i r k c w
        → IsAt i r k (advance (listing k) c) (load_round i w)
    load_round-IsAt c w a = elim (Bool-cases c.done) [
      | inl done ↦
          subst (λ u. IsAt i r k u (load_round i w)) (sym (advance-done (listing k) c done))
            (subst (IsAt i r k c) (sym (load_round-done c w a done)) a)
      | inr more ↦ load_round-more c w a more
    ]

    pub load_rounds-IsAt :
        (m n : ℕ) (w : World A)
        → IsAt i r k (walk (listing k) m) w
        → IsAt i r k (walk (listing k) (n + m)) (load_rounds n i w)
    unfolding load_rounds
    load_rounds-IsAt m zero w a = rw zero-add a
    load_rounds-IsAt m (suc n) w a =
        rw (suc-add, walk-suc)
          (load_round-IsAt (walk (listing k) (n + m)) (load_rounds n i w)
            (load_rounds-IsAt m n w a))
