-- ===== src/Pagination/Late/Rounds.antt =====
-- Loads of a list of ui/src/lib/pagination.ts with late answers between them.
use byom.Prelude.{
  ℕ, suc, ◌+◌, ◌<◌, ◌≤◌, ◌≡◌, refl, Text, text_eq_refl, false, List, [], ◌∷◌, All, length, some,
  none, arith, Bool-cases, inl, inr, ◌∙◌,
}
use byom.Pagination.{
  Page, Call, World, start_fetch, load_more, store_page, finish_call, when_current, resolve,
}
use byom.Pagination.Walk.{Cursor, walk, advance, advance-done, walk-suc}
use byom.Pagination.Progress.{answer, IsAt, load_more-done, load_more-more}
use byom.Pagination.Late.{Ending, end_calls, IsLate, IsSame, IsSame-IsLate, end_calls-IsSame}
use native.Mathlib.Nat.{zero-add}

module _ {ℓ} {A : Type ℓ} (listing : Text → Text → Page A) where
  answer-none : (id : ℕ) (w : World A) → w.calls id ≡ none → answer listing id w ≡ w
  unfolding answer
  answer-none id w h = rw (answer, h) refl

-- The calls are ones below a number.
abbrev pub IsBelow {ℓ} : {A : Type ℓ} → ℕ → List (Ending A) → Type 0
IsBelow {A = A} n es = All (λ (e : Ending A). e.0 < n) es

module _ {ℓ} {A : Type ℓ} (listing : Text → Text → Page A) (i : ℕ) where
  -- The list loads more, and late answers come before the answer to its call.
  unfoldable pub late_round : List (Ending A) → World A → World A
  late_round es w = answer listing w.issued (end_calls es (load_more i w))

  unfoldable pub late_rounds : List (List (Ending A)) → World A → World A
  unfolding late_round
  late_rounds [] w = w
  late_rounds (es ∷ batches) w = late_rounds batches (late_round es w)

module _ {ℓ} {A : Type ℓ} (listing : Text → Text → Page A) (i r n : ℕ) (k : Text) where
  -- The list waits for the call `id`, and shows what `c` holds, as its entry does.
  record IsLoading (c : Cursor A) (id : ℕ) (w : World A) : Type ℓ where
    keyed : (w.lists i).key ≡ k
    cached : w.cache k ≡ some r
    items : (w.heap r).items ≡ c.items
    more : c.done ≡ false
    call : w.calls id ≡ some (record { list = i; key = k; entry = r; token = c.token })
    unused : (id' : ℕ) → id < id' → w.calls id' ≡ none
    issued : w.issued ≡ id + 1

  IsSame-IsLoading :
      {c : Cursor A} {id : ℕ} {w w' : World A}
      → n ≤ id
      → IsSame i r n w w'
      → IsLoading c id w
      → IsLoading c id w'
  IsSame-IsLoading {c} {id} later s a = record {
    keyed = rw s.list a.keyed;
    cached = rw s.cache a.cached;
    items = rw s.entry a.items;
    more = a.more;
    call = s.calls id later ∙ a.call;
    unused = λ id' after. s.calls id' (omega arith) ∙ a.unused id' after;
    issued = s.issued ∙ a.issued;
  }

  IsSame-IsAt :
      {c : Cursor A} {w w' : World A}
      → n ≤ w.issued
      → IsSame i r n w w'
      → IsAt listing i r k c w
      → IsAt listing i r k c w'
  IsSame-IsAt {c} {w} later s a = record {
    keyed = rw s.list a.keyed;
    cached = rw s.cache a.cached;
    idle = rw s.entry a.idle;
    items = rw s.entry a.items;
    token = rw s.entry a.token;
    done = rw s.entry a.done;
    shown = rw s.list a.shown;
    shown_done = rw s.list a.shown_done;
    quiet = rw s.list a.quiet;
    unused = λ id after.
        let after' : w.issued ≤ id = rw⁻¹ s.issued after in
        s.calls id (omega arith) ∙ a.unused id after';
  }

  start_fetch-IsLoading :
      (c : Cursor A) (w : World A)
      → IsAt listing i r k c w
      → c.done ≡ false
      → IsLoading c w.issued (start_fetch i k r w)
  unfolding start_fetch
  start_fetch-IsLoading c w a more = record {
    keyed = ground arith;
    cached = a.cached;
    items = ground arith;
    more = more;
    call = ground arith;
    unused = λ id' after. ground (arith, a.unused id');
    issued = refl;
  }

  answer-IsAt :
      (c : Cursor A) (id : ℕ) (w : World A)
      → IsLoading c id w
      → IsAt listing i r k (advance (listing k) c) (answer listing id w)
  unfolding answer resolve finish_call store_page when_current advance
  answer-IsAt c id w a =
      rw (answer, a.call)
        (rw (resolve, a.call)
          (record {
            keyed = ground (arith, text_eq_refl k);
            cached = a.cached;
            idle = ground (arith, text_eq_refl k);
            items = ground (arith, text_eq_refl k);
            token = ground (arith, text_eq_refl k);
            done = ground (arith, text_eq_refl k);
            shown = ground (arith, text_eq_refl k);
            shown_done = ground (arith, text_eq_refl k);
            quiet = ground (arith, text_eq_refl k);
            unused = λ id' after. ground (arith, a.unused id', a.issued);
          }))

  start_fetch-IsLate : (w : World A) → IsLate i r n w → IsLate i r n (start_fetch i k r w)
  unfolding start_fetch
  start_fetch-IsLate w late = record {
    elsewhere =
        λ id c below there. late.elsewhere id c below (let after = late.later in ground arith);
    later = let after = late.later in omega arith;
  }

  answer-IsLate :
      (id : ℕ) (c : Call) (w : World A)
      → w.calls id ≡ some c
      → IsLate i r n w
      → IsLate i r n (answer listing id w)
  unfolding answer resolve finish_call store_page
  answer-IsLate id c w call late =
      rw (answer, call)
        (rw (resolve, call)
          (record {
            elsewhere = λ id' c' below there. late.elsewhere id' c' below (ground arith);
            later = late.later;
          }))

  pub late_round-IsAt :
      (c : Cursor A) (es : List (Ending A)) (w : World A)
      → IsBelow n es
      → IsAt listing i r k c w
      → IsLate i r n w
      → IsAt listing i r k (advance (listing k) c) (late_round listing i es w)
        × IsLate i r n (late_round listing i es w)
  unfolding late_round
  late_round-IsAt c es w below a late = elim (Bool-cases c.done) [
    | inl done ↦
        let s = end_calls-IsSame i r n es w below late in
        let a' = IsSame-IsAt late.later s a in
        let over : answer listing w.issued (end_calls es w) ≡ end_calls es w =
          answer-none listing w.issued (end_calls es w)
            (a'.unused w.issued (let same = s.issued in omega arith)) in
        rw (load_more-done listing i r k c w a done, over, advance-done (listing k) c done)
          (a', IsSame-IsLate s late)
    | inr more ↦
        let started = start_fetch i k r w in
        let late' = start_fetch-IsLate w late in
        let s = end_calls-IsSame i r n es started below late' in
        let loading = IsSame-IsLoading late.later s (start_fetch-IsLoading c w a more) in
        rw (load_more-more listing i r k c w a more) (
          answer-IsAt c w.issued (end_calls es started) loading,
          answer-IsLate w.issued _ (end_calls es started) loading.call (IsSame-IsLate s late'),
        )
  ]

  pub late_rounds-IsAt :
      (m : ℕ) (batches : List (List (Ending A))) (w : World A)
      → All (IsBelow n) batches
      → IsAt listing i r k (walk (listing k) m) w
      → IsLate i r n w
      → IsAt listing i r k (walk (listing k) (length batches + m)) (late_rounds listing i batches w)
  unfolding late_rounds
  late_rounds-IsAt m [] w below a late = rw zero-add a
  late_rounds-IsAt m (es ∷ batches) w below a late =
      let (a', late') = late_round-IsAt (walk (listing k) m) es w below.0 a late in
      let rest =
        late_rounds-IsAt (suc m) batches (late_round listing i es w) below.1 (rw walk-suc a')
          late' in
      let count : length batches + suc m ≡ suc (length batches) + m = omega arith in rw⁻¹ count rest
