-- ===== src/Pagination/Late.antt =====
-- Answers that come late to ui/src/lib/pagination.ts: of calls that were made before a list was
-- mounted, for entries that are not its own.
pub mod Rounds
use byom.Prelude.{
  ℕ, suc, ◌+◌, ◌<◌, ◌≤◌, ◌≡◌, ◌≢◌, refl, sym, Text, text_eq_refl, true, false, List, [], ◌∷◌, All,
  length, some, none, arith, Bool-cases, Option-cases, inl, inr, ◌∙◌, subst, ap, Result, ok, err,
  update, ◌==◌,
}
use byom.Pagination.{
  Page, Call, World, start_fetch, load_more, store_page, store_error, finish_call, when_current,
  resolve, reject,
}
use byom.Pagination.Walk.{Cursor, walk, advance, advance-done, walk-suc}
use byom.Pagination.Progress.{answer, IsAt, load_more-done, load_more-more}

-- A call with the way in which it ends.
abbrev pub Ending {ℓ} : Type ℓ → Type ℓ
Ending A = ℕ × Result Text (Page A)

module _ {ℓ} {A : Type ℓ} where
  unfoldable pub end_call : Ending A → World A → World A
  end_call (id, ok page) w = resolve id page w
  end_call (id, err e) w = reject id e w

  unfoldable pub end_calls : List (Ending A) → World A → World A
  end_calls [] w = w
  end_calls (e ∷ es) w = end_calls es (end_call e w)

  -- The calls below a number are for other lists and entries.
  pub record IsLate (i r n : ℕ) (w : World A) : Type 0 where
    pub elsewhere :
        (id : ℕ) (c : Call) → id < n → w.calls id ≡ some c → (c.list ≢ i) × (c.entry ≢ r)
    pub later : n ≤ w.issued

  -- What the list and its entry see of two worlds is the same.
  pub record IsSame (i r n : ℕ) (w w' : World A) : Type ℓ where
    pub list : w'.lists i ≡ w.lists i
    pub entry : w'.heap r ≡ w.heap r
    pub cache : w'.cache ≡ w.cache
    pub issued : w'.issued ≡ w.issued
    pub calls : (id : ℕ) → n ≤ id → w'.calls id ≡ w.calls id
    pub fewer : (id : ℕ) (c : Call) → w'.calls id ≡ some c → w.calls id ≡ some c

  module _ (i r n id : ℕ) (c : Call) (w : World A) (call : w.calls id ≡ some c) (below : id < n)
      (list : c.list ≢ i) (entry : c.entry ≢ r) where
    resolve-IsSame : (page : Page A) → IsSame i r n w (finish_call id c (store_page c page w))
    unfolding finish_call store_page when_current
    resolve-IsSame page = record {
      list = ground arith;
      entry = ground arith;
      cache = refl;
      issued = refl;
      calls = λ id' later. ground arith;
      fewer = λ id' c' there. ground arith;
    }

    reject-IsSame : (e : Text) → IsSame i r n w (finish_call id c (store_error c e w))
    unfolding finish_call store_error when_current
    reject-IsSame e = record {
      list = ground arith;
      entry = ground arith;
      cache = refl;
      issued = refl;
      calls = λ id' later. ground arith;
      fewer = λ id' c' there. ground arith;
    }

  untouched : (i r n : ℕ) (w : World A) → IsSame i r n w w
  untouched i r n w = record {
    list = refl;
    entry = refl;
    cache = refl;
    issued = refl;
    calls = λ id later. refl;
    fewer = λ id c there. there;
  }

  end_call-IsSame :
      (i r n : ℕ) (e : Ending A) (w : World A)
      → e.0 < n
      → IsLate i r n w
      → IsSame i r n w (end_call e w)
  unfolding end_call resolve reject
  end_call-IsSame i r n (id, ok page) w below late = elim (Option-cases (w.calls id)) [
    | inl none' ↦ rw (none', resolve) (untouched i r n w)
    | inr (c, call) ↦
        let (list, entry) = late.elsewhere id c below call in
        rw (call, resolve) (resolve-IsSame i r n id c w call below list entry page)
  ]
  end_call-IsSame i r n (id, err e) w below late = elim (Option-cases (w.calls id)) [
    | inl none' ↦ rw (none', reject) (untouched i r n w)
    | inr (c, call) ↦
        let (list, entry) = late.elsewhere id c below call in
        rw (call, reject) (reject-IsSame i r n id c w call below list entry e)
  ]

  twice_untouched :
      {i r n : ℕ} {u v w : World A} → IsSame i r n u v → IsSame i r n v w → IsSame i r n u w
  twice_untouched s t = record {
    list = t.list ∙ s.list;
    entry = t.entry ∙ s.entry;
    cache = t.cache ∙ s.cache;
    issued = t.issued ∙ s.issued;
    calls = λ id later. t.calls id later ∙ s.calls id later;
    fewer = λ id c there. s.fewer id c (t.fewer id c there);
  }

  pub IsSame-IsLate :
      {i r n : ℕ} {w w' : World A} → IsSame i r n w w' → IsLate i r n w → IsLate i r n w'
  IsSame-IsLate s late = record {
    elsewhere = λ id c below there. late.elsewhere id c below (s.fewer id c there);
    later = rw s.issued late.later;
  }

  pub end_calls-IsSame :
      (i r n : ℕ) (es : List (Ending A)) (w : World A)
      → All (λ (e : Ending A). e.0 < n) es
      → IsLate i r n w
      → IsSame i r n w (end_calls es w)
  unfolding end_calls
  end_calls-IsSame i r n [] w below late = untouched i r n w
  end_calls-IsSame i r n (e ∷ es) w below late =
      let first = end_call-IsSame i r n e w below.0 late in
      twice_untouched first
        (end_calls-IsSame i r n es (end_call e w) below.1 (IsSame-IsLate first late))
