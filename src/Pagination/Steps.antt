-- ===== src/Pagination/Steps.antt =====
-- Every event of ui/src/lib/pagination.ts keeps the world valid, in any order of events.
use byom.Prelude.{
  is_empty, [], ℕ, ◌<◌, ◌≡◌, refl, Text, text_eq, not, ◌&&◌, ◌||◌, some, arith, Bool-cases, ◌==◌,
  inl, inr, update_holds,
}
use byom.Pagination.{
  Page, Call, World, new_world, entry_for, load_more, show_entry, key_effect, mount, change_key,
  resolve, reject, set_scroll_y, clear_list_cache,
}
use byom.Pagination.Walk.{walk, IsShown}
use byom.Pagination.Validity.{Valid}
use byom.Pagination.Entries.{entry_for-IsValid, set_scroll_y-IsValid, clear_list_cache-IsValid}
use byom.Pagination.Fetches.{start_fetch-IsValid, resolve-IsValid, reject-IsValid}

-- `entryFor` leaves the lists as they are.
entry_for-mounted {ℓ} :
    {A : Type ℓ} (k : Text) (w : World A) → (entry_for k w).1.mounted ≡ w.mounted
unfolding entry_for
entry_for-mounted k w = ground arith

module _ {ℓ} {A : Type ℓ} (listing : Text → Text → Page A) where
  new_world-IsValid : Valid listing new_world
  new_world-IsValid = (
    λ r. [],
    record {
      cached = λ k r h. cc;
      walked = λ r h. elim h [ ];
      busy = λ r h b. cc;
      made = λ id c h. cc;
      called = λ id c h. cc;
      alone = λ id id' c c' h h' e. cc;
      shown = λ i h. elim h [ ];
    },
  )

  pub load_more-IsValid :
      (i : ℕ) {w : World A} → i < w.mounted → Valid listing w → Valid listing (load_more i w)
  unfolding load_more
  load_more-IsValid i {w} listed valid =
      let k = (w.lists i).key in
      let ((owner, v), cached) = entry_for-IsValid listing k valid in
      let w' = (entry_for k w).1 in
      let r = (entry_for k w).0 in
      let (made, own) = v.cached k r cached in
      elim (Bool-cases ((w'.heap r).inflight || (w'.heap r).done)) [
        | inl stop ↦ rw stop (owner, v)
        | inr go ↦ rw go (
          owner,
          start_fetch-IsValid listing owner w' v i r k (omega (arith, entry_for-mounted k w)) made
              own (ground arith) (ground arith),
        )
      ]

  -- The effect brings the list to what its new key's entry holds.
  show_entry-IsValid :
      (i r : ℕ) (k : Text) {w : World A}
      → w.cache k ≡ some r
      → Valid listing w
      → Valid listing (show_entry i k (w.heap r) w)
  unfolding show_entry
  show_entry-IsValid i r k {w} cached (owner, v) =
      let (made, own) = v.cached k r cached in
      let (n, items, token, done) = v.walked r made in
      (
        owner,
        record {
          cached = v.cached;
          walked = v.walked;
          busy = v.busy;
          made = v.made;
          called = v.called;
          alone = v.alone;
          shown = λ i' h.
              update_holds (λ j s. j < w.mounted → IsShown listing s) w.lists i _ i'
                (λ _. (n, rw (← own) items, rw (← own) done)) (v.shown i') h;
        },
      )

  key_effect-IsValid :
      (i : ℕ) (k : Text) {w : World A}
      → i < w.mounted
      → Valid listing w
      → Valid listing (key_effect i k w)
  unfolding key_effect
  key_effect-IsValid i k {w} listed valid =
      let (valid', cached) = entry_for-IsValid listing k valid in
      let w' = (entry_for k w).1 in
      let r = (entry_for k w).0 in
      let shown = show_entry-IsValid i r k cached valid' in
      elim (Bool-cases (is_empty (w'.heap r).items && not (w'.heap r).done)) [
        | inl empty ↦
            rw empty (
              load_more-IsValid i (unfold show_entry in omega (arith, entry_for-mounted k w)) shown)
        | inr full ↦ rw full shown
      ]

  -- A new list shows nothing, which is no page of its listing.
  mount-IsValid : (k : Text) {w : World A} → Valid listing w → Valid listing (mount k w)
  unfolding mount walk
  mount-IsValid k {w} (owner, v) = key_effect-IsValid w.mounted k (omega arith) (
    owner,
    record {
      cached = v.cached;
      walked = v.walked;
      busy = v.busy;
      made = λ id c h. omega (arith, v.made id c h);
      called = v.called;
      alone = v.alone;
      shown = λ i' h. elim (Bool-cases (i' == w.mounted)) [
        | inl e ↦ rw e (0, refl, refl)
        | inr e ↦ rw e (v.shown i' (ground arith))
      ];
    },
  )

  change_key-IsValid :
      (i : ℕ) (k : Text) {w : World A}
      → i < w.mounted
      → Valid listing w
      → Valid listing (change_key i k w)
  unfolding change_key
  change_key-IsValid i k {w} listed valid = elim (Bool-cases (text_eq k (w.lists i).key)) [
    | inl same ↦ rw same valid
    | inr other ↦ rw other (key_effect-IsValid i k listed valid)
  ]

-- One event, where the server answers a page request by the key's listing and the token. Each
-- names a list that is mounted, or a call that is waiting.
pub data Step {ℓ} {A : Type ℓ} (listing : Text → Text → Page A) (w : World A)
    : World A → Type ℓ where
  mounts : (k : Text) → Step listing w (mount k w)
  changes_key : (i : ℕ) (k : Text) → i < w.mounted → Step listing w (change_key i k w)
  loads_more : (i : ℕ) → i < w.mounted → Step listing w (load_more i w)
  resolves :
      (id : ℕ) (c : Call)
      → w.calls id ≡ some c
      → Step listing w (resolve id (listing c.key c.token) w)
  rejects : (id : ℕ) (e : Text) → Step listing w (reject id e w)
  scrolls : (i y : ℕ) → i < w.mounted → Step listing w (set_scroll_y i y w)
  clears : Step listing w (clear_list_cache w)

-- The worlds that any events, in any order, lead to.
pub data Reach {ℓ} {A : Type ℓ} (listing : Text → Text → Page A) : World A → Type ℓ where
  start : Reach listing new_world
  next : {w w' : World A} → Reach listing w → Step listing w w' → Reach listing w'

module _ {ℓ} {A : Type ℓ} (listing : Text → Text → Page A) where
  Step-IsValid : {w w' : World A} → Step listing w w' → Valid listing w → Valid listing w'
  Step-IsValid (mounts k) v = mount-IsValid listing k v
  Step-IsValid (changes_key i k h) v = change_key-IsValid listing i k h v
  Step-IsValid (loads_more i h) v = load_more-IsValid listing i h v
  Step-IsValid (resolves id c call) v = resolve-IsValid listing id c call v
  Step-IsValid (rejects id e) v = reject-IsValid listing id e v
  Step-IsValid (scrolls i y h) v = set_scroll_y-IsValid listing i y v
  Step-IsValid clears v = clear_list_cache-IsValid listing v

  pub Reach-IsValid : {w : World A} → Reach listing w → Valid listing w
  Reach-IsValid start = new_world-IsValid listing
  Reach-IsValid (next r s) = Step-IsValid s (Reach-IsValid r)
