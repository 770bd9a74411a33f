-- ===== src/Paging/Orders.antt =====
-- The orders by which the server's listings are sorted and resumed: sqlite/libraryread.go. SQLite
-- compares TEXT byte by byte, which in UTF-8 is the order of the code points, and row values from
-- the first column on.
use byom.Prelude.{
  ℕ, ◌≡◌, refl, ap₂, Bool, true, false, not, ◌&&◌, ◌||◌, List, [], ◌∷◌, Text, ltb, arith,
  Bool-cases, inl, inr,
}

pub record StrictOrder {ℓ} (A : Type ℓ) : Type ℓ where
  pub lt : A → A → Bool
  pub irrefl : (a : A) → lt a a ≡ false
  pub trans : (a b c : A) → lt a b ≡ true → lt b c ≡ true → lt a c ≡ true
  pub connected : (a b : A) → lt a b ≡ false → lt b a ≡ false → a ≡ b

pub nat_lt_irrefl : (a : ℕ) → ltb a a ≡ false
nat_lt_irrefl a = ground arith

pub nat_lt_trans : (a b c : ℕ) → ltb a b ≡ true → ltb b c ≡ true → ltb a c ≡ true
nat_lt_trans a b c h k = ground arith

pub nat_lt_connected : (a b : ℕ) → ltb a b ≡ false → ltb b a ≡ false → a ≡ b
nat_lt_connected a b h k = ground arith

abbrev pub nat_order : StrictOrder ℕ
nat_order = record {
  lt = ltb;
  irrefl = nat_lt_irrefl;
  trans = nat_lt_trans;
  connected = nat_lt_connected;
}

-- Of two that are related neither way is each like the other.
pub asym {ℓ} : {A : Type ℓ} (o : StrictOrder A) (a b : A) → o.lt a b ≡ true → o.lt b a ≡ false
asym o a b h = elim (Bool-cases (o.lt b a)) [
  | inl k ↦ absurd (ground (arith, o.trans a b a h k, o.irrefl a))
  | inr k ↦ k
]

module _ {ℓ} {A : Type ℓ} (o : StrictOrder A) where
  abbrev pub lex_lt : List A → List A → Bool
  lex_lt [] [] = false
  lex_lt [] (y ∷ ys) = true
  lex_lt (x ∷ xs) [] = false
  lex_lt (x ∷ xs) (y ∷ ys) = o.lt x y || (not (o.lt y x) && lex_lt xs ys)

  pub lex_lt_irrefl : (xs : List A) → lex_lt xs xs ≡ false
  lex_lt_irrefl [] = refl
  lex_lt_irrefl (x ∷ xs) = ground (arith, o.irrefl x, lex_lt_irrefl xs)

  pub lex_lt_trans :
      (xs ys zs : List A) → lex_lt xs ys ≡ true → lex_lt ys zs ≡ true → lex_lt xs zs ≡ true
  lex_lt_trans [] [] [] h k = ground arith
  lex_lt_trans [] (y ∷ ys) [] h k = ground arith
  lex_lt_trans [] ys (z ∷ zs) h k = refl
  lex_lt_trans (x ∷ xs) [] zs h k = ground arith
  lex_lt_trans (x ∷ xs) (y ∷ ys) [] h k = ground arith
  lex_lt_trans (x ∷ xs) (y ∷ ys) (z ∷ zs) h k = grind (
    arith,
    o.trans x y z,
    o.trans z y x,
    o.trans y z x,
    o.trans z x y,
    o.connected x y,
    o.connected y z,
    o.connected x z,
    o.irrefl x,
    o.irrefl y,
    lex_lt_trans xs ys zs,
  )

  pub lex_lt_connected : (xs ys : List A) → lex_lt xs ys ≡ false → lex_lt ys xs ≡ false → xs ≡ ys
  lex_lt_connected [] [] h k = refl
  lex_lt_connected [] (y ∷ ys) h k = ground arith
  lex_lt_connected (x ∷ xs) [] h k = ground arith
  lex_lt_connected (x ∷ xs) (y ∷ ys) h k =
      let below : o.lt x y ≡ false = ground arith in
      let above : o.lt y x ≡ false = ground arith in
      ap₂ ◌∷◌ (o.connected x y below above) (lex_lt_connected xs ys (ground arith) (ground arith))

  -- Row values: the first place where two lists differ decides.
  abbrev pub lex_order : StrictOrder (List A)
  lex_order = record {
    lt = lex_lt;
    irrefl = lex_lt_irrefl;
    trans = lex_lt_trans;
    connected = lex_lt_connected;
  }

  -- `DESC` on every column.
  abbrev pub flip_order : StrictOrder A
  flip_order = record {
    lt = λ a b. o.lt b a;
    irrefl = o.irrefl;
    trans = λ a b c h k. o.trans c b a k h;
    connected = λ a b h k. o.connected a b k h;
  }

abbrev pub text_order : StrictOrder Text
text_order = lex_order nat_order

module _ {ℓ κ} {A : Type ℓ} {B : Type κ} (o : StrictOrder A) (u : StrictOrder B) where
  abbrev pub pair_lt : A × B → A × B → Bool
  pair_lt p q = o.lt p.0 q.0 || (not (o.lt q.0 p.0) && u.lt p.1 q.1)

  pub pair_lt_irrefl : (p : A × B) → pair_lt p p ≡ false
  pair_lt_irrefl (a, b) = ground (arith, o.irrefl a, u.irrefl b)

  pub pair_lt_trans : (p q r : A × B) → pair_lt p q ≡ true → pair_lt q r ≡ true → pair_lt p r ≡ true
  pair_lt_trans (a, b) (c, d) (e, f) h k = grind (
    arith,
    o.trans a c e,
    o.trans e c a,
    o.trans c e a,
    o.trans e a c,
    o.connected a c,
    o.connected c e,
    o.connected a e,
    o.irrefl a,
    o.irrefl c,
    u.trans b d f,
  )

  pub pair_lt_connected : (p q : A × B) → pair_lt p q ≡ false → pair_lt q p ≡ false → p ≡ q
  pair_lt_connected (a, b) (c, d) h k =
      let below : o.lt a c ≡ false = ground arith in
      let above : o.lt c a ≡ false = ground arith in
      ap₂ (λ x y. (x, y)) (o.connected a c below above)
        (u.connected b d (ground arith) (ground arith))

  abbrev pub pair_order : StrictOrder (A × B)
  pair_order = record {
    lt = pair_lt;
    irrefl = pair_lt_irrefl;
    trans = pair_lt_trans;
    connected = pair_lt_connected;
  }
