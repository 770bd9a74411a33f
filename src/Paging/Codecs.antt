-- ===== src/Paging/Codecs.antt =====
-- Ways to write cursors as tokens, for runs of the listings: the fields' lengths and numbers, where
-- page/page.go has the base64 of their JSON.
use byom.Prelude.{
  ℕ, zero, suc, ◌≡◌, refl, Text, [], ◌∷◌, ◌++◌, Option, none, some, length, take, take-append,
}
use byom.Paging.{Codec}
use mathlib.Core.List.{append_assoc}

-- A way to write values so that they can be read back from the front of a text.
pub record Serial {ℓ} (A : Type ℓ) : Type ℓ where
  pub write : A → Text
  pub read : Text → A × Text
  pub read-write : (a : A) (t : Text) → read (write a ++ t) ≡ (a, t)

abbrev pub read_nat : Text → ℕ × Text
read_nat [] = (0, [])
read_nat (n ∷ t) = (n, t)

abbrev pub nat_serial : Serial ℕ
nat_serial = record { write = λ n. n ∷ []; read = read_nat; read-write = λ n t. refl }

abbrev pub drop : ℕ → Text → Text
drop zero t = t
drop (suc n) [] = []
drop (suc n) (c ∷ t) = drop n t

pub drop-append : (s t : Text) → drop (length s) (s ++ t) ≡ t
drop-append [] t = refl
drop-append (c ∷ s) t = drop-append s t

abbrev pub read_text : Text → Text × Text
read_text [] = ([], [])
read_text (n ∷ t) = (take n t, drop n t)

pub read_text-append : (s t : Text) → read_text ((length s ∷ s) ++ t) ≡ (s, t)
read_text-append s t = rw (take-append s t, drop-append s t) refl

abbrev pub text_serial : Serial Text
text_serial = record { write = λ s. length s ∷ s; read = read_text; read-write = read_text-append }

module _ {ℓ κ} {A : Type ℓ} {B : Type κ} (a : Serial A) where
  abbrev pub via : (f : B → A) (g : A → B) → ((b : B) → g (f b) ≡ b) → Serial B
  via f g h = record {
    write = λ b. a.write (f b);
    read = λ t. let (x, rest) = a.read t in (g x, rest);
    read-write = λ b t. rw (a.read-write (f b) t, h b) refl;
  }

  abbrev pub pair_serial : Serial B → Serial (A × B)
  pair_serial b = record {
    write = λ p. a.write p.0 ++ b.write p.1;
    read = λ t. let (x, rest) = a.read t in let (y, rest') = b.read rest in ((x, y), rest');
    read-write = λ p t.
        rw (append_assoc (a.write p.0) (b.write p.1) t)
          (rw (a.read-write p.0 (b.write p.1 ++ t)) (rw (b.read-write p.1 t) refl));
  }

-- The tokens of a way to write cursors start with a mark, and so are never empty.
abbrev pub codec_of {ℓ} : {C : Type ℓ} → Serial C → Codec C
codec_of {C} s = record {
  encode = λ c. 1 ∷ s.write c ++ [];
  decode = decode';
  decode-encode = λ c. rw (s.read-write c []) refl;
  encode-ne-nil = λ c h. cc;
}
  where
    decode' : Text → Option C
    decode' [] = none
    decode' (n ∷ t) = some (s.read t).0
