-- ===== src/Prelude/Texts.antt =====
-- Text as the list of its code points, and decimal printing.
use Prim.Native.Char.{code}
use Prim.Native.String.{String}
use Prim.Native.Nat.{ℕ, zero, suc, ◌+◌, ◌-◌, ◌*◌, ◌/◌, ◌%◌, ◌<◌, ◌≤◌}
use mathlib.Core.Path.{◌≡◌, refl, sym, ap, ◌∙◌}
use mathlib.Core.Logic.{◌↔◌, ◌≢◌}
use mathlib.Core.Bool.{Bool, true, false, not, ◌&&◌}
use mathlib.Core.List.{List, [], ◌∷◌, ◌++◌, append-nil, append_assoc}
use mathlib.Core.Option
use mathlib.Core.Option.{Option, none, some}
use native.Mathlib.Omega.{arith}
use byom.Prelude.Lists.{length}
use byom.Prelude.Tests.{ltb, ◌==◌, if◌then◌else◌}

abbrev pub Text : Type 0
Text = List ℕ

-- The code points of a literal. `String` has its own `[]` and `∷`.
abbrev pub codes : String → Text
codes String.[] = []
codes (String.◌∷◌ c s) = code c ∷ codes s

-- `===` on strings.
unfoldable pub text_eq : Text → Text → Bool
text_eq [] [] = true
text_eq [] (d ∷ t) = false
text_eq (c ∷ s) [] = false
text_eq (c ∷ s) (d ∷ t) = c == d && text_eq s t

pub text_eq→eq : (s t : Text) → text_eq s t ≡ true → s ≡ t
unfolding text_eq
text_eq→eq [] [] h = refl
text_eq→eq [] (d ∷ t) h = ground arith
text_eq→eq (c ∷ s) [] h = ground arith
text_eq→eq (c ∷ s) (d ∷ t) h = ground (arith, text_eq→eq s t)

pub text_eq_refl : (s : Text) → text_eq s s ≡ true
unfolding text_eq
text_eq_refl [] = refl
text_eq_refl (c ∷ s) = ground (arith, text_eq_refl s)

pub text_eq_iff : (s t : Text) → (text_eq s t ≡ true) ↔ (s ≡ t)
text_eq_iff s t = (text_eq→eq s t, λ e. rw e (text_eq_refl t))

-- `Boolean(s)`: the empty string is falsy.
abbrev pub truthy : Text → Bool
truthy [] = false
truthy (c ∷ s) = true

-- `ts.join(sep)`.
unfoldable pub join : Text → List Text → Text
join sep [] = []
join sep (t ∷ []) = t
join sep (t ∷ u ∷ ts) = t ++ sep ++ join sep (u ∷ ts)

-- The digits of `n` before `acc`; more rounds than the number has digits are never used.
emit : ℕ → ℕ → Text → Text
emit zero n acc = acc
emit (suc fuel) n acc =
    let rest = emit fuel (n / 10) ((48 + n % 10) ∷ acc) in if ltb n 10 then (48 + n) ∷ acc else rest

-- `String(n)` of a non-negative integer.
unfoldable pub decimal : ℕ → Text
unfolding emit
decimal n = emit (suc n) n []

abbrev is_digit : ℕ → Bool
is_digit c = not (ltb c 48) && ltb c 58

-- Reads numerals separated by colons: the value so far, then the text.
unfoldable pub read_fields : ℕ → Text → Option (List ℕ)
read_fields v [] = some (v ∷ [])
read_fields v (c ∷ s) =
    let more = read_fields 0 s in
    let longer = read_fields (v * 10 + (c - 48)) s in
    if c == b':' then Option.map (◌∷◌ v) more else if is_digit c then longer else none

emit-read : (fuel n : ℕ) (s : Text) → n < fuel → read_fields 0 (emit fuel n s) ≡ read_fields n s
unfolding emit read_fields
emit-read zero n s h = elim h [ ]
emit-read (suc fuel) n s h = ground (arith, emit-read fuel (n / 10) ((48 + n % 10) ∷ s))

emit-append : (fuel n : ℕ) (s t : Text) → emit fuel n s ++ t ≡ emit fuel n (s ++ t)
unfolding emit
emit-append zero n s t = refl
emit-append (suc fuel) n s t = ground (arith, emit-append fuel (n / 10) ((48 + n % 10) ∷ s) t)

-- Printing then reading gives the number, whatever follows.
pub read_fields-decimal : (n : ℕ) (t : Text) → read_fields 0 (decimal n ++ t) ≡ read_fields n t
unfolding decimal
read_fields-decimal n t = rw (emit-append (suc n) n [] t) (emit-read (suc n) n t (omega arith))

zeros : ℕ → Text
zeros zero = []
zeros (suc n) = b'0' ∷ zeros n

-- `s.padStart(width, '0')`.
unfoldable pub pad_start : ℕ → Text → Text
unfolding zeros
pad_start width s = zeros (width - length s) ++ s

read_fields-zeros : (k : ℕ) (t : Text) → read_fields 0 (zeros k ++ t) ≡ read_fields 0 t
unfolding zeros read_fields
read_fields-zeros zero t = refl
read_fields-zeros (suc k) t = read_fields-zeros k t

-- Zeros in front do not change the number read.
pub read_fields-pad_start :
    (width n : ℕ) (t : Text) → read_fields 0 (pad_start width (decimal n) ++ t) ≡ read_fields n t
unfolding pad_start
read_fields-pad_start width n t =
    rw append_assoc
      (read_fields-zeros (width - length (decimal n)) (decimal n ++ t) ∙ read_fields-decimal n t)

emit_small : (fuel n : ℕ) (s : Text) → n < 10 → emit (suc fuel) n s ≡ (48 + n) ∷ s
unfolding emit
emit_small fuel n s h = ground arith

emit_two :
    (fuel n : ℕ) (s : Text)
    → 10 ≤ n
    → n < 100
    → emit (suc (suc fuel)) n s ≡ (48 + n / 10) ∷ (48 + n % 10) ∷ s
unfolding emit
emit_two fuel n s l h = ground (arith, emit_small fuel (n / 10) ((48 + n % 10) ∷ s))

-- Below a hundred the padded text is the two digits.
pub pad_start_two : (n : ℕ) → n < 100 → pad_start 2 (decimal n) ≡ (48 + n / 10) ∷ (48 + n % 10) ∷ []
unfolding pad_start decimal
pad_start_two zero h = refl
pad_start_two (suc n) h = ground (arith, emit_small (suc n) (suc n) [], emit_two n (suc n) [])

pub read_fields_colon :
    (v : ℕ) (t : Text) → read_fields v (b':' ∷ t) ≡ Option.map (◌∷◌ v) (read_fields 0 t)
unfolding read_fields
read_fields_colon v t = refl

pub read_fields_end : (v : ℕ) → read_fields v [] ≡ some (v ∷ [])
unfolding read_fields
read_fields_end v = refl

-- One field with its colon; the last field, padded.
pub read_fields_field :
    (n : ℕ) (t : Text)
    → read_fields 0 (decimal n ++ b':' ∷ t) ≡ Option.map (◌∷◌ n) (read_fields 0 t)
read_fields_field n t = read_fields-decimal n (b':' ∷ t) ∙ read_fields_colon n t

pub read_fields_padded_field :
    (n : ℕ) (t : Text)
    → read_fields 0 (pad_start 2 (decimal n) ++ b':' ∷ t) ≡ Option.map (◌∷◌ n) (read_fields 0 t)
read_fields_padded_field n t = read_fields-pad_start 2 n (b':' ∷ t) ∙ read_fields_colon n t

pub read_fields_last : (n : ℕ) → read_fields 0 (pad_start 2 (decimal n)) ≡ some (n ∷ [])
read_fields_last n =
    ap (read_fields 0) (sym (append-nil (pad_start 2 (decimal n))))
    ∙ read_fields-pad_start 2 n []
    ∙ read_fields_end n

pub text_eq_ne : (s t : Text) → s ≢ t → text_eq s t ≡ false
text_eq_ne s t ne = ground (arith, text_eq→eq s t)
