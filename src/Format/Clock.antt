-- ===== src/Format/Clock.antt =====
-- What the duration formatters of ui/src/lib/format.ts print, read back.
use byom.Prelude.{
  ℕ, ◌+◌, ◌*◌, ◌/◌, ◌%◌, ◌<◌, ◌≡◌, inl, inr, Bool-cases, ◌==◌, read_fields, read_fields_field,
  read_fields_padded_field, read_fields_last, pad_start, decimal, List, [], ◌∷◌, ◌++◌, some, arith,
  ◌∙◌, ap, All, length, ◌≤◌, sym, true, false, ◌↔◌,
}
use byom.Proto.Library.{Duration}
use byom.Format.{rounded_seconds, format_track_duration, format_duration}
use mathlib.Core.Option
use mathlib.Core.List.{tail}

-- The number of seconds that a clock shows, most significant field first.
abbrev pub in_seconds : ℕ → List ℕ → ℕ
in_seconds acc [] = acc
in_seconds acc (x ∷ xs) = in_seconds (acc * 60 + x) xs

-- A track's text reads back as minutes and seconds of the rounded length.
format_track_duration-read :
    (d : Duration)
    → read_fields 0 (format_track_duration (some d))
      ≡ some (rounded_seconds d / 60 ∷ rounded_seconds d % 60 ∷ [])
unfolding format_track_duration
format_track_duration-read d =
    let total = rounded_seconds d in
    read_fields_field (total / 60) (pad_start 2 (decimal (total % 60)))
    ∙ ap (Option.map (◌∷◌ (total / 60))) (read_fields_last (total % 60))

format_duration_short :
    (d : Duration)
    → (rounded_seconds d / 3600 == 0) ≡ true
    → read_fields 0 (format_duration (some d))
      ≡ some (rounded_seconds d % 3600 / 60 ∷ rounded_seconds d % 60 ∷ [])
unfolding format_duration
format_duration_short d short =
    let total = rounded_seconds d in
    let seconds = pad_start 2 (decimal (total % 60)) in
    rw short (
      read_fields_field (total % 3600 / 60) seconds
      ∙ ap (Option.map (◌∷◌ (total % 3600 / 60))) (read_fields_last (total % 60)))

format_duration_long :
    (d : Duration)
    → (rounded_seconds d / 3600 == 0) ≡ false
    → read_fields 0 (format_duration (some d))
      ≡ some
          (rounded_seconds d / 3600 ∷ rounded_seconds d % 3600 / 60 ∷ rounded_seconds d % 60 ∷ [])
unfolding format_duration
format_duration_long d long =
    let total = rounded_seconds d in
    let minutes = total % 3600 / 60 in
    let seconds = pad_start 2 (decimal (total % 60)) in
    rw long (
      read_fields_field (total / 3600) (pad_start 2 (decimal minutes) ++ b':' ∷ seconds)
      ∙ ap (Option.map (◌∷◌ (total / 3600))) (read_fields_padded_field minutes seconds)
      ∙ ap (λ r. Option.map (◌∷◌ (total / 3600)) (Option.map (◌∷◌ minutes) r))
          (read_fields_last (total % 60)))

-- `fields` are a clock's for `total` seconds: they add up to it, all after the first are below
-- sixty, and there is a third one exactly from an hour on.
pub record IsClock (total : ℕ) (fields : List ℕ) : Type 0 where
  pub adds_up : in_seconds 0 fields ≡ total
  pub sixties : All (λ x. x < 60) (tail fields)
  pub hour_shown : 3600 ≤ total → length fields ≡ 3
  pub hour_hidden : total < 3600 → length fields ≡ 2

-- The text of any duration reads back as a clock that shows its length rounded to the second.
pub format_duration-IsClock :
    (d : Duration)
    → (fields : List ℕ) × (read_fields 0 (format_duration (some d)) ≡ some fields)
      × IsClock (rounded_seconds d) fields
format_duration-IsClock d =
    let total = rounded_seconds d in
    elim (Bool-cases (total / 3600 == 0)) [
      | inl short ↦
          (total % 3600 / 60 ∷ total % 60 ∷ [], format_duration_short d short, ground arith)
      | inr long ↦ (
        total / 3600 ∷ total % 3600 / 60 ∷ total % 60 ∷ [],
        format_duration_long d long,
        ground arith,
      )
    ]

same_text :
    (d e : Duration)
    → format_duration (some d) ≡ format_duration (some e)
    → rounded_seconds d ≡ rounded_seconds e
same_text d e p =
    let (fields, read, clock) = format_duration-IsClock d in
    let (fields', read', clock') = format_duration-IsClock e in
    let same : fields ≡ fields' = cc (sym read ∙ ap (read_fields 0) p ∙ read') in
    sym clock.adds_up ∙ ap (in_seconds 0) same ∙ clock'.adds_up

same_length :
    (d e : Duration)
    → rounded_seconds d ≡ rounded_seconds e
    → format_duration (some d) ≡ format_duration (some e)
unfolding format_duration
same_length d e p = rw p

-- Two lengths get the same text exactly when they round to the same second.
format_duration-eq_iff :
    (d e : Duration)
    → (format_duration (some d) ≡ format_duration (some e))
      ↔ (rounded_seconds d ≡ rounded_seconds e)
format_duration-eq_iff d e = (same_text d e, same_length d e)
