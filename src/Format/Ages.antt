-- ===== src/Format/Ages.antt =====
-- How `relativeTime` of ui/src/lib/format.ts names an age.
use byom.Prelude.{
  ℕ, ◌+◌, ◌*◌, ◌/◌, ◌<◌, ◌≤◌, ◌≡◌, inl, inr, refl, Text, codes, decimal, ◌++◌, some, arith,
  Bool-cases, ltb, ltb→lt,
}
use byom.Proto.Management.{Timestamp}
use byom.Format.{elapsed_ms, relative_time}

-- `text` counts whole units of `size` milliseconds in an age, from one up to below `limit`.
abbrev pub Counts : ℕ → ℕ → ℕ → Text → Text → Type 0
Counts age size limit suffix text =
    (n : ℕ) × (text ≡ decimal n ++ suffix)
    × (1 ≤ n)
    × (n < limit)
    × (n * size ≤ age)
    × (age < (n + 1) * size)

-- The age is in one of four ranges.
pub data IsAge (age : ℕ) (text : Text) : Type 0 where
  fresh : age < 60000 → text ≡ codes "just now" → IsAge age text
  minutes : Counts age 60000 60 (codes "m ago") text → IsAge age text
  hours : Counts age 3600000 24 (codes "h ago") text → IsAge age text
  days :
      (n : ℕ)
      → text ≡ decimal n ++ codes "d ago"
      → 1 ≤ n
      → n * 86400000 ≤ age
      → age < (n + 1) * 86400000
      → IsAge age text

-- The text of every timestamp names its age in the largest unit that fits, rounded down.
relative_time-IsAge :
    (ts : Timestamp) (now_ms : ℕ) → IsAge (elapsed_ms ts now_ms) (relative_time (some ts) now_ms)
unfolding relative_time
relative_time-IsAge ts now_ms =
    let age = elapsed_ms ts now_ms in
    elim (Bool-cases (ltb age 60000)) [
      | inl h ↦ rw h (fresh (ltb→lt _ _ h) refl)
      | inr a ↦ elim (Bool-cases (ltb age 3600000)) [
        | inl h ↦
            rw (a, h)
              (minutes (age / 60000, refl, ground arith, ground arith, omega arith, omega arith))
        | inr b ↦ elim (Bool-cases (ltb age 86400000)) [
          | inl h ↦
              rw (a, b, h)
                (hours (age / 3600000, refl, ground arith, ground arith, omega arith, omega arith))
          | inr c ↦
              rw (a, b, c) (days (age / 86400000) refl (ground arith) (omega arith) (omega arith))
        ]
      ]
    ]
