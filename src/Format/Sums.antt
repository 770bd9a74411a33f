-- ===== src/Format/Sums.antt =====
-- The total of a list of durations: `sumDurations` of ui/src/lib/format.ts.
use byom.Prelude.{ℕ, ◌+◌, ◌*◌, ◌<◌, ◌≡◌, List, [], ◌∷◌, Option, none, some, arith}
use byom.Proto.Library.{Duration}
use byom.Format.{nanos_per_second, total_nanos, sum_from, sum_durations}

-- The length in nanoseconds of a list of durations, absent ones counted as nothing.
abbrev pub list_nanos : List (Option Duration) → ℕ
list_nanos [] = 0
list_nanos (d ∷ ds) = total_nanos d + list_nanos ds

sum_from-total_nanos :
    (s n : ℕ) (ds : List (Option Duration))
    → (total_nanos (some (sum_from s n ds)) ≡ s * nanos_per_second + n + list_nanos ds)
      × ((sum_from s n ds).nanos < nanos_per_second)
unfolding sum_from
sum_from-total_nanos s n [] = omega arith
sum_from-total_nanos s n (none ∷ ds) = omega (arith, sum_from-total_nanos s n ds)
sum_from-total_nanos s n (some d ∷ ds) =
    omega (arith, sum_from-total_nanos (s + d.seconds) (n + d.nanos) ds)

-- The sum keeps every nanosecond of the list, and carries whole seconds out of the nanoseconds.
sum_durations-total_nanos :
    (ds : List (Option Duration))
    → (total_nanos (some (sum_durations ds)) ≡ list_nanos ds)
      × ((sum_durations ds).nanos < nanos_per_second)
unfolding sum_durations
sum_durations-total_nanos ds = omega (arith, sum_from-total_nanos 0 0 ds)
