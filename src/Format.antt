-- ===== src/Format.antt =====
-- Text for the library's views: ui/src/lib/format.ts.
pub mod Clock
pub mod Ages
pub mod Sums
mod Tests
use byom.Prelude.{
  ℕ, ◌+◌, ◌-◌, ◌*◌, ◌/◌, ◌%◌, Text, codes, decimal, pad_start, Bool, List, [], ◌∷◌, ◌++◌, Option,
  none, some, ltb, ◌==◌, if◌then◌else◌,
}
use byom.Proto.Library.{Duration, AlbumType, Album}
use byom.Proto.Management.{Timestamp}

abbrev pub nanos_per_second : ℕ
nanos_per_second = 1000000000

-- `totalSeconds` returns a float; here it is the exact number of nanoseconds, which the two
-- formatters round to seconds.
abbrev pub total_nanos : Option Duration → ℕ
total_nanos none = 0
total_nanos (some d) = d.seconds * nanos_per_second + d.nanos

-- `Math.round(totalSeconds(d))`: to the nearest second, halves up.
unfoldable pub rounded_seconds : Duration → ℕ
rounded_seconds d = (total_nanos (some d) + 500000000) / nanos_per_second

unfoldable pub format_track_duration : Option Duration → Text
format_track_duration none = codes "--:--"
format_track_duration (some d) =
    let total = rounded_seconds d in
    decimal (total / 60) ++ b':' ∷ pad_start 2 (decimal (total % 60))

unfoldable pub format_duration : Option Duration → Text
format_duration none = codes "--:--"
format_duration (some d) =
    let total = rounded_seconds d in
    let hours = total / 3600 in
    let minutes = total % 3600 / 60 in
    let seconds = pad_start 2 (decimal (total % 60)) in
    if hours == 0
    then decimal minutes ++ b':' ∷ seconds
    else decimal hours ++ b':' ∷ (pad_start 2 (decimal minutes) ++ b':' ∷ seconds)

-- The loop of `sumDurations`, over its two accumulators.
sum_from : ℕ → ℕ → List (Option Duration) → Duration
sum_from seconds nanos [] = record {
  seconds = seconds + nanos / nanos_per_second;
  nanos = nanos % nanos_per_second;
}
sum_from seconds nanos (none ∷ ds) = sum_from seconds nanos ds
sum_from seconds nanos (some d ∷ ds) = sum_from (seconds + d.seconds) (nanos + d.nanos) ds

unfoldable pub sum_durations : List (Option Duration) → Duration
unfolding sum_from
sum_durations ds = sum_from 0 0 ds

-- `ALBUM_TYPE_LABELS[t] ?? ''`.
unfoldable pub album_type_label : AlbumType → Text
album_type_label AlbumType.unspecified = []
album_type_label AlbumType.main = codes "ALBUM"
album_type_label AlbumType.single = codes "SINGLE"
album_type_label AlbumType.ep = codes "EP"
album_type_label AlbumType.other = codes "OTHER"
album_type_label (AlbumType.unrecognized n) = []

push_if : Bool → Text → List Text → List Text
push_if b flag flags = if b then flags ++ flag ∷ [] else flags

unfoldable pub album_flags : Album → List Text
unfolding push_if
album_flags a =
    push_if a.compilation (codes "COMPILATION")
      (push_if a.bootleg (codes "BOOTLEG") (push_if a.live (codes "LIVE") []))

-- Milliseconds from a timestamp to `now_ms`. A timestamp in the future gives 0 where the source
-- has a negative number: both are below every threshold.
abbrev pub elapsed_ms : Timestamp → ℕ → ℕ
elapsed_ms ts now_ms = now_ms - ts.seconds * 1000

unfoldable pub relative_time : Option Timestamp → ℕ → Text
relative_time none now_ms = codes "never"
relative_time (some ts) now_ms =
    let elapsed = elapsed_ms ts now_ms in
    if ltb elapsed 60000
    then codes "just now"
    else if ltb elapsed 3600000
    then decimal (elapsed / 60000) ++ codes "m ago"
    else if ltb elapsed 86400000
    then decimal (elapsed / 3600000) ++ codes "h ago"
    else decimal (elapsed / 86400000) ++ codes "d ago"
