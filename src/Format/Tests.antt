-- ===== src/Format/Tests.antt =====
-- The cases of ui/src/lib/format.test.ts, and the theorems at such inputs.
use byom.Prelude.{ℕ, ◌≡◌, refl, codes, decimal, pad_start, read_fields, List, [], ◌∷◌, some, none}
use byom.Proto.Library.{Duration, AlbumType}
use byom.Proto.Management.{Timestamp}
use byom.Format.{
  rounded_seconds, format_track_duration, format_duration, sum_durations, album_type_label,
  album_flags, relative_time,
}
use byom.Format.Clock.{IsClock, format_duration-IsClock}

program : Unit {0}
unfolding decimal pad_start read_fields rounded_seconds format_track_duration format_duration
    sum_durations album_type_label album_flags relative_time
program = tt

abbrev long : Duration
long = record { seconds = 3963; nanos = 0 }

abbrev half : Duration
half = record { seconds = 0; nanos = 600000000 }

duration_tests :
    (format_track_duration (some (record { seconds = 251; nanos = 0 })) ≡ codes "4:11")
    × (format_track_duration (some (record { seconds = 9; nanos = 0 })) ≡ codes "0:09")
    × (format_track_duration none ≡ codes "--:--")
    × (format_duration (some (record { seconds = 2842; nanos = 0 })) ≡ codes "47:22")
    × (format_duration (some long) ≡ codes "1:06:03")
    × (sum_durations (some half ∷ none ∷ some half ∷ [])
        ≡ record { seconds = 1; nanos = 200000000 })
unfolding program
duration_tests = (refl, refl, refl, refl, refl, refl)

-- 2026-08-23T12:00:00Z in milliseconds, and a timestamp three hours before.
abbrev now : ℕ
now = 1787486400000

abbrev three_hours_ago : Timestamp
three_hours_ago = record { seconds = 1787475600; nanos = 0 }

age_tests :
    (relative_time (some three_hours_ago) now ≡ codes "3h ago")
    × (relative_time (some (record { seconds = 1787313600; nanos = 0 })) now ≡ codes "2d ago")
    × (relative_time (some (record { seconds = 1787486370; nanos = 0 })) now ≡ codes "just now")
    × (relative_time none now ≡ codes "never")
unfolding program
age_tests = (refl, refl, refl, refl)

label_tests :
    (album_type_label AlbumType.main ≡ codes "ALBUM")
    × (album_type_label AlbumType.unspecified ≡ [])
unfolding program
label_tests = (refl, refl)

format_duration-IsClock_example :
    (fields : List ℕ) × (read_fields 0 (format_duration (some long)) ≡ some fields)
    × IsClock (rounded_seconds long) fields
format_duration-IsClock_example = format_duration-IsClock long
