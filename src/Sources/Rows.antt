-- ===== src/Sources/Rows.antt =====
-- What a scan's panel and rows say: ui/src/features/management/ScanPanel.tsx and ScanIndicator.tsx.
use byom.Prelude.{
  ℕ, ◌-◌, ◌/◌, ◌%◌, ◌≡◌, ◌∙◌, ap, decimal, pad_start, read_fields, read_fields_field,
  read_fields_last, [], ◌∷◌, some,
}
use byom.Proto.Management.{Scan, Timestamp}
use byom.Sources.{elapsed}
use mathlib.Core.Option

-- The elapsed time of a scan that has a start time reads back as the minutes, and the seconds below
-- sixty, of the whole seconds since its start, zero where the start is in the future.
elapsed-read :
    (s : Scan) (t : Timestamp) (now_ms : ℕ)
    → s.start_time ≡ some t
    → let seconds = now_ms / 1000 - t.seconds in
      read_fields 0 (elapsed s now_ms) ≡ some (seconds / 60 ∷ seconds % 60 ∷ [])
unfolding elapsed
elapsed-read s t now_ms started =
    let seconds = now_ms / 1000 - t.seconds in
    rw started (
      read_fields_field (seconds / 60) (pad_start 2 (decimal (seconds % 60)))
      ∙ ap (Option.map (◌∷◌ (seconds / 60))) (read_fields_last (seconds % 60)))
