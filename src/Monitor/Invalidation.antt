-- ===== src/Monitor/Invalidation.antt =====
-- When the monitor of ui/src/lib/rpc/scan-monitor.ts takes the library to have changed, in any order
-- of events.
use byom.Prelude.{ℕ, ◌≡◌, false, List, some, is_empty}
use byom.Proto.Management.{Scan}
use byom.Monitor.{Monitor}

-- The monitor shows scans, and so it did when each of the waiting polls began.
abbrev pub IsBusy : Monitor → Type 0
IsBusy m =
    (is_empty m.running ≡ false)
    × ((id : ℕ) (previous : List Scan) → m.polls id ≡ some previous → is_empty previous ≡ false)

-- Such a monitor, with a number of invalidations.
abbrev Keeps : ℕ → Monitor → Type 0
Keeps n m = (m.invalidations ≡ n) × IsBusy m
