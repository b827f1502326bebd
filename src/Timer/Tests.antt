-- ===== src/Timer/Tests.antt =====
-- The timer driver on a concrete state.
use f_rat_os.Base.{[], arith, some, true, ℕ, ◌*◌, ◌+◌, ◌/◌, ◌<◌, ◌∷◌, ◌≡◌, ◌≤◌, ◌⊎◌}
use f_rat_os.Timer.{Timer, set_frequency}
use f_rat_os.Timer.Divisor.{set_frequency-writes}
use f_rat_os.Scheduler.Turns.{ticks}
use f_rat_os.Io.{World}

abbrev idle : Timer
idle = record { ticks = 5; frequency = 1000; initialized = true; callback = 0 }

abbrev quiet : World
quiet = record { reads = []; writes = []; printed = [] }

set_frequency-writes_example :
    (d : ℕ) × (lo : ℕ) × (hi : ℕ) × (set_frequency 1000 idle quiet
      ≡ some (
        record idle { frequency = 1000 },
        record quiet { writes = (67, 54) ∷ (64, lo) ∷ (64, hi) ∷ [] },
      ))
    × (d ≡ lo + 256 * hi)
    × (lo < 256)
    × (hi < 256)
    × (1 ≤ d)
    × (((1193182 / 1000 ≤ 65535) × (d ≡ 1193182 / 1000)) ⊎ ((65535 < 1193182 / 1000) × (d ≡ 65535)))
set_frequency-writes_example = set_frequency-writes 1000 idle quiet (omega arith) (omega arith)
