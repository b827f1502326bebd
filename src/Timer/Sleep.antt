-- ===== src/Timer/Sleep.antt =====
-- `timer_sleep` of kernel/timer.c: how long it sleeps.
use f_rat_os.Base.{arith, ◌*◌, ◌/◌, ◌<◌, ◌^◌, ◌≡◌}
use f_rat_os.Scheduler.Turns.{ticks}
use f_rat_os.Timer.{Timer, get_milliseconds}

pub milliseconds_lem :
    (t : Timer)
    → 0 < t.frequency
    → t.ticks * 1000 < 2 ^ 64
    → get_milliseconds t ≡ t.ticks * 1000 / t.frequency
unfolding get_milliseconds
milliseconds_lem t f room = ground arith
