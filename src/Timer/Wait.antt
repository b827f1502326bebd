-- ===== src/Timer/Wait.antt =====
-- `timer_wait_ticks` of kernel/timer.c: how long it waits.
use f_rat_os.Timer.{Timer}
