-- ===== src/Timer.antt =====
-- kernel/timer.c and kernel/timer.h: the PIT driver. Messages are left out. The callback is an
-- address, and what runs there is a parameter; `hlt` comes back after a timer interrupt, if the
-- interrupt flag is on.
pub mod Divisor
pub mod Halt
pub mod Sleep
pub mod Wait
mod Tests
use f_rat_os.Base.{
  Bool, Option, add64, bit_or, if◌then◌else◌, ltb, mul64, none, not, some, suc, true, zero, ℕ, ◌%◌,
  ◌&&◌, ◌/◌, ◌==◌, ◌||◌,
}
use f_rat_os.Scheduler.{Sched, tick}
use f_rat_os.Io.{Io, outb, pure, ◌>>=◌, ◌>>◌}

-- `timer_state`
pub record Timer : Type 0 where
  pub ticks : ℕ
  pub frequency : ℕ
  pub initialized : Bool
  pub callback : ℕ

-- PIT_BASE_FREQUENCY, PIT_COMMAND and PIT_CHANNEL0
abbrev pub pit_base_frequency : ℕ
pit_base_frequency = 1193182

abbrev pub pit_command : ℕ
pit_command = 67

abbrev pub pit_channel0 : ℕ
pit_channel0 = 64

-- PIT_CHANNEL0_SELECT | PIT_ACCESS_LOHI | PIT_MODE_3 | PIT_BINARY_MODE
abbrev pub pit_command_byte : ℕ
pit_command_byte = bit_or (bit_or (bit_or 0 48) 6) 0

-- The divisor of `timer_set_frequency`, clamped to 1 and 65535.
unfoldable pub divisor_of : ℕ → ℕ
divisor_of frequency =
    let divisor = pit_base_frequency / frequency in
    let raised = if ltb divisor 1 then 1 else divisor in if ltb 65535 raised then 65535 else raised

-- `x & 0xFF` keeps the low byte and `x >> 8` divides by 256.
unfoldable pub set_frequency : ℕ → Timer → Io Timer
set_frequency frequency t =
    if frequency == 0 || ltb pit_base_frequency frequency then pure t else do
      outb pit_command pit_command_byte
      outb pit_channel0 (divisor_of frequency % 256)
      outb pit_channel0 (divisor_of frequency / 256 % 256)
      pure (record t { frequency = frequency })

abbrev pub get_frequency : Timer → ℕ
get_frequency t = t.frequency

abbrev pub get_ticks : Timer → ℕ
get_ticks t = t.ticks

unfoldable pub get_milliseconds : Timer → ℕ
get_milliseconds t = if t.frequency == 0 then 0 else mul64 t.ticks 1000 / t.frequency

unfoldable pub get_seconds : Timer → ℕ
get_seconds t = if t.frequency == 0 then 0 else t.ticks / t.frequency

-- `timer_irq_handler`, with the scheduler and what the callback does to both.
unfoldable pub irq_handler : (ℕ → Timer × Sched → Timer × Sched) → Timer × Sched → Timer × Sched
irq_handler call (t, s) =
    if not t.initialized
    then (t, s)
    else let counted : Timer × Sched = (record t { ticks = add64 t.ticks 1 }, tick s) in
      if t.callback == 0 then counted else call t.callback counted

unfoldable pub register_callback : ℕ → Timer → Timer
register_callback callback t = record t { callback = callback }

-- What runs at the callback's address
abbrev pub Callback : Type 0
Callback = ℕ → Timer × Sched → Timer × Sched

-- The thread `me` has the processor and its loop has nothing to wait for.
abbrev pub awake : (waits : Timer → Bool) (me : ℕ) → Timer × Sched → Bool
awake waits me (t, s) = (s.current_thread == me) && not (waits t)

-- The loop `while (waits) hlt` of `timer_sleep` and `timer_wait_ticks`, in the thread `me`. One unit
-- of fuel is a timer interrupt: the one that ends the `hlt` of `me`, or, once the scheduler has
-- switched to another thread, one that ends a stretch of that thread, which only computes. `me`
-- looks at the clock only while it has the processor. With the interrupt flag off no `hlt` ends,
-- and nothing changes. `none` is still waiting.
unfoldable pub halt_while :
    Callback
    → (interrupts : Bool) (waits : Timer → Bool) (me fuel : ℕ) → Timer × Sched
    → Option (Timer × Sched)
halt_while call interrupts waits me zero (t, s) =
    if awake waits me (t, s) then some (t, s) else none
halt_while call interrupts waits me (suc fuel) (t, s) =
    let later = if interrupts then irq_handler call (t, s) else (t, s) in
    let rest = halt_while call interrupts waits me fuel later in
    if awake waits me (t, s) then some (t, s) else rest

unfoldable pub wait_ticks :
    Callback → (interrupts : Bool) (fuel count : ℕ) → Timer × Sched → Option (Timer × Sched)
wait_ticks call interrupts fuel count (t, s) =
    let target = add64 t.ticks count in
    if not t.initialized
    then some (t, s)
    else halt_while call interrupts (λ t'. ltb t'.ticks target) s.current_thread fuel (t, s)

unfoldable pub sleep :
    Callback → (interrupts : Bool) (fuel milliseconds : ℕ) → Timer × Sched → Option (Timer × Sched)
sleep call interrupts fuel milliseconds (t, s) =
    let target = add64 (get_milliseconds t) milliseconds in
    if not t.initialized || t.frequency == 0
    then some (t, s)
    else halt_while call interrupts (λ t'. ltb (get_milliseconds t') target) s.current_thread fuel
        (t, s)

-- `timer_init`; 0 asks for TIMER_FREQ_1000HZ.
unfoldable pub init : ℕ → Timer → Io Timer
init frequency t = do
  t' ←
      set_frequency (if frequency == 0 then 1000 else frequency)
        (record t { ticks = 0; frequency = 0; callback = 0 })
  pure (record t' { initialized = true })
