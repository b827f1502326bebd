-- ===== src/Syscall/Sleep.antt =====
-- `sys_sleep` of kernel/syscall.c behind the SYSCALL instruction, which clears the flags of the mask
-- register and so the interrupt flag; `syscall_entry` does not set it again.
use f_rat_os.Base.{
  Bool, Bool-cases, add64, ap, arith, false, if◌then◌else◌, inl, inr, ltb, none, not, refl, some,
  true, ℕ, ◌%◌, ◌&&◌, ◌+◌, ◌/◌, ◌<◌, ◌==◌, ◌^◌, ◌||◌, ◌∙◌, ◌≡◌, ◌≢◌, ◌≤◌,
}
use f_rat_os.Scheduler.{Sched}
use f_rat_os.Timer.{Callback, Timer, get_milliseconds, halt_while, sleep}
use f_rat_os.Timer.Halt.{halt_while-masked}
use f_rat_os.Syscall.{
  Kernel, Registers, count_call, run_handler, sys_sleep, syscall_entry, syscall_handler,
  syscall_init, syscall_table,
}

-- What the SYSCALL instruction makes of the interrupt flag: bit 9 of MSR_SFMASK clears it. The other
-- registers that `syscall_entry` passes on stay.
abbrev pub after_syscall : Kernel → Registers → Registers
after_syscall k r = record r {
  interrupts = r.interrupts && not (k.msr 0xC0000084 / 2 ^ 9 % 2 == 1);
}

syscall_init-masks :
    (entry : ℕ) (k : Kernel) (r : Registers)
    → (after_syscall (syscall_init entry k) r).interrupts ≡ false
unfolding syscall_init
syscall_init-masks entry k r = elim (Bool-cases r.interrupts) [
  | inl e ↦ rw e refl
  | inr e ↦ rw e refl
]

sleep-masked :
    (call : Callback) (fuel ms : ℕ) (t : Timer) (s : Sched)
    → t.initialized ≡ true
    → t.frequency ≢ 0
    → get_milliseconds t + ms < 2 ^ 64
    → 1 ≤ ms
    → sleep call false fuel ms (t, s) ≡ none
unfolding sleep
sleep-masked call fuel ms t s on ticking room some_ms =
    let waits = λ (x : Timer). ltb (get_milliseconds x) (add64 (get_milliseconds t) ms) in
    let early : waits t ≡ true = ground arith in
    ap
      (λ (b : Bool).
        if b then some (t, s) else halt_while call false waits s.current_thread fuel (t, s))
      starts
    ∙ halt_while-masked call waits s.current_thread t s early fuel
  where
    starts : (not t.initialized || t.frequency == 0) ≡ false
    starts = ground arith

sys_sleep-none :
    (call : Callback) (fuel ms : ℕ) (k : Kernel)
    → k.timer.initialized ≡ true
    → k.timer.frequency ≢ 0
    → get_milliseconds k.timer + 2 ^ 32 < 2 ^ 64
    → 1 ≤ ms % 2 ^ 32
    → sys_sleep call false fuel ms k ≡ none
unfolding sys_sleep
sys_sleep-none call fuel ms k on ticking room some_ms =
    rw
      (
        sys_sleep,
        sleep-masked call fuel (ms % 2 ^ 32) k.timer k.system.sched on ticking (omega arith)
            some_ms,
      )
      refl

dispatch-sleep :
    (call : Callback) (interrupts : Bool) (fuel ms b c : ℕ) (k : Kernel)
    → k.initialized ≡ true
    → syscall_handler call interrupts fuel 10 ms b c k
      ≡ sys_sleep call interrupts fuel ms
          (count_call 10 (record k { total_syscalls = add64 k.total_syscalls 1 }))
unfolding syscall_handler syscall_table run_handler
dispatch-sleep call interrupts fuel ms b c k on = cc

-- The moves of `syscall_entry` bring each argument to its place.
entry_calls :
    (call : Callback) (fuel : ℕ) (r : Registers) (k : Kernel)
    → syscall_entry call fuel r k ≡ syscall_handler call r.interrupts fuel r.rax r.rdi r.rsi r.rdx k
unfolding syscall_entry
entry_calls call fuel r k = refl

-- Once `syscall_init` has run, with a timer that runs and has not come near 2 ^ 64 ms: a user program
-- that executes SYSCALL for `sleep`, for a millisecond or more on 32 bits, never comes back, however
-- many rounds its loop is given: it halts for the timer's interrupt with interrupts off.
pub syscall_entry-sleep :
    (call : Callback) (entry : ℕ) (r : Registers) (k : Kernel)
    → k.timer.initialized ≡ true
    → k.timer.frequency ≢ 0
    → get_milliseconds k.timer + 2 ^ 32 < 2 ^ 64
    → r.rax ≡ 10
    → 1 ≤ r.rdi % 2 ^ 32
    → (fuel : ℕ)
    → syscall_entry call fuel (after_syscall (syscall_init entry k) r) (syscall_init entry k) ≡ none
unfolding syscall_init
syscall_entry-sleep call entry r k on ticking room is_sleep some_ms fuel =
    let ready_now = syscall_init entry k in
    let masked = after_syscall ready_now r in
    entry_calls call fuel masked ready_now
    ∙ ap (λ n. syscall_handler call masked.interrupts fuel n r.rdi r.rsi r.rdx ready_now) is_sleep
    ∙ ap (λ i. syscall_handler call i fuel 10 r.rdi r.rsi r.rdx ready_now)
        (syscall_init-masks entry k r)
    ∙ dispatch-sleep call false fuel r.rdi r.rsi r.rdx ready_now refl
    ∙ sys_sleep-none call fuel r.rdi
        (count_call 10 (record ready_now { total_syscalls = add64 ready_now.total_syscalls 1 })) on
        ticking room some_ms
