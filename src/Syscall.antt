-- ===== src/Syscall.antt =====
-- kernel/syscall.c and kernel/syscall.h: the system calls, over the processes, the timer and the
-- console. A result is a word of 64 bits, so an error -e is 2 ^ 64 - e. `interrupts` is the
-- processor's interrupt flag at the call. The bytes that a user's pointer reaches are a store by
-- address, which has every address and is apart from the screen: a pointer that faults, or into the
-- screen, is not modelled. Fuel is for the loops of the parts.
pub mod Write
pub mod Sleep
pub mod Sample
mod Tests
use f_rat_os.Base.{
  Bool, Option, [], add64, bit_or, if◌then◌else◌, leb, ltb, none, not, some, true, ℕ, ◌%◌, ◌&&◌,
  ◌*◌, ◌+◌, ◌-◌, ◌/◌, ◌==◌, ◌^◌, ◌∷◌,
}
use f_rat_os.Scheduler.{yield_cpu}
use f_rat_os.Timer.{Callback, Timer, sleep}
use f_rat_os.Base.Loops.{count_up}
use f_rat_os.Task.{update}
use f_rat_os.Console.{Console, print_chars, print_dec, print_text}
use f_rat_os.Process.{System, get_current}
use f_rat_os.Process.Create.{process_exit}
use Prim.Native.String.{String}

-- Errors that the calls return
abbrev pub einval : ℕ
einval = 2 ^ 64 - 1

abbrev pub enosys : ℕ
enosys = 2 ^ 64 - 2

abbrev pub ebadf : ℕ
ebadf = 2 ^ 64 - 3

-- SYSCALL_MAX
abbrev pub syscall_max : ℕ
syscall_max = 15

-- STDIN_FILENO, STDOUT_FILENO and STDERR_FILENO
abbrev pub stdin_fileno : ℕ
stdin_fileno = 0

abbrev pub stdout_fileno : ℕ
stdout_fileno = 1

abbrev pub stderr_fileno : ℕ
stderr_fileno = 2

-- `syscall_state` and what the calls reach; `msr` has the model specific registers.
pub record Kernel : Type 0 where
  pub total_syscalls : ℕ
  pub syscall_counts : ℕ → ℕ
  pub initialized : Bool
  pub system : System
  pub timer : Timer
  pub console : Console
  pub memory : ℕ → ℕ
  pub msr : ℕ → ℕ

-- How a call ends: with a result, or in the loop that halts the processor.
pub data Outcome : Type 0 where
  returned : (result : ℕ) → Kernel → Outcome
  halted : Kernel → Outcome

abbrev pub wrmsr : (msr value : ℕ) → Kernel → Kernel
wrmsr msr value k = record k {
  msr = update k.msr msr (value % 2 ^ 32 + value / 2 ^ 32 % 2 ^ 32 * 2 ^ 32);
}

abbrev pub on_console : (Console → Console) → Kernel → Kernel
on_console f k = record k { console = f k.console }

-- `(uint64_t)(int)status`
abbrev pub sign_extend : ℕ → ℕ
sign_extend status =
    let low = status % 2 ^ 32 in if ltb low (2 ^ 31) then low else low + 2 ^ 64 - 2 ^ 32

unfoldable pub sys_exit : (fuel status : ℕ) → Kernel → Option Outcome
sys_exit fuel status k =
    let begun = print_text "[SYSCALL] exit(" k.console in
    elim (print_dec fuel (sign_extend status) begun) [
      | none ↦ none
      | some shown ↦ elim (process_exit fuel (status % 2 ^ 32) k.system) [
        | none ↦ none
        | some system ↦
            some (halted (record k { system = system; console = print_text ")\n" shown }))
      ]
    ]

-- One round of the loop of `sys_write`: a string of one character, which is empty if that is NUL.
abbrev pub write_char : (buf i : ℕ) → Kernel → Kernel
write_char buf i k =
    let ch = k.memory (add64 buf i) in on_console (print_chars (if ch == 0 then [] else ch ∷ [])) k

unfoldable pub sys_write : (fd buf count : ℕ) → Kernel → Option Outcome
sys_write fd buf count k =
    if not (fd == stdout_fileno) && not (fd == stderr_fileno)
    then some (returned ebadf k)
    else if buf == 0
    then some (returned einval k)
    else some (returned count (count_up (write_char buf) count 0 k))

unfoldable pub sys_read : (fd buf count : ℕ) → Kernel → Option Outcome
sys_read fd buf count k =
    if not (fd == stdin_fileno)
    then some (returned ebadf k)
    else if buf == 0
    then some (returned einval k)
    else some (returned enosys k)

unfoldable pub sys_getpid : Kernel → Option Outcome
sys_getpid k =
    let p = get_current k.system in
    if p == 0 then some (returned (2 ^ 64 - 1) k) else some (returned (k.system.process p).pid k)

unfoldable pub sys_yield : Kernel → Option Outcome
sys_yield k =
    some (returned 0 (record k { system = record (k.system) { sched = yield_cpu k.system.sched } }))

unfoldable pub sys_sleep :
    Callback → (interrupts : Bool) (fuel milliseconds : ℕ) → Kernel → Option Outcome
sys_sleep call interrupts fuel milliseconds k =
    let ms = milliseconds % 2 ^ 32 in
    elim (sleep call interrupts fuel ms (k.timer, k.system.sched)) [
      | none ↦ none
      | some (t, s) ↦
          some (returned 0 (record k { timer = t; system = record (k.system) { sched = s } }))
    ]

unfoldable pub sys_unimplemented : Kernel → Option Outcome
sys_unimplemented k =
    some (returned enosys (on_console (print_text "[SYSCALL] ERROR: Unimplemented syscall\n") k))

-- `syscall_table`; `none` is a NULL entry.
pub data Handler : Type 0 where
  exit write read getpid suspend yield unimplemented : Handler

unfoldable pub syscall_table : ℕ → Option Handler
syscall_table n =
    if n == 0
    then some Handler.exit
    else if n == 1
    then some Handler.write
    else if n == 2
    then some Handler.read
    else if n == 5
    then some Handler.getpid
    else if n == 10
    then some Handler.suspend
    else if n == 11
    then some Handler.yield
    else if leb n syscall_max
    then some Handler.unimplemented
    else none

unfoldable pub run_handler :
    Callback
    → (interrupts : Bool) → (fuel : ℕ) → Handler
    → (arg1 arg2 arg3 : ℕ) → Kernel
    → Option Outcome
run_handler call interrupts fuel Handler.exit a b c k = sys_exit fuel a k
run_handler call interrupts fuel Handler.write a b c k = sys_write a b c k
run_handler call interrupts fuel Handler.read a b c k = sys_read a b c k
run_handler call interrupts fuel Handler.getpid a b c k = sys_getpid k
run_handler call interrupts fuel Handler.suspend a b c k = sys_sleep call interrupts fuel a k
run_handler call interrupts fuel Handler.yield a b c k = sys_yield k
run_handler call interrupts fuel Handler.unimplemented a b c k = sys_unimplemented k

-- The counters of `syscall_handler`
abbrev pub count_call : (num : ℕ) → Kernel → Kernel
count_call num k = record k {
  syscall_counts = update k.syscall_counts num (add64 (k.syscall_counts num) 1);
}

-- No handler reads the arguments from the fourth on.
unfoldable pub syscall_handler :
    Callback → (interrupts : Bool) → (fuel num arg1 arg2 arg3 : ℕ) → Kernel → Option Outcome
syscall_handler call interrupts fuel num a b c k =
    let seen = record k { total_syscalls = add64 k.total_syscalls 1 } in
    let refused : Option Outcome =
      elim (print_dec fuel num
        (print_text "[SYSCALL] ERROR: Invalid syscall number: " seen.console)) [
          | none ↦ none
          | some shown ↦ some (returned einval (record seen { console = print_text "\n" shown }))
        ] in
    let counted = count_call num seen in
    let handled : Option Outcome = elim (syscall_table num) [
      | none ↦ some (returned enosys counted)
      | some h ↦ run_handler call interrupts fuel h a b c counted
    ] in
    if not k.initialized
    then some (returned enosys k)
    else if ltb syscall_max num
    then refused
    else handled

-- The registers at `syscall_entry`, and the interrupt flag
pub record Registers : Type 0 where
  pub rax : ℕ
  pub rdi : ℕ
  pub rsi : ℕ
  pub rdx : ℕ
  pub rcx : ℕ
  pub r10 : ℕ
  pub r8 : ℕ
  pub r9 : ℕ
  pub interrupts : Bool

-- `syscall_entry`: the moves from the registers of the program to those of a call, and the call. The
-- argument on the stack is one that no handler reads; of the way back the model has the result only.
unfoldable pub syscall_entry : Callback → (fuel : ℕ) → Registers → Kernel → Option Outcome
syscall_entry call fuel r k =
    let r1 = record r { r9 = r.r8 } in
    let r2 = record r1 { r8 = r1.r10 } in
    let r3 = record r2 { rcx = r2.rdx } in
    let r4 = record r3 { rdx = r3.rsi } in
    let r5 = record r4 { rsi = r4.rdi } in
    let r6 = record r5 { rdi = r5.rax } in
    syscall_handler call r6.interrupts fuel r6.rdi r6.rsi r6.rdx r6.rcx k

-- `syscall_init`, without its messages; `entry` is the address of `syscall_entry`.
unfoldable pub syscall_init : (entry : ℕ) → Kernel → Kernel
syscall_init entry k =
    let reset = record k {
      total_syscalls = 0;
      syscall_counts = λ n. if leb n syscall_max then 0 else k.syscall_counts n;
    } in
    let star = bit_or (0x08 * 2 ^ 32) (0x18 * 2 ^ 48) in
    let starred = wrmsr 0xC0000081 star reset in
    let entered = wrmsr 0xC0000082 entry starred in
    let masked = wrmsr 0xC0000084 0x200 entered in
    let efer = masked.msr 0xC0000080 in
    record (wrmsr 0xC0000080 (efer / 2 * 2 + 1) masked) { initialized = true }
