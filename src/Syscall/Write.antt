-- ===== src/Syscall/Write.antt =====
-- `sys_write` of kernel/syscall.c against `console_print`.
use f_rat_os.Base.{
  Bool, List, [], add64, ap, arith, false, if◌then◌else◌, ne→==, not, refl, some, suc, true, zero,
  ℕ, ◌%◌, ◌&&◌, ◌+◌, ◌==◌, ◌^◌, ◌∙◌, ◌∷◌, ◌≡◌, ◌≢◌, ◌⊎◌,
}
use f_rat_os.Timer.{Callback}
use f_rat_os.Syscall.{
  Kernel, count_call, returned, run_handler, stderr_fileno, stdout_fileno, sys_write,
  syscall_handler, syscall_table, write_char,
}
use f_rat_os.Base.Loops.{count_up}
use f_rat_os.Task.{update}
use f_rat_os.Console.{Console, print, print_chars}

-- The bytes at `addr`, without those that are NUL.
abbrev pub text_at : (ℕ → ℕ) → (addr : ℕ) (count : ℕ) → List ℕ
text_at memory addr zero = []
text_at memory addr (suc n) =
    let rest = text_at memory (addr + 1) n in
    if memory (addr % 2 ^ 64) == 0 then rest else memory (addr % 2 ^ 64) ∷ rest

print-one :
    (b : Bool) (ch : ℕ) (str : List ℕ) (c : Console)
    → print_chars str (print_chars (if b then [] else ch ∷ []) c)
      ≡ print_chars (if b then str else ch ∷ str) c
unfolding print_chars
print-one true ch str c = refl
print-one false ch str c = refl

-- The loop writes the text to the console.
write_loop :
    (n i buf : ℕ) (k : Kernel)
    → count_up (write_char buf) n i k
      ≡ record k { console = print_chars (text_at k.memory (buf + i) n) k.console }
unfolding count_up
write_loop zero i buf k = unfold print_chars in refl
write_loop (suc n) i buf k =
    let ch = k.memory ((buf + i) % 2 ^ 64) in
    let place : buf + (i + 1) ≡ buf + i + 1 = omega arith in
    let str = text_at k.memory (buf + i + 1) n in
    write_loop n (i + 1) buf (write_char buf i k)
    ∙ ap
        (λ a. record k {
          console =
              print_chars (text_at k.memory a n)
                (print_chars (if ch == 0 then [] else ch ∷ []) k.console);
        })
        place
    ∙ ap (λ c. record k { console = c }) (print-one (ch == 0) ch str k.console)

sys_write-prints :
    (fd buf count : ℕ) (k : Kernel)
    → (fd ≡ stdout_fileno) ⊎ (fd ≡ stderr_fileno)
    → buf ≢ 0
    → sys_write fd buf count k
      ≡ some (
          returned count
            (record k { console = print_chars (text_at k.memory buf count) k.console }))
unfolding sys_write
sys_write-prints fd buf count k std some_buf =
    let place : buf + 0 ≡ buf = omega arith in
    let output : (not (fd == 1) && not (fd == 2)) ≡ false = ground arith in
    simp (output, ne→== buf 0 some_buf)
      (ap (λ d. some (returned count d))
        (write_loop count 0 buf k
          ∙ ap (λ a. record k { console = print_chars (text_at k.memory a count) k.console })
              place))

dispatch-write :
    (call : Callback) (interrupts : Bool) (fuel fd buf count : ℕ) (k : Kernel)
    → k.initialized ≡ true
    → syscall_handler call interrupts fuel 1 fd buf count k
      ≡ sys_write fd buf count
          (count_call 1 (record k { total_syscalls = add64 k.total_syscalls 1 }))
unfolding syscall_handler syscall_table run_handler
dispatch-write call interrupts fuel fd buf count k on = cc

-- `syscall_handler` of `write` to the standard output or error, of a buffer that is not NULL, once
-- `syscall_init` has run: it returns the count, its two counters go up, the console is as after one
-- `console_print` of the text at the buffer without its NULs, and nothing else has changed.
pub syscall_handler-write :
    (call : Callback) (interrupts : Bool) (fuel fd buf count : ℕ) (k : Kernel)
    → k.initialized ≡ true
    → (fd ≡ stdout_fileno) ⊎ (fd ≡ stderr_fileno)
    → buf ≢ 0
    → syscall_handler call interrupts fuel 1 fd buf count k
      ≡ some (
          returned count (record k {
            total_syscalls = add64 k.total_syscalls 1;
            syscall_counts = update k.syscall_counts 1 (add64 (k.syscall_counts 1) 1);
            console = print (some (text_at k.memory buf count)) k.console;
          }))
unfolding print
syscall_handler-write call interrupts fuel fd buf count k on std some_buf =
    dispatch-write call interrupts fuel fd buf count k on
    ∙ sys_write-prints fd buf count
        (count_call 1 (record k { total_syscalls = add64 k.total_syscalls 1 })) std some_buf
