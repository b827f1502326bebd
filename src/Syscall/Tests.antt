-- ===== src/Syscall/Tests.antt =====
-- System calls at a concrete kernel.
use f_rat_os.Base.{[], arith, false, inl, none, refl, some, true, ◌∷◌, ◌≡◌}
use f_rat_os.Timer.{get_milliseconds}
use f_rat_os.Syscall.{Registers, returned, syscall_entry, syscall_handler, syscall_init}
use f_rat_os.Syscall.Sample.{kernel}
use f_rat_os.Syscall.Sleep.{after_syscall, syscall_entry-sleep}
use f_rat_os.Task.{update}
use f_rat_os.Console.{print, print_chars, putchar, putchar_at, vga_entry}
use f_rat_os.Syscall.Write.{syscall_handler-write, text_at}

prints_two :
    (text_at kernel.memory 0x5000 3 ≡ 72 ∷ 105 ∷ [])
    × ((print_chars (72 ∷ 105 ∷ []) kernel.console).cell 1 ≡ 0x769)
unfolding print_chars putchar putchar_at vga_entry
prints_two = (refl, refl)

star_selects : (syscall_init 0x100000 kernel).msr 0xC0000081 ≡ 0x0018_0008_0000_0000
unfolding syscall_init
star_selects = refl

syscall_handler-write_example :
    syscall_handler (λ c x. x) false 20 1 1 0x5000 3 kernel
    ≡ some (
        returned 3 (record kernel {
          total_syscalls = 1;
          syscall_counts = update (λ n. 0) 1 1;
          console = print (some (text_at kernel.memory 0x5000 3)) kernel.console;
        }))
syscall_handler-write_example =
    syscall_handler-write (λ c x. x) false 20 1 0x5000 3 kernel refl (inl refl) (omega arith)

-- A program that asks for 5 ms of sleep
abbrev asks : Registers
asks = record {
  rax = 10;
  rdi = 5;
  rsi = 0;
  rdx = 0;
  rcx = 0x401000;
  r10 = 0;
  r8 = 0;
  r9 = 0;
  interrupts = true;
}

syscall_entry-sleep_example :
    syscall_entry
      (λ c x. x)
      20
      (after_syscall (syscall_init 0x100000 kernel) asks)
      (syscall_init 0x100000 kernel)
    ≡ none
unfolding get_milliseconds
syscall_entry-sleep_example =
    syscall_entry-sleep (λ c x. x) 0x100000 asks kernel refl (omega arith) (omega arith) refl
      (omega arith) 20
