-- ===== src/Idt/Tests.antt =====
-- The interrupt table from memory that holds zeros, and a general protection fault.
use f_rat_os.Base.{[], arith, some, ℕ, ◌%◌, ◌*◌, ◌+◌, ◌∷◌, ◌≡◌}
use f_rat_os.Io.{World}
use f_rat_os.Console.{Console}
use f_rat_os.Console.Screen.{IsValid, OnScreen}
use f_rat_os.Syscall.Sample.{kernel}
use f_rat_os.Idt.{Idt, IdtEntry}
use f_rat_os.Idt.Exceptions.{InterruptFrame, exception_handler, exception_handler-OnScreen}

abbrev no_gate : IdtEntry
no_gate = record {
  offset_low = 0;
  selector = 0;
  ist = 0;
  type_attr = 0;
  offset_mid = 0;
  offset_high = 0;
  reserved = 0;
}

abbrev at_boot : Idt
at_boot = record {
  idt = λ v. no_gate;
  idt_ptr = record { limit = 0; base = 0 };
  idtr = record { limit = 0; base = 0 };
}

abbrev stub : ℕ → ℕ
stub n = 0xFFFF_8000_0010_0000 + n % 256 * 16

abbrev ports : World
ports = record { reads = (0x21, 0xB8) ∷ (0xA1, 0x8E) ∷ []; writes = []; printed = [] }

abbrev fault : InterruptFrame
fault = record {
  r15 = 0;
  r14 = 0;
  r13 = 0;
  r12 = 0;
  r11 = 0;
  r10 = 0;
  r9 = 0;
  r8 = 0;
  rbp = 0;
  rdi = 0;
  rsi = 0;
  rdx = 0;
  rcx = 0;
  rbx = 0;
  rax = 0;
  int_no = 13;
  error_code = 0x10;
  rip = 0x101234;
  cs = 0x08;
  rflags = 0x202;
  rsp = 0x90000;
  ss = 0x10;
}

abbrev screen : Console
screen = kernel.console

screen-IsValid : IsValid screen
screen-IsValid = omega arith

exception_handler-OnScreen_example :
    (d : Console) × (exception_handler 20 fault screen ≡ some d) × OnScreen screen d
exception_handler-OnScreen_example =
    exception_handler-OnScreen 20 fault screen (omega arith) (omega arith) screen-IsValid
