-- ===== src/Syscall/Sample.antt =====
-- A concrete kernel, for the tests: the text "Hi" with a NUL between lies at address 0x5000.
use f_rat_os.Base.{if◌then◌else◌, true, ◌==◌}
use f_rat_os.Console.{vga_memory}
use f_rat_os.Process.Sample.{system}
use f_rat_os.Syscall.{Kernel}

abbrev pub kernel : Kernel
kernel = record {
  total_syscalls = 0;
  syscall_counts = λ n. 0;
  initialized = true;
  system = system;
  timer = record { ticks = 5; frequency = 1000; initialized = true; callback = 0 };
  console = record {
    buffer = vga_memory;
    width = 80;
    height = 25;
    row = 0;
    col = 0;
    color = 7;
    is_vga = true;
    cell = λ i. 0;
  };
  memory = λ a. if a == 0x5000 then 72 else if a == 0x5002 then 105 else 0;
  msr = λ a. 0;
}
