-- ===== src/Scheduler/Sample.antt =====
-- A scheduler with three threads, for the tests.
use f_rat_os.Base.{if◌then◌else◌, true, ℕ, ◌==◌}
use f_rat_os.Task.{CpuContext, TaskState, Thread, ready, running}
use f_rat_os.Scheduler.{Sched, round_robin}

abbrev pub no_context : CpuContext
no_context = record {
  rax = 0;
  rbx = 0;
  rcx = 0;
  rdx = 0;
  rsi = 0;
  rdi = 0;
  rbp = 0;
  rsp = 0;
  r8 = 0;
  r9 = 0;
  r10 = 0;
  r11 = 0;
  r12 = 0;
  r13 = 0;
  r14 = 0;
  r15 = 0;
  rip = 0;
  rflags = 0;
  cs = 0;
  ss = 0;
  ds = 0;
  es = 0;
  fs = 0;
  gs = 0;
}

-- Threads at every address, with links that a queue of 16, 32 and no other has.
abbrev pub links_of : ℕ → ℕ × ℕ
links_of a = if a == 16 then (32, 0) else if a == 32 then (0, 16) else (0, 0)

abbrev pub states_of : ℕ → TaskState
states_of a = if a == 8 then running else ready

abbrev pub thread_at : ℕ → Thread
thread_at a = record {
  tid = a;
  state = states_of a;
  context = no_context;
  stack_base = 0;
  stack_size = 8192;
  kernel_stack = 0;
  priority = 1;
  time_slice = 7;
  total_runtime = 0;
  process = 0;
  next = (links_of a).0;
  prev = (links_of a).1;
}

-- Thread 8 runs; 16 and 32 wait.
abbrev pub three : Sched
three = record {
  running = true;
  initialized = true;
  policy = round_robin;
  ready_queue_head = 16;
  ready_queue_tail = 32;
  ready_count = 2;
  stats = record { total_switches = 0; total_ticks = 0; idle_ticks = 0 };
  current_thread = 8;
  thread = thread_at;
  cpu = no_context;
}
