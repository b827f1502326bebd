-- ===== src/Process/Sample.antt =====
-- A process in a concrete system, for the tests.
use f_rat_os.Base.{[]}
use f_rat_os.Kheap.{Heap}
use f_rat_os.Kheap.Sample.{heap_of}
use f_rat_os.Process.{Process, System}
use f_rat_os.Scheduler.Sample.{three}

abbrev pub empty_process : Process
empty_process = record {
  pid = 1;
  name = [];
  page_directory = 0x2000;
  heap_start = 0;
  heap_end = 0;
  main_thread = 0;
  thread_list = 0;
  thread_count = 0;
  parent = 0;
  children = 0;
  next = 0;
  prev = 0;
  exit_code = 0;
}

abbrev pub big_heap : Heap
big_heap = heap_of 0 20000

abbrev pub system : System
system = record {
  next_pid = 2;
  next_tid = 4;
  process_list_head = 64;
  idle_process = 0;
  process = λ a. empty_process;
  cr3 = 0x2000;
  heap = big_heap;
  sched = three;
}
