-- ===== src/Process.antt =====
-- kernel/process.c and kernel/process.h: processes and threads, over the heap and the scheduler. A
-- process is a record at its address, and so is a thread; both stores stay as they are when the heap
-- takes the memory back, which writes its own headers only. Messages are left out. Loops along lists
-- take fuel, also those of the heap; `none` is a loop that goes on.
pub mod Create
pub mod Processes
pub mod Lists
pub mod Destroy
pub mod Sample
mod Tests
use f_rat_os.Base.{
  List, Option, add32, add64, if◌then◌else◌, none, some, sub32, sub64, suc, zero, ℕ, ◌==◌,
}
use f_rat_os.Task.{CpuContext, Thread, new, ready, update}
use f_rat_os.Kheap.{Heap, kfree, kmalloc}
use f_rat_os.Scheduler.{Sched, add_thread}

-- `process_t`; `name` has the characters before the NUL.
pub record Process : Type 0 where
  pub pid : ℕ
  pub name : List ℕ
  pub page_directory : ℕ
  pub heap_start : ℕ
  pub heap_end : ℕ
  pub main_thread : ℕ
  pub thread_list : ℕ
  pub thread_count : ℕ
  pub parent : ℕ
  pub children : ℕ
  pub next : ℕ
  pub prev : ℕ
  pub exit_code : ℕ

-- The static variables, the processes, the heap and the scheduler, which has the threads and the
-- current one; `cr3` is the register.
pub record System : Type 0 where
  pub next_pid : ℕ
  pub next_tid : ℕ
  pub process_list_head : ℕ
  pub idle_process : ℕ
  pub process : ℕ → Process
  pub cr3 : ℕ
  pub heap : Heap
  pub sched : Sched

-- `sizeof(process_t)`, `sizeof(thread_t)` and the size of a stack
abbrev pub process_size : ℕ
process_size = 160

abbrev pub thread_size : ℕ
thread_size = 272

abbrev pub stack_bytes : ℕ
stack_bytes = 8192

abbrev pub put_process : (p : ℕ) → Process → System → System
put_process p x k = record k { process = update k.process p x }

abbrev pub put_thread : (t : ℕ) → Thread → System → System
put_thread t x k = record k { sched = record (k.sched) { thread = update k.sched.thread t x } }

abbrev pub thread_of : System → ℕ → Thread
thread_of k t = k.sched.thread t

-- `process_get_current`
unfoldable pub get_current : System → ℕ
get_current k =
    if k.sched.current_thread == 0 then 0 else (thread_of k k.sched.current_thread).process

-- The context of a new thread.
unfoldable pub new_context : (entry_point stack_base : ℕ) → CpuContext
new_context entry_point stack_base =
    let top = sub64 (add64 stack_base stack_bytes) 16 in
    record {
      rax = 0;
      rbx = 0;
      rcx = 0;
      rdx = 0;
      rsi = 0;
      rdi = 0;
      rbp = top;
      rsp = top;
      r8 = 0;
      r9 = 0;
      r10 = 0;
      r11 = 0;
      r12 = 0;
      r13 = 0;
      r14 = 0;
      r15 = 0;
      rip = entry_point;
      rflags = 0x202;
      cs = 0x08;
      ss = 0x10;
      ds = 0x10;
      es = 0x10;
      fs = 0x10;
      gs = 0x10;
    }

-- The fields that `thread_create` sets before it asks for a stack.
unfoldable pub name_thread : (t p : ℕ) → System → System
name_thread t p k =
    record (put_thread t
      (record (thread_of k t) {
        tid = k.next_tid;
        state = new;
        process = p;
        stack_size = stack_bytes;
      })
      k) { next_tid = add32 k.next_tid 1 }

-- The fields that it sets with the stack.
unfoldable pub fill_thread : (t stack entry_point priority : ℕ) → System → System
fill_thread t stack entry_point priority k =
    put_thread t
      (record (thread_of k t) {
        stack_base = stack;
        kernel_stack = stack;
        context = new_context entry_point stack;
        priority = priority;
        time_slice = 10;
        total_runtime = 0;
      })
      k

-- The thread enters the list of its process.
unfoldable pub link_thread : (t p : ℕ) → System → System
link_thread t p k =
    let first = (k.process p).thread_list in
    let linked = put_thread t (record (thread_of k t) { next = first; prev = 0 }) k in
    let backed =
      if first == 0
      then linked
      else put_thread first (record (thread_of linked first) { prev = t }) linked in
    put_process p
      (record (backed.process p) {
        thread_list = t;
        thread_count = add32 (backed.process p).thread_count 1;
      })
      backed

-- The thread is ready and enters the queue.
unfoldable pub enqueue_thread : (t : ℕ) → System → System
enqueue_thread t k =
    let ready_now = put_thread t (record (thread_of k t) { state = ready }) k in
    record ready_now { sched = add_thread t ready_now.sched }

-- `thread_create` with the memory for the thread.
unfoldable pub create_with : (fuel t p entry_point priority : ℕ) → System → Option (ℕ × System)
create_with fuel t p entry_point priority k =
    let named = name_thread t p k in
    elim (kmalloc fuel stack_bytes named.heap) [
      | none ↦ none
      | some (stack, h) ↦
          let given =
            put_thread t (record (thread_of named t) { stack_base = stack })
              (record named { heap = h }) in
          let failed : Option (ℕ × System) = elim (kfree fuel t h) [
            | none ↦ none
            | some h' ↦ some (0, record given { heap = h' })
          ] in
          if stack == 0
          then failed
          else some (
            t,
            enqueue_thread t (link_thread t p (fill_thread t stack entry_point priority given)),
          )
    ]

unfoldable pub thread_create : (fuel p entry_point priority : ℕ) → System → Option (ℕ × System)
thread_create fuel p entry_point priority k =
    let made : Option (ℕ × System) = elim (kmalloc fuel thread_size k.heap) [
      | none ↦ none
      | some (t, h) ↦
          if t == 0
          then some (0, record k { heap = h })
          else create_with fuel t p entry_point priority (record k { heap = h })
    ] in
    if p == 0 then some (0, k) else made

-- A free of `kernel/kheap.c` in the system.
abbrev pub free_at : (fuel ptr : ℕ) → System → Option System
free_at fuel ptr k = elim (kfree fuel ptr k.heap) [
  | none ↦ none
  | some h ↦ some (record k { heap = h })
]

-- The two ends that `thread_destroy` mends, in its order.
unfoldable pub unlink_thread : (t : ℕ) → System → System
unlink_thread t k =
    let x = thread_of k t in
    let owner = x.process in
    let forth =
      if x.prev == 0
      then put_process owner (record (k.process owner) { thread_list = x.next }) k
      else put_thread x.prev (record (thread_of k x.prev) { next = x.next }) k in
    let y = thread_of forth t in
    let back =
      if y.next == 0
      then forth
      else put_thread y.next (record (thread_of forth y.next) { prev = y.prev }) forth in
    let left = (thread_of back t).process in
    put_process left
      (record (back.process left) { thread_count = sub32 (back.process left).thread_count 1 }) back

unfoldable pub thread_destroy : (fuel t : ℕ) → System → Option System
thread_destroy fuel t k =
    let cut = unlink_thread t k in
    let stack = (thread_of cut t).stack_base in
    let freed : Option System = elim (if stack == 0 then some cut else free_at fuel stack cut) [
      | none ↦ none
      | some k' ↦ free_at fuel t k'
    ] in
    if t == 0 then some k else freed

-- The loop of `process_destroy` over the threads.
unfoldable pub destroy_threads : (rounds fuel p : ℕ) → System → Option System
destroy_threads zero fuel p k = none
destroy_threads (suc n) fuel p k =
    let t = (k.process p).thread_list in
    let rest : Option System = elim (thread_destroy fuel t k) [
      | none ↦ none
      | some k' ↦ destroy_threads n fuel p k'
    ] in
    if t == 0 then some k else rest

-- The process leaves the list of processes.
unfoldable pub unlink_process : (p : ℕ) → System → System
unlink_process p k =
    let x = k.process p in
    let forth =
      if x.prev == 0
      then record k { process_list_head = x.next }
      else put_process x.prev (record (k.process x.prev) { next = x.next }) k in
    let y = forth.process p in
    if y.next == 0
    then forth
    else put_process y.next (record (forth.process y.next) { prev = y.prev }) forth

unfoldable pub process_destroy : (fuel p : ℕ) → System → Option System
process_destroy fuel p k =
    let destroyed : Option System = elim (destroy_threads fuel fuel p k) [
      | none ↦ none
      | some k' ↦ free_at fuel p (unlink_process p k')
    ] in
    if p == 0 then some k else destroyed
