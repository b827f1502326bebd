-- ===== src/Process/Create.antt =====
-- `process_create` and the queries of kernel/process.c.
use f_rat_os.Base.{List, Option, [], add32, if◌then◌else◌, none, some, suc, zero, ℕ, ◌==◌, ◌∷◌}
use f_rat_os.Task.{zombie}
use f_rat_os.Kheap.{kmalloc}
use f_rat_os.Scheduler.{thread_set_state, yield_cpu}
use f_rat_os.Process.{
  Process, System, free_at, get_current, process_size, put_process, thread_create, thread_of,
}

-- The first `n` of a list.
abbrev take {ℓ} : {A : Type ℓ} → ℕ → List A → List A
take zero xs = []
take (suc n) [] = []
take (suc n) (x ∷ xs) = x ∷ take n xs

-- The string at `name`, `none` for NULL, as `process_create` copies it: 63 characters at most.
abbrev pub copy_name : Option (List ℕ) → List ℕ
copy_name none = []
copy_name (some cs) = take 63 cs

-- The fields of a new process.
abbrev pub new_process : (name : Option (List ℕ)) → System → Process
new_process name k = record {
  pid = k.next_pid;
  name = copy_name name;
  page_directory = k.cr3;
  heap_start = 0;
  heap_end = 0;
  main_thread = 0;
  thread_list = 0;
  thread_count = 0;
  parent = get_current k;
  children = 0;
  next = k.process_list_head;
  prev = 0;
  exit_code = 0;
}

-- The process enters the front of the list.
unfoldable pub link_process : (p : ℕ) (name : Option (List ℕ)) → System → System
link_process p name k =
    let head = k.process_list_head in
    let made = record (put_process p (new_process name k) k) { next_pid = add32 k.next_pid 1 } in
    let linked =
      if head == 0 then made else put_process head (record (made.process head) { prev = p }) made in
    record linked { process_list_head = p }

-- The main thread; a process that gets none is given back.
unfoldable pub start_process : (fuel p entry_point : ℕ) → System → Option (ℕ × System)
start_process fuel p entry_point k = elim (thread_create fuel p entry_point 128 k) [
  | none ↦ none
  | some (t, k') ↦
      let kept = put_process p (record (k'.process p) { main_thread = t }) k' in
      let failed : Option (ℕ × System) = elim (free_at fuel p kept) [
        | none ↦ none
        | some k'' ↦ some (0, k'')
      ] in
      if t == 0 then failed else some (p, kept)
]

unfoldable pub process_create :
    (fuel : ℕ) (name : Option (List ℕ)) (entry_point : ℕ) → System → Option (ℕ × System)
process_create fuel name entry_point k = elim (kmalloc fuel process_size k.heap) [
  | none ↦ none
  | some (p, h) ↦
      let given = record k { heap = h } in
      let linked = link_process p name given in
      let started = start_process fuel p entry_point linked in
      if p == 0 then some (0, given) else if entry_point == 0 then some (p, linked) else started
]

-- `process_find_by_pid` from the process at `p` on, 0 for none.
unfoldable pub find_pid_from : (fuel pid p : ℕ) → System → Option ℕ
find_pid_from zero pid p k = none
find_pid_from (suc n) pid p k =
    let rest = find_pid_from n pid (k.process p).next k in
    if p == 0 then some 0 else if (k.process p).pid == pid then some p else rest

unfoldable pub process_find_by_pid : (fuel pid : ℕ) → System → Option ℕ
process_find_by_pid fuel pid k = find_pid_from fuel pid k.process_list_head k

-- `process_count` from the process at `p` on.
unfoldable pub count_from : (fuel count p : ℕ) → System → Option ℕ
count_from zero count p k = none
count_from (suc n) count p k =
    let rest = count_from n (add32 count 1) (k.process p).next k in
    if p == 0 then some count else rest

unfoldable pub process_count : (fuel : ℕ) → System → Option ℕ
process_count fuel k = count_from fuel 0 k.process_list_head k

-- `process_get_first` and `process_get_next`
abbrev pub process_get_first : System → ℕ
process_get_first k = k.process_list_head

abbrev pub process_get_next : (p : ℕ) → System → ℕ
process_get_next p k = if p == 0 then 0 else (k.process p).next

-- `thread_exit`
unfoldable pub thread_exit : System → System
thread_exit k = record k { sched = thread_set_state k.sched.current_thread zombie k.sched }

-- The loop of `process_exit`, and what it does before it yields.
unfoldable pub zombies_from : (fuel t : ℕ) → System → Option System
zombies_from zero t k = none
zombies_from (suc n) t k =
    let marked = record k { sched = thread_set_state t zombie k.sched } in
    let rest = zombies_from n (thread_of marked t).next marked in if t == 0 then some k else rest

unfoldable pub leave_process : (fuel exit_code : ℕ) → System → Option System
leave_process fuel exit_code k =
    let p = get_current k in
    let left = put_process p (record (k.process p) { exit_code = exit_code }) k in
    let marked = zombies_from fuel (left.process p).thread_list left in
    if p == 0 then some k else marked

-- `process_exit` up to the halt, with a yield if the scheduler runs; what follows the yield runs
-- only when this thread is switched to again.
unfoldable pub process_exit : (fuel exit_code : ℕ) → System → Option System
process_exit fuel exit_code k = elim (leave_process fuel exit_code k) [
  | none ↦ none
  | some k' ↦ some (record k' { sched = yield_cpu k'.sched })
]

-- `process_init`; `idle_task` is the address of that function.
unfoldable pub process_init : (fuel idle_task : ℕ) → System → Option System
process_init fuel idle_task k =
    let reset = record k {
      process_list_head = 0;
      next_pid = 1;
      next_tid = 1;
      sched = record (k.sched) { current_thread = 0 };
    } in
    elim (process_create fuel (some (105 ∷ 100 ∷ 108 ∷ 101 ∷ [])) idle_task reset) [
      | none ↦ none
      | some (p, k') ↦ some (record k' { idle_process = p })
    ]

-- The inner loop of `thread_find_by_tid`, over the threads from `t` on; 0 for none.
unfoldable pub find_tid_in : (fuel tid t : ℕ) → System → Option ℕ
find_tid_in zero tid t k = none
find_tid_in (suc n) tid t k =
    let rest = find_tid_in n tid (thread_of k t).next k in
    if t == 0 then some 0 else if (thread_of k t).tid == tid then some t else rest

unfoldable pub find_tid_from : (rounds fuel tid p : ℕ) → System → Option ℕ
find_tid_from zero fuel tid p k = none
find_tid_from (suc n) fuel tid p k =
    let rest = find_tid_from n fuel tid (k.process p).next k in
    let found : Option ℕ = elim (find_tid_in fuel tid (k.process p).thread_list k) [
      | none ↦ none
      | some t ↦ if t == 0 then rest else some t
    ] in
    if p == 0 then some 0 else found

unfoldable pub thread_find_by_tid : (fuel tid : ℕ) → System → Option ℕ
thread_find_by_tid fuel tid k = find_tid_from fuel fuel tid k.process_list_head k

-- `thread_count_total` from the process at `p` on.
unfoldable pub count_threads_from : (fuel count p : ℕ) → System → Option ℕ
count_threads_from zero count p k = none
count_threads_from (suc n) count p k =
    let sum = add32 count (k.process p).thread_count in
    let rest = count_threads_from n sum (k.process p).next k in if p == 0 then some count else rest

unfoldable pub thread_count_total : (fuel : ℕ) → System → Option ℕ
thread_count_total fuel k = count_threads_from fuel 0 k.process_list_head k
