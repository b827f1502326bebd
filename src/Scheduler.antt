-- ===== src/Scheduler.antt =====
-- kernel/scheduler.c and kernel/scheduler.h: the round-robin scheduler, over the store of threads
-- and the current thread of kernel/process.c. Messages are left out. `switch_context` of
-- kernel/switch.S saves the processor's registers in one thread's context and loads them from
-- another's; the call comes back when that thread is switched to again.
pub mod Chain
pub mod Queue
pub mod RoundRobin
pub mod Start
pub mod Switch
pub mod Turns
pub mod Sample
mod Tests
pub mod Links
use f_rat_os.Base.{
  Bool, add32, add64, false, if◌then◌else◌, ltb, not, sub32, true, ℕ, ◌-◌, ◌==◌, ◌||◌,
}
use f_rat_os.Task.{CpuContext, TaskState, Thread, is_ready, is_running, ready, update, running}
use f_rat_os.Context.{load_context, save_context}

-- `sched_policy_t`
pub data SchedPolicy : Type 0 where
  round_robin by_priority fifo : SchedPolicy

-- `sched_stats_t`
pub record SchedStats : Type 0 where
  pub total_switches : ℕ
  pub total_ticks : ℕ
  pub idle_ticks : ℕ

-- `sched_state`, with `current_thread` of kernel/process.c, the threads and the registers.
pub record Sched : Type 0 where
  pub running : Bool
  pub initialized : Bool
  pub policy : SchedPolicy
  pub ready_queue_head : ℕ
  pub ready_queue_tail : ℕ
  pub ready_count : ℕ
  pub stats : SchedStats
  pub current_thread : ℕ
  pub thread : ℕ → Thread
  pub cpu : CpuContext

-- SCHED_DEFAULT_TIME_SLICE
abbrev pub default_time_slice : ℕ
default_time_slice = 10

-- `p->next = v` and its kin
abbrev pub set_next : (p v : ℕ) → Sched → Sched
set_next p v s = record s { thread = update s.thread p (record (s.thread p) { next = v }) }

abbrev pub set_prev : (p v : ℕ) → Sched → Sched
set_prev p v s = record s { thread = update s.thread p (record (s.thread p) { prev = v }) }

abbrev pub set_time_slice : (p v : ℕ) → Sched → Sched
set_time_slice p v s = record s {
  thread = update s.thread p (record (s.thread p) { time_slice = v });
}

-- `thread_set_state` of kernel/process.c
unfoldable pub thread_set_state : (p : ℕ) → TaskState → Sched → Sched
thread_set_state p state s =
    if p == 0
    then s
    else record s { thread = update s.thread p (record (s.thread p) { state = state }) }

unfoldable pub add_thread : ℕ → Sched → Sched
add_thread p s =
    if p == 0 || not (is_ready (s.thread p).state)
    then s
    else let linked = set_prev p s.ready_queue_tail (set_next p 0 s) in
      let joined =
        if s.ready_queue_tail == 0
        then record linked { ready_queue_head = p }
        else set_next s.ready_queue_tail p linked in
      record joined { ready_queue_tail = p; ready_count = add32 s.ready_count 1 }

-- The two ends that `scheduler_remove_thread` mends, in its order.
unfoldable pub unlink_prev : ℕ → Sched → Sched
unlink_prev p s =
    if (s.thread p).prev == 0
    then record s { ready_queue_head = (s.thread p).next }
    else set_next (s.thread p).prev (s.thread p).next s

unfoldable pub unlink_next : ℕ → Sched → Sched
unlink_next p s =
    if (s.thread p).next == 0
    then record s { ready_queue_tail = (s.thread p).prev }
    else set_prev (s.thread p).next (s.thread p).prev s

unfoldable pub remove_thread : ℕ → Sched → Sched
remove_thread p s =
    if p == 0
    then s
    else let cut = set_prev p 0 (set_next p 0 (unlink_next p (unlink_prev p s))) in
      record cut { ready_count = sub32 cut.ready_count 1 }

-- The thread to run, 0 for none.
unfoldable pub pick_next : Sched → ℕ × Sched
pick_next s =
    if s.ready_queue_head == 0
    then (0, s)
    else (s.ready_queue_head, remove_thread s.ready_queue_head s)

-- `switch_context(&old->context, &next->context)`: `cpu` is what the processor holds at the call,
-- with the return address for `rip`. Without an old context nothing is saved.
unfoldable pub switch_context : (old next : ℕ) → Sched → Sched
switch_context old next s =
    let saved =
      update s.thread old
        (record (s.thread old) { context = save_context s.cpu (s.thread old).context }) in
    let kept = if old == 0 then s.thread else saved in
    record s { thread = kept; cpu = load_context (kept next).context s.cpu }

-- The part of `scheduler_switch_to` that puts the current thread back into the queue.
unfoldable pub requeue : (current : ℕ) → Sched → Sched
requeue current s =
    if current == 0
    then s
    else if is_running (s.thread current).state
    then add_thread current (thread_set_state current ready s)
    else s

unfoldable pub switch_to : ℕ → Sched → Sched
switch_to next s =
    let current = s.current_thread in
    if next == 0
    then s
    else if current == next
    then thread_set_state next running s
    else let started = record (thread_set_state next running (requeue current s)) {
      current_thread = next;
    } in
      let sliced = set_time_slice next default_time_slice started in
      let counted = record sliced {
        stats = record (sliced.stats) { total_switches = add64 sliced.stats.total_switches 1 };
      } in
      if current == 0 then counted else switch_context current next counted

unfoldable pub schedule : Sched → Sched
schedule s =
    if not s.running || not s.initialized
    then s
    else let (next, s') = pick_next s in if next == 0 then s' else switch_to next s'

unfoldable pub tick : Sched → Sched
tick s =
    if not s.running || not s.initialized
    then s
    else let counted = record s {
      stats = record (s.stats) { total_ticks = add64 s.stats.total_ticks 1 };
    } in
      if s.current_thread == 0
      then schedule counted
      else let t = s.thread s.current_thread in
        let slice = if ltb 0 t.time_slice then t.time_slice - 1 else t.time_slice in
        let ran = record counted {
          thread =
              update s.thread s.current_thread
                (record t { total_runtime = add64 t.total_runtime 1; time_slice = slice });
        } in
        if slice == 0 then schedule ran else ran

unfoldable pub yield_cpu : Sched → Sched
yield_cpu s =
    if not s.running
    then s
    else if s.current_thread == 0
    then schedule s
    else schedule (set_time_slice s.current_thread 0 s)

unfoldable pub start : Sched → Sched
start s = if not s.initialized then s else schedule (record s { running = true })

unfoldable pub stop : Sched → Sched
stop s = record s { running = false }

abbrev pub is_running_now : Sched → Bool
is_running_now s = s.running

unfoldable pub set_policy : SchedPolicy → Sched → Sched
set_policy policy s = record s { policy = policy }

abbrev pub get_policy : Sched → SchedPolicy
get_policy s = s.policy

abbrev pub get_stats : Sched → SchedStats
get_stats s = s.stats

unfoldable pub init : Sched → Sched
init s = record s {
  running = false;
  policy = round_robin;
  ready_queue_head = 0;
  ready_queue_tail = 0;
  ready_count = 0;
  stats = record { total_switches = 0; total_ticks = 0; idle_ticks = 0 };
  initialized = true;
}
