-- ===== src/Scheduler/Switch.antt =====
-- `scheduler_switch_to` of kernel/scheduler.c, from a running thread to another one.
use f_rat_os.Base.{add64, arith, true, ℕ, ◌≡◌, ◌≢◌}
use f_rat_os.Task.{is_running, ready, running}
use f_rat_os.Scheduler.{
  Sched, add_thread, default_time_slice, requeue, switch_context, switch_to, thread_set_state,
}
use f_rat_os.Scheduler.Links.{nexts, prevs, states}

-- The state with the thread that ran put back into the queue.
abbrev pub returned : ℕ → Sched → Sched
returned c s = add_thread c (thread_set_state c ready s)

-- `r` is `t` after the switch to `n`.
pub record Switched (n : ℕ) (t r : Sched) : Type 0 where
  pub head : r.ready_queue_head ≡ t.ready_queue_head
  pub tail : r.ready_queue_tail ≡ t.ready_queue_tail
  pub count : r.ready_count ≡ t.ready_count
  pub next_same : (a : ℕ) → nexts r a ≡ nexts t a
  pub prev_same : (a : ℕ) → prevs r a ≡ prevs t a
  pub state_self : states r n ≡ running
  pub state_other : (a : ℕ) → a ≢ n → states r a ≡ states t a
  pub now : r.current_thread ≡ n
  pub slice : (r.thread n).time_slice ≡ default_time_slice
  pub switches : r.stats.total_switches ≡ add64 t.stats.total_switches 1
  pub on : r.running ≡ t.running
  pub ready_on : r.initialized ≡ t.initialized

module _ (n c : ℕ) (s : Sched) (nz : n ≢ 0) (cz : c ≢ 0) (ne : c ≢ n) where
  pub switch_to-Switched :
      s.current_thread ≡ c
      → is_running (states s c) ≡ true
      → Switched n (returned c s) (switch_to n s)
  unfolding switch_to requeue switch_context thread_set_state
  switch_to-Switched now ran = record {
    head = ground arith;
    tail = ground arith;
    count = ground arith;
    next_same = λ a. ground arith;
    prev_same = λ a. ground arith;
    state_self = ground arith;
    state_other = λ a h. ground arith;
    now = ground arith;
    slice = ground arith;
    switches = ground arith;
    on = ground arith;
    ready_on = ground arith;
  }
