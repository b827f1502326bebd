-- ===== src/Scheduler/Links.antt =====
-- What `scheduler_add_thread` and `scheduler_remove_thread` write, field by field.
use f_rat_os.Base.{ℕ, ◌≡◌, ◌≢◌, true, arith, add32, sub32}
use f_rat_os.Scheduler.{Sched, add_thread, remove_thread, unlink_next, unlink_prev}
use f_rat_os.Task.{TaskState, is_ready}

abbrev pub nexts : Sched → ℕ → ℕ
nexts s a = (s.thread a).next

abbrev pub prevs : Sched → ℕ → ℕ
prevs s a = (s.thread a).prev

abbrev pub states : Sched → ℕ → TaskState
states s a = (s.thread a).state

-- What no operation on the queue touches.
pub record SameRest (s r : Sched) : Type 0 where
  pub on : r.running ≡ s.running
  pub ready_on : r.initialized ≡ s.initialized
  pub now : r.current_thread ≡ s.current_thread
  pub stat : r.stats ≡ s.stats
  pub state : (a : ℕ) → states r a ≡ states s a

pub record Removed (p : ℕ) (s r : Sched) : Type 0 where
  pub next_other : (a : ℕ) → a ≢ p → a ≢ prevs s p → nexts r a ≡ nexts s a
  pub next_prev : prevs s p ≢ 0 → nexts r (prevs s p) ≡ nexts s p
  pub prev_other : (a : ℕ) → a ≢ p → a ≢ nexts s p → prevs r a ≡ prevs s a
  pub prev_next : nexts s p ≢ 0 → prevs r (nexts s p) ≡ prevs s p
  pub head_first : prevs s p ≡ 0 → r.ready_queue_head ≡ nexts s p
  pub head_rest : prevs s p ≢ 0 → r.ready_queue_head ≡ s.ready_queue_head
  pub tail_last : nexts s p ≡ 0 → r.ready_queue_tail ≡ prevs s p
  pub tail_rest : nexts s p ≢ 0 → r.ready_queue_tail ≡ s.ready_queue_tail
  pub count : r.ready_count ≡ sub32 s.ready_count 1
  pub rest : SameRest s r

pub record Added (p : ℕ) (s r : Sched) : Type 0 where
  pub next_other : (a : ℕ) → a ≢ p → a ≢ s.ready_queue_tail → nexts r a ≡ nexts s a
  pub next_tail : s.ready_queue_tail ≢ 0 → nexts r s.ready_queue_tail ≡ p
  pub next_self : nexts r p ≡ 0
  pub prev_other : (a : ℕ) → a ≢ p → prevs r a ≡ prevs s a
  pub prev_self : prevs r p ≡ s.ready_queue_tail
  pub head_first : s.ready_queue_tail ≡ 0 → r.ready_queue_head ≡ p
  pub head_rest : s.ready_queue_tail ≢ 0 → r.ready_queue_head ≡ s.ready_queue_head
  pub tail : r.ready_queue_tail ≡ p
  pub count : r.ready_count ≡ add32 s.ready_count 1
  pub rest : SameRest s r

module _ (p : ℕ) (s : Sched) (nz : p ≢ 0) where
  remove-SameRest : SameRest s (remove_thread p s)
  unfolding remove_thread unlink_prev unlink_next
  remove-SameRest = record {
    on = ground arith;
    ready_on = ground arith;
    now = ground arith;
    stat = ground arith;
    state = λ a. ground arith;
  }

  pub remove-Removed : prevs s p ≢ p → nexts s p ≢ p → Removed p s (remove_thread p s)
  unfolding remove_thread unlink_prev unlink_next
  remove-Removed b n = record {
    next_other = λ a h k. ground arith;
    next_prev = λ h. ground arith;
    prev_other = λ a h k. ground arith;
    prev_next = λ h. ground arith;
    head_first = λ h. ground arith;
    head_rest = λ h. ground arith;
    tail_last = λ h. ground arith;
    tail_rest = λ h. ground arith;
    count = ground arith;
    rest = remove-SameRest;
  }

  add-SameRest : SameRest s (add_thread p s)
  unfolding add_thread
  add-SameRest = record {
    on = ground arith;
    ready_on = ground arith;
    now = ground arith;
    stat = ground arith;
    state = λ a. ground arith;
  }

  pub add-Added : is_ready (states s p) ≡ true → s.ready_queue_tail ≢ p → Added p s (add_thread p s)
  unfolding add_thread
  add-Added steady t = record {
    next_other = λ a h k. ground arith;
    next_tail = λ h. ground arith;
    next_self = ground arith;
    prev_other = λ a h. ground arith;
    prev_self = ground arith;
    head_first = λ h. ground arith;
    head_rest = λ h. ground arith;
    tail = ground arith;
    count = ground arith;
    rest = add-SameRest;
  }
