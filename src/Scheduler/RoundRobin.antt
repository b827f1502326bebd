-- ===== src/Scheduler/RoundRobin.antt =====
-- `scheduler_yield` and `scheduler_tick` of kernel/scheduler.c as turns of a round robin: one
-- thread runs, the others wait in a queue.
use f_rat_os.Base.{
  ℕ, ◌+◌, ◌^◌, ◌<◌, ◌≡◌, sym, ap, ◌∙◌, ◌≢◌, true, List, [], ◌∷◌, ◌++◌, arith, length, length-append,
  add64,
}
use f_rat_os.Scheduler.{
  Sched, SchedStats, default_time_slice, pick_next, remove_thread, schedule, switch_to,
  thread_set_state,
}
use f_rat_os.Scheduler.Chain.{In, In-first, In-ne, NotIn, NotIn-append, first_away, last_away}
use f_rat_os.Scheduler.Links.{Added, Removed, add-Added, remove-Removed, states}
use f_rat_os.Scheduler.Queue.{AllReady, IsQueue, IsQueue-frame, add-IsQueue, remove-IsQueue}
use f_rat_os.Scheduler.Switch.{Switched, returned, switch_to-Switched}
use f_rat_os.Task.{TaskState, is_ready, is_running, ready, running}

-- Thread `c` runs, and those of `q` wait, ready, in this order.
pub record IsRound (s : Sched) (c : ℕ) (q : List ℕ) : Type 0 where
  pub on : s.running ≡ true
  pub ready_on : s.initialized ≡ true
  pub now : s.current_thread ≡ c
  pub nonzero : c ≢ 0
  pub runs : states s c ≡ running
  pub queue : IsQueue s q
  pub waits : AllReady s q
  pub apart : NotIn c q
  pub room : length q + 1 < 2 ^ 32

pub AllReady-frame :
    (s r : Sched) (q : List ℕ)
    → ((a : ℕ) → In a q → states r a ≡ states s a)
    → AllReady s q
    → AllReady r q
AllReady-frame s r [] f h = tt
AllReady-frame s r (p ∷ q) f h =
    (f p (In-first p q) ∙ h.0, AllReady-frame s r q (λ a i. f a (λ n. i n.1)) h.1)

AllReady-append :
    (s : Sched) (p : ℕ) (q : List ℕ)
    → AllReady s q
    → states s p ≡ ready
    → AllReady s (q ++ (p ∷ []))
AllReady-append s p [] h e = (e, tt)
AllReady-append s p (x ∷ q) h e = (h.0, AllReady-append s p q h.1 e)

-- What `thread_set_state` changes.
module _ (p : ℕ) (v : TaskState) (s : Sched) (nz : p ≢ 0) where
  set_state_self : states (thread_set_state p v s) p ≡ v
  unfolding thread_set_state
  set_state_self = ground arith

  set_state_other : (a : ℕ) → a ≢ p → states (thread_set_state p v s) a ≡ states s a
  unfolding thread_set_state
  set_state_other a h = ground arith

  set_state-IsQueue : (q : List ℕ) → IsQueue s q → IsQueue (thread_set_state p v s) q
  unfolding thread_set_state
  set_state-IsQueue q =
      IsQueue-frame s (thread_set_state p v s) q (ground arith) (ground arith) (ground arith)
        (λ a i. (ground arith, ground arith))

  set_state_rest :
      ((thread_set_state p v s).current_thread ≡ s.current_thread)
      × ((thread_set_state p v s).running ≡ s.running)
      × ((thread_set_state p v s).initialized ≡ s.initialized)
      × ((thread_set_state p v s).stats ≡ s.stats)
  unfolding thread_set_state
  set_state_rest = (ground arith, ground arith, ground arith, ground arith)

module _ {s : Sched} {c n : ℕ} {q : List ℕ} (v : IsRound s c (n ∷ q)) where
  -- After `scheduler_pick_next`.
  picked : Sched
  picked = remove_thread n s

  schedule_equation : schedule s ≡ switch_to n picked
  unfolding schedule pick_next picked
  schedule_equation = ground (arith, v.on, v.ready_on, v.queue.head, v.queue.links.0)

  n_off : NotIn n q
  n_off = v.queue.distinct.0

  picked-Removed : Removed n s picked
  unfolding picked
  picked-Removed =
      remove-Removed n s v.queue.links.0 (λ e. v.queue.links.0 (sym e ∙ v.queue.links.1))
        (λ e. first_away n q v.queue.links.0 n_off (sym e ∙ v.queue.links.2))

  picked-IsQueue : IsQueue picked q
  picked-IsQueue = remove-IsQueue n s picked picked-Removed [] q v.queue

  abbrev settled : Sched
  settled = thread_set_state c ready picked

  settled-IsQueue : IsQueue settled q
  settled-IsQueue = set_state-IsQueue c ready picked v.nonzero q picked-IsQueue

  settled_tail : settled.ready_queue_tail ≢ c
  settled_tail e = last_away c q v.nonzero v.apart.1 (sym settled-IsQueue.tail ∙ e)

  settled-Added : Added c settled (returned c picked)
  settled-Added =
      add-Added c (thread_set_state c ready picked) v.nonzero
        (ap is_ready (set_state_self c ready picked v.nonzero)) settled_tail

  turned : Switched n (returned c picked) (schedule s)
  turned = rw schedule_equation (
      switch_to-Switched n c picked v.queue.links.0 v.nonzero v.apart.0
        (picked-Removed.rest.now ∙ v.now) (ap is_running (picked-Removed.rest.state c ∙ v.runs)))

  returned-IsQueue : IsQueue (returned c picked) (q ++ (c ∷ []))
  returned-IsQueue =
      add-IsQueue c settled (returned c picked) v.nonzero settled-Added q v.apart.1
        (omega (arith, v.room)) settled-IsQueue

  schedule-IsQueue : IsQueue (schedule s) (q ++ (c ∷ []))
  schedule-IsQueue =
      IsQueue-frame (returned c picked) (schedule s) (q ++ (c ∷ [])) turned.head turned.tail
        turned.count (λ a i. (turned.next_same a, turned.prev_same a)) returned-IsQueue

  schedule_state_self : states (schedule s) c ≡ ready
  schedule_state_self =
      turned.state_other c v.apart.0
      ∙ settled-Added.rest.state c
      ∙ set_state_self c ready picked v.nonzero

  schedule_state_other : (a : ℕ) → a ≢ c → a ≢ n → states (schedule s) a ≡ states s a
  schedule_state_other a h k =
      turned.state_other a k
      ∙ settled-Added.rest.state a
      ∙ set_state_other c ready picked v.nonzero a h
      ∙ picked-Removed.rest.state a

  schedule-AllReady : AllReady (schedule s) (q ++ (c ∷ []))
  schedule-AllReady =
      AllReady-append (schedule s) c q
        (AllReady-frame s (schedule s) q
          (λ a i. schedule_state_other a (In-ne a c q v.apart.1 i) (In-ne a n q n_off i)) v.waits.1)
        schedule_state_self

  pub schedule-IsRound : IsRound (schedule s) n (q ++ (c ∷ []))
  schedule-IsRound = record {
    on =
        turned.on
        ∙ settled-Added.rest.on
        ∙ (set_state_rest c ready picked v.nonzero).1
        ∙ picked-Removed.rest.on
        ∙ v.on;
    ready_on =
        turned.ready_on
        ∙ settled-Added.rest.ready_on
        ∙ (set_state_rest c ready picked v.nonzero).2
        ∙ picked-Removed.rest.ready_on
        ∙ v.ready_on;
    now = turned.now;
    nonzero = v.queue.links.0;
    runs = turned.state_self;
    queue = schedule-IsQueue;
    waits = schedule-AllReady;
    apart = NotIn-append n q (c ∷ []) n_off ((λ e. v.apart.0 (sym e)), tt);
    room = omega (arith, v.room, length-append q (c ∷ []));
  }

  pub schedule-slice : ((schedule s).thread n).time_slice ≡ default_time_slice
  schedule-slice = turned.slice

  pub schedule-switches : (schedule s).stats.total_switches ≡ add64 s.stats.total_switches 1
  schedule-switches =
      turned.switches
      ∙ ap (λ (x : SchedStats). add64 x.total_switches 1)
          (settled-Added.rest.stat
            ∙ (set_state_rest c ready picked v.nonzero).3
            ∙ picked-Removed.rest.stat)
