-- ===== src/Scheduler/Start.antt =====
-- `scheduler_start` of kernel/scheduler.c, called when no thread is current: the code that calls it
-- goes on as the first thread of the queue.
use f_rat_os.Base.{List, [], add64, ap, arith, refl, sym, true, ℕ, ◌∙◌, ◌∷◌, ◌≡◌, ◌≢◌}
use f_rat_os.Scheduler.{
  Sched, SchedStats, default_time_slice, pick_next, remove_thread, requeue, schedule, start,
  switch_to, thread_set_state, unlink_next, unlink_prev,
}
use f_rat_os.Scheduler.Chain.{In, In-ne, first_away}
use f_rat_os.Scheduler.Links.{Removed, remove-Removed, states}
use f_rat_os.Scheduler.Queue.{AllReady, IsQueue, IsQueue-frame, remove-IsQueue}
use f_rat_os.Scheduler.Switch.{Switched}
use f_rat_os.Scheduler.RoundRobin.{AllReady-frame, IsRound}
use f_rat_os.Scheduler.Turns.{slice_of}

module _ (n : ℕ) (s : Sched) (nz : n ≢ 0) (none_runs : s.current_thread ≡ 0) where
  first-Switched : Switched n s (switch_to n s)
  unfolding switch_to requeue thread_set_state
  first-Switched = record {
    head = ground arith;
    tail = ground arith;
    count = ground arith;
    next_same = λ a. ground arith;
    prev_same = λ a. ground arith;
    state_self = ground arith;
    state_other = λ a h. ground arith;
    now = ground arith;
    slice = ground arith;
    switches = ground arith;
    on = ground arith;
    ready_on = ground arith;
  }

  first-cpu : (switch_to n s).cpu ≡ s.cpu
  unfolding switch_to requeue thread_set_state
  first-cpu = ground arith

remove-cpu : (p : ℕ) (s : Sched) → (remove_thread p s).cpu ≡ s.cpu
unfolding remove_thread unlink_prev unlink_next
remove-cpu p s = ground arith

module _ {s : Sched} {p : ℕ} {q : List ℕ} (v : IsQueue s (p ∷ q)) where
  -- The scheduler, running, with the first thread out of the queue.
  picked : Sched
  picked = remove_thread p (record s { running = true })

  opened-IsQueue : IsQueue (record s { running = true }) (p ∷ q)
  opened-IsQueue =
      IsQueue-frame s (record s { running = true }) (p ∷ q) refl refl refl (λ a i. (refl, refl)) v

  start_equation : s.initialized ≡ true → start s ≡ switch_to p picked
  unfolding start schedule pick_next picked
  start_equation on = ground (arith, v.head, v.links.0)

  picked-Removed : Removed p (record s { running = true }) picked
  unfolding picked
  picked-Removed =
      remove-Removed p (record s { running = true }) v.links.0 (λ e. v.links.0 (sym e ∙ v.links.1))
        (λ e. first_away p q v.links.0 v.distinct.0 (sym e ∙ v.links.2))

  -- `scheduler_start` of an initialised scheduler without a current thread, whose queue starts
  -- with a thread `p`, all of it ready: the scheduler runs, `p` is the current thread, with a whole
  -- slice, and the others wait in their order; the switch is counted; and the registers of the
  -- processor are as they were, so that the caller goes on in the name of `p`.
  pub start-adopts :
      s.initialized ≡ true
      → s.current_thread ≡ 0
      → AllReady s (p ∷ q)
      → IsRound (start s) p q
        × (slice_of (start s) p ≡ default_time_slice)
        × ((start s).stats.total_switches ≡ add64 s.stats.total_switches 1)
        × ((start s).cpu ≡ s.cpu)
  unfolding picked
  start-adopts on none_runs waits =
      let k = picked-Removed in
      let alone : picked.current_thread ≡ 0 = k.rest.now ∙ none_runs in
      let w = first-Switched p picked v.links.0 alone in
      let rest = remove-IsQueue p (record s { running = true }) picked k [] q opened-IsQueue in
      let same : (a : ℕ) → In a q → states (switch_to p picked) a ≡ states s a =
        λ a i. w.state_other a (In-ne a p q v.distinct.0 i) ∙ k.rest.state a in
      rw (start_equation on) (
        record {
          on = w.on ∙ k.rest.on;
          ready_on = w.ready_on ∙ k.rest.ready_on ∙ on;
          now = w.now;
          nonzero = v.links.0;
          runs = w.state_self;
          queue =
              IsQueue-frame picked (switch_to p picked) q w.head w.tail w.count
                (λ a i. (w.next_same a, w.prev_same a)) rest;
          waits = AllReady-frame s (switch_to p picked) q same waits.1;
          apart = v.distinct.0;
          room = omega (arith, v.word);
        },
        w.slice,
        w.switches ∙ ap (λ (x : SchedStats). add64 x.total_switches 1) k.rest.stat,
        first-cpu p picked v.links.0 alone ∙ remove-cpu p (record s { running = true }),
      )
