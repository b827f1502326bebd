-- ===== src/Scheduler/Tests.antt =====
-- The theorems on the scheduler at the sample.
use f_rat_os.Base.{[], arith, false, refl, ℕ, ◌∷◌, ◌≡◌, ◌≤◌}
use f_rat_os.Task.{running}
use f_rat_os.Scheduler.{
  Sched, add_thread, pick_next, remove_thread, requeue, schedule, start, switch_context, switch_to,
  thread_set_state, unlink_next, unlink_prev, yield_cpu,
}
use f_rat_os.Scheduler.Start.{start-adopts}
use f_rat_os.Scheduler.Sample.{no_context, three}
use f_rat_os.Scheduler.Links.{states}
use f_rat_os.Scheduler.Queue.{IsQueue, IsQueue-frame, remove_thread-IsQueue}
use f_rat_os.Scheduler.RoundRobin.{IsRound}
use f_rat_os.Scheduler.Turns.{slice_of, ticks, ticks-served, yield_cpu-turn}

three-IsQueue : IsQueue three (16 ∷ 32 ∷ [])
three-IsQueue = record {
  head = refl;
  tail = refl;
  count = refl;
  word = omega arith;
  links = (omega arith, refl, refl, (omega arith, refl, refl, tt));
  distinct = ((omega arith, tt), (tt, tt));
}

three-IsRound : IsRound three 8 (16 ∷ 32 ∷ [])
three-IsRound = record {
  on = refl;
  ready_on = refl;
  now = refl;
  nonzero = omega arith;
  runs = refl;
  queue = three-IsQueue;
  waits = (refl, (refl, tt));
  apart = (omega arith, (omega arith, tt));
  room = omega arith;
}

turns_seen : (yield_cpu three).current_thread ≡ 16
unfolding yield_cpu schedule pick_next remove_thread unlink_prev unlink_next switch_to requeue
    add_thread thread_set_state switch_context
turns_seen = refl

remove_thread-IsQueue_example : IsQueue (remove_thread 32 three) (16 ∷ [])
remove_thread-IsQueue_example = remove_thread-IsQueue 32 three (16 ∷ []) [] three-IsQueue

yield_cpu-turn_example :
    IsRound (yield_cpu three) 16 (32 ∷ 8 ∷ [])
    × (slice_of (yield_cpu three) 16 ≡ 10)
    × ((yield_cpu three).stats.total_switches ≡ 1)
yield_cpu-turn_example = yield_cpu-turn three-IsRound

ticks-served_example :
    (k : ℕ) × (k ≤ 20)
    × ((ticks k three).current_thread ≡ 32)
    × (states (ticks k three) 32 ≡ running)
    × (slice_of (ticks k three) 32 ≡ 10)
ticks-served_example = ticks-served (16 ∷ []) [] three-IsRound (omega arith)

-- The same before `scheduler_start`.
abbrev stopped : Sched
stopped = record three { running = false; current_thread = 0 }

start-adopts_example :
    IsRound (start stopped) 16 (32 ∷ [])
    × (slice_of (start stopped) 16 ≡ 10)
    × ((start stopped).stats.total_switches ≡ 1)
    × ((start stopped).cpu ≡ no_context)
start-adopts_example =
    start-adopts
      (IsQueue-frame three stopped (16 ∷ 32 ∷ []) refl refl refl (λ a i. (refl, refl))
        three-IsQueue)
      refl refl (refl, (refl, tt))
