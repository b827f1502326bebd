-- ===== src/Scheduler/Turns.antt =====
-- The turns of the round robin of kernel/scheduler.c: `scheduler_yield`, and `scheduler_tick` while
-- the slice of the running thread lasts and when it is over.
use f_rat_os.Base.{
  ℕ, zero, suc, ◌+◌, ◌-◌, ◌*◌, ◌≤◌, ◌<◌, ◌≡◌, refl, ◌∙◌, inl, inr, true, false, List, [], ◌∷◌, ◌++◌,
  arith, ltb, ◌==◌, if◌then◌else◌, ltb→lt, ltb→le, ne→==, Bool-cases, length, add64,
}
use f_rat_os.Scheduler.{Sched, default_time_slice, schedule, set_time_slice, tick, yield_cpu}
use f_rat_os.Scheduler.Links.{nexts, prevs, states}
use f_rat_os.Scheduler.Queue.{IsQueue-frame}
use f_rat_os.Scheduler.RoundRobin.{
  AllReady-frame, IsRound, schedule-IsRound, schedule-slice, schedule-switches,
}
use f_rat_os.Task.{running, update}
use mathlib.Core.List.{append_assoc}
use mathlib.Core.Path.{subst}

abbrev pub slice_of : Sched → ℕ → ℕ
slice_of s a = (s.thread a).time_slice

-- `r` differs from `s` in the time slices, the run times and the statistics only.
pub record Touched (s r : Sched) : Type 0 where
  on : r.running ≡ s.running
  ready_on : r.initialized ≡ s.initialized
  now : r.current_thread ≡ s.current_thread
  head : r.ready_queue_head ≡ s.ready_queue_head
  tail : r.ready_queue_tail ≡ s.ready_queue_tail
  count : r.ready_count ≡ s.ready_count
  next : (a : ℕ) → nexts r a ≡ nexts s a
  prev : (a : ℕ) → prevs r a ≡ prevs s a
  state : (a : ℕ) → states r a ≡ states s a

pub touch-IsRound : (s r : Sched) (c : ℕ) (q : List ℕ) → Touched s r → IsRound s c q → IsRound r c q
touch-IsRound s r c q k v = record {
  on = k.on ∙ v.on;
  ready_on = k.ready_on ∙ v.ready_on;
  now = k.now ∙ v.now;
  nonzero = v.nonzero;
  runs = k.state c ∙ v.runs;
  queue = IsQueue-frame s r q k.head k.tail k.count (λ a i. (k.next a, k.prev a)) v.queue;
  waits = AllReady-frame s r q (λ a i. k.state a) v.waits;
  apart = v.apart;
  room = v.room;
}

pub sliced-Touched : (p n : ℕ) (s : Sched) → Touched s (set_time_slice p n s)
sliced-Touched p n s = record {
  on = refl;
  ready_on = refl;
  now = refl;
  head = refl;
  tail = refl;
  count = refl;
  next = λ a. ground arith;
  prev = λ a. ground arith;
  state = λ a. ground arith;
}

module _ {s : Sched} {c n : ℕ} {q : List ℕ} (v : IsRound s c (n ∷ q)) where
  yield_equation : yield_cpu s ≡ schedule (set_time_slice c 0 s)
  unfolding yield_cpu
  yield_equation = ground (arith, v.on, v.now, v.nonzero)

  -- `scheduler_yield` gives the turn to the head of the queue, with a whole slice, and the thread
  -- that yields waits at the end; the switch is counted.
  pub yield_cpu-turn :
      IsRound (yield_cpu s) n (q ++ (c ∷ []))
      × (slice_of (yield_cpu s) n ≡ default_time_slice)
      × ((yield_cpu s).stats.total_switches ≡ add64 s.stats.total_switches 1)
  yield_cpu-turn =
      let w = touch-IsRound s (set_time_slice c 0 s) c (n ∷ q) (sliced-Touched c 0 s) v in
      rw yield_equation (schedule-IsRound w, schedule-slice w, schedule-switches w)

abbrev less : ℕ → ℕ
less n = if ltb 0 n then n - 1 else n

-- What a tick does to the running thread, before the slice is looked at.
abbrev ran : ℕ → Sched → Sched
ran c s =
    let t = s.thread c in
    record s {
      stats = record (s.stats) { total_ticks = add64 s.stats.total_ticks 1 };
      thread =
          update s.thread c
            (record t { total_runtime = add64 t.total_runtime 1; time_slice = less t.time_slice });
    }

ran-Touched : (c : ℕ) (s : Sched) → Touched s (ran c s)
ran-Touched c s = record {
  on = refl;
  ready_on = refl;
  now = refl;
  head = refl;
  tail = refl;
  count = refl;
  next = λ a. ground arith;
  prev = λ a. ground arith;
  state = λ a. ground arith;
}

module _ {s : Sched} {c : ℕ} {q : List ℕ} (v : IsRound s c q) where
  tick_last : slice_of s c ≤ 1 → tick s ≡ schedule (ran c s)
  unfolding tick
  tick_last h =
      let over : (less (slice_of s c) == 0) ≡ true = ground arith in
      rw (v.on, v.ready_on, v.now, ne→== c 0 v.nonzero, over) refl

  tick_more : 1 < slice_of s c → tick s ≡ ran c s
  unfolding tick
  tick_more h =
      let over : (less (slice_of s c) == 0) ≡ false = ground arith in
      rw (v.on, v.ready_on, v.now, ne→== c 0 v.nonzero, over) refl

  -- While more than one tick of the running thread's slice is left, `scheduler_tick` takes one off
  -- it, and the same thread runs while the others wait in the same order.
  pub tick-keep : 1 < slice_of s c → IsRound (tick s) c q × (slice_of (tick s) c + 1 ≡ slice_of s c)
  tick-keep h = rw (tick_more h) (touch-IsRound s (ran c s) c q (ran-Touched c s) v, ground arith)

-- With at most one tick of the slice left, `scheduler_tick` gives the turn to the head of the queue,
-- with a whole slice, and the thread whose slice is over waits at the end.
pub tick-turn :
    {s : Sched} {c n : ℕ} {q : List ℕ}
    → IsRound s c (n ∷ q)
    → slice_of s c ≤ 1
    → IsRound (tick s) n (q ++ (c ∷ [])) × (slice_of (tick s) n ≡ default_time_slice)
tick-turn {s} {c} {n} {q} v h =
    let w = touch-IsRound s (ran c s) c (n ∷ q) (ran-Touched c s) v in
    rw (tick_last v h) (schedule-IsRound w, schedule-slice w)

abbrev pub ticks : ℕ → Sched → Sched
ticks zero s = s
ticks (suc k) s = ticks k (tick s)

-- The turn passes on within the slice.
ticks-turn :
    (k : ℕ) {s : Sched} {c n : ℕ} {q : List ℕ}
    → IsRound s c (n ∷ q)
    → slice_of s c ≤ suc k
    → (j : ℕ) × (j ≤ suc k)
      × IsRound (ticks j s) n (q ++ (c ∷ []))
      × (slice_of (ticks j s) n ≡ default_time_slice)
ticks-turn zero v h = let (w, b) = tick-turn v h in (1, omega arith, w, b)
ticks-turn (suc k) {s} {c} v h = elim (Bool-cases (ltb 1 (slice_of s c))) [
  | inr e ↦ let (w, b) = tick-turn v (ltb→le 1 (slice_of s c) e) in (1, omega arith, w, b)
  | inl e ↦
      let (w, less_left) = tick-keep v (ltb→lt 1 (slice_of s c) e) in
      let (j, bound, turned, full) = ticks-turn k w (omega (arith, less_left)) in
      (suc j, omega arith, turned, full)
]

ticks-add : (j k : ℕ) (s : Sched) → ticks (j + k) s ≡ ticks k (ticks j s)
ticks-add zero k s = let e : 0 + k ≡ k = omega arith in rw e refl
ticks-add (suc j) k s =
    let e : suc j + k ≡ suc (j + k) = omega arith in rw e (ticks-add j k (tick s))

-- In a round robin a waiting thread is served: with `m` threads ahead of it in the queue, and at most a whole slice
-- left to the running one, it runs within 10 * (m + 1) calls of `scheduler_tick`, with a whole
-- slice before it.
pub ticks-served :
    (xs ys : List ℕ) {s : Sched} {c p : ℕ}
    → IsRound s c (xs ++ (p ∷ ys))
    → slice_of s c ≤ default_time_slice
    → (k : ℕ) × (k ≤ 10 * (length xs + 1))
      × ((ticks k s).current_thread ≡ p)
      × (states (ticks k s) p ≡ running)
      × (slice_of (ticks k s) p ≡ default_time_slice)
ticks-served [] ys v h =
    let (j, bound, w, full) = ticks-turn 9 v h in (j, bound, w.now, w.runs, full)
ticks-served (x ∷ xs) ys {s} {c} {p} v h =
    let (j, bound, w, full) = ticks-turn 9 v h in
    let turned = subst (IsRound (ticks j s) x) (append_assoc xs (p ∷ ys) (c ∷ [])) w in
    let (k, later, now, runs, whole) =
      ticks-served xs (ys ++ (c ∷ [])) turned (omega (arith, full)) in
    (
      j + k,
      omega arith,
      rw (ticks-add j k s) now,
      rw (ticks-add j k s) runs,
      rw (ticks-add j k s) whole,
    )
