-- ===== src/Timer/Halt.antt =====
-- The loops of kernel/timer.c that halt the processor: when they end, and that they do not without
-- interrupts.
use f_rat_os.Base.{
  Bool, Bool-cases, add64, ap, arith, false, inl, inr, none, refl, some, suc, sym, true, zero, ℕ,
  ◌+◌, ◌<◌, ◌^◌, ◌∙◌, ◌≡◌, ◌≤◌,
}
use f_rat_os.Scheduler.{Sched, tick}
use f_rat_os.Scheduler.Turns.{ticks}
use f_rat_os.Timer.{Callback, Timer, awake, halt_while, irq_handler}
use mathlib.Core.Path.{subst}

-- The driver at another tick.
abbrev pub at_tick : ℕ → Timer → Timer
at_tick k t = record t { ticks = k }

-- Without a callback an interrupt counts one tick and lets the scheduler count one.
irq-counts :
    (call : Callback) (t : Timer) (s : Sched)
    → t.initialized ≡ true
    → t.callback ≡ 0
    → irq_handler call (t, s) ≡ (record t { ticks = add64 t.ticks 1 }, tick s)
unfolding irq_handler
irq-counts call t s on none_set = rw (on, none_set) refl

-- With the interrupt flag off a loop that has to wait goes on for ever.
pub halt_while-masked :
    (call : Callback) (waits : Timer → Bool) (me : ℕ) (t : Timer) (s : Sched)
    → waits t ≡ true
    → (fuel : ℕ) → halt_while call false waits me fuel (t, s) ≡ none
unfolding halt_while
halt_while-masked call waits me t s e zero = ground (arith, e)
halt_while-masked call waits me t s e (suc n) =
    let rest = halt_while-masked call waits me t s e n in ground (arith, e, rest)

module _ (call : Callback) (waits : Timer → Bool) (me : ℕ) (t : Timer) (on : t.initialized ≡ true)
    (none_set : t.callback ≡ 0) where
  halt-step :
      (n k : ℕ) (s : Sched)
      → k + 1 < 2 ^ 64
      → awake waits me (at_tick k t, s) ≡ false
      → halt_while call true waits me (suc n) (at_tick k t, s)
        ≡ halt_while call true waits me n (at_tick (k + 1) t, tick s)
  unfolding halt_while
  halt-step n k s room early =
      let next : add64 k 1 ≡ k + 1 = omega arith in
      rw early (
        ap (halt_while call true waits me n) (irq-counts call (at_tick k t) s on none_set)
        ∙ ap (λ (x : ℕ). halt_while call true waits me n (at_tick x t, tick s)) next)

  halt-stop :
      (n k : ℕ) (s : Sched)
      → awake waits me (at_tick k t, s) ≡ true
      → halt_while call true waits me n (at_tick k t, s) ≡ some (at_tick k t, s)
  unfolding halt_while
  halt-stop zero k s now = rw now refl
  halt-stop (suc n) k s now = rw now refl

  -- At each tick before the `j`-th the loop had to wait, or another thread had the processor.
  abbrev pub NotBefore : (j k : ℕ) → Sched → Type 0
  NotBefore j k s = (i : ℕ) → i < j → awake waits me (at_tick (k + i) t, ticks i s) ≡ false

  before-cons :
      (j k : ℕ) (s : Sched)
      → awake waits me (at_tick k t, s) ≡ false
      → NotBefore j (k + 1) (tick s)
      → NotBefore (suc j) k s
  before-cons j k s early rest zero lo =
      subst (λ (x : ℕ). awake waits me (at_tick x t, s) ≡ false) (omega arith) early
  before-cons j k s early rest (suc i) lo =
      subst (λ (x : ℕ). awake waits me (at_tick x t, ticks i (tick s)) ≡ false) (omega arith)
        (rest i (omega arith))

  -- If the loop has an end within `n` ticks, it stops at the first tick that is one.
  pub halt_while-ends :
      (n k : ℕ) (s : Sched)
      → k + n < 2 ^ 64
      → awake waits me (at_tick (k + n) t, ticks n s) ≡ true
      → (j : ℕ) × (j ≤ n)
        × (halt_while call true waits me n (at_tick k t, s) ≡ some (at_tick (k + j) t, ticks j s))
        × (awake waits me (at_tick (k + j) t, ticks j s) ≡ true)
        × NotBefore j k s
  halt_while-ends zero k s room late =
      let same : k + 0 ≡ k = omega arith in
      (
        0,
        omega arith,
        halt-stop zero k s (subst (λ (x : ℕ). awake waits me (at_tick x t, s) ≡ true) same late)
            ∙ ap (λ (x : ℕ). some (at_tick x t, s)) (sym same),
        late,
        λ i lo. absurd (omega arith),
      )
  halt_while-ends (suc n) k s room late = elim (Bool-cases (awake waits me (at_tick k t, s))) [
    | inl now ↦
        let same : k + 0 ≡ k = omega arith in
        (
          0,
          omega arith,
          halt-stop (suc n) k s now ∙ ap (λ (x : ℕ). some (at_tick x t, s)) (sym same),
          subst (λ (x : ℕ). awake waits me (at_tick x t, s) ≡ true) (sym same) now,
          λ i lo. absurd (omega arith),
        )
    | inr early ↦
        let shift : k + suc n ≡ k + 1 + n = omega arith in
        let (j, few, ends, after, first) =
          halt_while-ends n (k + 1) (tick s) (omega arith)
            (subst (λ (x : ℕ). awake waits me (at_tick x t, ticks n (tick s)) ≡ true) shift late) in
        let back : k + 1 + j ≡ k + suc j = omega arith in
        (
          suc j,
          omega (arith, few),
          halt-step n k s (omega arith) early
              ∙ ends
              ∙ ap (λ (x : ℕ). some (at_tick x t, ticks j (tick s))) back,
          subst (λ (x : ℕ). awake waits me (at_tick x t, ticks j (tick s)) ≡ true) back after,
          before-cons j k s early first,
        )
  ]

pub awake-parts :
    (waits : Timer → Bool) (me : ℕ) (t : Timer) (s : Sched)
    → awake waits me (t, s) ≡ true
    → (s.current_thread ≡ me) × (waits t ≡ false)
awake-parts waits me t s e = (ground (arith, e), ground (arith, e))
