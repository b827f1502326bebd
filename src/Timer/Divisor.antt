-- ===== src/Timer/Divisor.antt =====
-- What `timer_set_frequency` of kernel/timer.c programs into the PIT.
use f_rat_os.Base.{
  Bool-cases, [], arith, false, inl, inr, ltb, ltb→le, ltb→lt, refl, some, ℕ, ◌%◌, ◌*◌, ◌++◌, ◌+◌,
  ◌-◌, ◌/◌, ◌<◌, ◌==◌, ◌||◌, ◌∷◌, ◌≡◌, ◌≤◌, ◌⊎◌,
}
use f_rat_os.Io.{World, outb}
use f_rat_os.Timer.{Timer, divisor_of, set_frequency}
use mathlib.Core.List.{append_assoc}
use native.Mathlib.Nat.{div-eq-sub-div}

divisor_bounds : (f : ℕ) → (1 ≤ divisor_of f) × (divisor_of f ≤ 65535)
unfolding divisor_of
divisor_bounds f = (ground arith, ground arith)

divisor_cases :
    (f : ℕ)
    → 1 ≤ f
    → f ≤ 1193182
    → ((1193182 / f ≤ 65535) × (divisor_of f ≡ 1193182 / f))
      ⊎ ((65535 < 1193182 / f) × (divisor_of f ≡ 65535))
unfolding divisor_of
divisor_cases f low high =
    let one_more : 1193182 / f ≡ (1193182 - f) / f + 1 = div-eq-sub-div low high in
    elim (Bool-cases (ltb 65535 (1193182 / f))) [
      | inl e ↦ inr (ltb→lt 65535 (1193182 / f) e, ground arith)
      | inr e ↦ inl (ltb→le 65535 (1193182 / f) e, ground arith)
    ]

set_frequency-sends :
    (f : ℕ) (t : Timer) (w : World)
    → 1 ≤ f
    → f ≤ 1193182
    → set_frequency f t w
      ≡ some (
        record t { frequency = f },
        record w {
          writes =
              w.writes
              ++ ((67, 54) ∷ (64, divisor_of f % 256) ∷ (64, divisor_of f / 256 % 256) ∷ []);
        },
      )
unfolding set_frequency outb
set_frequency-sends f t w low high =
    let test : (f == 0 || ltb 1193182 f) ≡ false = ground arith in
    let join =
      append_assoc (w.writes ++ ((67, 54) ∷ [])) ((64, divisor_of f % 256) ∷ [])
        ((64, divisor_of f / 256 % 256) ∷ []) in
    rw
      (
        test,
        join,
        append_assoc w.writes ((67, 54) ∷ [])
            ((64, divisor_of f % 256) ∷ (64, divisor_of f / 256 % 256) ∷ []),
      )
      refl

-- `timer_set_frequency` of a frequency that the PIT can count, 1 to 1193182, sends the command
-- byte 0x36 and then the two bytes of one divisor, low byte first, and nothing else. The divisor
-- is between 1 and 65535 and is the base frequency divided by the one asked for, or 65535 if that
-- is more; and the driver remembers the frequency asked for.
pub set_frequency-writes :
    (f : ℕ) (t : Timer) (w : World)
    → 1 ≤ f
    → f ≤ 1193182
    → (d : ℕ) × (lo : ℕ) × (hi : ℕ) × (set_frequency f t w
        ≡ some (
          record t { frequency = f },
          record w { writes = w.writes ++ ((67, 54) ∷ (64, lo) ∷ (64, hi) ∷ []) },
        ))
      × (d ≡ lo + 256 * hi)
      × (lo < 256)
      × (hi < 256)
      × (1 ≤ d)
      × (((1193182 / f ≤ 65535) × (d ≡ 1193182 / f)) ⊎ ((65535 < 1193182 / f) × (d ≡ 65535)))
set_frequency-writes f t w low high =
    let d = divisor_of f in
    (
      d,
      d % 256,
      d / 256 % 256,
      set_frequency-sends f t w low high,
      ground (arith, (divisor_bounds f).1),
      omega arith,
      omega arith,
      (divisor_bounds f).0,
      divisor_cases f low high,
    )
