-- ===== src/Idt/Gates.antt =====
-- The gates that `idt_init` of kernel/idt.c leaves.
use f_rat_os.Base.{
  Bool-cases, arith, if◌then◌else◌, inl, inr, leb, ltb, refl, true, ℕ, ◌%◌, ◌&&◌, ◌*◌, ◌+◌, ◌-◌,
  ◌<◌, ◌==◌, ◌^◌, ◌≡◌, ◌≤◌,
}
use f_rat_os.Base.Loops.{count_up, count_up_inv}
use f_rat_os.Idt.{IdtEntry, clear_gates, gate_of, idt_set_gate, set_exceptions, set_irqs}

-- The address that the processor jumps to
abbrev pub gate_target : IdtEntry → ℕ
gate_target e = e.offset_low + e.offset_mid * 2 ^ 16 + e.offset_high * 2 ^ 32

-- A gate that is present, for interrupts, into the kernel's code segment.
pub record Leads (e : IdtEntry) (target : ℕ) : Type 0 where
  pub reaches : gate_target e ≡ target
  pub selects : e.selector ≡ 0x08
  pub kind : e.type_attr ≡ 0x8E
  pub no_stack : e.ist ≡ 0

pub gate_of-Leads : (handler : ℕ) → handler < 2 ^ 64 → Leads (gate_of handler 0x08 0x8E) handler
gate_of-Leads handler word = record {
  reaches = omega arith;
  selects = refl;
  kind = refl;
  no_stack = refl;
}

-- A run of calls for the vectors `b`, `b + 1`, …, `b + n - 1`
module _ (b n : ℕ) (at f : ℕ → ℕ) (selector type_attr : ℕ) (g : ℕ → IdtEntry)
    (place_of : (k : ℕ) → at k ≡ b + k) (room : b + n ≤ 256) where
  next_gate :
      (k : ℕ) (h : ℕ → IdtEntry) (v : ℕ)
      → k < n
      → h v ≡ (if leb b v && ltb v (b + k) then gate_of (f (v - b)) selector type_attr else g v)
      → idt_set_gate (at k) (f k) selector type_attr h v
        ≡ (if leb b v && ltb v (b + (k + 1)) then gate_of (f (v - b)) selector type_attr else g v)
  unfolding idt_set_gate
  next_gate k h v below e =
      let place : at k % 256 ≡ b + k = omega (arith, place_of k) in
      elim (Bool-cases (v == b + k)) [
        | inl same ↦
            let offset : v - b ≡ k = ground arith in
            let inside : (leb b v && ltb v (b + (k + 1))) ≡ true = ground arith in
            simp (place, same, inside, offset) refl
        | inr other ↦
            let unchanged : (leb b v && ltb v (b + (k + 1))) ≡ (leb b v && ltb v (b + k)) =
              ground arith in
            simp (place, other, unchanged, e) refl
      ]

  set_run :
      (v : ℕ)
      → count_up (λ i. idt_set_gate (at i) (f i) selector type_attr) n 0 g v
        ≡ (if leb b v && ltb v (b + n) then gate_of (f (v - b)) selector type_attr else g v)
  unfolding idt_set_gate
  set_run v =
      count_up_inv (λ i. idt_set_gate (at i) (f i) selector type_attr)
        (λ k h.
          h v ≡ (if leb b v && ltb v (b + k) then gate_of (f (v - b)) selector type_attr else g v))
        n 0 g (λ k h lo hi e. next_gate k h v (omega arith) e) (ground arith) n (omega arith)

-- The three runs of `idt_init`
module _ (g : ℕ → IdtEntry) (v : ℕ) where
  clear_gates_lem : clear_gates g v ≡ (if ltb v 256 then gate_of 0 0 0 else g v)
  unfolding clear_gates
  clear_gates_lem =
      let run = set_run 0 256 (λ i. i) (λ i. 0) 0 0 g (λ k. omega arith) (omega arith) v in
      ground (arith, run)

  set_exceptions_lem :
      (isr : ℕ → ℕ) → set_exceptions isr g v ≡ (if ltb v 32 then gate_of (isr v) 0x08 0x8E else g v)
  unfolding set_exceptions
  set_exceptions_lem isr =
      let run = set_run 0 32 (λ i. i) isr 8 0x8E g (λ k. omega arith) (omega arith) v in
      let offset : v - 0 ≡ v = omega arith in rw (run, offset) (ground arith)

  set_irqs_lem :
      (irq : ℕ → ℕ)
      → set_irqs irq g v ≡ (if leb 32 v && ltb v 48 then gate_of (irq (v - 32)) 0x08 0x8E else g v)
  unfolding set_irqs
  set_irqs_lem irq = set_run 32 16 (λ i. 32 + i) irq 8 0x8E g (λ k. refl) (omega arith) v

-- The gates after all calls of `idt_init`
unfoldable pub all_gates : (isr irq : ℕ → ℕ) (g : ℕ → IdtEntry) → ℕ → IdtEntry
all_gates isr irq g = set_irqs irq (set_exceptions isr (clear_gates g))

module _ (isr irq : ℕ → ℕ) (g : ℕ → IdtEntry) (v : ℕ) where
  pub all_gates_exception : v < 32 → all_gates isr irq g v ≡ gate_of (isr v) 0x08 0x8E
  unfolding all_gates
  all_gates_exception low =
      let upper = set_irqs_lem (set_exceptions isr (clear_gates g)) v irq in
      let lower = set_exceptions_lem (clear_gates g) v isr in ground (arith, upper, lower)

  pub all_gates_irq : 32 ≤ v → v < 48 → all_gates isr irq g v ≡ gate_of (irq (v - 32)) 0x08 0x8E
  unfolding all_gates
  all_gates_irq above below =
      let upper = set_irqs_lem (set_exceptions isr (clear_gates g)) v irq in ground (arith, upper)

  pub all_gates_absent : 48 ≤ v → v < 256 → all_gates isr irq g v ≡ gate_of 0 0 0
  unfolding all_gates
  all_gates_absent above below =
      let upper = set_irqs_lem (set_exceptions isr (clear_gates g)) v irq in
      let lower = set_exceptions_lem (clear_gates g) v isr in
      let cleared = clear_gates_lem g v in ground (arith, upper, lower, cleared)
