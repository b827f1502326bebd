-- ===== src/Vmm/Step.antt =====
-- One step of the walk of `vmm_get_pte` in kernel/vmm.c, from an entry to the table that it points
-- to: what it finds or makes, and that it keeps the tree of tables.
use f_rat_os.Base.{
  ==_self, ==→eq, ==→ne, Bool-cases, Option, ap, arith, false, if◌then◌else◌, inl, inr, ne→==, none,
  refl, some, suc, sym, true, ℕ, ◌%◌, ◌*◌, ◌+◌, ◌/◌, ◌<◌, ◌==◌, ◌^◌, ◌∙◌, ◌≡◌, ◌≢◌, ◌≤◌, ◌⊎◌,
}
use f_rat_os.Pmm.Bitmap.{bitmap_test}
use f_rat_os.Vmm.{Vmm, is_huge, is_present, pte_create, pte_get_addr}
use f_rat_os.Vmm.Paged.{Fresh, IsLink, IsPaged, handed, handed-IsPaged, is_link}
use mathlib.Core.Path.{subst}

-- From `v` the step at entry `e` comes to table `t` and leaves `v'`, in which the entry points to
-- `t`, and no other word of a table has changed.
pub record Stepped (level level' : ℕ → ℕ) (e t : ℕ) (v v' : Vmm) : Type 0 where
  pub paged : IsPaged level' v'
  pub grows : (p : ℕ) → 1 ≤ level p → level' p ≡ level p
  pub target : level' (t / 4096) + 1 ≡ level (e / 4096)
  pub aligned : t % 4096 ≡ 0
  pub small : t < 2 ^ 52
  pub link : is_link (level (e / 4096)) (v'.memory e) ≡ true
  pub goes : pte_get_addr (v'.memory e) ≡ t
  pub frame : (a : ℕ) → a ≢ e → 1 ≤ level (a / 4096) → v'.memory a ≡ v.memory a
  pub kept :
      (a : ℕ)
      → 1 ≤ level (a / 4096)
      → is_link (level (a / 4096)) (v.memory a) ≡ true
      → v'.memory a ≡ v.memory a
  pub root : v'.kernel_pml4 ≡ v.kernel_pml4

-- What a step does: it gives up, or it comes to a table.
abbrev pub Outcome : (level : ℕ → ℕ) (e : ℕ) (v : Vmm) (r : Option ℕ × Vmm) → Type 0
Outcome level e v r =
    ((r.0 ≡ none) × IsPaged level r.1)
    ⊎ ((t : ℕ) × (level' : ℕ → ℕ) × (r.0 ≡ some t) × Stepped level level' e t v r.1)

-- The levels with a new table in frame `p`.
abbrev pub with_table : (level : ℕ → ℕ) (p k : ℕ) → ℕ → ℕ
with_table level p k q = if q == p then k else level q

-- The entry for a table in frame `p`.
table_pte :
    (p : ℕ)
    → p < 2 ^ 32
    → (pte_get_addr (pte_create (p * 4096) 3) ≡ p * 4096)
      × (is_present (pte_create (p * 4096) 3) ≡ true)
      × (is_huge (pte_create (p * 4096) 3) ≡ false)
unfolding pte_create
table_pte p h = (omega arith, ground arith, ground arith)

module _ {level : ℕ → ℕ} {v : Vmm} (i : IsPaged level v) (e : ℕ) where
  -- An entry that points to a table.
  pub present-Stepped :
      2 ≤ level (e / 4096)
      → e ≢ v.kernel_pml4 + 4088
      → is_link (level (e / 4096)) (v.memory e) ≡ true
      → Stepped level level e (pte_get_addr (v.memory e)) v v
  present-Stepped high other link = record {
    paged = i;
    grows = λ p h. refl;
    target = i.down e (record { other = other; high = high; points = link });
    aligned = omega arith;
    small = omega arith;
    link = link;
    goes = refl;
    frame = λ a ne h. refl;
    kept = λ a h l. refl;
    root = refl;
  }

  -- A new table in the next frame, at level `k`, with the memory `m` and the count `c`.
  module _ (p k c : ℕ) (m : ℕ → ℕ) (f : Fresh level v p) (at_e : level (e / 4096) ≡ suc k)
      (pos : 1 ≤ k) (unlinked : is_link (level (e / 4096)) (v.memory e) ≡ false)
      (entry : m e ≡ pte_create (p * 4096) 3)
      (rest : (a : ℕ) → a ≢ e → a / 4096 ≢ p → m a ≡ v.memory a)
      (empty : 2 ≤ k → (a : ℕ) → a / 4096 ≡ p → is_present (m a) ≡ false) where
    abbrev made : Vmm
    made = record (handed v) { memory = m; page_tables_allocated = c }

    off_page : (q : ℕ) → 1 ≤ level q → q ≢ p
    off_page q h same = omega (arith, h, f.untabled, ap level same)

    level_other : (q : ℕ) → q ≢ p → with_table level p k q ≡ level q
    level_other q h = rw (ne→== q p h)

    level_self : with_table level p k p ≡ k
    level_self = rw (==_self p)

    e_other : e / 4096 ≢ p
    e_other = off_page (e / 4096) (omega (arith, at_e))

    down_entry :
        with_table level p k (pte_get_addr (m e) / 4096) + 1 ≡ with_table level p k (e / 4096)
    down_entry =
        let frame_of_target : pte_get_addr (m e) / 4096 ≡ p =
          rw entry (omega (arith, (table_pte p f.below).0)) in
        omega (
          arith,
          ap (with_table level p k) frame_of_target,
          level_self,
          level_other (e / 4096) e_other,
          at_e,
        )

    -- Any other entry that points to a table did so before.
    old-IsLink :
        (a : ℕ) → a ≢ e → a / 4096 ≢ p → IsLink (with_table level p k) made a → IsLink level v a
    old-IsLink a ne off l =
        let at_old = level_other (a / 4096) off in
        let same = rest a ne off in
        record {
          other = l.other;
          high = omega (arith, l.high, at_old);
          points = subst (λ n. is_link n (v.memory a) ≡ true) at_old (rw same at (l.points));
        }

    -- The new table is empty.
    no_link_in_page : (a : ℕ) → a / 4096 ≡ p → IsLink (with_table level p k) made a → ⊥
    no_link_in_page a at_p l =
        let at_k : with_table level p k (a / 4096) ≡ k =
          ap (with_table level p k) at_p ∙ level_self in
        let is_absent = empty (omega (arith, l.high, at_k)) a at_p in
        ground (arith, l.points, is_absent)

    -- The frame of an old table is not the new one.
    old_target : (a : ℕ) → IsLink level v a → pte_get_addr (v.memory a) / 4096 ≢ p
    old_target a l = off_page (pte_get_addr (v.memory a) / 4096) (omega (arith, i.down a l, l.high))

    made-down :
        (a : ℕ)
        → IsLink (with_table level p k) made a
        → with_table level p k (pte_get_addr (m a) / 4096) + 1 ≡ with_table level p k (a / 4096)
    made-down a l = elim (Bool-cases (a / 4096 == p)) [
      | inl same ↦ absurd (no_link_in_page a (==→eq (a / 4096) p same) l)
      | inr off ↦
          let off' = ==→ne (a / 4096) p off in
          elim (Bool-cases (a == e)) [
            | inl same ↦
                subst
                  (λ x.
                    with_table level p k (pte_get_addr (m x) / 4096) + 1
                    ≡ with_table level p k (x / 4096))
                  (sym (==→eq a e same)) down_entry
            | inr ne ↦
                let ne' = ==→ne a e ne in
                let old = old-IsLink a ne' off' l in
                omega (
                  arith,
                  i.down a old,
                  ap (λ (x : ℕ). with_table level p k (pte_get_addr x / 4096)) (rest a ne' off'),
                  level_other (pte_get_addr (v.memory a) / 4096) (old_target a old),
                  level_other (a / 4096) off',
                )
          ]
    ]

    -- An entry that points to the new table is the one at `e`.
    only_entry :
        (a : ℕ)
        → IsLink (with_table level p k) made a
        → pte_get_addr (m a) ≡ pte_get_addr (m e)
        → a ≡ e
    only_entry a l same = elim (Bool-cases (a == e)) [
      | inl at_entry ↦ ==→eq a e at_entry
      | inr ne ↦
          let ne' = ==→ne a e ne in
          let off : a / 4096 ≢ p = λ at_p. no_link_in_page a at_p l in
          let old = old-IsLink a ne' off l in
          absurd (
            old_target a old (
              omega (
                arith,
                ap pte_get_addr (rest a ne' off),
                same,
                ap pte_get_addr entry,
                (table_pte p f.below).0,
              )))
    ]

    made-single :
        (a b : ℕ)
        → IsLink (with_table level p k) made a
        → IsLink (with_table level p k) made b
        → pte_get_addr (m a) ≡ pte_get_addr (m b)
        → a ≡ b
    made-single a b l r same = elim (Bool-cases (a == e)) [
      | inl at_entry ↦
          let e' = ==→eq a e at_entry in
          e' ∙ sym (only_entry b r (sym same ∙ ap (λ (x : ℕ). pte_get_addr (m x)) e'))
      | inr ne ↦ elim (Bool-cases (b == e)) [
        | inl at_entry ↦
            let e' = ==→eq b e at_entry in
            only_entry a l (same ∙ ap (λ (x : ℕ). pte_get_addr (m x)) e') ∙ sym e'
        | inr ne_b ↦
            let off_a : a / 4096 ≢ p = λ at_p. no_link_in_page a at_p l in
            let off_b : b / 4096 ≢ p = λ at_p. no_link_in_page b at_p r in
            let a_other = ==→ne a e ne in
            let b_other = ==→ne b e ne_b in
            i.single a b (old-IsLink a a_other off_a l) (old-IsLink b b_other off_b r) (
              ap pte_get_addr (sym (rest a a_other off_a))
              ∙ same
              ∙ ap pte_get_addr (rest b b_other off_b))
      ]
    ]

    taken_after :
        (q : ℕ) → 1 ≤ level q → q < made.pmm.highest_page → bitmap_test made.pmm.bitmap q ≡ true
    taken_after q h inside = (handed-IsPaged i).taken q h inside

    made-taken :
        (q : ℕ)
        → 1 ≤ with_table level p k q
        → q < made.pmm.highest_page
        → bitmap_test made.pmm.bitmap q ≡ true
    made-taken q h inside = elim (Bool-cases (q == p)) [
      | inl same ↦ f.bits.bits q ∙ ground arith
      | inr off ↦ taken_after q (rw off at h) inside
    ]

    made-clear :
        (a : ℕ)
        → a / 4096 < made.pmm.highest_page
        → bitmap_test made.pmm.bitmap (a / 4096) ≡ false
        → m a ≡ 0
    made-clear a inside free =
        let off : a / 4096 ≢ p = λ same. ground (arith, f.bits.bits (a / 4096), same) in
        let ne : a ≢ e = λ same.
          let used =
            taken_after (a / 4096)
              (rw (ap (λ (x : ℕ). level (x / 4096)) same) (omega (arith, at_e))) inside in
          cc in
        rest a ne off ∙ (handed-IsPaged i).clear a inside free

    made-IsPaged : IsPaged (with_table level p k) made
    made-IsPaged = record {
      on = i.on;
      pmm_valid = (handed-IsPaged i).pmm_valid;
      pmm_on = (handed-IsPaged i).pmm_on;
      aligned = i.aligned;
      low = i.low;
      root =
          level_other (v.kernel_pml4 / 4096)
            (off_page (v.kernel_pml4 / 4096) (omega (arith, i.root)))
          ∙ i.root;
      down = made-down;
      single = made-single;
      taken = made-taken;
      clear = made-clear;
    }

    pub made-Stepped : Stepped level (with_table level p k) e (p * 4096) v made
    made-Stepped = record {
      paged = made-IsPaged;
      grows = λ q h. level_other q (off_page q h);
      target =
          let frame_of_target : p * 4096 / 4096 ≡ p = omega arith in
          omega (arith, ap (with_table level p k) frame_of_target, level_self, at_e);
      aligned = omega arith;
      small = omega (arith, f.below);
      link = ground (arith, entry, (table_pte p f.below).1, (table_pte p f.below).2);
      goes = rw entry (table_pte p f.below).0;
      frame = λ a ne h. rest a ne (off_page (a / 4096) h);
      kept = λ a h l.
          rest a
            (λ same.
              let linked = subst (λ x. is_link (level (x / 4096)) (v.memory x) ≡ true) same l in cc)
            (off_page (a / 4096) h);
      root = refl;
    }
