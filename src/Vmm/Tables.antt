-- ===== src/Vmm/Tables.antt =====
-- The three steps of the walk of `vmm_get_pte` in kernel/vmm.c, down from the PML4: each keeps the
-- tree of tables, whether it finds a table, makes one, splits a page of 2 MB or gives up.
use f_rat_os.Base.{
  ==_self, add64, ap, arith, false, if_elim, if◌then◌else◌, inl, inr, ne→==, not, refl, some, suc,
  sym, true, ℕ, ◌*◌, ◌+◌, ◌/◌, ◌<◌, ◌==◌, ◌^◌, ◌∙◌, ◌≡◌, ◌≢◌, ◌≤◌,
}
use f_rat_os.Base.Loops.{count_up_inv}
use f_rat_os.Vmm.{
  Vmm, count_table, entry_of, fill_table, is_huge, is_present, new_table, pd_of, pdpt_of, pt_of,
  pte_create, pte_get_addr, split_huge, write,
}
use f_rat_os.Vmm.Paged.{Fresh, IsPaged, alloc-cases, handed, handed-IsPaged, is_link}
use f_rat_os.Vmm.Step.{Outcome, made-Stepped, present-Stepped, with_table}
use mathlib.Core.Path.{subst}

-- The loop that fills a table writes its frame, and nothing else.
fill_table-frame :
    (p base flags : ℕ) (v : Vmm)
    → p < 2 ^ 32
    → (fill_table (p * 4096) base flags v
        ≡ record v { memory = (fill_table (p * 4096) base flags v).memory })
      × ((a : ℕ) → a / 4096 ≢ p → (fill_table (p * 4096) base flags v).memory a ≡ v.memory a)
unfolding fill_table
fill_table-frame p base flags v low =
    count_up_inv _
      (λ _ w.
        (w ≡ record v { memory = w.memory }) × ((a : ℕ) → a / 4096 ≢ p → w.memory a ≡ v.memory a))
      512 0 v
      (λ k w _ small kept. (
        ap (λ x. write (entry_of (p * 4096) k) (pte_create (add64 base (k * 4096)) flags) x) kept.0
            ∙ refl,
        λ a off.
            let inside : entry_of (p * 4096) k / 4096 ≡ p = omega arith in
            ground (arith, kept.1 a off, inside),
      ))
      (refl, λ a off. refl) 512 refl

module _ {level : ℕ → ℕ} {v : Vmm} (i : IsPaged level v) (e : ℕ) where
  module _ (k : ℕ) (at_e : level (e / 4096) ≡ suc k) (pos : 1 ≤ k)
      (unlinked : is_link (level (e / 4096)) (v.memory e) ≡ false) where
    new_table-made :
        (p : ℕ)
        → Fresh level v p
        → Outcome level e v
            (some (p * 4096), count_table (write e (pte_create (p * 4096) 3) (handed v)))
    new_table-made p f =
        let m : ℕ → ℕ = λ a. if a == e then pte_create (p * 4096) 3 else v.memory a in
        inr (
          p * 4096,
          with_table level p k,
          refl,
          made-Stepped i e p k (add64 v.page_tables_allocated 1) m f at_e pos unlinked
              (rw (==_self e)) (λ a ne off. rw (ne→== a e ne))
              (λ _ a at_p. ground (arith, f.zero_words a at_p, table_pte_other p f)),
        )
      where
        table_pte_other : (p : ℕ) → Fresh level v p → e / 4096 ≢ p
        table_pte_other p f same = omega (arith, ap level same, f.untabled, at_e)

    new_table-Outcome : Outcome level e v (new_table e v)
    unfolding new_table
    new_table-Outcome = elim (alloc-cases i) [
      | inl none_left ↦ rw none_left (inl (refl, handed-IsPaged i))
      | inr (p, f) ↦ rw f.addr (
          if_elim (Outcome level e v) (p * 4096 == 0) (λ _. inl (refl, handed-IsPaged i))
            (λ _. new_table-made p f))
    ]

  pub pdpt_of-Outcome :
      level (e / 4096) ≡ 4 → e ≢ v.kernel_pml4 + 4088 → Outcome level e v (pdpt_of true e v)
  unfolding pdpt_of
  pdpt_of-Outcome at_e other =
      if_elim (Outcome level e v) (is_present (v.memory e))
        (λ here. inr (
          pte_get_addr (v.memory e),
          level,
          refl,
          present-Stepped i e (omega (arith, at_e)) other (ground (arith, here, at_e)),
        ))
        (λ missing. new_table-Outcome 3 at_e (omega arith) (ground arith))

  pub pd_of-Outcome :
      level (e / 4096) ≡ 3 → e ≢ v.kernel_pml4 + 4088 → Outcome level e v (pd_of true e v)
  unfolding pd_of
  pd_of-Outcome at_e other =
      if_elim (Outcome level e v) (not (is_present (v.memory e)))
        (λ missing. new_table-Outcome 2 at_e (omega arith) (ground arith))
        λ here.
          if_elim (Outcome level e v) (is_huge (v.memory e)) (λ _. inl (refl, i))
            λ plain. inr (
              pte_get_addr (v.memory e),
              level,
              refl,
              present-Stepped i e (omega (arith, at_e)) other (ground (arith, here, plain, at_e)),
            )

  split_huge-made :
      (p base flags : ℕ)
      → level (e / 4096) ≡ 2
      → is_link (level (e / 4096)) (v.memory e) ≡ false
      → Fresh level v p
      → Outcome level e v (
        some (p * 4096),
        count_table
            (write e (pte_create (p * 4096) 3) (fill_table (p * 4096) base flags (handed v))),
      )
  split_huge-made p base flags at_e unlinked f =
      let (same, frame) = fill_table-frame p base flags (handed v) f.below in
      let filled = fill_table (p * 4096) base flags (handed v) in
      let m : ℕ → ℕ = λ a. if a == e then pte_create (p * 4096) 3 else filled.memory a in
      subst
        (λ (w : Vmm).
          Outcome level e v (some (p * 4096), count_table (write e (pte_create (p * 4096) 3) w)))
        (sym same)
        (inr (
          p * 4096,
          with_table level p 1,
          refl,
          made-Stepped i e p 1 (add64 v.page_tables_allocated 1) m f at_e (omega arith) unlinked
              (rw (==_self e)) (λ a ne off. rw (ne→== a e ne) (frame a off))
              (λ high. absurd (omega arith)),
        ))

  split_huge-Outcome :
      level (e / 4096) ≡ 2
      → is_link (level (e / 4096)) (v.memory e) ≡ false
      → Outcome level e v (split_huge e v)
  unfolding split_huge
  split_huge-Outcome at_e unlinked = elim (alloc-cases i) [
    | inl none_left ↦ rw none_left (inl (refl, handed-IsPaged i))
    | inr (p, f) ↦ rw f.addr (
        if_elim (Outcome level e v) (p * 4096 == 0) (λ _. inl (refl, handed-IsPaged i))
          (λ _. split_huge-made p _ _ at_e unlinked f))
  ]

  pub pt_of-Outcome :
      level (e / 4096) ≡ 2 → e ≢ v.kernel_pml4 + 4088 → Outcome level e v (pt_of true e v)
  unfolding pt_of
  pt_of-Outcome at_e other =
      if_elim (Outcome level e v) (not (is_present (v.memory e)))
        (λ missing. new_table-Outcome 1 at_e (omega arith) (ground arith))
        λ here.
          if_elim (Outcome level e v) (is_huge (v.memory e))
            (λ huge. split_huge-Outcome at_e (ground arith))
            λ plain. inr (
              pte_get_addr (v.memory e),
              level,
              refl,
              present-Stepped i e (omega (arith, at_e)) other (ground (arith, here, plain, at_e)),
            )
