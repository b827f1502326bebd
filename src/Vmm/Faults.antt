-- ===== src/Vmm/Faults.antt =====
-- Where `vmm_get_pte` and `vmm_get_physical` of kernel/vmm.c do not do what is meant.
use f_rat_os.Base.{
  Option, add64, ap, false, if◌then◌else◌, none, not, some, true, ℕ, ◌%◌, ◌/◌, ◌^◌, ◌∙◌, ◌≡◌,
}
use f_rat_os.Vmm.{
  Vmm, align_down, entry_of, get_physical, get_pte, is_huge, is_present, pd_of, pdpt_of, pt_of,
  pte_get_addr,
}
use f_rat_os.Vmm.Walk.{
  after_step, entry4, from_pd, from_pdpt, from_pt, get_pte-steps, pd_of-link, pdpt_of-link,
}
use f_rat_os.Vmm.Paged.{is_link}
use mathlib.Core.Path.{subst}

-- Without `create` a page of 2 MB ends the walk.
pt_of-huge :
    (e : ℕ) (v : Vmm)
    → is_present (v.memory e) ≡ true
    → is_huge (v.memory e) ≡ true
    → pt_of false e v ≡ (none, v)
unfolding pt_of
pt_of-huge e v here huge = rw (here, huge)

-- `vmm_get_physical` tells 0, its sign of no mapping, for every address that a page of 2 MB maps.
pub get_physical-huge :
    (virt e4 e3 e2 : ℕ) (v : Vmm)
    → v.initialized ≡ true
    → e4 ≡ entry4 v (align_down virt)
    → is_link 4 (v.memory e4) ≡ true
    → e3 ≡ entry_of (pte_get_addr (v.memory e4)) (align_down virt / 2 ^ 30 % 2 ^ 9)
    → is_link 3 (v.memory e3) ≡ true
    → e2 ≡ entry_of (pte_get_addr (v.memory e3)) (align_down virt / 2 ^ 21 % 2 ^ 9)
    → is_present (v.memory e2) ≡ true
    → is_huge (v.memory e2) ≡ true
    → get_physical virt v ≡ (0, v)
unfolding get_physical
get_physical-huge virt e4 e3 e2 v on first l4 second l3 third here huge =
    let page = align_down virt in
    let none_found : get_pte page false v ≡ (none, v) =
      get_pte-steps v page false on
      ∙ ap (after_step (from_pdpt page false)) (
          subst (λ x. pdpt_of false x v ≡ (some (pte_get_addr (v.memory e4)), v)) first
            (pdpt_of-link false e4 v l4))
      ∙ ap (after_step (from_pd page false)) (
          subst (λ x. pd_of false x v ≡ (some (pte_get_addr (v.memory e3)), v)) second
            (pd_of-link false e3 v l3))
      ∙ ap (after_step (from_pt page))
          (subst (λ x. pt_of false x v ≡ (none, v)) third (pt_of-huge e2 v here huge)) in
    ap
      (λ (r : Option ℕ × Vmm). elim (r.0) [
        | none ↦ (0, r.1)
        | some e ↦
            if not (is_present (r.1.memory e))
            then (0, r.1)
            else (add64 (pte_get_addr (r.1.memory e)) (virt % 2 ^ 12), r.1)
      ])
      none_found
