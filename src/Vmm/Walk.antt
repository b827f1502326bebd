-- ===== src/Vmm/Walk.antt =====
-- The whole walk of `vmm_get_pte` in kernel/vmm.c.
use f_rat_os.Base.{
  Bool, Option, ap, arith, if◌then◌else◌, none, not, some, sym, true, ℕ, ◌%◌, ◌/◌, ◌^◌, ◌∙◌, ◌≡◌,
}
use f_rat_os.Vmm.{
  Vmm, Walk, entry_of, get_pte, parse_address, pd_of, pdpt_of, pt_of, pte_get_addr, ◌>>=◌,
}
use f_rat_os.Vmm.Paged.{is_link}
use mathlib.Core.Path.{subst}

abbrev pub entry4 : (v : Vmm) (virt : ℕ) → ℕ
entry4 v virt = entry_of v.kernel_pml4 (virt / 2 ^ 39 % 2 ^ 9)

-- The walk of `virt` in `v` goes by the entries at `e4`, `e3` and `e2` to the entry at `e`.
pub record IsWalk (v : Vmm) (virt e4 e3 e2 e : ℕ) : Type 0 where
  pub first : e4 ≡ entry4 v virt
  pub link4 : is_link 4 (v.memory e4) ≡ true
  pub second : e3 ≡ entry_of (pte_get_addr (v.memory e4)) (virt / 2 ^ 30 % 2 ^ 9)
  pub link3 : is_link 3 (v.memory e3) ≡ true
  pub third : e2 ≡ entry_of (pte_get_addr (v.memory e3)) (virt / 2 ^ 21 % 2 ^ 9)
  pub link2 : is_link 2 (v.memory e2) ≡ true
  pub last : e ≡ entry_of (pte_get_addr (v.memory e2)) (virt / 2 ^ 12 % 2 ^ 9)

-- An entry that points to a table leads to it, whether tables may be made or not.
module _ (create : Bool) (e : ℕ) (v : Vmm) where
  pub pdpt_of-link :
      is_link 4 (v.memory e) ≡ true → pdpt_of create e v ≡ (some (pte_get_addr (v.memory e)), v)
  unfolding pdpt_of
  pdpt_of-link l = ground arith

  pub pd_of-link :
      is_link 3 (v.memory e) ≡ true → pd_of create e v ≡ (some (pte_get_addr (v.memory e)), v)
  unfolding pd_of
  pd_of-link l = ground arith

  pt_of-link :
      is_link 2 (v.memory e) ≡ true → pt_of create e v ≡ (some (pte_get_addr (v.memory e)), v)
  unfolding pt_of
  pt_of-link l = ground arith

-- The walk goes on with what a step has found.
abbrev pub after_step : (ℕ → Walk) → Option ℕ × Vmm → Option ℕ × Vmm
after_step f r = elim (r.0) [ none ↦ (none, r.1) | some t ↦ f t r.1 ]

-- The last two steps.
abbrev pub from_pt : (virt : ℕ) → ℕ → Walk
from_pt virt pt w = (some (entry_of pt (virt / 2 ^ 12 % 2 ^ 9)), w)

abbrev pub from_pd : (virt : ℕ) (create : Bool) → ℕ → Walk
from_pd virt create pd = pt_of create (entry_of pd (virt / 2 ^ 21 % 2 ^ 9)) >>= from_pt virt

abbrev pub from_pdpt : (virt : ℕ) (create : Bool) → ℕ → Walk
from_pdpt virt create pdpt =
    pd_of create (entry_of pdpt (virt / 2 ^ 30 % 2 ^ 9)) >>= from_pd virt create

pub get_pte-steps :
    (v : Vmm) (virt : ℕ) (create : Bool)
    → v.initialized ≡ true
    → get_pte virt create v ≡ (pdpt_of create (entry4 v virt) >>= from_pdpt virt create) v
unfolding get_pte parse_address
get_pte-steps v virt create on =
    ap
      (λ (b : Bool).
        if not b
        then (let r : Option ℕ × Vmm = (none, v) in r)
        else (pdpt_of create (entry4 v virt) >>= from_pdpt virt create) v)
      on

-- `vmm_get_pte` follows the walk and changes nothing, whether it may make tables or not.
pub get_pte-walk :
    {v : Vmm} {virt e4 e3 e2 e : ℕ} (create : Bool)
    → v.initialized ≡ true
    → IsWalk v virt e4 e3 e2 e
    → get_pte virt create v ≡ (some e, v)
get_pte-walk {v} {virt} {e4} {e3} {e2} {e} create on w =
    get_pte-steps v virt create on
    ∙ ap (after_step (from_pdpt virt create)) (
        subst (λ x. pdpt_of create x v ≡ (some (pte_get_addr (v.memory e4)), v)) w.first
          (pdpt_of-link create e4 v w.link4))
    ∙ ap (after_step (from_pd virt create)) (
        subst (λ x. pd_of create x v ≡ (some (pte_get_addr (v.memory e3)), v)) w.second
          (pd_of-link create e3 v w.link3))
    ∙ ap (after_step (from_pt virt)) (
        subst (λ x. pt_of create x v ≡ (some (pte_get_addr (v.memory e2)), v)) w.third
          (pt_of-link create e2 v w.link2))
    ∙ ap (λ x. (some x, v)) (sym w.last)
