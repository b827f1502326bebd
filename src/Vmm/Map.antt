-- ===== src/Vmm/Map.antt =====
-- Writes to the last entries of the page tables of kernel/vmm.c, and what `vmm_get_physical` reads.
use f_rat_os.Base.{
  add64, ap, arith, false, if◌then◌else◌, sym, true, ℕ, ◌%◌, ◌*◌, ◌+◌, ◌/◌, ◌<◌, ◌^◌, ◌∙◌, ◌≡◌, ◌≢◌,
  ◌≤◌,
}
use f_rat_os.Pmm.{Pmm}
use f_rat_os.Pmm.Bitmap.{bitmap_test}
use f_rat_os.Pmm.Valid.{IsValid}
use f_rat_os.Vmm.{Vmm, align_down, get_physical, is_present, pte_create, pte_get_addr, set_pte}
use f_rat_os.Vmm.Paged.{IsLink, IsPaged, is_link}
use f_rat_os.Vmm.Walk.{IsWalk, get_pte-walk}
use f_rat_os.Vmm.Set.{IsWalk-frame, walk_e2, walk_e3, walk_e4}
use mathlib.Core.Path.{subst}

-- `r` is `v` with another word at `e`, and maybe other counts.
pub record Rewritten (e : ℕ) (v r : Vmm) : Type 0 where
  pub root : r.kernel_pml4 ≡ v.kernel_pml4
  pub on : r.initialized ≡ v.initialized
  pub pmm : r.pmm ≡ v.pmm
  pub memory : (a : ℕ) → a ≢ e → r.memory a ≡ v.memory a

module _ {level : ℕ → ℕ} {v r : Vmm} (e : ℕ) (i : IsPaged level v) (at_e : level (e / 4096) ≡ 1)
    (k : Rewritten e v r) where
  not_e : (a : ℕ) → 2 ≤ level (a / 4096) → a ≢ e
  not_e a h same = omega (arith, h, at_e, ap (λ (x : ℕ). level (x / 4096)) same)

  old-IsLink : (a : ℕ) → IsLink level r a → IsLink level v a
  old-IsLink a l = record {
    other = λ same. l.other (same ∙ ap (λ (x : ℕ). x + 4088) (sym k.root));
    high = l.high;
    points =
        subst (λ x. is_link (level (a / 4096)) x ≡ true) (k.memory a (not_e a l.high)) l.points;
  }

  -- The tree does not hang on the words of the tables of level 1.
  pub leaf-IsPaged : IsPaged level r
  leaf-IsPaged = record {
    on = k.on ∙ i.on;
    pmm_valid = subst IsValid (sym k.pmm) i.pmm_valid;
    pmm_on = ap (λ (x : Pmm). x.initialized) k.pmm ∙ i.pmm_on;
    aligned = ap (λ (x : ℕ). x % 4096) k.root ∙ i.aligned;
    low = subst (λ x. x < 2 ^ 52) (sym k.root) i.low;
    root = ap (λ (x : ℕ). level (x / 4096)) k.root ∙ i.root;
    down = λ a l.
        ap (λ (x : ℕ). level (pte_get_addr x / 4096) + 1) (k.memory a (not_e a l.high))
        ∙ i.down a (old-IsLink a l);
    single = λ a b l z same. i.single a b (old-IsLink a l) (old-IsLink b z) (
        ap pte_get_addr (sym (k.memory a (not_e a l.high)))
        ∙ same
        ∙ ap pte_get_addr (k.memory b (not_e b z.high)));
    taken = λ p h inside.
        subst (λ (x : Pmm). bitmap_test x.bitmap p ≡ true) (sym k.pmm)
          (i.taken p h (subst (λ (x : Pmm). p < x.highest_page) k.pmm inside));
    clear = λ a inside free.
        let inside' = subst (λ (x : Pmm). a / 4096 < x.highest_page) k.pmm inside in
        let free' = subst (λ (x : Pmm). bitmap_test x.bitmap (a / 4096) ≡ false) k.pmm free in
        k.memory a (λ same.
          let used =
            i.taken (a / 4096) (omega (arith, ap (λ (x : ℕ). level (x / 4096)) same, at_e))
              inside' in
          cc)
        ∙ i.clear a inside' free';
  }

  -- Nor do the walks.
  pub leaf-IsWalk :
      {virt a4 a3 a2 a : ℕ}
      → virt / 2 ^ 39 % 2 ^ 9 ≢ 511
      → IsWalk v virt a4 a3 a2 a
      → IsWalk r virt a4 a3 a2 a
  leaf-IsWalk {virt} {a4} {a3} {a2} {a} inside w =
      IsWalk-frame k.root (k.memory a4 (not_e a4 (omega (arith, walk_e4 i inside w))))
        (k.memory a3 (not_e a3 (omega (arith, walk_e3 i inside w))))
        (k.memory a2 (not_e a2 (omega (arith, walk_e2 i inside w)))) w

pub set_pte-Rewritten : (e phys flags : ℕ) (v : Vmm) → Rewritten e v (set_pte e phys flags v)
unfolding set_pte
set_pte-Rewritten e phys flags v = record {
  root = ground arith;
  on = ground arith;
  pmm = ground arith;
  memory = λ a h. ground arith;
}

pub set_pte-entry :
    (e phys flags : ℕ) (v : Vmm)
    → (set_pte e phys flags v).memory e ≡ pte_create phys (flags / 2 * 2 + 1)
unfolding set_pte
set_pte-entry e phys flags v = ground arith

-- A mapped entry is present and holds the address.
pub mapped_pte :
    (phys flags : ℕ)
    → (is_present (pte_create phys (flags / 2 * 2 + 1)) ≡ true)
      × (pte_get_addr (pte_create phys (flags / 2 * 2 + 1)) ≡ pte_get_addr phys)
unfolding pte_create
mapped_pte phys flags = (ground arith, omega arith)

-- What `vmm_get_physical` reads off the entry of a walk.
abbrev pub physical_of : (pte virt : ℕ) → ℕ
physical_of pte virt = if is_present pte then pte_get_addr pte + virt % 2 ^ 12 else 0

pub get_physical-walk :
    {v : Vmm} {e4 e3 e2 e : ℕ} (virt : ℕ)
    → v.initialized ≡ true
    → IsWalk v (align_down virt) e4 e3 e2 e
    → get_physical virt v ≡ (physical_of (v.memory e) virt, v)
unfolding get_physical
get_physical-walk {v} {e = e} virt on w =
    let word : add64 (pte_get_addr (v.memory e)) (virt % 2 ^ 12)
        ≡ pte_get_addr (v.memory e) + virt % 2 ^ 12 =
      omega arith in
    ground (arith, get_pte-walk false on w, word)
