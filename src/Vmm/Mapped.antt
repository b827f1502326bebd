-- ===== src/Vmm/Mapped.antt =====
-- What `vmm_map_page` and `vmm_unmap_page` of kernel/vmm.c do to the addresses that
-- `vmm_get_physical` tells.
use f_rat_os.Base.{ap, arith, false, sym, ℕ, ◌%◌, ◌*◌, ◌+◌, ◌/◌, ◌<◌, ◌^◌, ◌∙◌, ◌≡◌, ◌≢◌, ◌≤◌, ◌⊎◌}
use f_rat_os.Pmm.Bitmap.{bitmap_test}
use f_rat_os.Vmm.{Vmm, align_down, get_physical, pte_get_addr, set_pte}
use f_rat_os.Vmm.Paged.{IsLink, IsPaged}
use f_rat_os.Vmm.Walk.{IsWalk}
use f_rat_os.Vmm.Descend.{Walked}
use f_rat_os.Vmm.Set.{IsWalk-frame, e2-IsLink, e3-IsLink, e4-IsLink, walk-injective, walk_e}
use f_rat_os.Vmm.Map.{
  Rewritten, get_physical-walk, leaf-IsPaged, leaf-IsWalk, mapped_pte, physical_of,
  set_pte-Rewritten, set_pte-entry,
}
use mathlib.Core.Path.{subst}

-- The pages of `x` and `y` are different ones of the 2 ^ 36 that the tables tell apart.
abbrev pub OtherPage : ℕ → ℕ → Type 0
OtherPage x y = x / 2 ^ 12 % 2 ^ 36 ≢ y / 2 ^ 12 % 2 ^ 36

-- `virt` is not under the last entry of the PML4.
abbrev pub InTree : ℕ → Type 0
InTree virt = virt / 2 ^ 39 % 2 ^ 9 ≢ 511

-- A page other than that of `virt`, all of whose tables are there in `v`, has its address in `r`.
abbrev pub OthersStay : (virt : ℕ) (v r : Vmm) → Type 0
OthersStay virt v r =
    (x a4 a3 a2 a : ℕ)
    → InTree x
    → OtherPage x virt
    → IsWalk v (align_down x) a4 a3 a2 a
    → (get_physical x r).0 ≡ (get_physical x v).0

-- The page of `virt` has the frame of `phys` in `r`, and the other pages have what they had.
pub record Mapped (virt phys : ℕ) (v r : Vmm) : Type 0 where
  pub reads :
      (x : ℕ) → x / 4096 ≡ virt / 4096 → get_physical x r ≡ (pte_get_addr phys + x % 4096, r)
  pub others : OthersStay virt v r

-- A frame that holds a table, or that a new one may take
abbrev pub MayHold : (level : ℕ → ℕ) (v : Vmm) (p : ℕ) → Type 0
MayHold level v p =
    (1 ≤ level p) ⊎ ((p < v.pmm.highest_page) × (bitmap_test v.pmm.bitmap p ≡ false))

-- The pages through which the code reaches its tables, at their physical addresses, lead where they
-- led, as far as their own tables are all there.
abbrev pub TablesStay : (holds : ℕ → Type 0) (v r : Vmm) → Type 0
TablesStay holds v r =
    (p a4 a3 a2 a : ℕ)
    → holds p
    → InTree (p * 4096)
    → IsWalk v (align_down (p * 4096)) a4 a3 a2 a
    → (get_physical (p * 4096) r).0 ≡ (get_physical (p * 4096) v).0

-- `virt` is not in one of those pages.
abbrev pub NoTablePage : (holds : ℕ → Type 0) (virt : ℕ) → Type 0
NoTablePage holds virt = (p : ℕ) → holds p → OtherPage (p * 4096) virt

tree_page : (x : ℕ) → InTree x → InTree (align_down x)
tree_page x h = omega (arith, h)

module _ {level level' : ℕ → ℕ} {v v' : Vmm} (virt phys flags : ℕ) {e4 e3 e2 e : ℕ}
    (i : IsPaged level v) (inside : InTree virt)
    (w : Walked level level' (align_down virt) e4 e3 e2 e v v') where
  abbrev mapped : Vmm
  mapped = set_pte e (align_down phys) flags v'

  mapped-Rewritten : Rewritten e v' mapped
  mapped-Rewritten = set_pte-Rewritten e (align_down phys) flags v'

  mapped-IsPaged : IsPaged level' mapped
  mapped-IsPaged = leaf-IsPaged e w.paged w.last_level mapped-Rewritten

  mapped-reads :
      (x : ℕ)
      → x / 4096 ≡ virt / 4096
      → get_physical x mapped ≡ (pte_get_addr phys + x % 4096, mapped)
  mapped-reads x page =
      let here =
        leaf-IsWalk e w.paged w.last_level mapped-Rewritten (tree_page virt inside) w.walk in
      let same : align_down virt ≡ align_down x = omega (arith, page) in
      let here' = subst (λ y. IsWalk mapped y e4 e3 e2 e) same here in
      let (there, addr) = mapped_pte (align_down phys) flags in
      let aligned : pte_get_addr (align_down phys) ≡ pte_get_addr phys = omega arith in
      get_physical-walk x mapped-IsPaged.on here'
      ∙ ap (λ (y : ℕ). (physical_of y x, mapped)) (set_pte-entry e (align_down phys) flags v')
      ∙ ap (λ (y : ℕ). (y, mapped)) (rw there (omega (arith, addr, aligned)))

  mapped-others : OthersStay virt v mapped
  mapped-others x a4 a3 a2 a x_inside other walk =
      let at_x = tree_page x x_inside in
      let at_a = walk_e i at_x walk in
      let link = λ (b : ℕ) (l : IsLink level v b). w.kept b (omega (arith, l.high)) l.points in
      let walk' =
        IsWalk-frame w.root (link a4 (e4-IsLink i at_x walk)) (link a3 (e3-IsLink i at_x walk))
          (link a2 (e2-IsLink i at_x walk)) walk in
      let after_walk = leaf-IsWalk e w.paged w.last_level mapped-Rewritten at_x walk' in
      let apart : a ≢ e = λ same.
        let page = walk-injective w.paged at_x (tree_page virt inside) walk' w.walk same in
        other (omega (arith, page)) in
      let word : mapped.memory a ≡ v.memory a = mapped-Rewritten.memory a apart ∙ w.leaves a at_a in
      ap (λ (r : ℕ × Vmm). r.0) (get_physical-walk x mapped-IsPaged.on after_walk)
      ∙ ap (λ (y : ℕ). physical_of y x) word
      ∙ sym (ap (λ (r : ℕ × Vmm). r.0) (get_physical-walk x i.on walk))

  pub mapped-Mapped : Mapped virt phys v mapped
  mapped-Mapped = record { reads = mapped-reads; others = mapped-others }
