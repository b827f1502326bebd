-- ===== src/Vmm/Set.antt =====
-- Walks in a tree of the tables of kernel/vmm.c: their levels, that two pages have no entry in
-- common, and what a write to a last entry leaves.
use f_rat_os.Base.{ap, arith, suc, sym, true, ℕ, ◌%◌, ◌+◌, ◌/◌, ◌<◌, ◌^◌, ◌∙◌, ◌≡◌, ◌≢◌, ◌≤◌}
use f_rat_os.Vmm.{Vmm, entry_of, pte_get_addr}
use f_rat_os.Vmm.Paged.{IsLink, IsPaged, is_link}
use f_rat_os.Vmm.Walk.{IsWalk}
use f_rat_os.Vmm.Descend.{entry_frame, level_e4, self_other}
use mathlib.Core.Path.{subst}

module _ {level : ℕ → ℕ} {v : Vmm} (i : IsPaged level v) where
  -- One link down.
  next_level :
      (a n k : ℕ)
      → a ≢ v.kernel_pml4 + 4088
      → 1 ≤ k
      → level (a / 4096) ≡ suc k
      → is_link (suc k) (v.memory a) ≡ true
      → n < 512
      → level (entry_of (pte_get_addr (v.memory a)) n / 4096) ≡ k
  next_level a n k other pos at_a link small =
      let down = i.down a (record {
        other = other;
        high = omega (arith, at_a);
        points = subst (λ x. is_link x (v.memory a) ≡ true) (sym at_a) link;
      }) in
      omega (
        arith,
        down,
        at_a,
        ap level (entry_frame (pte_get_addr (v.memory a)) n (omega arith) (omega arith) small),
      )

  module _ {virt e4 e3 e2 e : ℕ} (inside : virt / 2 ^ 39 % 2 ^ 9 ≢ 511)
      (w : IsWalk v virt e4 e3 e2 e) where
    pub walk_e4 : level (e4 / 4096) ≡ 4
    walk_e4 = ap (λ (x : ℕ). level (x / 4096)) w.first ∙ level_e4 virt i

    e4_other : e4 ≢ v.kernel_pml4 + 4088
    e4_other = omega (arith, w.first, i.low, inside)

    pub walk_e3 : level (e3 / 4096) ≡ 3
    walk_e3 =
        ap (λ (x : ℕ). level (x / 4096)) w.second
        ∙ next_level e4 _ 3 e4_other (omega arith) walk_e4 w.link4 (omega arith)

    e3_other : e3 ≢ v.kernel_pml4 + 4088
    e3_other = self_other e3 i (omega (arith, walk_e3))

    pub walk_e2 : level (e2 / 4096) ≡ 2
    walk_e2 =
        ap (λ (x : ℕ). level (x / 4096)) w.third
        ∙ next_level e3 _ 2 e3_other (omega arith) walk_e3 w.link3 (omega arith)

    e2_other : e2 ≢ v.kernel_pml4 + 4088
    e2_other = self_other e2 i (omega (arith, walk_e2))

    pub walk_e : level (e / 4096) ≡ 1
    walk_e =
        ap (λ (x : ℕ). level (x / 4096)) w.last
        ∙ next_level e2 _ 1 e2_other (omega arith) walk_e2 w.link2 (omega arith)

    pub e4-IsLink : IsLink level v e4
    e4-IsLink = record {
      other = e4_other;
      high = omega (arith, walk_e4);
      points = subst (λ n. is_link n (v.memory e4) ≡ true) (sym walk_e4) w.link4;
    }

    pub e3-IsLink : IsLink level v e3
    e3-IsLink = record {
      other = e3_other;
      high = omega (arith, walk_e3);
      points = subst (λ n. is_link n (v.memory e3) ≡ true) (sym walk_e3) w.link3;
    }

    pub e2-IsLink : IsLink level v e2
    e2-IsLink = record {
      other = e2_other;
      high = omega (arith, walk_e2);
      points = subst (λ n. is_link n (v.memory e2) ≡ true) (sym walk_e2) w.link2;
    }

-- An entry fixes its table and its index.
same_entry :
    (t s m n : ℕ)
    → t % 4096 ≡ 0
    → s % 4096 ≡ 0
    → t < 2 ^ 52
    → s < 2 ^ 52
    → m < 512
    → n < 512
    → entry_of t m ≡ entry_of s n
    → (t ≡ s) × (m ≡ n)
same_entry t s m n t_al s_al t_low s_low m_low n_low e = (omega arith, omega arith)

-- Two pages whose walks end at one entry are one page.
pub walk-injective :
    {level : ℕ → ℕ} {v : Vmm} {x y a4 a3 a2 a b4 b3 b2 b : ℕ}
    → IsPaged level v
    → x / 2 ^ 39 % 2 ^ 9 ≢ 511
    → y / 2 ^ 39 % 2 ^ 9 ≢ 511
    → IsWalk v x a4 a3 a2 a
    → IsWalk v y b4 b3 b2 b
    → a ≡ b
    → x / 2 ^ 12 % 2 ^ 36 ≡ y / 2 ^ 12 % 2 ^ 36
walk-injective {v = v} {x} {y} {a4} {a3} {a2} {a} {b4} {b3} {b2} {b} i ix iy w z e =
    let (t1, n1) =
      same_entry (pte_get_addr (v.memory a2)) (pte_get_addr (v.memory b2)) (x / 2 ^ 12 % 2 ^ 9)
        (y / 2 ^ 12 % 2 ^ 9) (omega arith) (omega arith) (omega arith) (omega arith) (omega arith)
        (omega arith) (sym w.last ∙ e ∙ z.last) in
    let s2 = i.single a2 b2 (e2-IsLink i ix w) (e2-IsLink i iy z) t1 in
    let (t2, n2) =
      same_entry (pte_get_addr (v.memory a3)) (pte_get_addr (v.memory b3)) (x / 2 ^ 21 % 2 ^ 9)
        (y / 2 ^ 21 % 2 ^ 9) (omega arith) (omega arith) (omega arith) (omega arith) (omega arith)
        (omega arith) (sym w.third ∙ s2 ∙ z.third) in
    let s3 = i.single a3 b3 (e3-IsLink i ix w) (e3-IsLink i iy z) t2 in
    let (t3, n3) =
      same_entry (pte_get_addr (v.memory a4)) (pte_get_addr (v.memory b4)) (x / 2 ^ 30 % 2 ^ 9)
        (y / 2 ^ 30 % 2 ^ 9) (omega arith) (omega arith) (omega arith) (omega arith) (omega arith)
        (omega arith) (sym w.second ∙ s3 ∙ z.second) in
    let s4 = i.single a4 b4 (e4-IsLink i ix w) (e4-IsLink i iy z) t3 in
    let (t4, n4) =
      same_entry v.kernel_pml4 v.kernel_pml4 (x / 2 ^ 39 % 2 ^ 9) (y / 2 ^ 39 % 2 ^ 9) i.aligned
        i.aligned i.low i.low (omega arith) (omega arith) (sym w.first ∙ s4 ∙ z.first) in
    omega (arith, n1, n2, n3, n4)

-- A walk of one state in another one that agrees on its links.
pub IsWalk-frame :
    {v r : Vmm} {virt e4 e3 e2 e : ℕ}
    → r.kernel_pml4 ≡ v.kernel_pml4
    → r.memory e4 ≡ v.memory e4
    → r.memory e3 ≡ v.memory e3
    → r.memory e2 ≡ v.memory e2
    → IsWalk v virt e4 e3 e2 e
    → IsWalk r virt e4 e3 e2 e
IsWalk-frame {v} {r} {virt} {e4} {e3} {e2} {e} root m4 m3 m2 w = record {
  first = w.first ∙ ap (λ (x : ℕ). entry_of x (virt / 2 ^ 39 % 2 ^ 9)) (sym root);
  link4 = rw m4 w.link4;
  second = w.second ∙ ap (λ (x : ℕ). entry_of (pte_get_addr x) (virt / 2 ^ 30 % 2 ^ 9)) (sym m4);
  link3 = rw m3 w.link3;
  third = w.third ∙ ap (λ (x : ℕ). entry_of (pte_get_addr x) (virt / 2 ^ 21 % 2 ^ 9)) (sym m3);
  link2 = rw m2 w.link2;
  last = w.last ∙ ap (λ (x : ℕ). entry_of (pte_get_addr x) (virt / 2 ^ 12 % 2 ^ 9)) (sym m2);
}
