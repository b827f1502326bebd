-- ===== src/Vmm/Descend.antt =====
-- `vmm_get_pte` of kernel/vmm.c with `create`, from a tree of tables: it gives up or comes to an
-- entry, and leaves a tree.
use f_rat_os.Base.{
  Option, ap, arith, inl, inr, none, refl, some, sym, true, ℕ, ◌%◌, ◌+◌, ◌/◌, ◌<◌, ◌^◌, ◌∙◌, ◌≡◌,
  ◌≢◌, ◌≤◌, ◌⊎◌,
}
use f_rat_os.Vmm.{Vmm, entry_of, get_pte, pte_get_addr}
use f_rat_os.Vmm.Paged.{IsPaged, is_link}
use f_rat_os.Vmm.Step.{Outcome, Stepped}
use f_rat_os.Vmm.Tables.{pd_of-Outcome, pdpt_of-Outcome, pt_of-Outcome}
use f_rat_os.Vmm.Walk.{IsWalk, after_step, entry4, from_pd, from_pdpt, from_pt, get_pte-steps}
use mathlib.Core.Path.{subst}

-- The entry of the table at `t` for an index below 512 stands in the frame of `t`.
pub entry_frame : (t n : ℕ) → t % 4096 ≡ 0 → t < 2 ^ 52 → n < 512 → entry_of t n / 4096 ≡ t / 4096
entry_frame t n al small h = omega arith

-- What the walk with `create` leaves: a tree, in which the walk goes to the entry at `e`, a word of
-- a table of level 1; words of such tables and entries that point to tables are as they were.
pub record Walked (level level' : ℕ → ℕ) (virt e4 e3 e2 e : ℕ) (v v' : Vmm) : Type 0 where
  pub paged : IsPaged level' v'
  pub grows : (p : ℕ) → 1 ≤ level p → level' p ≡ level p
  pub walk : IsWalk v' virt e4 e3 e2 e
  pub last_level : level' (e / 4096) ≡ 1
  pub leaves : (a : ℕ) → level (a / 4096) ≡ 1 → v'.memory a ≡ v.memory a
  pub kept :
      (a : ℕ)
      → 1 ≤ level (a / 4096)
      → is_link (level (a / 4096)) (v.memory a) ≡ true
      → v'.memory a ≡ v.memory a
  pub root : v'.kernel_pml4 ≡ v.kernel_pml4

abbrev pub WalkOutcome : (level : ℕ → ℕ) (virt : ℕ) (v : Vmm) (r : Option ℕ × Vmm) → Type 0
WalkOutcome level virt v r =
    ((r.0 ≡ none) × ((level' : ℕ → ℕ) × IsPaged level' r.1))
    ⊎ ((level' : ℕ → ℕ) × (e4 : ℕ) × (e3 : ℕ) × (e2 : ℕ) × (e : ℕ) × (r.0 ≡ some e)
        × Walked level level' virt e4 e3 e2 e v r.1)

-- The levels on the way down.
pub level_e4 :
    {level : ℕ → ℕ} {v : Vmm} (virt : ℕ) → IsPaged level v → level (entry4 v virt / 4096) ≡ 4
level_e4 {level} {v} virt i =
    ap level (entry_frame v.kernel_pml4 (virt / 2 ^ 39 % 2 ^ 9) i.aligned i.low (omega arith))
    ∙ i.root

level_below :
    {level level' : ℕ → ℕ} {e t : ℕ} {v v' : Vmm} (n : ℕ)
    → n < 512
    → Stepped level level' e t v v'
    → level' (entry_of t n / 4096) + 1 ≡ level (e / 4096)
level_below {level} {level'} {e} {t} n small s =
    omega (arith, ap level' (entry_frame t n s.aligned s.small small), s.target)

level_e3 :
    {level level1 : ℕ → ℕ} {v v1 : Vmm} (virt t1 : ℕ)
    → IsPaged level v
    → Stepped level level1 (entry4 v virt) t1 v v1
    → level1 (entry_of t1 (virt / 2 ^ 30 % 2 ^ 9) / 4096) ≡ 3
level_e3 virt t1 i s1 =
    omega (arith, level_below (virt / 2 ^ 30 % 2 ^ 9) (omega arith) s1, level_e4 virt i)

level_e2 :
    {level level1 level2 : ℕ → ℕ} {v v1 v2 : Vmm} (virt t1 t2 : ℕ)
    → IsPaged level v
    → Stepped level level1 (entry4 v virt) t1 v v1
    → Stepped level1 level2 (entry_of t1 (virt / 2 ^ 30 % 2 ^ 9)) t2 v1 v2
    → level2 (entry_of t2 (virt / 2 ^ 21 % 2 ^ 9) / 4096) ≡ 2
level_e2 virt t1 t2 i s1 s2 =
    omega (arith, level_below (virt / 2 ^ 21 % 2 ^ 9) (omega arith) s2, level_e3 virt t1 i s1)

-- Three steps down make the walk.
module _ {level level1 level2 level3 : ℕ → ℕ} {v v1 v2 v3 : Vmm} (virt t1 t2 t3 : ℕ)
    (i : IsPaged level v) (s1 : Stepped level level1 (entry4 v virt) t1 v v1)
    (s2 : Stepped level1 level2 (entry_of t1 (virt / 2 ^ 30 % 2 ^ 9)) t2 v1 v2)
    (s3 : Stepped level2 level3 (entry_of t2 (virt / 2 ^ 21 % 2 ^ 9)) t3 v2 v3) where
  abbrev e4 : ℕ
  e4 = entry4 v virt

  abbrev e3 : ℕ
  e3 = entry_of t1 (virt / 2 ^ 30 % 2 ^ 9)

  abbrev e2 : ℕ
  e2 = entry_of t2 (virt / 2 ^ 21 % 2 ^ 9)

  abbrev e1 : ℕ
  e1 = entry_of t3 (virt / 2 ^ 12 % 2 ^ 9)

  at_e4 : level (e4 / 4096) ≡ 4
  at_e4 = level_e4 virt i

  at_e3 : level1 (e3 / 4096) ≡ 3
  at_e3 = level_e3 virt t1 i s1

  at_e2 : level2 (e2 / 4096) ≡ 2
  at_e2 = level_e2 virt t1 t2 i s1 s2

  at_e1 : level3 (e1 / 4096) ≡ 1
  at_e1 = omega (arith, level_below (virt / 2 ^ 12 % 2 ^ 9) (omega arith) s3, at_e2)

  grows2 : (p : ℕ) → 1 ≤ level p → level2 p ≡ level p
  grows2 p h = s2.grows p (omega (arith, s1.grows p h)) ∙ s1.grows p h

  differs : (f : ℕ → ℕ) (a b : ℕ) → f (a / 4096) ≢ f (b / 4096) → a ≢ b
  differs f a b ne same = ne (ap (λ (x : ℕ). f (x / 4096)) same)

  e4_stays : v3.memory e4 ≡ v1.memory e4
  e4_stays =
      s3.frame e4 (differs level2 e4 e2 (omega (arith, grows2 (e4 / 4096), at_e4, at_e2)))
        (omega (arith, grows2 (e4 / 4096), at_e4))
      ∙ s2.frame e4 (differs level1 e4 e3 (omega (arith, s1.grows (e4 / 4096), at_e4, at_e3)))
          (omega (arith, s1.grows (e4 / 4096), at_e4))

  e3_stays : v3.memory e3 ≡ v2.memory e3
  e3_stays =
      s3.frame e3 (differs level2 e3 e2 (omega (arith, s2.grows (e3 / 4096), at_e3, at_e2)))
        (omega (arith, s2.grows (e3 / 4096), at_e3))

  three-IsWalk : IsWalk v3 virt e4 e3 e2 e1
  three-IsWalk = record {
    first = ap (λ (x : ℕ). entry_of x (virt / 2 ^ 39 % 2 ^ 9)) (sym (s3.root ∙ s2.root ∙ s1.root));
    link4 = rw e4_stays (subst (λ n. is_link n (v1.memory e4) ≡ true) at_e4 s1.link);
    second =
        ap (λ (x : ℕ). entry_of x (virt / 2 ^ 30 % 2 ^ 9))
          (sym (ap pte_get_addr e4_stays ∙ s1.goes));
    link3 = rw e3_stays (subst (λ n. is_link n (v2.memory e3) ≡ true) at_e3 s2.link);
    third =
        ap (λ (x : ℕ). entry_of x (virt / 2 ^ 21 % 2 ^ 9))
          (sym (ap pte_get_addr e3_stays ∙ s2.goes));
    link2 = subst (λ n. is_link n (v3.memory e2) ≡ true) at_e2 s3.link;
    last = ap (λ (x : ℕ). entry_of x (virt / 2 ^ 12 % 2 ^ 9)) (sym s3.goes);
  }

  kept_all :
      (a : ℕ)
      → 1 ≤ level (a / 4096)
      → is_link (level (a / 4096)) (v.memory a) ≡ true
      → v3.memory a ≡ v.memory a
  kept_all a h l =
      let k1 = s1.kept a h l in
      let g1 = s1.grows (a / 4096) h in
      let l1 : is_link (level1 (a / 4096)) (v1.memory a) ≡ true = rw (g1, k1) l in
      let k2 = s2.kept a (omega (arith, g1)) l1 in
      let g2 = s2.grows (a / 4096) (omega (arith, g1)) in
      let l2 : is_link (level2 (a / 4096)) (v2.memory a) ≡ true = rw (g2, k2) l1 in
      s3.kept a (omega (arith, g1, g2)) l2 ∙ k2 ∙ k1

  leaves_all : (a : ℕ) → level (a / 4096) ≡ 1 → v3.memory a ≡ v.memory a
  leaves_all a h =
      s3.frame a (differs level2 a e2 (omega (arith, grows2 (a / 4096), h, at_e2)))
        (omega (arith, grows2 (a / 4096), h))
      ∙ s2.frame a (differs level1 a e3 (omega (arith, s1.grows (a / 4096), h, at_e3)))
          (omega (arith, s1.grows (a / 4096), h))
      ∙ s1.frame a (differs level a e4 (omega (arith, h, at_e4))) (omega (arith, h))

  pub three-Walked : Walked level level3 virt e4 e3 e2 e1 v v3
  three-Walked = record {
    paged = s3.paged;
    grows = λ p h. s3.grows p (omega (arith, grows2 p h)) ∙ grows2 p h;
    walk = three-IsWalk;
    last_level = at_e1;
    leaves = leaves_all;
    kept = kept_all;
    root = s3.root ∙ s2.root ∙ s1.root;
  }

-- The last entry of the PML4 is on no level but 4.
pub self_other :
    {level : ℕ → ℕ} {v : Vmm} (e : ℕ)
    → IsPaged level v
    → level (e / 4096) ≢ 4
    → e ≢ v.kernel_pml4 + 4088
self_other {level} {v} e i off same =
    let frame : e / 4096 ≡ v.kernel_pml4 / 4096 = omega (arith, same, i.aligned) in
    off (ap level frame ∙ i.root)

module _ {level : ℕ → ℕ} {v : Vmm} (virt : ℕ) (i : IsPaged level v) where
  walk_end :
      {level1 level2 : ℕ → ℕ} {v1 v2 : Vmm} (t1 t2 : ℕ) (r : Option ℕ × Vmm)
      → Stepped level level1 (entry4 v virt) t1 v v1
      → Stepped level1 level2 (entry_of t1 (virt / 2 ^ 30 % 2 ^ 9)) t2 v1 v2
      → Outcome level2 (entry_of t2 (virt / 2 ^ 21 % 2 ^ 9)) v2 r
      → WalkOutcome level virt v (after_step (from_pt virt) r)
  walk_end {level1} {level2} t1 t2 r s1 s2 (inl (n, p)) = rw n (inl (refl, (level2, p)))
  walk_end t1 t2 r s1 s2 (inr (t3, level3, h, s3)) =
      rw h (inr (level3, _, _, _, _, refl, three-Walked virt t1 t2 t3 i s1 s2 s3))

  walk_pd :
      {level1 : ℕ → ℕ} {v1 : Vmm} (t1 : ℕ) (r : Option ℕ × Vmm)
      → Stepped level level1 (entry4 v virt) t1 v v1
      → Outcome level1 (entry_of t1 (virt / 2 ^ 30 % 2 ^ 9)) v1 r
      → WalkOutcome level virt v (after_step (from_pd virt true) r)
  walk_pd {level1} t1 r s1 (inl (n, p)) = rw n (inl (refl, (level1, p)))
  walk_pd {level1} {v1} t1 r s1 (inr (t2, level2, h, s2)) =
      let at_e3 = level_e3 virt t1 i s1 in
      let at_e2 = level_e2 virt t1 t2 i s1 s2 in
      rw h (
        walk_end t1 t2 _ s1 s2 (
          pt_of-Outcome s2.paged (entry_of t2 (virt / 2 ^ 21 % 2 ^ 9)) at_e2
            (self_other _ s2.paged (omega (arith, at_e2)))))

  walk_pdpt :
      (r : Option ℕ × Vmm)
      → Outcome level (entry4 v virt) v r
      → WalkOutcome level virt v (after_step (from_pdpt virt true) r)
  walk_pdpt r (inl (n, p)) = rw n (inl (refl, (level, p)))
  walk_pdpt r (inr (t1, level1, h, s1)) =
      let at_e3 = level_e3 virt t1 i s1 in
      rw h (
        walk_pd t1 _ s1 (
          pd_of-Outcome s1.paged (entry_of t1 (virt / 2 ^ 30 % 2 ^ 9)) at_e3
            (self_other _ s1.paged (omega (arith, at_e3)))))

  -- From a tree, `vmm_get_pte` with `create` gives up or walks, and leaves a tree.
  pub get_pte-WalkOutcome :
      virt / 2 ^ 39 % 2 ^ 9 ≢ 511 → WalkOutcome level virt v (get_pte virt true v)
  get_pte-WalkOutcome inside =
      let at_e4 = level_e4 virt i in
      let other : entry4 v virt ≢ v.kernel_pml4 + 4088 = omega (arith, i.low, inside) in
      rw (get_pte-steps v virt true i.on)
        (walk_pdpt _ (pdpt_of-Outcome i (entry4 v virt) at_e4 other))
