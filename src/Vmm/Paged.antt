-- ===== src/Vmm/Paged.antt =====
-- The page tables of kernel/vmm.c as a tree: each table has a level, 4 for the PML4 down to 1, and
-- an entry of a table points to a table one level below. Tables stand in frames that the allocator
-- has handed out, and free frames are clear.
use f_rat_os.Base.{
  ==→eq, Bool, Bool-cases, ap, arith, false, if_elim, inl, inr, not, refl, true, ℕ, ◌%◌, ◌&&◌, ◌*◌,
  ◌+◌, ◌/◌, ◌<◌, ◌==◌, ◌^◌, ◌||◌, ◌∙◌, ◌≡◌, ◌≢◌, ◌≤◌, ◌⊎◌,
}
use f_rat_os.Pmm.{Pmm, alloc_frame}
use f_rat_os.Pmm.Alloc.{FirstFree, Taken, alloc_frame-first_fit}
use f_rat_os.Pmm.Bitmap.{bitmap_test}
use f_rat_os.Pmm.Valid.{IsValid}
use f_rat_os.Vmm.{Vmm, is_huge, is_present, pte_get_addr}
use mathlib.Core.Path.{subst}

-- The entry of a table at level `k` points to a table, and not to a page.
abbrev pub is_link : (k pte : ℕ) → Bool
is_link k pte = is_present pte && (k == 4 || not (is_huge pte))

-- The word at `a` is an entry of a table that points to a table. The last entry of the PML4, which
-- maps the PML4 itself, is left out.
pub record IsLink (level : ℕ → ℕ) (v : Vmm) (a : ℕ) : Type 0 where
  pub other : a ≢ v.kernel_pml4 + 4088
  pub high : 2 ≤ level (a / 4096)
  pub points : is_link (level (a / 4096)) (v.memory a) ≡ true

-- `level p` is the level of the table in frame `p`, 0 for a frame that holds no table. No
-- two entries point to one table.
pub record IsPaged (level : ℕ → ℕ) (v : Vmm) : Type 0 where
  pub on : v.initialized ≡ true
  pub pmm_valid : IsValid v.pmm
  pub pmm_on : v.pmm.initialized ≡ true
  pub aligned : v.kernel_pml4 % 4096 ≡ 0
  pub low : v.kernel_pml4 < 2 ^ 52
  pub root : level (v.kernel_pml4 / 4096) ≡ 4
  pub down :
      (a : ℕ) → IsLink level v a → level (pte_get_addr (v.memory a) / 4096) + 1 ≡ level (a / 4096)
  pub single :
      (a b : ℕ)
      → IsLink level v a
      → IsLink level v b
      → pte_get_addr (v.memory a) ≡ pte_get_addr (v.memory b)
      → a ≡ b
  pub taken : (p : ℕ) → 1 ≤ level p → p < v.pmm.highest_page → bitmap_test v.pmm.bitmap p ≡ true
  pub clear :
      (a : ℕ)
      → a / 4096 < v.pmm.highest_page
      → bitmap_test v.pmm.bitmap (a / 4096) ≡ false
      → v.memory a ≡ 0

-- The frame that the allocator hands out next.
pub record Fresh (level : ℕ → ℕ) (v : Vmm) (p : ℕ) : Type 0 where
  pub addr : (alloc_frame v.pmm).0 ≡ p * 4096
  pub untabled : level p ≡ 0
  pub below : p < 2 ^ 32
  pub zero_words : (a : ℕ) → a / 4096 ≡ p → v.memory a ≡ 0
  pub bits : Taken v.pmm p (alloc_frame v.pmm).1

-- The state with the next frame handed out.
abbrev pub handed : Vmm → Vmm
handed v = record v { pmm = (alloc_frame v.pmm).1 }

module _ {level : ℕ → ℕ} {v : Vmm} (i : IsPaged level v) where
  fresh-untabled :
      (p : ℕ) → p < v.pmm.highest_page → bitmap_test v.pmm.bitmap p ≡ false → level p ≡ 0
  fresh-untabled p low free = elim (Bool-cases (level p == 0)) [
    | inl e ↦ ==→eq (level p) 0 e
    | inr e ↦ let used = i.taken p (ground arith) low in cc
  ]

  first-Fresh :
      (p : ℕ)
      → FirstFree v.pmm.bitmap 0 v.pmm.highest_page p
      → (alloc_frame v.pmm).0 ≡ p * 4096
      → Taken v.pmm p (alloc_frame v.pmm).1
      → Fresh level v p
  first-Fresh p f e t =
      let low : p < v.pmm.highest_page = omega (arith, f.below) in
      record {
        addr = e;
        untabled = fresh-untabled p low f.clear;
        below = omega (arith, i.pmm_valid.in_range);
        zero_words = λ a h. i.clear a (rw h low) (rw h f.clear);
        bits = t;
      }

  -- The next frame is new, or there is none.
  pub alloc-cases : ((alloc_frame v.pmm).0 ≡ 0) ⊎ ((p : ℕ) × Fresh level v p)
  alloc-cases = elim (alloc_frame-first_fit i.pmm_valid i.pmm_on) [
    | inl (full, e) ↦ inl (ap (λ (x : ℕ × Pmm). x.0) e)
    | inr (p, f, e, t, w) ↦ inr (p, first-Fresh p f e t)
  ]

  -- Handing a frame out keeps the tree.
  pub handed-IsPaged : IsPaged level (handed v)
  handed-IsPaged = elim (alloc_frame-first_fit i.pmm_valid i.pmm_on) [
    | inl (full, e) ↦ rw e i
    | inr (p, f, e, t, w) ↦ record {
      on = i.on;
      pmm_valid = w;
      pmm_on = t.ready ∙ i.pmm_on;
      aligned = i.aligned;
      low = i.low;
      root = i.root;
      down = λ a l. i.down a (record { other = l.other; high = l.high; points = l.points });
      single = λ a b l k.
          i.single a b (record { other = l.other; high = l.high; points = l.points })
            (record { other = k.other; high = k.high; points = k.points });
      taken = λ q some_level inside. rw (t.bits q) (
          if_elim (λ b. b ≡ true) (p == q) (λ _. refl)
            (λ _. i.taken q some_level (subst (λ h. q < h) t.highest inside)));
      clear = λ a inside free.
          i.clear a (subst (λ h. a / 4096 < h) t.highest inside)
            (ground (arith, t.bits (a / 4096), free));
    }
  ]
