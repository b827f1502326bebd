-- ===== src/Pmm/Alloc.antt =====
-- `pmm_alloc_frame` of kernel/pmm.c: its first-fit search, and what the function promises.
use f_rat_os.Base.{
  ℕ, zero, suc, ◌+◌, ◌-◌, ◌*◌, ◌≤◌, ◌<◌, ◌≡◌, refl, ◌⊎◌, inl, inr, true, false, not, none, some,
  arith, ◌==◌, if◌then◌else◌, ==→eq, Bool-cases, if_elim, add64,
}
use f_rat_os.Pmm.Bitmap.{PageBitmap, bitmap_test, bitmap_test-set}
use f_rat_os.Pmm.{Pmm, find_free, take_page, alloc_frame, page_to_addr}
use f_rat_os.Pmm.Valid.{IsValid, take_page-IsValid, free_pages-le, free_pages-pos}

-- `p` is the first clear bit among the `n` from `i` on.
pub record FirstFree (b : PageBitmap) (i n p : ℕ) : Type 0 where
  pub from : i ≤ p
  pub below : p < i + n
  pub clear : bitmap_test b p ≡ false
  pub first : (q : ℕ) → i ≤ q → q < p → bitmap_test b q ≡ true

-- The `n` bits from `i` on are set.
abbrev pub AllSet : PageBitmap → (i n : ℕ) → Type 0
AllSet b i n = (q : ℕ) → i ≤ q → q < i + n → bitmap_test b q ≡ true

AllSet-cons :
    (b : PageBitmap) (n i : ℕ) → bitmap_test b i ≡ true → AllSet b (i + 1) n → AllSet b i (suc n)
AllSet-cons b n i e h q lo hi = elim (Bool-cases (i == q)) [
  | inl same ↦ let e' = ==→eq i q same in rw e' at e
  | inr other ↦ h q (ground arith) (omega arith)
]

FirstFree-cons :
    {b : PageBitmap} {n i p : ℕ}
    → bitmap_test b i ≡ true
    → FirstFree b (i + 1) n p
    → FirstFree b i (suc n) p
FirstFree-cons {b} {n} {i} {p} e f = record {
  from = omega (arith, f.from);
  below = omega (arith, f.below);
  clear = f.clear;
  first = λ q lo hi.
      AllSet-cons b (p - (i + 1)) i e (λ r a c. f.first r a (omega arith)) q lo
        (omega (arith, f.from));
}

-- The loop finds the first clear bit, or there is none.
pub find_free_lem :
    (b : PageBitmap) (n i : ℕ)
    → ((find_free n i b ≡ none) × AllSet b i n)
      ⊎ ((p : ℕ) × (find_free n i b ≡ some p) × FirstFree b i n p)
unfolding find_free
find_free_lem b zero i = inl (refl, λ q lo hi. absurd (omega arith))
find_free_lem b (suc n) i = elim (Bool-cases (bitmap_test b i)) [
  | inl taken ↦ rw taken (elim (find_free_lem b n (i + 1)) [
    | inl miss ↦ inl (miss.0, AllSet-cons b n i taken miss.1)
    | inr hit ↦ inr (hit.0, hit.1, FirstFree-cons taken hit.2)
  ])
  | inr free ↦ rw free (
      inr (
        i,
        refl,
        record {
          from = omega arith;
          below = omega arith;
          clear = free;
          first = λ q lo hi. absurd (omega arith);
        },
      ))
]

-- `s'` is `s` with page `p` taken: its bit set, one page less free, one more used, all else as it was.
pub record Taken (s : Pmm) (p : ℕ) (s' : Pmm) : Type 0 where
  pub bits : (q : ℕ) → bitmap_test s'.bitmap q ≡ (if p == q then true else bitmap_test s.bitmap q)
  pub free : s'.free_pages + 1 ≡ s.free_pages
  pub used : s'.used_pages ≡ add64 s.used_pages 1
  pub total : s'.total_pages ≡ s.total_pages
  pub highest : s'.highest_page ≡ s.highest_page
  pub ready : s'.initialized ≡ s.initialized

module _ {s : Pmm} (v : IsValid s) where
  pub take_page-Taken :
      (p : ℕ) → p < s.highest_page → bitmap_test s.bitmap p ≡ false → Taken s p (take_page s p)
  unfolding take_page
  take_page-Taken p h e = record {
    bits = bitmap_test-set s.bitmap v.bytes p;
    free = omega (arith, free_pages-pos v p h e, free_pages-le v);
    used = refl;
    total = refl;
    highest = refl;
    ready = refl;
  }

  page_to_addr_lem : (p : ℕ) → p < s.highest_page → page_to_addr p ≡ p * 4096
  page_to_addr_lem p h = omega (arith, v.in_range)

  alloc_frame-found :
      (p : ℕ)
      → s.initialized ≡ true
      → 0 < s.free_pages
      → find_free s.highest_page 0 s.bitmap ≡ some p
      → alloc_frame s ≡ (page_to_addr p, take_page s p)
  unfolding alloc_frame
  alloc_frame-found p on pos e = ground (arith, on, e)

  -- Of a valid, initialised allocator `pmm_alloc_frame` either finds every page below
  -- `highest_page` taken, returns 0 and changes nothing, or takes the lowest free page, returns
  -- its address, and leaves a valid allocator that differs in that page and the counters only.
  pub alloc_frame-first_fit :
      s.initialized ≡ true
      → (AllSet s.bitmap 0 s.highest_page × (alloc_frame s ≡ (0, s)))
        ⊎ ((p : ℕ) × FirstFree s.bitmap 0 s.highest_page p
            × ((alloc_frame s).0 ≡ p * 4096)
            × Taken s p (alloc_frame s).1
            × IsValid (alloc_frame s).1)
  unfolding alloc_frame
  alloc_frame-first_fit on = elim (find_free_lem s.bitmap s.highest_page 0) [
    | inl (miss, full) ↦ inl (full, ground (arith, miss))
    | inr (p, hit, f) ↦
        let low : p < s.highest_page = omega (arith, f.below) in
        let pos = free_pages-pos v p low f.clear in
        let e = alloc_frame-found p on pos hit in
        inr (
          p,
          f,
          rw e (page_to_addr_lem p low),
          rw e (take_page-Taken p low f.clear),
          rw e (take_page-IsValid v p low f.clear),
        )
  ]

  pub alloc_frame-IsValid : IsValid (alloc_frame s).1
  unfolding alloc_frame
  alloc_frame-IsValid =
      if_elim (λ (r : ℕ × Pmm). IsValid r.1) (not s.initialized) (λ _. v)
        λ _.
          if_elim (λ (r : ℕ × Pmm). IsValid r.1) (s.free_pages == 0) (λ _. v)
            λ _. elim (find_free_lem s.bitmap s.highest_page 0) [
              | inl (miss, full) ↦ rw miss v
              | inr (p, hit, f) ↦ rw hit (take_page-IsValid v p (omega (arith, f.below)) f.clear)
            ]
