-- ===== src/Pmm/Release.antt =====
-- `pmm_free_frame` of kernel/pmm.c against `pmm_alloc_frame`: what is handed out comes back.
use f_rat_os.Base.{
  ℕ, ◌+◌, ◌*◌, ◌/◌, ◌<◌, ◌≡◌, ap, ◌∙◌, ◌≢◌, inl, inr, true, false, arith, add64, sub64,
}
use f_rat_os.Pmm.Bitmap.{bitmap_test, bitmap_clear, bitmap_test-clear}
use f_rat_os.Pmm.{Pmm, alloc_frame, free_frame, is_allocated}
use f_rat_os.Pmm.Valid.{IsValid, free_pages-le}
use f_rat_os.Pmm.Alloc.{Taken, alloc_frame-first_fit}

-- Two states with the same pages taken, and the same counters.
pub record SamePages (s t : Pmm) : Type 0 where
  pub bits : (q : ℕ) → bitmap_test t.bitmap q ≡ bitmap_test s.bitmap q
  pub free : t.free_pages ≡ s.free_pages
  pub used : t.used_pages ≡ s.used_pages
  pub total : t.total_pages ≡ s.total_pages
  pub highest : t.highest_page ≡ s.highest_page

module _ (t : Pmm) (p : ℕ) (on : t.initialized ≡ true) (low : p < t.highest_page) where
  -- The address of a page below `highest_page` stands for that page.
  is_allocated-page : is_allocated t (p * 4096) ≡ bitmap_test t.bitmap p
  unfolding is_allocated
  is_allocated-page = let e : p * 4096 / 4096 ≡ p = omega arith in rw e (ground arith)

  free_frame-page :
      bitmap_test t.bitmap p ≡ true
      → free_frame t (p * 4096) ≡ record t {
        bitmap = bitmap_clear t.bitmap p;
        free_pages = add64 t.free_pages 1;
        used_pages = sub64 t.used_pages 1;
      }
  unfolding free_frame
  free_frame-page h = let e : p * 4096 / 4096 ≡ p = omega arith in rw e (ground arith)

-- A page that was taken is given back by `pmm_free_frame` of its address.
module _ {s t : Pmm} {p : ℕ} (v : IsValid s) (w : IsValid t) (k : Taken s p t) where
  taken_bit : bitmap_test t.bitmap p ≡ true
  taken_bit = ground (arith, k.bits p)

  free_frame-Taken :
      s.initialized ≡ true
      → p < s.highest_page
      → bitmap_test s.bitmap p ≡ false
      → SamePages s (free_frame t (p * 4096))
  free_frame-Taken on low clear =
      rw (free_frame-page t p (k.ready ∙ on) (omega (arith, k.highest)) taken_bit) (record {
        bits = λ q. ground (arith, bitmap_test-clear t.bitmap w.bytes p q, k.bits q);
        free = omega (arith, k.free, free_pages-le v);
        used = omega (arith, k.used, v.used_word);
        total = k.total;
        highest = k.highest;
      })

module _ {s : Pmm} (v : IsValid s) (on : s.initialized ≡ true) where
  -- What a valid, initialised `pmm_alloc_frame` hands out, if it is not 0, was free before the
  -- call and is allocated after it, and `pmm_free_frame` of it gives back the pages and the
  -- counters as they were.
  pub alloc_frame-free :
      (alloc_frame s).0 ≢ 0
      → (is_allocated s (alloc_frame s).0 ≡ false)
        × (is_allocated (alloc_frame s).1 (alloc_frame s).0 ≡ true)
        × SamePages s (free_frame (alloc_frame s).1 (alloc_frame s).0)
  alloc_frame-free ne = elim (alloc_frame-first_fit v on) [
    | inl (full, e) ↦ absurd (ne (ap (λ (r : ℕ × Pmm). r.0) e))
    | inr (p, f, e, k, w) ↦
        let low : p < s.highest_page = omega (arith, f.below) in
        rw e (
          is_allocated-page s p on low ∙ f.clear,
          is_allocated-page (alloc_frame s).1 p (k.ready ∙ on) (omega (arith, k.highest, low))
              ∙ taken_bit v w k,
          free_frame-Taken v w k on low f.clear,
        )
  ]

  free_zero : is_allocated s 0 ≡ false → (0 < s.highest_page) × (bitmap_test s.bitmap 0 ≡ false)
  unfolding is_allocated
  free_zero free = ground arith

  -- If page 0 is free, a valid, initialised `pmm_alloc_frame` returns 0, its sign of failure, and
  -- yet takes a page: one page less is free, and address 0 is allocated.
  pub alloc_frame-page_zero :
      is_allocated s 0 ≡ false
      → ((alloc_frame s).0 ≡ 0)
        × ((alloc_frame s).1.free_pages + 1 ≡ s.free_pages)
        × (is_allocated (alloc_frame s).1 0 ≡ true)
  alloc_frame-page_zero free = elim (alloc_frame-first_fit v on) [
    | inl (full, e) ↦
        cc (full 0 (omega arith) (omega (arith, (free_zero free).0)), (free_zero free).1)
    | inr (p, f, e, k, w) ↦
        let first : p ≡ 0 = grind (arith, f.first 0, (free_zero free).1) in
        (
          omega (arith, e),
          k.free,
          is_allocated-page (alloc_frame s).1 0 (k.ready ∙ on) (omega (arith, k.highest, f.below))
              ∙ ground (arith, k.bits 0),
        )
  ]
