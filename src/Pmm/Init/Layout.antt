-- ===== src/Pmm/Init/Layout.antt =====
-- What holds of the allocator while `pmm_init` of kernel/pmm.c builds it, and the loops over pages.
use f_rat_os.Base.{
  ℕ, zero, suc, ◌+◌, ◌-◌, ◌*◌, ◌%◌, ◌^◌, ◌≤◌, ◌<◌, ◌≡◌, refl, Bool, true, false, arith,
  if◌then◌else◌, if_elim, set,
}
use f_rat_os.Base.Loops.{count_up, count_up_inv}
use f_rat_os.Base.Bits.{byte_test, passes_under, passes_under-at}
use f_rat_os.Pmm.{Pmm}
use f_rat_os.Pmm.Bitmap.{
  bitmap_size, bitmap_test, Bytes, bitmap_set-Bytes, bitmap_clear-Bytes, bitmap_test-set,
  bitmap_test-clear,
}
use f_rat_os.Pmm.Count.{free_count, free_count-le, free_count-pos, free_count-set, free_count-clear}
use f_rat_os.Pmm.Valid.{IsValid}
use f_rat_os.Pmm.Frames.{in_run}
use f_rat_os.Pmm.Init.{release_page, reserve_page, finish}

-- `t` has the highest page `h` and the total `n`, its free pages are counted, and lie below `h`.
pub record Partial (h n : ℕ) (t : Pmm) : Type 0 where
  pub bytes : Bytes t.bitmap
  pub counted : t.free_pages ≡ free_count t.bitmap h
  pub highest : t.highest_page ≡ h
  pub total : t.total_pages ≡ n
  pub clear_low : (q : ℕ) → bitmap_test t.bitmap q ≡ false → q < h

-- Every bit of the static bitmap is set.
ones : passes_under (λ k. byte_test 255 k) 8 ≡ true
unfolding passes_under byte_test
ones = refl

pub bitmap_test-ones : (q : ℕ) → bitmap_test (λ i. 255) q ≡ true
unfolding bitmap_test
bitmap_test-ones q = passes_under-at (λ k. byte_test 255 k) 8 ones (q % 8) (omega arith)

pub free_count-ones : (n : ℕ) → free_count (λ i. 255) n ≡ 0
unfolding free_count
free_count-ones zero = refl
free_count-ones (suc n) = rw (bitmap_test-ones n, free_count-ones n)

-- `t` is partial, and `s` with the `k` pages from `start` on given the bit `b`.
pub record Painted (h n : ℕ) (b : Bool) (s : Pmm) (start k : ℕ) (t : Pmm) : Type 0 where
  pub partial : Partial h n t
  pub bits :
      (q : ℕ) → bitmap_test t.bitmap q ≡ (if in_run start k q then b else bitmap_test s.bitmap q)

-- Nothing is painted yet.
Painted-none :
    {h n : ℕ} {b : Bool} {s : Pmm} {start : ℕ} → Partial h n s → Painted h n b s start 0 s
Painted-none v = record { partial = v; bits = λ q. ground arith }

module _ {h n : ℕ} (small : h ≤ bitmap_size * 8) where
  free-le : {t : Pmm} → Partial h n t → t.free_pages ≤ bitmap_size * 8
  free-le {t} v = omega (arith, v.counted, free_count-le t.bitmap h)

  release_page-Partial :
      {t : Pmm} (p : ℕ)
      → p < h
      → bitmap_test t.bitmap p ≡ true
      → Partial h n t
      → Partial h n (release_page p t)
  unfolding release_page
  release_page-Partial {t} p low set v = record {
    bytes = bitmap_clear-Bytes t.bitmap v.bytes p;
    counted = omega (arith, v.counted, free-le v, free_count-clear t.bitmap v.bytes p h low set);
    highest = v.highest;
    total = v.total;
    clear_low = λ q. ground (arith, bitmap_test-clear t.bitmap v.bytes p q, v.clear_low q);
  }

  reserve_page-Partial : {t : Pmm} (p : ℕ) → Partial h n t → Partial h n (reserve_page p t)
  unfolding reserve_page
  reserve_page-Partial {t} p v =
      if_elim (Partial h n) (bitmap_test t.bitmap p) (λ _. v)
        λ clear.
          let low = v.clear_low p clear in
          let pos = free_count-pos t.bitmap h p low clear in
          record {
            bytes = bitmap_set-Bytes t.bitmap v.bytes p;
            counted =
                ground
                  (arith, v.counted, pos, free-le v, free_count-set t.bitmap v.bytes p h low clear);
            highest = v.highest;
            total = v.total;
            clear_low = λ q. ground (arith, bitmap_test-set t.bitmap v.bytes p q, v.clear_low q);
          }

  -- A finished allocator is valid.
  pub finish-IsValid : {t : Pmm} → n < 2 ^ 64 → Partial h n t → IsValid (finish t)
  unfolding finish
  finish-IsValid {t} fits v = record {
    bytes = v.bytes;
    in_range = omega (arith, v.highest);
    counted = rw (v.highest) v.counted;
    balanced = omega (arith, v.total, free-le v);
    used_word = omega arith;
  }

  release_page-Painted :
      {s t : Pmm} {start k : ℕ} (p : ℕ)
      → p ≡ start + k
      → p < h
      → bitmap_test s.bitmap p ≡ true
      → Painted h n false s start k t
      → Painted h n false s start (k + 1) (release_page p t)
  unfolding release_page
  release_page-Painted {t} p at low set v = record {
    partial = release_page-Partial p low (ground (arith, v.bits p)) v.partial;
    bits = λ q. ground (arith, bitmap_test-clear t.bitmap v.partial.bytes p q, v.bits q);
  }

  reserve_page-Painted :
      {s t : Pmm} {start k : ℕ} (p : ℕ)
      → p ≡ start + k
      → Painted h n true s start k t
      → Painted h n true s start (k + 1) (reserve_page p t)
  unfolding reserve_page
  reserve_page-Painted {t} p at v = record {
    partial = reserve_page-Partial p v.partial;
    bits = λ q. ground (arith, bitmap_test-set t.bitmap v.partial.bytes p q, v.bits q);
  }

  -- Freeing a run of pages that are set, all below the highest page.
  pub release_run :
      (s : Pmm) (start count : ℕ)
      → Partial h n s
      → start + count ≤ h
      → ((q : ℕ) → start ≤ q → q < start + count → bitmap_test s.bitmap q ≡ true)
      → Painted h n false s start count (count_up release_page count start s)
  release_run s start count v fits all =
      let done =
        count_up_inv release_page (λ j. Painted h n false s start (j - start)) count start s
          (λ p t lo hi w.
            let e : p - start + 1 ≡ p + 1 - start = omega arith in
            rw (← e)
              (release_page-Painted p (omega arith) (omega arith) (all p lo (omega arith)) w))
          (let e : 0 ≡ start - start = omega arith in rw (← e) (Painted-none v)) (start + count)
          refl in
      let e : start + count - start ≡ count = omega arith in rw e at done

  -- Reserving a run of pages.
  pub reserve_run :
      (s : Pmm) (start count : ℕ)
      → Partial h n s
      → Painted h n true s start count (count_up reserve_page count start s)
  reserve_run s start count v =
      let done =
        count_up_inv reserve_page (λ j. Painted h n true s start (j - start)) count start s
          (λ p t lo hi w.
            let e : p - start + 1 ≡ p + 1 - start = omega arith in
            rw (← e) (reserve_page-Painted p (omega arith) w))
          (let e : 0 ≡ start - start = omega arith in rw (← e) (Painted-none v)) (start + count)
          refl in
      let e : start + count - start ≡ count = omega arith in rw e at done
