-- ===== src/Pmm/Valid.antt =====
-- The invariant of kernel/pmm.c, and that every operation on one page keeps it.
use f_rat_os.Base.{
  ℕ, ◌*◌, ◌/◌, ◌^◌, ◌≤◌, ◌<◌, ◌≡◌, refl, true, false, not, arith, leb, lt→ltb, if_elim, add64,
  sub64,
}
use f_rat_os.Base.Loops.{count_up_inv}
use f_rat_os.Pmm.{Pmm, take_page, free_frame, mark_used, free_frames, mark_used_range}
use f_rat_os.Pmm.Bitmap.{
  bitmap_size, bitmap_clear, bitmap_test, Bytes, bitmap_set-Bytes, bitmap_clear-Bytes,
}
use f_rat_os.Pmm.Count.{free_count, free_count-le, free_count-pos, free_count-set, free_count-clear}

-- Each bitmap entry is a byte, every page below `highest_page` has a bit of the bitmap,
-- `free_pages` is the number of clear bits below `highest_page`, and free and used pages add up
-- to the total.
pub record IsValid (s : Pmm) : Type 0 where
  pub bytes : Bytes s.bitmap
  pub in_range : s.highest_page ≤ bitmap_size * 8
  pub counted : s.free_pages ≡ free_count s.bitmap s.highest_page
  pub balanced : add64 s.free_pages s.used_pages ≡ s.total_pages
  pub used_word : s.used_pages < 2 ^ 64

module _ {s : Pmm} (v : IsValid s) where
  pub free_pages-le : s.free_pages ≤ bitmap_size * 8
  free_pages-le = omega (arith, v.counted, v.in_range, free_count-le s.bitmap s.highest_page)

  pub free_pages-pos :
      (p : ℕ) → p < s.highest_page → bitmap_test s.bitmap p ≡ false → 0 < s.free_pages
  free_pages-pos p h e = omega (arith, v.counted, free_count-pos s.bitmap s.highest_page p h e)

  pub take_page-IsValid :
      (p : ℕ) → p < s.highest_page → bitmap_test s.bitmap p ≡ false → IsValid (take_page s p)
  unfolding take_page
  take_page-IsValid p h e = record {
    bytes = bitmap_set-Bytes s.bitmap v.bytes p;
    in_range = v.in_range;
    counted =
        omega
          (arith, v.counted, free_pages-le, free_count-set s.bitmap v.bytes p s.highest_page h e);
    balanced = omega (arith, v.balanced, free_pages-le, free_pages-pos p h e, v.used_word);
    used_word = omega arith;
  }

  -- Freeing a set page adds it to the free ones.
  release-IsValid :
      (p : ℕ)
      → p < s.highest_page
      → bitmap_test s.bitmap p ≡ true
      → IsValid (record s {
        bitmap = bitmap_clear s.bitmap p;
        free_pages = add64 s.free_pages 1;
        used_pages = sub64 s.used_pages 1;
      })
  release-IsValid p h e = record {
    bytes = bitmap_clear-Bytes s.bitmap v.bytes p;
    in_range = v.in_range;
    counted =
        omega
          (arith, v.counted, free_pages-le, free_count-clear s.bitmap v.bytes p s.highest_page h e);
    balanced = omega (arith, v.balanced, free_pages-le, v.used_word);
    used_word = omega arith;
  }

  pub mark_used-IsValid : (addr : ℕ) → IsValid (mark_used s addr)
  unfolding mark_used take_page
  mark_used-IsValid addr =
      if_elim IsValid (not s.initialized) (λ _. v)
        λ _.
          if_elim IsValid (leb s.highest_page page) (λ _. v)
            λ low.
              if_elim IsValid (bitmap_test s.bitmap page) (λ _. v)
                λ clear.
                  rw (lt→ltb 0 s.free_pages (free_pages-pos page (ground arith) clear))
                    (take_page-IsValid page (ground arith) clear)
    where
      page : ℕ
      page = addr / 4096

  pub free_frame-IsValid : (addr : ℕ) → IsValid (free_frame s addr)
  unfolding free_frame
  free_frame-IsValid addr =
      if_elim IsValid (not s.initialized) (λ _. v)
        λ _.
          if_elim IsValid (leb s.highest_page page) (λ _. v)
            λ low.
              if_elim IsValid (bitmap_test s.bitmap page) (release-IsValid page (ground arith))
                λ _. v
    where
      page : ℕ
      page = addr / 4096

-- The loops over a range of pages.
module _ {s : Pmm} (v : IsValid s) (addr count : ℕ) where
  pub free_frames-IsValid : IsValid (free_frames s addr count)
  unfolding free_frames
  free_frames-IsValid =
      count_up_inv _ (λ _. IsValid) count 0 s (λ i t _ _ w. free_frame-IsValid w _) v _ refl

  pub mark_used_range-IsValid : IsValid (mark_used_range s addr count)
  unfolding mark_used_range
  mark_used_range-IsValid =
      count_up_inv _ (λ _. IsValid) count 0 s (λ i t _ _ w. mark_used-IsValid w _) v _ refl
