-- ===== src/Pmm/Count.antt =====
-- How many pages below a bound the bitmap shows free, and how the bit helpers move that number.
use f_rat_os.Base.{ℕ, zero, suc, ◌+◌, ◌≤◌, ◌<◌, ◌≡◌, refl, true, false, if◌then◌else◌, arith}
use f_rat_os.Pmm.Bitmap.{
  PageBitmap, bitmap_set, bitmap_clear, bitmap_test, Bytes, bitmap_test-set, bitmap_test-clear,
}

unfoldable pub free_count : PageBitmap → ℕ → ℕ
free_count b zero = 0
free_count b (suc n) = (if bitmap_test b n then 0 else 1) + free_count b n

pub free_count-le : (b : PageBitmap) (n : ℕ) → free_count b n ≤ n
unfolding free_count
free_count-le b zero = omega arith
free_count-le b (suc n) = ground (arith, free_count-le b n)

pub free_count-pos :
    (b : PageBitmap) (n p : ℕ) → p < n → bitmap_test b p ≡ false → 0 < free_count b n
unfolding free_count
free_count-pos b zero p h e = absurd (omega arith)
free_count-pos b (suc n) p h e = ground (arith, free_count-pos b n p)

module _ (b : PageBitmap) (w : Bytes b) (p : ℕ) where
  pub free_count-set_ge : (n : ℕ) → n ≤ p → free_count (bitmap_set b p) n ≡ free_count b n
  unfolding free_count
  free_count-set_ge zero h = refl
  free_count-set_ge (suc n) h = ground (arith, free_count-set_ge n, bitmap_test-set b w p n)

  pub free_count-set :
      (n : ℕ) → p < n → bitmap_test b p ≡ false → free_count (bitmap_set b p) n + 1 ≡ free_count b n
  unfolding free_count
  free_count-set zero h e = absurd (omega arith)
  free_count-set (suc n) h e =
      ground (arith, free_count-set n, free_count-set_ge n, bitmap_test-set b w p n)

  pub free_count-clear_ge : (n : ℕ) → n ≤ p → free_count (bitmap_clear b p) n ≡ free_count b n
  unfolding free_count
  free_count-clear_ge zero h = refl
  free_count-clear_ge (suc n) h = ground (arith, free_count-clear_ge n, bitmap_test-clear b w p n)

  pub free_count-clear :
      (n : ℕ)
      → p < n
      → bitmap_test b p ≡ true
      → free_count (bitmap_clear b p) n ≡ free_count b n + 1
  unfolding free_count
  free_count-clear zero h e = absurd (omega arith)
  free_count-clear (suc n) h e =
      ground (arith, free_count-clear n, free_count-clear_ge n, bitmap_test-clear b w p n)
