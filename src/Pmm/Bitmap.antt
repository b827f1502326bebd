-- ===== src/Pmm/Bitmap.antt =====
-- The page bitmap of kernel/pmm.c, byte by byte, and its three bit helpers.
use f_rat_os.Base.{ℕ, ◌*◌, ◌/◌, ◌%◌, ◌<◌, ◌≡◌, Bool, true, false, ◌==◌, if◌then◌else◌, arith}
use f_rat_os.Base.Bits.{
  byte_set, byte_clear, byte_test, byte_set-lt, byte_clear-lt, byte_test-set, byte_test-clear,
}

-- `page_bitmap`: the byte at each index. BITMAP_SIZE is its length; `Valid.in_range` keeps every
-- index below it.
abbrev pub PageBitmap : Type 0
PageBitmap = ℕ → ℕ

-- BITMAP_SIZE
abbrev pub bitmap_size : ℕ
bitmap_size = 1024 * 1024

unfoldable pub bitmap_set : PageBitmap → ℕ → PageBitmap
bitmap_set b bit i = if i == bit / 8 then byte_set (b i) (bit % 8) else b i

unfoldable pub bitmap_clear : PageBitmap → ℕ → PageBitmap
bitmap_clear b bit i = if i == bit / 8 then byte_clear (b i) (bit % 8) else b i

unfoldable pub bitmap_test : PageBitmap → ℕ → Bool
bitmap_test b bit = byte_test (b (bit / 8)) (bit % 8)

-- Each entry is a byte.
abbrev pub Bytes : PageBitmap → Type 0
Bytes b = (i : ℕ) → b i < 256

module _ (b : PageBitmap) (w : Bytes b) (p : ℕ) where
  pub bitmap_set-Bytes : Bytes (bitmap_set b p)
  unfolding bitmap_set
  bitmap_set-Bytes i = ground (arith, w i, byte_set-lt (b i) (p % 8))

  pub bitmap_clear-Bytes : Bytes (bitmap_clear b p)
  unfolding bitmap_clear
  bitmap_clear-Bytes i = ground (arith, w i, byte_clear-lt (b i) (p % 8))

  pub bitmap_test-set :
      (q : ℕ) → bitmap_test (bitmap_set b p) q ≡ (if p == q then true else bitmap_test b q)
  unfolding bitmap_set bitmap_test
  bitmap_test-set q =
      ground (arith, w (q / 8), byte_test-set (b (q / 8)) (p % 8) (w (q / 8)) (omega arith) (q % 8))

  pub bitmap_test-clear :
      (q : ℕ) → bitmap_test (bitmap_clear b p) q ≡ (if p == q then false else bitmap_test b q)
  unfolding bitmap_clear bitmap_test
  bitmap_test-clear q =
      ground
        (arith, w (q / 8), byte_test-clear (b (q / 8)) (p % 8) (w (q / 8)) (omega arith) (q % 8))
