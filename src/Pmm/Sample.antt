-- ===== src/Pmm/Sample.antt =====
-- A small allocator, for the tests.
use f_rat_os.Base.{arith, if◌then◌else◌, refl, true, ◌==◌}
use f_rat_os.Base.Bits.{byte_test}
use f_rat_os.Pmm.{Pmm}
use f_rat_os.Pmm.Bitmap.{bitmap_test}
use f_rat_os.Pmm.Count.{free_count}
use f_rat_os.Pmm.Valid.{IsValid}

-- Sixteen pages: 3, 5, 6, 9 and 10 are free.
abbrev pub small : Pmm
small = record {
  bitmap = λ i. if i == 0 then 0b10010111 else if i == 1 then 0b11111001 else 255;
  total_pages = 16;
  free_pages = 5;
  used_pages = 11;
  highest_page = 16;
  initialized = true;
}

pub small-IsValid : IsValid small
unfolding free_count bitmap_test byte_test
small-IsValid = record {
  bytes = λ i. ground arith;
  in_range = omega arith;
  counted = refl;
  balanced = refl;
  used_word = omega arith;
}
