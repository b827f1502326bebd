-- ===== src/Pmm/Init/Default.antt =====
-- `pmm_init` of kernel/pmm.c with no memory map: the 16 MB fallback.
use f_rat_os.Base.{
  ℕ, zero, suc, ◌-◌, ◌≤◌, ◌≡◌, refl, sym, ap, ◌∙◌, true, false, not, ◌&&◌, Option, none, some,
  arith, ltb, leb,
}
use f_rat_os.Base.Loops.{count_up}
use f_rat_os.Boot.{BootInfo}
use f_rat_os.Pmm.{Pmm, pmm_boot}
use f_rat_os.Pmm.Bitmap.{PageBitmap, bitmap_test}
use f_rat_os.Pmm.Count.{free_count}
use f_rat_os.Pmm.Init.{clear_counters, finish, init, init_default, release_page, reserve_page}
use f_rat_os.Pmm.Init.Layout.{
  Painted, Partial, bitmap_test-ones, finish-IsValid, free_count-ones, release_run, reserve_run,
}
use f_rat_os.Pmm.Valid.{IsValid}

-- The bootloader gives no memory map that the kernel can use.
pub data NoMap : Option BootInfo → Type 0 where
  no_info : NoMap none
  no_map : (info : BootInfo) → info.memory_map ≡ none → NoMap (some info)
  empty_map : (info : BootInfo) → info.memory_map_size ≡ 0 → NoMap (some info)

-- Clear bits from `a` up to `e` only: as many pages are free.
free_count-range :
    (b : PageBitmap) (a e n : ℕ)
    → n ≤ e
    → ((q : ℕ) → bitmap_test b q ≡ not (leb a q && ltb q e))
    → free_count b n ≡ n - a
unfolding free_count
free_count-range b a e zero hi bits = omega arith
free_count-range b a e (suc n) hi bits =
    ground (arith, bits n, free_count-range b a e n (omega arith) bits)

sized : Pmm
unfolding clear_counters
sized = record (clear_counters pmm_boot) { total_pages = 4096; highest_page = 4096 }

sized_bits : (q : ℕ) → bitmap_test sized.bitmap q ≡ true
unfolding sized clear_counters
sized_bits q = bitmap_test-ones q

sized-Partial : Partial 4096 4096 sized
unfolding sized clear_counters
sized-Partial = record {
  bytes = λ i. omega arith;
  counted = sym (free_count-ones 4096);
  highest = refl;
  total = refl;
  clear_low = λ q e. cc (bitmap_test-ones q);
}

-- The 16 MB allocator before it is finished: pages 512 to 4095 are free.
freed : Painted 4096 4096 false sized 256 3840 (count_up release_page 3840 256 sized)
freed = release_run (omega arith) sized 256 3840 sized-Partial (omega arith) λ q _ _. sized_bits q

kept :
    Painted 4096 4096 true
      (count_up release_page 3840 256 sized)
      256
      256
      (count_up reserve_page 256 256 (count_up release_page 3840 256 sized))
kept = reserve_run (omega arith) _ 256 256 freed.partial

built : Pmm
built = count_up reserve_page 256 256 (count_up release_page 3840 256 sized)

built-Partial : Partial 4096 4096 built
unfolding built
built-Partial = kept.partial

built_bits : (q : ℕ) → bitmap_test built.bitmap q ≡ not (leb 512 q && ltb q 4096)
unfolding built
built_bits q = ground (arith, kept.bits q, freed.bits q, sized_bits q)

built_free : built.free_pages ≡ 3584
built_free =
    built-Partial.counted ∙ free_count-range built.bitmap 512 4096 4096 (omega arith) built_bits

-- The allocator that the fallback leaves behind.
pub record DefaultLayout (t : Pmm) : Type 0 where
  pub valid : IsValid t
  pub ready : t.initialized ≡ true
  pub free : t.free_pages ≡ 3584
  pub used : t.used_pages ≡ 512
  pub highest : t.highest_page ≡ 4096
  pub bits : (q : ℕ) → bitmap_test t.bitmap q ≡ not (leb 512 q && ltb q 4096)

init_default-eq : init_default (clear_counters pmm_boot) ≡ finish built
unfolding init_default built sized
init_default-eq = refl

finished : DefaultLayout (finish built)
unfolding finish
finished = record {
  valid = finish-IsValid (omega arith) (omega arith) built-Partial;
  ready = refl;
  free = built_free;
  used = omega (arith, built-Partial.total, built_free);
  highest = built-Partial.highest;
  bits = built_bits;
}

-- With no memory map that it can use, `pmm_init` leaves a valid, initialised allocator of 4096
-- pages, of which exactly pages 512 to 4095, those from 2 MB to 16 MB, are free.
pub init-default :
    (info : Option BootInfo)
    → NoMap info
    → (t : Pmm) × (init info pmm_boot ≡ some t) × DefaultLayout t
unfolding init
init-default none no_info = (finish built, ap some init_default-eq, finished)
init-default (some info) (no_map info' e) =
    (finish built, ground (arith, init_default-eq), finished)
init-default (some info) (empty_map info' e) =
    (finish built, ground (arith, init_default-eq), finished)
