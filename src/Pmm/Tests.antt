-- ===== src/Pmm/Tests.antt =====
-- Runs of the allocator, and its theorems at concrete states.
use f_rat_os.Pmm.Sample.{small, small-IsValid}
use f_rat_os.Base.{
  [], arith, false, if◌then◌else◌, none, refl, some, suc, true, zero, ℕ, ◌*◌, ◌+◌, ◌<◌, ◌==◌, ◌^◌,
  ◌∷◌, ◌≡◌, ◌≢◌, ◌≤◌, ◌⊎◌,
}
use f_rat_os.Base.Bits.{byte_test}
use f_rat_os.Boot.{BootInfo, MemoryDescriptor, aurora_boot_magic}
use f_rat_os.Pmm.{
  Pmm, addr_to_page, alloc_frame, alloc_frames, find_free, find_run, free_frame, is_allocated,
  pmm_boot,
}
use f_rat_os.Pmm.Alloc.{AllSet, FirstFree, Taken, alloc_frame-first_fit}
use f_rat_os.Pmm.Bitmap.{bitmap_test}
use f_rat_os.Pmm.Calls.{
  call_alloc_frame, call_alloc_frames, call_free_frames, call_mark_used_range, run, run-IsValid,
}
use f_rat_os.Pmm.Count.{free_count}
use f_rat_os.Pmm.Frames.{TakenRun, alloc_frames-first_fit}
use f_rat_os.Pmm.Init.{entry_at, init}
use f_rat_os.Pmm.Init.Default.{DefaultLayout, init-default, no_info}
use f_rat_os.Pmm.Init.Map.{IsMap, end_page}
use f_rat_os.Pmm.Init.Whole.{MapLayout, init-MapLayout}
use f_rat_os.Pmm.Release.{SamePages, alloc_frame-free, alloc_frame-page_zero}
use f_rat_os.Pmm.Run.{FirstRun, FreeRun}
use f_rat_os.Pmm.Valid.{IsValid}

alloc_frame_test : (alloc_frame small).0 ≡ 0x3000
unfolding alloc_frame find_free bitmap_test byte_test
alloc_frame_test = refl

alloc_frames_test : ((alloc_frames small 2).0 ≡ 0x5000) × ((alloc_frames small 3).0 ≡ 0)
unfolding alloc_frames find_run bitmap_test byte_test
alloc_frames_test = (refl, refl)

alloc_frame-first_fit_example :
    (AllSet small.bitmap 0 16 × (alloc_frame small ≡ (0, small)))
    ⊎ ((p : ℕ) × FirstFree small.bitmap 0 16 p
        × ((alloc_frame small).0 ≡ p * 4096)
        × Taken small p (alloc_frame small).1
        × IsValid (alloc_frame small).1)
alloc_frame-first_fit_example = alloc_frame-first_fit small-IsValid refl

alloc_frames-first_fit_example :
    (((t : ℕ) → t + 2 ≤ 16 → ¬ FreeRun small.bitmap t 2) × (alloc_frames small 2 ≡ (0, small)))
    ⊎ ((r : ℕ) × FirstRun small.bitmap 2 (omega arith) 16 r
        × ((alloc_frames small 2).0 ≡ r * 4096)
        × TakenRun small r 2 (alloc_frames small 2).1
        × IsValid (alloc_frames small 2).1)
alloc_frames-first_fit_example = alloc_frames-first_fit small-IsValid 2 refl (omega arith)

alloc_frame-ne_zero : (alloc_frame small).0 ≢ 0
alloc_frame-ne_zero e = omega (arith, e, alloc_frame_test)

alloc_frame-free_example :
    (is_allocated small (alloc_frame small).0 ≡ false)
    × (is_allocated (alloc_frame small).1 (alloc_frame small).0 ≡ true)
    × SamePages small (free_frame (alloc_frame small).1 (alloc_frame small).0)
alloc_frame-free_example = alloc_frame-free small-IsValid refl alloc_frame-ne_zero

-- Page 0 given back.
abbrev zero_free : Pmm
zero_free = record small {
  bitmap = λ i. if i == 0 then 0b10010110 else if i == 1 then 0b11111001 else 255;
  free_pages = 6;
  used_pages = 10;
}

zero_free-IsValid : IsValid zero_free
unfolding free_count bitmap_test byte_test
zero_free-IsValid = record {
  bytes = λ i. ground arith;
  in_range = omega arith;
  counted = refl;
  balanced = refl;
  used_word = omega arith;
}

zero_is_free : is_allocated zero_free 0 ≡ false
unfolding is_allocated bitmap_test byte_test
zero_is_free = refl

alloc_frame-page_zero_example :
    ((alloc_frame zero_free).0 ≡ 0)
    × ((alloc_frame zero_free).1.free_pages + 1 ≡ 6)
    × (is_allocated (alloc_frame zero_free).1 0 ≡ true)
alloc_frame-page_zero_example = alloc_frame-page_zero zero_free-IsValid refl zero_is_free

run-IsValid_example : IsValid (
    run
      (call_alloc_frame
        ∷ call_mark_used_range 0x4000 3
        ∷ call_alloc_frames 2
        ∷ call_free_frames 0 20
        ∷ [])
      small)
run-IsValid_example = run-IsValid _ small small-IsValid

init-default_example : (t : Pmm) × (init none pmm_boot ≡ some t) × DefaultLayout t
init-default_example = init-default none no_info

-- Two entries of conventional memory, around one that is reserved.
abbrev firmware_map : ℕ → MemoryDescriptor
firmware_map offset =
    if offset == 0
    then record {
      kind = 1;
      physical_start = 0;
      virtual_start = 0;
      number_of_pages = 160;
      attribute = 0;
    }
    else if offset == 40
    then record {
      kind = 2;
      physical_start = 0xA0000;
      virtual_start = 0;
      number_of_pages = 96;
      attribute = 0;
    }
    else record {
      kind = 1;
      physical_start = 0x100000;
      virtual_start = 0;
      number_of_pages = 4096;
      attribute = 0;
    }

abbrev firmware : BootInfo
firmware = record {
  magic = aurora_boot_magic;
  memory_map = some firmware_map;
  memory_map_size = 120;
  memory_map_descriptor_size = 40;
  graphics_info = 0;
  acpi_rsdp = 0;
  kernel_physical_base = 0x100000;
  kernel_virtual_base = 0xFFFFFFFF80000000;
  kernel_size = 0x40000;
}

firmware_in_space : (i : ℕ) → i < 3 → end_page (entry_at firmware_map 40 i) ≤ 2 ^ 52
unfolding entry_at
firmware_in_space zero h = omega arith
firmware_in_space (suc zero) h = omega arith
firmware_in_space (suc (suc i)) h = ground arith

firmware_apart :
    (i j q : ℕ)
    → i < 3
    → j < 3
    → (entry_at firmware_map 40 i).kind ≡ 1
    → (entry_at firmware_map 40 j).kind ≡ 1
    → (addr_to_page (entry_at firmware_map 40 i).physical_start ≤ q)
      × (q < end_page (entry_at firmware_map 40 i))
    → (addr_to_page (entry_at firmware_map 40 j).physical_start ≤ q)
      × (q < end_page (entry_at firmware_map 40 j))
    → i ≡ j
unfolding entry_at
firmware_apart i j q hi hj ki kj (a, b) (c, d) = ground arith

firmware_map-IsMap : IsMap firmware_map 40 3
unfolding entry_at
firmware_map-IsMap = record {
  in_space = firmware_in_space;
  apart = λ i j q hi hj c d.
      firmware_apart i j q hi hj c.available d.available (c.from, c.below) (d.from, d.below);
}

init-MapLayout_example :
    (t : Pmm) × (init (some firmware) pmm_boot ≡ some t) × MapLayout firmware_map 40 3 t
init-MapLayout_example =
    init-MapLayout firmware firmware_map refl (omega arith) (omega arith) firmware_map-IsMap
