-- ===== src/Pmm/Init.antt =====
-- `pmm_init` of kernel/pmm.c: the two passes over the memory map of the bootloader, the fallback
-- without a map, and the reserved pages.
pub mod Layout
pub mod Default
pub mod Map
pub mod Whole
use f_rat_os.Base.{
  ℕ, zero, suc, ◌+◌, ◌-◌, ◌*◌, ◌/◌, ◌%◌, ◌^◌, ◌≤◌, ◌<◌, ◌≡◌, refl, sym, ap, ◌∙◌, ◌≢◌, ◌↔◌, ◌⊎◌, inl,
  inr, Bool, true, false, not, ◌&&◌, ◌||◌, Option, none, some, List, [], ◌∷◌, ◌++◌, map, arith, ltb,
  leb, ◌==◌, if◌then◌else◌, ltb→lt, lt→ltb, le→ltb, ltb→le, leb→gt, ==→eq, eq→==, ne→==, ==→ne,
  ==_self, Bool-cases, Option-cases, ap_if, if_elim, length, get_or, set, replicate, length-append,
  length-set, length-replicate, get_or-set_self, get_or-set_ne, add64, sub64, mul64, add32, sub32,
  bit_and, bit_or, bit_xor,
}
use f_rat_os.Base.Loops.{count_up}
use f_rat_os.Boot.{MemoryDescriptor, BootInfo}
use f_rat_os.Pmm.Bitmap.{bitmap_size, bitmap_set, bitmap_clear, bitmap_test}
use f_rat_os.Pmm.{Pmm, addr_to_page}

-- MEMORY_TYPE_AVAILABLE. In the map that the boot loader hands over, type 1 is the code of the loader,
-- and conventional memory is type 7 (bootloader/efi/efi.h).
abbrev pub memory_type_available : ℕ
memory_type_available = 1

-- The counters that `pmm_init` sets to zero first.
unfoldable pub clear_counters : Pmm → Pmm
clear_counters s = record s { total_pages = 0; free_pages = 0; used_pages = 0; highest_page = 0 }

-- The body of the loops that mark pages free.
unfoldable pub release_page : ℕ → Pmm → Pmm
release_page page s = record s {
  bitmap = bitmap_clear s.bitmap page;
  free_pages = add64 s.free_pages 1;
}

-- The body of the loops that reserve the first megabyte and the kernel's.
unfoldable pub reserve_page : ℕ → Pmm → Pmm
reserve_page page s = if bitmap_test s.bitmap page then s else record s {
  bitmap = bitmap_set s.bitmap page;
  free_pages = if ltb 0 s.free_pages then sub64 s.free_pages 1 else s.free_pages;
}

-- The pages of 0x100000 to 0x200000, where the kernel lives.
unfoldable pub reserve_kernel : Pmm → Pmm
reserve_kernel = count_up reserve_page (0x200000 / 4096 - 0x100000 / 4096) (addr_to_page 0x100000)

-- The pages of the first megabyte.
unfoldable pub reserve_low : Pmm → Pmm
reserve_low = count_up reserve_page (1024 * 1024 / 4096) 0

unfoldable pub finish : Pmm → Pmm
finish s = record s { used_pages = sub64 s.total_pages s.free_pages; initialized = true }

-- No memory map: 16 MB, of which the first two are not given out.
unfoldable pub init_default : Pmm → Pmm
unfolding reserve_kernel finish
init_default s =
    let default_pages : ℕ = 16 * 1024 * 1024 / 4096 in
    let reserved_pages : ℕ = 1 * 1024 * 1024 / 4096 in
    let sized = record s { total_pages = default_pages; highest_page = default_pages } in
    finish
      (reserve_kernel (count_up release_page (default_pages - reserved_pages) reserved_pages sized))

-- The descriptor of round `i`.
unfoldable pub entry_at : (ℕ → MemoryDescriptor) → (stride i : ℕ) → MemoryDescriptor
entry_at mmap stride i = mmap (mul64 i stride)

-- The body of the first pass: the highest page and the total of available pages.
unfoldable pub scan_entry : MemoryDescriptor → Pmm → Pmm
scan_entry e s =
    let end_page = add64 (addr_to_page e.physical_start) e.number_of_pages in
    record s {
      highest_page = if ltb s.highest_page end_page then end_page else s.highest_page;
      total_pages =
          if e.kind == memory_type_available
          then add64 s.total_pages e.number_of_pages
          else s.total_pages;
    }

-- The check of the bitmap's space.
unfoldable pub limit_highest : Pmm → Pmm
limit_highest s =
    if ltb bitmap_size (add64 s.highest_page 7 / 8)
    then record s { highest_page = bitmap_size * 8 }
    else s

-- The body of the second pass: free the pages of an available entry, as far as the bitmap goes.
unfoldable pub mark_entry : MemoryDescriptor → Pmm → Pmm
mark_entry e s =
    let start_page = addr_to_page e.physical_start in
    if not (e.kind == memory_type_available)
    then s
    else if leb s.highest_page start_page
    then s
    else let num_pages =
        if ltb s.highest_page (add64 start_page e.number_of_pages)
        then s.highest_page - start_page
        else e.number_of_pages in
      count_up release_page (add64 start_page num_pages - start_page) start_page s

-- The memory map path, over `num_entries` entries.
unfoldable pub init_map : (ℕ → MemoryDescriptor) → (stride num_entries : ℕ) → Pmm → Pmm
init_map mmap stride num_entries s =
    let scanned = count_up (λ i t. scan_entry (entry_at mmap stride i) t) num_entries 0 s in
    let marked =
      count_up (λ i t. mark_entry (entry_at mmap stride i) t) num_entries 0
        (limit_highest scanned) in
    finish (reserve_kernel (reserve_low marked))

-- `pmm_init`; `none` is the processor's divide error, at a descriptor size of 0.
unfoldable pub init : Option BootInfo → Pmm → Option Pmm
init none s = some (init_default (clear_counters s))
init (some info) s = elim info.memory_map [
  | none ↦ some (init_default (clear_counters s))
  | some mmap ↦
      if info.memory_map_size == 0
      then some (init_default (clear_counters s))
      else if info.memory_map_descriptor_size == 0
      then none
      else some (
          init_map mmap info.memory_map_descriptor_size
            (info.memory_map_size / info.memory_map_descriptor_size) (clear_counters s))
]
