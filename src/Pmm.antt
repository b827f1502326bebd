-- ===== src/Pmm.antt =====
-- kernel/pmm.c and kernel/pmm.h: the bitmap allocator of physical page frames. One function per
-- C function; one that writes `pmm_state` or `page_bitmap` returns the new state. Messages to
-- the console and the serial port are left out.
pub mod Bitmap
pub mod Count
pub mod Valid
pub mod Alloc
pub mod Release
pub mod Run
pub mod Frames
pub mod Init
pub mod Calls
pub mod Sample
mod Tests
use f_rat_os.Base.{
  ℕ, zero, suc, ◌+◌, ◌*◌, ◌/◌, Bool, true, false, not, ◌||◌, Option, none, some, ltb, leb, ◌==◌,
  if◌then◌else◌, add64, sub64, mul64,
}
use f_rat_os.Base.Loops.{count_up}
use Bitmap.{PageBitmap, bitmap_set, bitmap_clear, bitmap_test}

-- PAGE_SIZE
abbrev pub page_size : ℕ
page_size = 4096

-- ADDR_TO_PAGE
abbrev pub addr_to_page : ℕ → ℕ
addr_to_page addr = addr / 4096

-- PAGE_TO_ADDR, a shift of a 64-bit word
abbrev pub page_to_addr : ℕ → ℕ
page_to_addr page = mul64 page 4096

-- `pmm_state`, with `page_bitmap`
pub record Pmm : Type 0 where
  pub bitmap : PageBitmap
  pub total_pages : ℕ
  pub free_pages : ℕ
  pub used_pages : ℕ
  pub highest_page : ℕ
  pub initialized : Bool

-- The static initialisers: every byte 0xFF, every field zero.
abbrev pub pmm_boot : Pmm
pmm_boot = record {
  bitmap = λ i. 255;
  total_pages = 0;
  free_pages = 0;
  used_pages = 0;
  highest_page = 0;
  initialized = false;
}

-- The first-fit loop of `pmm_alloc_frame` over the `rounds` pages from `page` on.
unfoldable pub find_free : (rounds page : ℕ) → PageBitmap → Option ℕ
find_free zero page b = none
find_free (suc n) page b =
    let rest = find_free n (page + 1) b in if bitmap_test b page then rest else some page

-- What `pmm_alloc_frame` does with the page that it found.
unfoldable pub take_page : Pmm → ℕ → Pmm
take_page s page = record s {
  bitmap = bitmap_set s.bitmap page;
  free_pages = sub64 s.free_pages 1;
  used_pages = add64 s.used_pages 1;
}

unfoldable pub alloc_frame : Pmm → ℕ × Pmm
alloc_frame s =
    if not s.initialized
    then (0, s)
    else if s.free_pages == 0
    then (0, s)
    else elim (find_free s.highest_page 0 s.bitmap) [
      | none ↦ (0, s)
      | some page ↦ (page_to_addr page, take_page s page)
    ]

-- The search loop of `pmm_alloc_frames`: the run so far starts at `start` and has `found` pages.
-- `found_count` stays below the number of rounds, so its `++` cannot wrap.
unfoldable pub find_run : (count rounds page start found : ℕ) → PageBitmap → Option ℕ
find_run count zero page start found b = none
find_run count (suc n) page start found b = elim (bitmap_test b page) [
  | true ↦ find_run count n (page + 1) start 0 b
  | false ↦
      let first = if found == 0 then page else start in
      let rest = find_run count n (page + 1) first (found + 1) b in
      if found + 1 == count then some first else rest
]

-- The inner loop of `pmm_alloc_frames` that marks the run.
unfoldable pub set_run : (count start : ℕ) → PageBitmap → PageBitmap
set_run count start = count_up (λ i b. bitmap_set b (add64 start i)) count 0

-- What `pmm_alloc_frames` does with the run that it found.
unfoldable pub take_run : Pmm → (count start : ℕ) → Pmm
take_run s count start = record s {
  bitmap = set_run count start s.bitmap;
  free_pages = sub64 s.free_pages count;
  used_pages = add64 s.used_pages count;
}

unfoldable pub alloc_frames : Pmm → ℕ → ℕ × Pmm
alloc_frames s count =
    if not s.initialized || count == 0
    then (0, s)
    else if ltb s.free_pages count
    then (0, s)
    else elim (find_run count s.highest_page 0 0 0 s.bitmap) [
      | none ↦ (0, s)
      | some start ↦ (page_to_addr start, take_run s count start)
    ]

unfoldable pub free_frame : Pmm → ℕ → Pmm
free_frame s addr =
    let page = addr_to_page addr in
    if not s.initialized
    then s
    else if leb s.highest_page page
    then s
    else if bitmap_test s.bitmap page
    then record s {
      bitmap = bitmap_clear s.bitmap page;
      free_pages = add64 s.free_pages 1;
      used_pages = sub64 s.used_pages 1;
    }
    else s

unfoldable pub free_frames : Pmm → (addr count : ℕ) → Pmm
free_frames s addr count = count_up (λ i t. free_frame t (add64 addr (mul64 i page_size))) count 0 s

unfoldable pub mark_used : Pmm → ℕ → Pmm
mark_used s addr =
    let page = addr_to_page addr in
    if not s.initialized
    then s
    else if leb s.highest_page page
    then s
    else if bitmap_test s.bitmap page
    then s
    else record s {
      bitmap = bitmap_set s.bitmap page;
      free_pages = if ltb 0 s.free_pages then sub64 s.free_pages 1 else s.free_pages;
      used_pages = add64 s.used_pages 1;
    }

unfoldable pub mark_used_range : Pmm → (addr count : ℕ) → Pmm
mark_used_range s addr count =
    count_up (λ i t. mark_used t (add64 addr (mul64 i page_size))) count 0 s

unfoldable pub is_allocated : Pmm → ℕ → Bool
is_allocated s addr =
    let page = addr_to_page addr in
    if not s.initialized
    then true
    else if leb s.highest_page page
    then true
    else bitmap_test s.bitmap page

-- `pmm_stats_t`
pub record PmmStats : Type 0 where
  pub total_pages : ℕ
  pub free_pages : ℕ
  pub used_pages : ℕ
  pub reserved_pages : ℕ
  pub total_memory : ℕ
  pub free_memory : ℕ

unfoldable pub get_stats : Pmm → PmmStats
get_stats s = record {
  total_pages = s.total_pages;
  free_pages = s.free_pages;
  used_pages = s.used_pages;
  reserved_pages = sub64 (sub64 s.total_pages s.free_pages) s.used_pages;
  total_memory = mul64 s.total_pages page_size;
  free_memory = mul64 s.free_pages page_size;
}

unfoldable pub get_total_memory : Pmm → ℕ
get_total_memory s = mul64 s.total_pages page_size

unfoldable pub get_free_memory : Pmm → ℕ
get_free_memory s = mul64 s.free_pages page_size
