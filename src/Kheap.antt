-- ===== src/Kheap.antt =====
-- kernel/kheap.c and kernel/kheap.h: the kernel heap, a list of blocks with headers, over the page
-- tables and the frame allocator. A header is a record at its address, and the bytes of the data
-- areas stand beside the headers: two headers that overlap in part are not modelled, nor data written
-- over a header. Messages and `mfence` are left out. A loop along the list takes
-- fuel, one unit for each block it looks at and one for the end; `none` is a loop that goes on.
pub mod Search
pub mod Overflow
pub mod Split
pub mod Sample
pub mod Tiles
pub mod Cut
pub mod Coalesce
pub mod Mark
pub mod Free
pub mod Take
pub mod Append
pub mod Expand
pub mod Alloc
pub mod Start
pub mod Reuse
mod Tests
use f_rat_os.Base.{
  Bool, Option, add64, bit_and, false, if◌then◌else◌, leb, ltb, mul64, none, not, some, sub64, suc,
  true, zero, ℕ, ◌%◌, ◌&&◌, ◌*◌, ◌+◌, ◌/◌, ◌==◌,
}
use f_rat_os.Base.Loops.{count_up}
use f_rat_os.Task.{update}
use f_rat_os.Pmm.{alloc_frame, free_frame}
use f_rat_os.Vmm.{Vmm, align_up, map_page, pte_kernel_flags}
use Prim.Native.Nat.{min}

-- `block_header_t`
pub record BlockHeader : Type 0 where
  pub size : ℕ
  pub flags : ℕ
  pub next : ℕ
  pub prev : ℕ
  pub magic : ℕ

-- `heap_stats_t`
pub record HeapStats : Type 0 where
  pub total_size : ℕ
  pub used_size : ℕ
  pub free_size : ℕ
  pub num_blocks : ℕ
  pub num_free_blocks : ℕ
  pub num_used_blocks : ℕ
  pub num_allocations : ℕ
  pub num_frees : ℕ

-- `heap_state`, the headers, the data bytes and the page tables.
pub record Heap : Type 0 where
  pub heap_start : ℕ
  pub heap_end : ℕ
  pub heap_size : ℕ
  pub first_block : ℕ
  pub initialized : Bool
  pub stats : HeapStats
  pub header : ℕ → BlockHeader
  pub byte : ℕ → ℕ
  pub vmm : Vmm

-- BLOCK_MAGIC, and HEADER_SIZE of the packed structure: four words of 8 bytes and one of 4.
abbrev pub block_magic : ℕ
block_magic = 0xDEADBEEF

abbrev pub header_size : ℕ
header_size = 36

-- HEAP_START_ADDR, HEAP_INITIAL_SIZE, HEAP_MAX_SIZE, HEAP_MIN_BLOCK
abbrev pub heap_start_addr : ℕ
heap_start_addr = 0x200000

abbrev pub heap_initial_size : ℕ
heap_initial_size = 1024 * 1024

abbrev pub heap_max_size : ℕ
heap_max_size = 16 * 1024 * 1024

abbrev pub heap_min_block : ℕ
heap_min_block = 16

-- ALIGN_UP to 8
abbrev pub align_eight : ℕ → ℕ
align_eight n = add64 n 7 / 8 * 8

-- `block_to_ptr` and `ptr_to_block`
abbrev pub block_to_ptr : ℕ → ℕ
block_to_ptr block = add64 block header_size

abbrev pub ptr_to_block : ℕ → ℕ
ptr_to_block ptr = sub64 ptr header_size

-- BLOCK_USED of a header
abbrev pub is_used : BlockHeader → Bool
is_used b = b.flags % 2 == 1

unfoldable pub validate_block : ℕ → Heap → Bool
validate_block block h =
    if block == 0
    then false
    else if not ((h.header block).magic == block_magic)
    then false
    else not ((h.header block).size == 0)

abbrev pub put_header : (block : ℕ) → BlockHeader → Heap → Heap
put_header block b h = record h { header = update h.header block b }

abbrev pub set_prev : (block v : ℕ) → Heap → Heap
set_prev block v h = put_header block (record (h.header block) { prev = v }) h

abbrev pub set_next : (block v : ℕ) → Heap → Heap
set_next block v h = put_header block (record (h.header block) { next = v }) h

-- The search from the block at `current` on; 0 for none, or for a corrupted block.
unfoldable pub find_free_from : (fuel size current : ℕ) → Heap → Option ℕ
find_free_from zero size current h = none
find_free_from (suc n) size current h =
    let b = h.header current in
    let rest = find_free_from n size b.next h in
    if current == 0
    then some 0
    else if not (validate_block current h)
    then some 0
    else if not (is_used b) && leb size b.size
    then some current
    else rest

unfoldable pub find_free_block : (fuel size : ℕ) → Heap → Option ℕ
find_free_block fuel size h = find_free_from fuel size h.first_block h

unfoldable pub split_block : (block size : ℕ) → Heap → Heap
split_block block size h =
    let b = h.header block in
    let new_block = add64 (add64 block header_size) size in
    let remaining = sub64 (sub64 b.size size) header_size in
    if ltb b.size (add64 (add64 size header_size) heap_min_block)
    then h
    else let made =
        put_header new_block
          (record { size = remaining; flags = 0; next = b.next; prev = block; magic = block_magic })
          h in
      let linked = if b.next == 0 then made else set_prev b.next new_block made in
      let cut =
        put_header block (record (linked.header block) { next = new_block; size = size }) linked in
      record cut {
        stats = record (cut.stats) {
          num_blocks = add64 cut.stats.num_blocks 1;
          num_free_blocks = add64 cut.stats.num_free_blocks 1;
        };
      }

-- The block at `current` swallows the next one.
unfoldable pub merge_next : (current : ℕ) → Heap → Heap
merge_next current h =
    let b = h.header current in
    let c = h.header b.next in
    let grown =
      put_header current
        (record b { size = add64 b.size (add64 header_size c.size); next = c.next }) h in
    let linked = if c.next == 0 then grown else set_prev c.next current grown in
    record linked {
      stats = record (linked.stats) {
        num_blocks = sub64 linked.stats.num_blocks 1;
        num_free_blocks = sub64 linked.stats.num_free_blocks 1;
      };
    }

unfoldable pub coalesce_from : (fuel current : ℕ) → Heap → Option Heap
coalesce_from zero current h = none
coalesce_from (suc n) current h =
    let b = h.header current in
    let merged = coalesce_from n current (merge_next current h) in
    let rest = coalesce_from n b.next h in
    if current == 0
    then some h
    else if b.next == 0
    then some h
    else if not (validate_block current h)
    then some h
    else if not (is_used b) && not (is_used (h.header b.next))
    then merged
    else rest

unfoldable pub coalesce : (fuel : ℕ) → Heap → Option Heap
coalesce fuel h = coalesce_from fuel h.first_block h

-- The last block from `last` on.
unfoldable pub last_from : (fuel last : ℕ) → Heap → Option ℕ
last_from zero last h = none
last_from (suc n) last h =
    let b = h.header last in
    let rest = last_from n b.next h in
    if last == 0 then some last else if b.next == 0 then some last else rest

-- The loop of `kheap_expand` over the pages, from page `i` on: whether all were mapped. A page that
-- cannot be mapped is given back, those before it are not.
unfoldable pub map_heap_pages : (rounds i virt : ℕ) → Vmm → Bool × Vmm
map_heap_pages zero i virt v = (true, v)
map_heap_pages (suc n) i virt v =
    let (phys, pmm) = alloc_frame v.pmm in
    let taken = record v { pmm = pmm } in
    let (mapped, v') = map_page (add64 virt (i * 4096)) phys pte_kernel_flags taken in
    let rest = map_heap_pages n (i + 1) virt v' in
    if phys == 0
    then (false, taken)
    else if not mapped
    then (false, record v' { pmm = free_frame v'.pmm phys })
    else rest

-- The new block at the end of the list.
unfoldable pub append_block : (fuel : ℕ) → BlockHeader → Heap → Option Heap
append_block fuel b h =
    let made = put_header h.heap_end b h in
    if h.first_block == 0
    then some (record made { first_block = h.heap_end })
    else elim (last_from fuel made.first_block made) [
      | none ↦ none
      | some last ↦ some (set_prev h.heap_end last (set_next last h.heap_end made))
    ]

-- What `kheap_expand` adds to the bounds and the counters.
unfoldable pub grow : (size : ℕ) → Heap → Heap
grow size h = record h {
  heap_end = add64 h.heap_end size;
  heap_size = add64 h.heap_size size;
  stats = record (h.stats) {
    total_size = add64 h.stats.total_size size;
    free_size = add64 h.stats.free_size (sub64 size header_size);
    num_blocks = add64 h.stats.num_blocks 1;
    num_free_blocks = add64 h.stats.num_free_blocks 1;
  };
}

unfoldable pub expand : (fuel size : ℕ) → Heap → Option Heap
expand fuel size h =
    let size' = align_up size in
    let (mapped, v) = map_heap_pages (size' / 4096) 0 h.heap_end h.vmm in
    let paged = record h { vmm = v } in
    let block : BlockHeader = record {
      size = sub64 size' header_size;
      flags = 0;
      next = 0;
      prev = 0;
      magic = block_magic;
    } in
    let appended = append_block fuel block paged in
    if ltb heap_max_size (add64 h.heap_size size')
    then some h
    else if not mapped
    then some paged
    else elim appended [ none ↦ none | some h' ↦ coalesce fuel (grow size' h') ]

-- What `kmalloc` does with the block that it found.
unfoldable pub take_block : (block size : ℕ) → Heap → ℕ × Heap
take_block block size h =
    let cut = split_block block size h in
    let used = put_header block (record (cut.header block) { flags = 1 }) cut in
    (
      block_to_ptr block,
      record used {
        stats = record (used.stats) {
          used_size = add64 used.stats.used_size (used.header block).size;
          free_size = sub64 used.stats.free_size (used.header block).size;
          num_used_blocks = add64 used.stats.num_used_blocks 1;
          num_free_blocks = sub64 used.stats.num_free_blocks 1;
          num_allocations = add64 used.stats.num_allocations 1;
        };
      },
    )

-- `kmalloc` when no block was found: expand and search again.
unfoldable pub expand_and_take : (fuel size : ℕ) → Heap → Option (ℕ × Heap)
expand_and_take fuel size h = elim (expand fuel (align_up (add64 size header_size)) h) [
  | none ↦ none
  | some h' ↦ elim (find_free_block fuel size h') [
    | none ↦ none
    | some block ↦ if block == 0 then some (0, h') else some (take_block block size h')
  ]
]

unfoldable pub kmalloc : (fuel size : ℕ) → Heap → Option (ℕ × Heap)
kmalloc fuel size h =
    let n = align_eight size in
    if not h.initialized
    then some (0, h)
    else if size == 0
    then some (0, h)
    else elim (find_free_block fuel n h) [
      | none ↦ none
      | some block ↦ if block == 0 then expand_and_take fuel n h else some (take_block block n h)
    ]

-- Both ends of `kmalloc_aligned` return the pointer as `kmalloc` gave it.
unfoldable pub kmalloc_aligned : (fuel size alignment : ℕ) → Heap → Option (ℕ × Heap)
kmalloc_aligned fuel size alignment h =
    if not (bit_and alignment (sub64 alignment 1) == 0)
    then some (0, h)
    else kmalloc fuel (add64 (add64 size alignment) header_size) h

abbrev pub put_byte : (addr value : ℕ) → Heap → Heap
put_byte addr value h = record h { byte = update h.byte addr value }

unfoldable pub zero_bytes : (ptr count : ℕ) → Heap → Heap
zero_bytes ptr count = count_up (λ i. put_byte (add64 ptr i) 0) count 0

unfoldable pub kcalloc : (fuel num size : ℕ) → Heap → Option (ℕ × Heap)
kcalloc fuel num size h = elim (kmalloc fuel (mul64 num size) h) [
  | none ↦ none
  | some (ptr, h') ↦ some (ptr, if ptr == 0 then h' else zero_bytes ptr (mul64 num size) h')
]

-- What `kfree` does with a used block.
unfoldable pub release_block : (block : ℕ) → Heap → Heap
release_block block h =
    let b = h.header block in
    record (put_header block (record b { flags = 0 }) h) {
      stats = record (h.stats) {
        used_size = sub64 h.stats.used_size b.size;
        free_size = add64 h.stats.free_size b.size;
        num_used_blocks = sub64 h.stats.num_used_blocks 1;
        num_free_blocks = add64 h.stats.num_free_blocks 1;
        num_frees = add64 h.stats.num_frees 1;
      };
    }

unfoldable pub kfree : (fuel ptr : ℕ) → Heap → Option Heap
kfree fuel ptr h =
    let block = ptr_to_block ptr in
    if ptr == 0
    then some h
    else if not h.initialized
    then some h
    else if not (validate_block block h)
    then some h
    else if not (is_used (h.header block))
    then some h
    else coalesce fuel (release_block block h)

-- The copy loop of `krealloc`, over as many bytes as both sizes allow.
unfoldable pub copy_bytes : (src dst count : ℕ) → Heap → Heap
copy_bytes src dst count = count_up (λ i h. put_byte (add64 dst i) (h.byte (add64 src i)) h) count 0

unfoldable pub krealloc : (fuel ptr new_size : ℕ) → Heap → Option (ℕ × Heap)
krealloc fuel ptr new_size h =
    let block = ptr_to_block ptr in
    let moved : Option (ℕ × Heap) = elim (kmalloc fuel new_size h) [
      | none ↦ none
      | some (new_ptr, h') ↦
          if new_ptr == 0
          then some (0, h')
          else let copied = copy_bytes ptr new_ptr (min (h'.header block).size new_size) h' in
            elim (kfree fuel ptr copied) [ none ↦ none | some h'' ↦ some (new_ptr, h'') ]
    ] in
    let freed : Option (ℕ × Heap) = elim (kfree fuel ptr h) [
      | none ↦ none
      | some h' ↦ some (0, h')
    ] in
    if ptr == 0
    then kmalloc fuel new_size h
    else if new_size == 0
    then freed
    else if not (validate_block block h)
    then some (0, h)
    else if leb new_size (h.header block).size
    then some (ptr, h)
    else moved

-- `kheap_init`. The list is left as it is: the static initialiser has made it empty.
unfoldable pub init : (fuel : ℕ) → Heap → Option Heap
init fuel h =
    elim (expand fuel heap_initial_size
      (record h { heap_start = heap_start_addr; heap_end = heap_start_addr; heap_size = 0 })) [
        | none ↦ none
        | some h' ↦ some (if h'.heap_size == 0 then h' else record h' { initialized = true })
      ]

-- The loop of `kheap_validate`; it counts the blocks, and gives up past the counter of blocks.
unfoldable pub validate_from : (fuel count current : ℕ) → Heap → Option Bool
validate_from zero count current h = none
validate_from (suc n) count current h =
    let rest = validate_from n (add64 count 1) (h.header current).next h in
    if current == 0
    then some true
    else if not (validate_block current h)
    then some false
    else if ltb (add64 h.stats.num_blocks 10) (add64 count 1)
    then some false
    else rest

unfoldable pub validate : (fuel : ℕ) → Heap → Option Bool
validate fuel h = if not h.initialized then some false else validate_from fuel 0 h.first_block h
