-- ===== src/Kheap/Tests.antt =====
-- The kernel heap at a concrete state: a block of 1000 bytes and a free one of 500.
use f_rat_os.Base.{
  List, [], arith, false, if◌then◌else◌, refl, some, suc, true, ℕ, ◌+◌, ◌-◌, ◌==◌, ◌^◌, ◌∷◌, ◌≡◌,
  ◌≢◌, ◌⊎◌,
}
use f_rat_os.Base.Bits.{byte_set, byte_test}
use f_rat_os.Kheap.{
  Heap, block_to_ptr, find_free_block, find_free_from, header_size, heap_initial_size,
  heap_max_size, heap_start_addr, init, is_used, kfree, kmalloc, map_heap_pages, split_block,
  validate, validate_block,
}
use f_rat_os.Pmm.{alloc_frame, find_free, take_page}
use f_rat_os.Pmm.Bitmap.{bitmap_set, bitmap_test}
use f_rat_os.Vmm.{
  get_pte, map_page, new_table, parse_address, pd_of, pdpt_of, pt_of, pte_create, set_pte,
}
use f_rat_os.Kheap.Start.{first_pages, init-IsHeap}
use f_rat_os.Kheap.Tiles.{IsHeap, used_blocks}
use f_rat_os.Kheap.Sample.{heap_of}
use f_rat_os.Kheap.Search.{Blocks, FirstFit, NoneFits, find_free_block-FirstFit}
use f_rat_os.Kheap.Overflow.{kmalloc-overflow}
use f_rat_os.Kheap.Split.{split_block-cuts}
use f_rat_os.Kheap.Coalesce.{Separated}
use f_rat_os.Kheap.Free.{kfree-IsHeap}
use f_rat_os.Kheap.Alloc.{Allocated, kmalloc-Allocated}
use f_rat_os.Kheap.Reuse.{kmalloc-kfree}

abbrev free_heap : Heap
free_heap = heap_of 0 1000

abbrev used_heap : Heap
used_heap = heap_of 1 1000

find_second : find_free_block 3 400 used_heap ≡ some 0x20040C
unfolding find_free_block find_free_from validate_block
find_second = refl

two-Blocks : Blocks used_heap 0x200000 (0x200000 ∷ 0x20040C ∷ [])
unfolding validate_block
two-Blocks = (refl, refl, (refl, refl, refl))

find_free_block-FirstFit_example :
    ((find_free_block 3 400 used_heap ≡ some 0) × NoneFits used_heap 400 (0x200000 ∷ 0x20040C ∷ []))
    ⊎ ((b : ℕ) × (find_free_block 3 400 used_heap ≡ some b)
        × FirstFit used_heap 400 (0x200000 ∷ 0x20040C ∷ []) b)
find_free_block-FirstFit_example =
    find_free_block-FirstFit (0x200000 ∷ 0x20040C ∷ []) 3 400 used_heap two-Blocks (omega arith)

abbrev huge_size : ℕ
huge_size = 2 ^ 64 - 7

kmalloc-overflow_example :
    (h' : Heap) × (kmalloc 2 huge_size free_heap ≡ some (block_to_ptr 0x200000, h'))
    × ((m : ℕ) → validate (suc m) h' ≡ some false)
    × ((m k : ℕ) → find_free_block (suc m) k h' ≡ some 0)
unfolding validate_block
kmalloc-overflow_example =
    kmalloc-overflow 1 huge_size free_heap (omega arith) (omega arith) refl (omega arith) refl refl
      (omega arith)

abbrev split_heap : Heap
split_heap = split_block 0x200000 64 free_heap

split_block-cuts_example :
    (new : ℕ) × (new ≡ block_to_ptr 0x200000 + 64)
    × ((split_heap.header 0x200000).next ≡ new)
    × ((split_heap.header new).prev ≡ 0x200000)
    × (validate_block new split_heap ≡ true)
    × (is_used (split_heap.header new) ≡ false)
    × ((split_heap.header new).next ≡ 0x20040C)
    × ((free_heap.header 0x200000).next ≢ 0 → (split_heap.header 0x20040C).prev ≡ new)
    × ((split_heap.header 0x200000).size + (header_size + (split_heap.header new).size) ≡ 1000)
split_block-cuts_example =
    split_block-cuts 0x200000 64 free_heap (omega arith) (omega arith) (omega arith) (omega arith)

-- The used block of 1000 bytes and the free one behind it fill the heap; freeing the first leaves
-- one free block.
used_heap-IsHeap : IsHeap used_heap (0x200000 ∷ 0x20040C ∷ [])
used_heap-IsHeap = record {
  tiles = (
    refl,
    refl,
    record { magic_set = refl; some_size = omega arith; flag = omega arith; back = refl },
    (
      refl,
      refl,
      record { magic_set = refl; some_size = omega arith; flag = omega arith; back = refl },
      (refl, refl),
    ),
  );
  start_set = omega arith;
  start_low = omega arith;
  span = refl;
  limit = omega arith;
}

kfree-IsHeap_example :
    (h' : Heap) × (bs : List ℕ) × (kfree 3 (block_to_ptr 0x200000) used_heap ≡ some h')
    × IsHeap h' bs
    × Separated h'.header bs
    × (h'.heap_end ≡ used_heap.heap_end)
    × (used_blocks h'.header bs ≡ [])
kfree-IsHeap_example =
    kfree-IsHeap 3 [] 0x200000 (0x20040C ∷ []) used_heap used_heap-IsHeap refl refl (omega arith)

kmalloc-Allocated_example :
    (ptr : ℕ) × (h' : Heap) × (bs : List ℕ) × (kmalloc 4 100 used_heap ≡ some (ptr, h'))
    × Allocated used_heap (0x200000 ∷ 0x20040C ∷ []) 100 ptr h' bs
kmalloc-Allocated_example =
    kmalloc-Allocated 4 100 used_heap (0x200000 ∷ 0x20040C ∷ []) used_heap-IsHeap refl (omega arith)
      (omega arith) (omega arith)

kmalloc-kfree_example :
    (ptr : ℕ) × (h' : Heap) × (kmalloc heap_max_size 100 used_heap ≡ some (ptr, h'))
    × ((ptr ≡ 0)
        ⊎ ((h'' : Heap) × (bs : List ℕ) × (kfree heap_max_size ptr h' ≡ some h'')
            × IsHeap h'' bs
            × (used_blocks h''.header bs ≡ (0x200000, 1000) ∷ [])))
kmalloc-kfree_example =
    kmalloc-kfree heap_max_size 100 used_heap (0x200000 ∷ 0x20040C ∷ []) used_heap-IsHeap refl
      (omega arith) (omega arith) (omega arith)

-- The state before `kheap_init`, with 4096 free frames
abbrev bare_heap : Heap
bare_heap = record free_heap {
  heap_start = 0;
  heap_end = 0;
  heap_size = 0;
  first_block = 0;
  initialized = false;
  vmm = record (free_heap.vmm) {
    pmm = record {
      bitmap = λ i. if i == 0 then 0b111 else 0;
      total_pages = 4096;
      free_pages = 4093;
      used_pages = 3;
      highest_page = 4096;
      initialized = true;
    };
  };
}

-- There is memory for all of the first expansion.
all_pages : (first_pages bare_heap).0 ≡ true
unfolding map_heap_pages alloc_frame find_free bitmap_test byte_test map_page get_pte pdpt_of
    new_table take_page bitmap_set byte_set pd_of parse_address pt_of set_pte pte_create
all_pages = refl

init-IsHeap_example :
    (h' : Heap) × (bs : List ℕ) × (init 2 bare_heap ≡ some h')
    × IsHeap h' bs
    × (used_blocks h'.header bs ≡ [])
    × (((first_pages bare_heap).0 ≡ true)
          × (h'.initialized ≡ true)
          × (bs ≡ heap_start_addr ∷ [])
          × ((h'.header heap_start_addr).size + header_size ≡ heap_initial_size)
        ⊎ ((first_pages bare_heap).0 ≡ false)
          × (h'.initialized ≡ false)
          × (bs ≡ [])
          × (h'.heap_size ≡ 0))
init-IsHeap_example = init-IsHeap 2 bare_heap refl (omega arith)
