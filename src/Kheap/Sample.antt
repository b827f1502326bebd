-- ===== src/Kheap/Sample.antt =====
-- A small heap, for the tests: a block at 0x200000 and a free one of 500 bytes behind it.
use f_rat_os.Base.{if◌then◌else◌, true, ℕ, ◌+◌, ◌==◌}
use f_rat_os.Pmm.Sample.{small}
use f_rat_os.Kheap.{Heap, block_magic}

-- The flags and the size of the first block are free to choose.
abbrev pub heap_of : (flags size : ℕ) → Heap
heap_of flags size = record {
  heap_start = 0x200000;
  heap_end = 0x200000 + (size + 572);
  heap_size = size + 572;
  first_block = 0x200000;
  initialized = true;
  stats = record {
    total_size = size + 572;
    used_size = 0;
    free_size = size + 500;
    num_blocks = 2;
    num_free_blocks = 2;
    num_used_blocks = 0;
    num_allocations = 0;
    num_frees = 0;
  };
  header = λ a.
      if a == 0x200000
      then record {
        size = size;
        flags = flags;
        next = 0x200024 + size;
        prev = 0;
        magic = block_magic;
      }
      else if a == 0x200024 + size
      then record { size = 500; flags = 0; next = 0; prev = 0x200000; magic = block_magic }
      else record { size = 0; flags = 0; next = 0; prev = 0; magic = 0 };
  byte = λ a. 0;
  vmm = record {
    kernel_pml4 = 0x2000;
    initialized = true;
    pml4_physical = 0x2000;
    mapped_pages = 0;
    kernel_pages = 0;
    page_tables_allocated = 1;
    memory = λ a. 0;
    pmm = small;
  };
}
