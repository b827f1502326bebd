-- ===== src/UserMode/Tests.antt =====
-- The way into a user program from a heap with a free block of 200000 bytes.
use f_rat_os.Base.{Option, [], arith, refl, some, ◌∷◌, ◌≡◌}
use f_rat_os.Kheap.{Heap, heap_max_size}
use f_rat_os.Kheap.Sample.{heap_of}
use f_rat_os.Gdt.{Segments}
use f_rat_os.Gdt.Sample.{at_boot}
use f_rat_os.Kheap.Tiles.{IsHeap}
use f_rat_os.UserMode.{UserState, start_usermode_process}
use f_rat_os.UserMode.Stacks.{Start, start_usermode_process-Start}

roomy-IsHeap : IsHeap (heap_of 0 200000) (0x200000 ∷ 0x230D64 ∷ [])
roomy-IsHeap = record {
  tiles = (
    refl,
    refl,
    record { magic_set = refl; some_size = omega arith; flag = omega arith; back = refl },
    (
      refl,
      refl,
      record { magic_set = refl; some_size = omega arith; flag = omega arith; back = refl },
      (refl, refl),
    ),
  );
  start_set = omega arith;
  start_low = omega arith;
  span = refl;
  limit = omega arith;
}

start_usermode_process-Start_example :
    (u : Option UserState) × (h' : Heap) × (s' : Segments) × (start_usermode_process heap_max_size
        0x1000
        (heap_of 0 200000)
        at_boot
      ≡ some (u, h', s'))
    × Start (heap_of 0 200000) (0x200000 ∷ 0x230D64 ∷ []) 0x1000 at_boot u h' s'
start_usermode_process-Start_example =
    start_usermode_process-Start heap_max_size 0x1000 (heap_of 0 200000) (0x200000 ∷ 0x230D64 ∷ [])
      at_boot roomy-IsHeap refl (omega arith)
