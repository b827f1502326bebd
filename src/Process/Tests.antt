-- ===== src/Process/Tests.antt =====
-- A process at address 64 in a concrete system, where thread 32 waits at the end of the queue.
use f_rat_os.Process.Sample.{big_heap, system}
use f_rat_os.Base.{[], arith, none, refl, some, suc, ℕ, ◌<◌, ◌∷◌, ◌≡◌}
use f_rat_os.Kheap.{
  Heap, find_free_block, find_free_from, kmalloc, split_block, take_block, validate_block,
}
use f_rat_os.Process.{
  System, process_destroy, process_size, stack_bytes, thread_create, thread_of, thread_size,
}
use f_rat_os.Process.Lists.{thread_create-links}
use f_rat_os.Process.Destroy.{thread_create-process_destroy}
use f_rat_os.Process.Create.{process_count, process_create, process_find_by_pid}
use f_rat_os.Process.Processes.{Processes, process_create-Processes}

abbrev once : Heap
once = (take_block 0x200000 272 big_heap).1

abbrev twice : Heap
twice = (take_block 0x200134 8192 once).1

first_block : kmalloc 3 thread_size big_heap ≡ some (0x200024, once)
unfolding kmalloc find_free_block find_free_from validate_block take_block
first_block = refl

second_block : kmalloc 3 stack_bytes once ≡ some (0x200158, twice)
unfolding kmalloc find_free_block find_free_from validate_block take_block split_block
second_block = refl

thread_create-links_example :
    (k' : System) × (thread_create 3 64 0x100000 128 system ≡ some (0x200024, k'))
    × ((k'.process 64).thread_list ≡ 0x200024)
    × ((k'.process 64).thread_count ≡ 1)
    × ((thread_of k' 0x200024).process ≡ 64)
    × (k'.sched.ready_queue_tail ≡ 0x200024)
    × ((thread_of k' 0x200024).next ≡ 0)
    × ((thread_of k' 0x200024).prev ≡ 32)
thread_create-links_example =
    thread_create-links 3 64 0x100000 128 0x200024 0x200158 once twice system (omega arith)
      first_block (omega arith) second_block (omega arith) (omega arith)

thread_create-process_destroy_example :
    (k' : System) × (thread_create 3 64 0x100000 128 system ≡ some (0x200024, k'))
    × ((fuel : ℕ) → process_destroy fuel 64 k' ≡ none)
thread_create-process_destroy_example =
    thread_create-process_destroy 3 64 0x100000 128 0x200024 0x200158 once twice system
      (omega arith) first_block (omega arith) second_block (omega arith) (omega arith) (omega arith)

abbrev with_process : Heap
with_process = (take_block 0x200000 160 big_heap).1

process_block : kmalloc 3 process_size big_heap ≡ some (0x200024, with_process)
unfolding kmalloc find_free_block find_free_from validate_block take_block
process_block = refl

process_create-Processes_example :
    (k' : System) × (process_create 3 none 0 system ≡ some (0x200024, k'))
    × Processes k' k'.process_list_head (0x200024 ∷ 64 ∷ [])
    × ((n : ℕ) → process_find_by_pid (suc n) 2 k' ≡ some 0x200024)
    × ((n : ℕ) → 2 < n → process_count n k' ≡ some 2)
process_create-Processes_example =
    process_create-Processes 3 0x200024 none (64 ∷ []) with_process system process_block
      (omega arith) (refl, omega arith, refl) (omega arith, tt) (omega arith) (omega arith)
