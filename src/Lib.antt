-- ===== src/Lib.antt =====
-- The kernel of f-ratOS (AuroraOS), a 64-bit kernel in C.
--
-- The boot code hands the kernel a record of boot information (kernel/boot.h). From its memory map
-- kernel/pmm.c builds a bitmap of page frames. kernel/vmm.c takes frames from there for page tables
-- and maps pages; kernel/kheap.c takes frames and mappings for its blocks. kernel/process.c makes
-- threads, with memory of the heap, and gives them to kernel/scheduler.c, which the interrupt of
-- kernel/timer.c calls. kernel/keyboard.c fills a buffer from its own interrupt. kernel/idt.c leads
-- both interrupts to their handlers, in the segments of kernel/gdt.c and kernel/tss.c; a user
-- program calls kernel/syscall.c, which writes to the screen of kernel/console.c.
--
-- Files and code:
--   Base: words of w bits with their wrap-around, Boolean tests, bits, loops, lists. No code.
--   Boot: the records of kernel/boot.h.
--   Pmm: kernel/pmm.c. `Pmm` is `pmm_state` with the bitmap as a function from bytes' indices.
--     Functions keep their names without `pmm_`: alloc_frame, free_frame, alloc_frames, init.
--   Vmm: kernel/vmm.c over the words of memory, a function from addresses; a table is reached by
--     the addresses in the entries, which the code has mapped to themselves. vmm_get_pte is `get_pte`, in one definition for each level.
--   Kheap: kernel/kheap.c. Headers stand in a store by address. Kheap/Search has the search,
--     Kheap/Split the split and the merge of blocks, Kheap/Overflow the sizes that wrap. Kheap/Tiles
--     says what it is that blocks fill the heap; Cut, Mark, Coalesce, Free, Take, Append, Expand,
--     Alloc and Start follow the calls over such heaps, and Reuse puts kmalloc and kfree together.
--   Io: `inb` and `outb` of kernel/io.h. The answers of the devices are a list, each
--     with the port that is read, and the writes are kept.
--   Keyboard: kernel/keyboard.c: scancode tables, ring buffer, interrupt handler, lights.
--   Fifo: the bounded queue that the ring buffer is compared with.
--   Task: the structures of kernel/process.h, in stores by address, where 0 is NULL.
--   Scheduler: kernel/scheduler.c: the ready queue of linked threads, the round robin, and
--     its switch. Context: kernel/switch.S, register by register.
--   Process: kernel/process.c over Kheap and Scheduler: threads and processes made and destroyed;
--     Process/Create has process_create, the exits and the queries.
--   Timer: kernel/timer.c: the divisor, the interrupt handler and the loops that wait, in
--     a thread that the scheduler may take the processor from (Timer/Halt).
--   Console: kernel/console.c: the cells of the screen and the cursor. Console/Screen and Calls keep
--     both on the screen, Console/Numbers and Line read printed numbers back.
--   Gdt: kernel/gdt.c and kernel/tss.c: the segment descriptors and the task state segment.
--   Idt: kernel/idt.c: the interrupt gates, the interrupt controllers, the handlers.
--   Syscall: kernel/syscall.c: the entry with its interrupt flag, the table, the dispatcher and the
--     handlers, over Process, Timer and Console.
--   UserMode: kernel/usermode.c: the two stacks and the jump to level 3, over Kheap and Gdt.
-- The operations of a part are functions on its state, in the order and with the guards of the
-- code; state that the code shares is one record that contains the other's. Arithmetic of a width
-- is written with its remainder.
--
-- Fuel: a loop that counts is a recursion on its number of rounds. A loop that follows links, or
-- that waits for a device, takes fuel and returns `none` when it runs out. One unit is one round,
-- so a list of n blocks needs n + 1, and a wait needs as many as the device lets pass; for the timer
-- one unit is an interrupt. Theorems on
-- such loops name the fuel that is enough.
--
-- Not modelled: messages of the parts on the console, other than those of system calls and of
-- exceptions, and on the serial port; barriers, `cli`, `sti` and the flush
-- of the TLB; the translation of the addresses of page tables, other than that their pages stay;
-- faults of a user's pointer; what other threads do while one sleeps, other than to compute; headers
-- of the heap that overlap in part; concurrency other than interrupts between two rounds of a waiting loop or between two
-- calls; assembly other than `switch_context`, `jump_to_usermode` and the way into `syscall_entry`, the UEFI boot loader, and test
-- programs.
pub mod Base
pub mod Boot
pub mod Io
pub mod Console
pub mod Fifo
pub mod Pmm
pub mod Vmm
pub mod Kheap
pub mod Process
pub mod Keyboard
pub mod Task
pub mod Context
pub mod Scheduler
pub mod Timer
pub mod Syscall
pub mod UserMode
pub mod Gdt
pub mod Idt
