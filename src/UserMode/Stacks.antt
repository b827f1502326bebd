-- ===== src/UserMode/Stacks.antt =====
-- The two stacks of a user program in kernel/usermode.c.
use f_rat_os.Base.{
  List, Option, add64, ap, arith, false, inl, inr, none, refl, some, sub64, sym, true, ℕ, ◌%◌, ◌++◌,
  ◌+◌, ◌==◌, ◌∙◌, ◌∷◌, ◌≡◌, ◌≤◌,
}
use f_rat_os.Kheap.{Heap, block_to_ptr, heap_max_size}
use f_rat_os.Gdt.{Segments, tss_set_kernel_stack}
use f_rat_os.Kheap.Tiles.{IsHeap, used_blocks}
use f_rat_os.Kheap.Alloc.{Allocated, granted, kmalloc-Allocated, refused}
use f_rat_os.Kheap.Reuse.{free_granted, granted_room, length-IsHeap}
use f_rat_os.UserMode.{
  UserState, and_then, enter_user, jump_to_usermode, kernel_stack_size, stack_for_kernel,
  start_usermode_process, user_stack_size,
}

-- What `start_usermode_process` leaves of a heap with the blocks `bs`
pub data Start (h : Heap) (bs : List ℕ) (entry_point : ℕ) (s : Segments)
    : Option UserState → Heap → Segments → Type 0 where
  no_memory :
      (h' : Heap) (bs' : List ℕ)
      → IsHeap h' bs'
      → used_blocks h'.header bs' ≡ used_blocks h.header bs
      → Start h bs entry_point s none h' s
  in_user :
      (b c m k : ℕ) (us vs us' vs' : List (ℕ × ℕ)) (u : UserState) (h' : Heap) (bs' : List ℕ)
      (s' : Segments)
      → IsHeap h' bs'
      → used_blocks h.header bs ≡ us ++ vs
      → us ++ ((b, m) ∷ vs) ≡ us' ++ vs'
      → used_blocks h'.header bs' ≡ us' ++ ((c, k) ∷ vs')
      → u.rip ≡ entry_point
      → u.cs % 4 ≡ 3
      → u.ss % 4 ≡ 3
      → block_to_ptr b ≤ u.rsp
      → u.rsp + 16 ≤ block_to_ptr b + m
      → s'.kernel_tss.rsp0 ≤ block_to_ptr c + k
      → block_to_ptr c + kernel_stack_size ≤ s'.kernel_tss.rsp0
      → Start h bs entry_point s (some u) h' s'

-- The blocks of both stacks are granted.
both_granted :
    (fuel entry_point : ℕ) (s : Segments) (h : Heap) (bs : List ℕ) (b m : ℕ) (us vs : List (ℕ × ℕ))
    (h' : Heap) (bs' : List ℕ) (ptr : ℕ) (h'' : Heap) (bs'' : List ℕ)
    → h.initialized ≡ true
    → heap_max_size ≤ fuel
    → IsHeap h' bs'
    → h'.initialized ≡ h.initialized
    → used_blocks h.header bs ≡ us ++ vs
    → used_blocks h'.header bs' ≡ us ++ ((b, m) ∷ vs)
    → user_stack_size ≤ m
    → Allocated h' bs' kernel_stack_size ptr h'' bs''
    → (u : Option UserState) × (g : Heap) × (s' : Segments) × (enter_user fuel entry_point
          (block_to_ptr b)
          s
          (ptr, h'')
        ≡ some (u, g, s'))
      × Start h bs entry_point s u g s'
unfolding enter_user jump_to_usermode tss_set_kernel_stack
both_granted fuel entry_point s h bs b m us vs h' bs' ptr h'' bs'' on room v on' before after enough
      (refused g cs w on'' same) =
    let (low, high) = granted_room h' bs' us b m vs v after in
    elim (free_granted fuel user_stack_size h bs (block_to_ptr b) g cs on room
      (granted b m us vs g cs w (on'' ∙ on') before (same ∙ after) enough)) [
        | inl bad ↦ absurd (omega arith)
        | inr (g', cs', frees, w', used) ↦ (none, g', s, rw frees refl, no_memory g' cs' w' used)
      ]
both_granted fuel entry_point s h bs b m us vs h' bs' ptr h'' bs'' on room v on' before after enough
      (granted c k us' vs' g cs w on'' before' after' enough') =
    let (low, high) = granted_room h' bs' us b m vs v after in
    let (low', high') = granted_room g cs us' c k vs' w after' in
    let given : (block_to_ptr c == 0) ≡ false = ground arith in
    (
      some (jump_to_usermode entry_point (sub64 (add64 (block_to_ptr b) 65536) 16)),
      g,
      tss_set_kernel_stack (add64 (block_to_ptr c) 8192) s,
      rw given refl,
      in_user b c m k us vs us' vs' _ g cs _ w before (sym after ∙ before') after' refl refl refl
          (omega arith) (omega arith) (omega arith) (omega arith),
    )

-- The second `kmalloc`, if the first one had memory
after_first :
    (fuel entry_point : ℕ) (s : Segments) (h : Heap) (bs : List ℕ) (ptr : ℕ) (h' : Heap)
    (bs' : List ℕ)
    → h.initialized ≡ true
    → heap_max_size ≤ fuel
    → Allocated h bs user_stack_size ptr h' bs'
    → (u : Option UserState) × (g : Heap) × (s' : Segments) × (stack_for_kernel fuel entry_point s
          (ptr, h')
        ≡ some (u, g, s'))
      × Start h bs entry_point s u g s'
unfolding stack_for_kernel
after_first fuel entry_point s h bs ptr h' bs' on room (refused g cs w on' same) =
    (none, g, s, refl, no_memory g cs w same)
after_first fuel entry_point s h bs ptr h' bs' on room
      (granted b m us vs g cs w on' before after enough) =
    let (low, high) = granted_room g cs us b m vs w after in
    let given : (block_to_ptr b == 0) ≡ false = ground arith in
    let count = length-IsHeap g cs w in
    let (ptr', g', cs', runs, a) =
      kmalloc-Allocated fuel kernel_stack_size g cs w (on' ∙ on) (omega arith) (omega arith)
        (omega arith) in
    let (u, k, s', ends, started) =
      both_granted fuel entry_point s h bs b m us vs g cs ptr' g' cs' on room w on' before after
        enough a in
    (
      u,
      k,
      s',
      rw given (ap (λ r. and_then r (enter_user fuel entry_point (block_to_ptr b) s)) runs ∙ ends),
      started,
    )

-- `start_usermode_process` on an initialised heap that its blocks fill, with fuel for the maximal
-- size, comes back or enters the user program, and the blocks fill the heap. Without memory for both
-- stacks it comes back, with the blocks in use as before and the task state segment untouched. Else
-- two blocks more are in use, and the processor stands at the entry point at level 3: the stack
-- pointer lies in the data of the first block with 16 bytes above it, and the stack for the
-- kernel ends in the data of the second, with 8192 bytes below its end.
pub start_usermode_process-Start :
    (fuel entry_point : ℕ) (h : Heap) (bs : List ℕ) (s : Segments)
    → IsHeap h bs
    → h.initialized ≡ true
    → heap_max_size ≤ fuel
    → (u : Option UserState) × (h' : Heap) × (s' : Segments) × (start_usermode_process fuel
          entry_point h s
        ≡ some (u, h', s'))
      × Start h bs entry_point s u h' s'
unfolding start_usermode_process
start_usermode_process-Start fuel entry_point h bs s v on room =
    let count = length-IsHeap h bs v in
    let (ptr, h', bs', runs, a) =
      kmalloc-Allocated fuel user_stack_size h bs v on (omega arith) (omega arith) (omega arith) in
    let (u, g, s', ends, started) = after_first fuel entry_point s h bs ptr h' bs' on room a in
    (u, g, s', ap (λ r. and_then r (stack_for_kernel fuel entry_point s)) runs ∙ ends, started)
