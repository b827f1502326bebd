-- ===== src/UserMode.antt =====
-- kernel/usermode.c: the way into a user program, over the kernel heap and the task state segment.
-- Messages are left out. The loop behind the jump is not reached.
mod Stacks
mod Tests
use f_rat_os.Base.{List, Option, [], add64, if◌then◌else◌, none, some, sub64, ℕ, ◌+◌, ◌==◌, ◌∷◌}
use f_rat_os.Kheap.{Heap, kfree, kmalloc}
use f_rat_os.Gdt.{Segments, tss_set_kernel_stack}

-- What the processor has when `iretq` has taken its frame. `others` are RBX, RCX, RDX, RSI, RDI, RBP
-- and R8 to R15, and `ds` stands for DS, ES, FS and GS.
pub record UserState : Type 0 where
  pub rip : ℕ
  pub cs : ℕ
  pub rflags : ℕ
  pub rsp : ℕ
  pub ss : ℕ
  pub ds : ℕ
  pub rax : ℕ
  pub others : List ℕ

-- USER_CODE64_SELECTOR and USER_DATA_SELECTOR with the level 3
abbrev pub user_cs : ℕ
user_cs = 0x28 + 3

abbrev pub user_ds : ℕ
user_ds = 0x20 + 3

unfoldable pub jump_to_usermode : (entry_point user_stack : ℕ) → UserState
jump_to_usermode entry_point user_stack = record {
  rip = entry_point;
  cs = user_cs;
  rflags = 0x202;
  rsp = user_stack;
  ss = user_ds;
  ds = user_ds;
  rax = user_ds;
  others = 0 ∷ 0 ∷ 0 ∷ 0 ∷ 0 ∷ 0 ∷ 0 ∷ 0 ∷ 0 ∷ 0 ∷ 0 ∷ 0 ∷ 0 ∷ 0 ∷ [];
}

abbrev pub user_stack_size : ℕ
user_stack_size = 65536

abbrev pub kernel_stack_size : ℕ
kernel_stack_size = 8192

-- What follows on a call of `kmalloc`
abbrev pub and_then :
    Option (ℕ × Heap)
    → (ℕ × Heap → Option (Option UserState × Heap × Segments))
    → Option (Option UserState × Heap × Segments)
and_then r f = elim r [ none ↦ none | some x ↦ f x ]

-- `start_usermode_process` behind the second `kmalloc`
unfoldable pub enter_user :
    (fuel entry_point user_base : ℕ)
    → Segments
    → ℕ × Heap
    → Option (Option UserState × Heap × Segments)
enter_user fuel entry_point user_base s (kernel_base, h) =
    let gone : Option (Option UserState × Heap × Segments) = elim (kfree fuel user_base h) [
      | none ↦ none
      | some h' ↦ some (none, h', s)
    ] in
    if kernel_base == 0
    then gone
    else some (
      some (jump_to_usermode entry_point (sub64 (add64 user_base user_stack_size) 16)),
      h,
      tss_set_kernel_stack (add64 kernel_base kernel_stack_size) s,
    )

-- `start_usermode_process` behind the first `kmalloc`
unfoldable pub stack_for_kernel :
    (fuel entry_point : ℕ) → Segments → ℕ × Heap → Option (Option UserState × Heap × Segments)
stack_for_kernel fuel entry_point s (user_base, h) =
    if user_base == 0
    then some (none, h, s)
    else and_then (kmalloc fuel kernel_stack_size h) (enter_user fuel entry_point user_base s)

unfoldable pub start_usermode_process :
    (fuel entry_point : ℕ) → Heap → Segments → Option (Option UserState × Heap × Segments)
start_usermode_process fuel entry_point h s =
    and_then (kmalloc fuel user_stack_size h) (stack_for_kernel fuel entry_point s)
