-- ===== src/Task.antt =====
-- kernel/process.h: threads and processes. A pointer is an address, 0 for NULL, and the records
-- stand in stores by their addresses.
use f_rat_os.Base.{ℕ, Bool, true, false, ◌==◌, if◌then◌else◌}

-- `task_state_t`
pub data TaskState : Type 0 where
  new ready running blocked sleeping zombie dead : TaskState

-- `cpu_context_t`
pub record CpuContext : Type 0 where
  pub rax : ℕ
  pub rbx : ℕ
  pub rcx : ℕ
  pub rdx : ℕ
  pub rsi : ℕ
  pub rdi : ℕ
  pub rbp : ℕ
  pub rsp : ℕ
  pub r8 : ℕ
  pub r9 : ℕ
  pub r10 : ℕ
  pub r11 : ℕ
  pub r12 : ℕ
  pub r13 : ℕ
  pub r14 : ℕ
  pub r15 : ℕ
  pub rip : ℕ
  pub rflags : ℕ
  pub cs : ℕ
  pub ss : ℕ
  pub ds : ℕ
  pub es : ℕ
  pub fs : ℕ
  pub gs : ℕ

-- `thread_t`
pub record Thread : Type 0 where
  pub tid : ℕ
  pub state : TaskState
  pub context : CpuContext
  pub stack_base : ℕ
  pub stack_size : ℕ
  pub kernel_stack : ℕ
  pub priority : ℕ
  pub time_slice : ℕ
  pub total_runtime : ℕ
  pub process : ℕ
  pub next : ℕ
  pub prev : ℕ

abbrev pub is_ready : TaskState → Bool
is_ready ready = true
is_ready _ = false

abbrev pub is_running : TaskState → Bool
is_running running = true
is_running _ = false

-- A store with one address written.
abbrev pub update {ℓ} : {A : Type ℓ} → (ℕ → A) → ℕ → A → ℕ → A
update f p v a = if a == p then v else f a
