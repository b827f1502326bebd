-- ===== src/Context.antt =====
-- kernel/switch.S, register by register, over `cpu_context_t` of kernel/process.h. Of the stack the
-- model has the word on top at the call, the return address, which stands for `rip`.
use f_rat_os.Base.{List, [], arith, if◌then◌else◌, refl, ℕ, ◌%◌, ◌<◌, ◌==◌, ◌^◌, ◌∷◌, ◌≡◌}
use f_rat_os.Task.{CpuContext}

-- The word at an offset of a `cpu_context_t`
abbrev pub fetch : (offset : ℕ) → CpuContext → ℕ
fetch offset c =
    if offset == 0
    then c.rax
    else if offset == 8
    then c.rbx
    else if offset == 16
    then c.rcx
    else if offset == 24
    then c.rdx
    else if offset == 32
    then c.rsi
    else if offset == 40
    then c.rdi
    else if offset == 48
    then c.rbp
    else if offset == 56
    then c.rsp
    else if offset == 64
    then c.r8
    else if offset == 72
    then c.r9
    else if offset == 80
    then c.r10
    else if offset == 88
    then c.r11
    else if offset == 96
    then c.r12
    else if offset == 104
    then c.r13
    else if offset == 112
    then c.r14
    else if offset == 120
    then c.r15
    else if offset == 128
    then c.rip
    else if offset == 136
    then c.rflags
    else if offset == 144
    then c.cs
    else if offset == 152
    then c.ss
    else if offset == 160
    then c.ds
    else if offset == 168
    then c.es
    else if offset == 176
    then c.fs
    else c.gs

abbrev pub store : (offset value : ℕ) → CpuContext → CpuContext
store offset value c =
    if offset == 0
    then record c { rax = value }
    else if offset == 8
    then record c { rbx = value }
    else if offset == 16
    then record c { rcx = value }
    else if offset == 24
    then record c { rdx = value }
    else if offset == 32
    then record c { rsi = value }
    else if offset == 40
    then record c { rdi = value }
    else if offset == 48
    then record c { rbp = value }
    else if offset == 56
    then record c { rsp = value }
    else if offset == 64
    then record c { r8 = value }
    else if offset == 72
    then record c { r9 = value }
    else if offset == 80
    then record c { r10 = value }
    else if offset == 88
    then record c { r11 = value }
    else if offset == 96
    then record c { r12 = value }
    else if offset == 104
    then record c { r13 = value }
    else if offset == 112
    then record c { r14 = value }
    else if offset == 120
    then record c { r15 = value }
    else if offset == 128
    then record c { rip = value }
    else if offset == 136
    then record c { rflags = value }
    else if offset == 144
    then record c { cs = value }
    else if offset == 152
    then record c { ss = value }
    else if offset == 160
    then record c { ds = value }
    else if offset == 168
    then record c { es = value }
    else if offset == 176
    then record c { fs = value }
    else if offset == 184
    then record c { gs = value }
    else c

abbrev pub store_all : List (ℕ × ℕ) → CpuContext → CpuContext
store_all [] c = c
store_all ((offset, value) ∷ moves) c = store_all moves (store offset value c)

-- The moves from the registers `r` to the old context
unfoldable pub save_context : (r : CpuContext) → CpuContext → CpuContext
save_context r = store_all (
    (0, r.rax)
    ∷ (8, r.rbx)
    ∷ (16, r.rcx)
    ∷ (24, r.rdx)
    ∷ (32, r.rsi)
    ∷ (40, r.rdi)
    ∷ (48, r.rbp)
    ∷ (56, r.rsp)
    ∷ (64, r.r8)
    ∷ (72, r.r9)
    ∷ (80, r.r10)
    ∷ (88, r.r11)
    ∷ (96, r.r12)
    ∷ (104, r.r13)
    ∷ (112, r.r14)
    ∷ (120, r.r15)
    ∷ (128, r.rip)
    ∷ (136, r.rflags)
    ∷ (144, r.cs)
    ∷ (152, r.ss)
    ∷ (160, r.ds)
    ∷ (168, r.es)
    ∷ (176, r.fs)
    ∷ (184, r.gs)
    ∷ [])

-- The moves from the new context `c` to the registers `r`, the frame that goes to the new stack, and
-- `iretq`, which takes it. A selector is the low 16 bits of its word.
unfoldable pub load_context : (c r : CpuContext) → CpuContext
load_context c r =
    let general = record r {
      rax = fetch 0 c;
      rbx = fetch 8 c;
      rcx = fetch 16 c;
      rdx = fetch 24 c;
      rbp = fetch 48 c;
      rsp = fetch 56 c;
      r8 = fetch 64 c;
      r9 = fetch 72 c;
      r10 = fetch 80 c;
      r11 = fetch 88 c;
      r12 = fetch 96 c;
      r13 = fetch 104 c;
      r14 = fetch 112 c;
      r15 = fetch 120 c;
    } in
    let flagged = record general { rax = fetch 136 c; rflags = fetch 136 c } in
    let with_ds = record flagged { rax = fetch 160 c; ds = fetch 160 c % 2 ^ 16 } in
    let with_es = record with_ds { rax = fetch 168 c; es = fetch 168 c % 2 ^ 16 } in
    let with_fs = record with_es { rax = fetch 176 c; fs = fetch 176 c % 2 ^ 16 } in
    let with_gs = record with_fs { rax = fetch 184 c; gs = fetch 184 c % 2 ^ 16 } in
    let frame_ss = fetch 152 c in
    let frame_rsp = fetch 56 c in
    let frame_rflags = fetch 136 c in
    let frame_cs = fetch 144 c in
    let frame_rip = fetch 128 c in
    let pushed = record with_gs { rax = frame_rip } in
    let last = record pushed { rdi = fetch 40 c; rsi = fetch 32 c } in
    record last {
      rip = frame_rip;
      cs = frame_cs % 2 ^ 16;
      rflags = frame_rflags;
      rsp = frame_rsp;
      ss = frame_ss % 2 ^ 16;
    }

-- The selectors are words of 16 bits.
pub record IsCpu (r : CpuContext) : Type 0 where
  pub cs_word : r.cs < 2 ^ 16
  pub ss_word : r.ss < 2 ^ 16
  pub ds_word : r.ds < 2 ^ 16
  pub es_word : r.es < 2 ^ 16
  pub fs_word : r.fs < 2 ^ 16
  pub gs_word : r.gs < 2 ^ 16

-- The old context has all of the registers.
pub save_context_lem : (r c : CpuContext) → save_context r c ≡ r
unfolding save_context
save_context_lem r c = refl

-- The context of a processor comes back, but for `rax`, which carried the return address.
pub load_context_lem : (c r : CpuContext) → IsCpu c → load_context c r ≡ record c { rax = c.rip }
unfolding load_context
load_context_lem c r v =
    let cs : c.cs % 2 ^ 16 ≡ c.cs = omega (arith, v.cs_word) in
    let ss : c.ss % 2 ^ 16 ≡ c.ss = omega (arith, v.ss_word) in
    let ds : c.ds % 2 ^ 16 ≡ c.ds = omega (arith, v.ds_word) in
    let es : c.es % 2 ^ 16 ≡ c.es = omega (arith, v.es_word) in
    let fs : c.fs % 2 ^ 16 ≡ c.fs = omega (arith, v.fs_word) in
    let gs : c.gs % 2 ^ 16 ≡ c.gs = omega (arith, v.gs_word) in rw (cs, ss, ds, es, fs, gs) refl
