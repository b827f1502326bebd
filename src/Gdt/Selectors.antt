-- ===== src/Gdt/Selectors.antt =====
-- The segments that SYSCALL and SYSRET select: kernel/syscall.c gives the selectors, kernel/gdt.c and
-- kernel/tss.c the descriptors.
use f_rat_os.Base.{arith, refl, ℕ, ◌%◌, ◌*◌, ◌+◌, ◌/◌, ◌<◌, ◌^◌, ◌≡◌, ◌≤◌}
use f_rat_os.Syscall.{Kernel, syscall_init}
use f_rat_os.Gdt.{Segments, gdt_init, gdt_load, gdt_set_gate, tss_init, tss_set_gdt_entry, tss_size}
use f_rat_os.Gdt.Layout.{
  access_field, flags_field, limit_field, system_base, tss_set_gdt_entry-fields, word_of,
}

-- The descriptor that a selector stands for
abbrev pub descriptor : Segments → (selector : ℕ) → ℕ
descriptor s selector = word_of (s.gdt (selector / 8))

-- What the processor takes from MSR_STAR: SYSCALL bits 32 to 47 for CS and 8 more for SS, SYSRET to
-- 64-bit code bits 48 to 63, with 16 more for CS and 8 more for SS.
abbrev pub syscall_cs : Kernel → ℕ
syscall_cs k = k.msr 0xC0000081 / 2 ^ 32 % 2 ^ 16

abbrev pub sysret_base : Kernel → ℕ
sysret_base k = k.msr 0xC0000081 / 2 ^ 48 % 2 ^ 16

-- Present code of 64 bits and present writable data at a privilege level: of the flags bit 1 is L
-- and bit 2 is D.
abbrev pub IsCode64 : (level word : ℕ) → Type 0
IsCode64 level word = (access_field word ≡ 0x9A + level * 0x20) × (flags_field word / 2 % 4 ≡ 1)

abbrev pub IsData : (level word : ℕ) → Type 0
IsData level word = access_field word ≡ 0x92 + level * 0x20

-- After `gdt_init`, `tss_init` and `syscall_init`, from any tables and with the task state segment
-- at any address of 64 bits: SYSCALL enters 64-bit code of level 0, the code segment that the kernel
-- runs in, with data of level 0 for the stack; SYSRET enters 64-bit code of level 3 with data of
-- level 3; the task register selects a present, available 64-bit task state segment with the
-- address of the table and its last byte for limit, which has no I/O bitmap; and all these
-- descriptors lie within the limit of the table that the processor has.
pub init-selectors :
    (gdt_address tss_address entry : ℕ) (s : Segments) (k : Kernel)
    → tss_address < 2 ^ 64
    → let s' = tss_init tss_address (gdt_init gdt_address s) in
      let k' = syscall_init entry k in
      IsCode64 0 (descriptor s' (syscall_cs k'))
      × (s'.cs ≡ syscall_cs k')
      × IsData 0 (descriptor s' (syscall_cs k' + 8))
      × IsCode64 3 (descriptor s' (sysret_base k' + 16))
      × IsData 3 (descriptor s' (sysret_base k' + 8))
      × (system_base (descriptor s' s'.tr) (descriptor s' (s'.tr + 8)) ≡ tss_address)
      × (access_field (descriptor s' s'.tr) ≡ 0x89)
      × (limit_field (descriptor s' s'.tr) + 1 ≡ tss_size)
      × (limit_field (descriptor s' s'.tr) < s'.kernel_tss.iomap_base)
      × (s'.tr + 16 ≤ s'.gdtr.limit + 1)
      × (sysret_base k' + 24 ≤ s'.gdtr.limit + 1)
unfolding gdt_init gdt_load gdt_set_gate tss_init tss_set_gdt_entry syscall_init
init-selectors gdt_address tss_address entry s k word =
    let g = (gdt_init gdt_address s).gdt in
    let (base, limit, access) = tss_set_gdt_entry-fields 6 tss_address 103 g word (omega arith) in
    (
      (refl, refl),
      refl,
      refl,
      (refl, refl),
      refl,
      base,
      access,
      omega (arith, limit),
      omega (arith, limit),
      omega arith,
      omega arith,
    )
