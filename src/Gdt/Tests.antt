-- ===== src/Gdt/Tests.antt =====
-- The tables from memory that holds zeros.
use f_rat_os.Gdt.Sample.{at_boot}
use f_rat_os.Base.{arith, refl, ◌+◌, ◌<◌, ◌≡◌, ◌≤◌}
use f_rat_os.Syscall.{Kernel, syscall_init}
use f_rat_os.Syscall.Sample.{kernel}
use f_rat_os.Gdt.{Segments, gdt_init, gdt_load, gdt_set_gate, tss_init, tss_size}
use f_rat_os.Gdt.Layout.{access_field, limit_field, system_base, word_of}
use f_rat_os.Gdt.Selectors.{IsCode64, IsData, descriptor, init-selectors, syscall_cs, sysret_base}

kernel_code_word : word_of ((gdt_init 0x110000 at_boot).gdt 1) ≡ 0x00AF_9A00_0000_FFFF
unfolding gdt_init gdt_load gdt_set_gate
kernel_code_word = refl

abbrev tables : Segments
tables = tss_init 0xFFFF_8000_0012_3456 (gdt_init 0x110000 at_boot)

abbrev calls : Kernel
calls = syscall_init 0x100000 kernel

init-selectors_example :
    IsCode64 0 (descriptor tables (syscall_cs calls))
    × (tables.cs ≡ syscall_cs calls)
    × IsData 0 (descriptor tables (syscall_cs calls + 8))
    × IsCode64 3 (descriptor tables (sysret_base calls + 16))
    × IsData 3 (descriptor tables (sysret_base calls + 8))
    × (system_base (descriptor tables tables.tr) (descriptor tables (tables.tr + 8))
        ≡ 0xFFFF_8000_0012_3456)
    × (access_field (descriptor tables tables.tr) ≡ 0x89)
    × (limit_field (descriptor tables tables.tr) + 1 ≡ tss_size)
    × (limit_field (descriptor tables tables.tr) < tables.kernel_tss.iomap_base)
    × (tables.tr + 16 ≤ tables.gdtr.limit + 1)
    × (sysret_base calls + 24 ≤ tables.gdtr.limit + 1)
init-selectors_example =
    init-selectors 0x110000 0xFFFF_8000_0012_3456 0x100000 at_boot kernel (omega arith)
