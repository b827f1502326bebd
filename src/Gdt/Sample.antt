-- ===== src/Gdt/Sample.antt =====
-- Descriptor tables in memory that holds zeros, for the tests.
use f_rat_os.Gdt.{GdtEntry, Segments}

abbrev zero_entry : GdtEntry
zero_entry = record {
  limit_low = 0;
  base_low = 0;
  base_mid = 0;
  access = 0;
  granularity = 0;
  base_high = 0;
}

abbrev pub at_boot : Segments
at_boot = record {
  gdt = λ n. zero_entry;
  gdt_ptr = record { limit = 0; base = 0 };
  kernel_tss = record {
    reserved0 = 0;
    rsp0 = 0;
    rsp1 = 0;
    rsp2 = 0;
    reserved1 = 0;
    ist1 = 0;
    ist2 = 0;
    ist3 = 0;
    ist4 = 0;
    ist5 = 0;
    ist6 = 0;
    ist7 = 0;
    reserved2 = 0;
    reserved3 = 0;
    iomap_base = 0;
  };
  gdtr = record { limit = 0; base = 0 };
  cs = 0;
  ds = 0;
  tr = 0;
}
