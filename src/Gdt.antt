-- ===== src/Gdt.antt =====
-- kernel/gdt.c, kernel/gdt.h, kernel/tss.c and kernel/tss.h: the segment descriptors and the task
-- state segment. `lgdt`, the reload of the segment registers and `ltr` set registers of the
-- processor, which stand in the state; the addresses of the tables are parameters. Messages are left
-- out.
pub mod Layout
pub mod Selectors
pub mod Sample
mod Tests
use f_rat_os.Base.{bit_or, if◌then◌else◌, leb, ℕ, ◌%◌, ◌*◌, ◌+◌, ◌-◌, ◌/◌, ◌^◌}
use f_rat_os.Task.{update}

-- `gdt_entry_t`
pub record GdtEntry : Type 0 where
  pub limit_low : ℕ
  pub base_low : ℕ
  pub base_mid : ℕ
  pub access : ℕ
  pub granularity : ℕ
  pub base_high : ℕ

-- `tss_t`
pub record Tss : Type 0 where
  pub reserved0 : ℕ
  pub rsp0 : ℕ
  pub rsp1 : ℕ
  pub rsp2 : ℕ
  pub reserved1 : ℕ
  pub ist1 : ℕ
  pub ist2 : ℕ
  pub ist3 : ℕ
  pub ist4 : ℕ
  pub ist5 : ℕ
  pub ist6 : ℕ
  pub ist7 : ℕ
  pub reserved2 : ℕ
  pub reserved3 : ℕ
  pub iomap_base : ℕ

-- `gdt_ptr_t`
pub record GdtPtr : Type 0 where
  pub limit : ℕ
  pub base : ℕ

-- `gdt`, `gdt_ptr`, `kernel_tss`, and the registers GDTR, CS, the data segments, and TR.
pub record Segments : Type 0 where
  pub gdt : ℕ → GdtEntry
  pub gdt_ptr : GdtPtr
  pub kernel_tss : Tss
  pub gdtr : GdtPtr
  pub cs : ℕ
  pub ds : ℕ
  pub tr : ℕ

-- GDT_ENTRIES, the sizes of an entry and of the task state segment
abbrev pub gdt_entries : ℕ
gdt_entries = 8

abbrev pub gdt_entry_size : ℕ
gdt_entry_size = 8

abbrev pub tss_size : ℕ
tss_size = 104

-- GDT_NULL to GDT_TSS
abbrev pub gdt_null : ℕ
gdt_null = 0

abbrev pub gdt_kernel_code : ℕ
gdt_kernel_code = 1

abbrev pub gdt_kernel_data : ℕ
gdt_kernel_data = 2

abbrev pub gdt_user_code32 : ℕ
gdt_user_code32 = 3

abbrev pub gdt_user_data : ℕ
gdt_user_data = 4

abbrev pub gdt_user_code64 : ℕ
gdt_user_code64 = 5

-- KERNEL_CODE_SELECTOR, KERNEL_DATA_SELECTOR and TSS_SELECTOR
abbrev pub kernel_code_selector : ℕ
kernel_code_selector = 0x08

abbrev pub kernel_data_selector : ℕ
kernel_data_selector = 0x10

abbrev pub tss_selector : ℕ
tss_selector = 0x30

-- GDT_ACCESS_PRESENT and the other flags of the access byte
abbrev pub access_present : ℕ
access_present = 0x80

abbrev pub access_ring3 : ℕ
access_ring3 = 0x60

abbrev pub access_code_data : ℕ
access_code_data = 0x10

abbrev pub access_executable : ℕ
access_executable = 0x08

abbrev pub access_rw : ℕ
access_rw = 0x02

-- GDT_KERNEL_CODE_ACCESS, GDT_KERNEL_DATA_ACCESS, GDT_USER_CODE_ACCESS, GDT_USER_DATA_ACCESS; the
-- flag of ring 0 is 0.
abbrev pub kernel_code_access : ℕ
kernel_code_access =
    bit_or (bit_or (bit_or access_present access_code_data) access_executable) access_rw

abbrev pub kernel_data_access : ℕ
kernel_data_access = bit_or (bit_or access_present access_code_data) access_rw

abbrev pub user_code_access : ℕ
user_code_access = bit_or kernel_code_access access_ring3

abbrev pub user_data_access : ℕ
user_data_access = bit_or kernel_data_access access_ring3

-- GDT_GRAN_GRANULARITY with GDT_GRAN_64BIT and with GDT_GRAN_32BIT
abbrev pub gran_64bit : ℕ
gran_64bit = bit_or 0x80 0x20

abbrev pub gran_32bit : ℕ
gran_32bit = bit_or 0x80 0x40

-- The masks and shifts of the code are remainders and quotients by powers of 2, and the two halves
-- of the granularity byte share no bit.
unfoldable pub gdt_set_gate : (num base limit access gran : ℕ) → (ℕ → GdtEntry) → ℕ → GdtEntry
gdt_set_gate num base limit access gran g =
    if leb gdt_entries num
    then g
    else update g num (record {
      base_low = base % 2 ^ 16;
      base_mid = base / 2 ^ 16 % 2 ^ 8;
      base_high = base / 2 ^ 24 % 2 ^ 8;
      limit_low = limit % 2 ^ 16;
      granularity = limit / 2 ^ 16 % 16 + gran / 16 % 16 * 16;
      access = access;
    })

-- `gdt_load`; the reload puts the kernel's selectors into CS and the data segments.
unfoldable pub gdt_load : Segments → Segments
gdt_load s = record s { gdtr = s.gdt_ptr; cs = kernel_code_selector; ds = kernel_data_selector }

-- `gdt_init`; `address` is that of `gdt`.
unfoldable pub gdt_init : (address : ℕ) → Segments → Segments
gdt_init address s =
    let flat : ℕ = 0xFFFFF in
    let null = gdt_set_gate gdt_null 0 0 0 0 s.gdt in
    let code = gdt_set_gate gdt_kernel_code 0 flat kernel_code_access gran_64bit null in
    let data_segment = gdt_set_gate gdt_kernel_data 0 flat kernel_data_access gran_32bit code in
    let code32 = gdt_set_gate gdt_user_code32 0 flat user_code_access gran_32bit data_segment in
    let user = gdt_set_gate gdt_user_data 0 flat user_data_access gran_32bit code32 in
    let code64 = gdt_set_gate gdt_user_code64 0 flat user_code_access gran_64bit user in
    gdt_load (record s {
      gdt = code64;
      gdt_ptr = record { limit = gdt_entry_size * gdt_entries - 1; base = address };
    })

-- A word of 64 bits written over an entry
abbrev pub entry_of_word : ℕ → GdtEntry
entry_of_word w = record {
  limit_low = w % 2 ^ 16;
  base_low = w / 2 ^ 16 % 2 ^ 16;
  base_mid = w / 2 ^ 32 % 2 ^ 8;
  access = w / 2 ^ 40 % 2 ^ 8;
  granularity = w / 2 ^ 48 % 2 ^ 8;
  base_high = w / 2 ^ 56 % 2 ^ 8;
}

unfoldable pub tss_set_gdt_entry : (num base limit : ℕ) → (ℕ → GdtEntry) → ℕ → GdtEntry
tss_set_gdt_entry num base limit g =
    let low = update g num (record {
      limit_low = limit % 2 ^ 16;
      base_low = base % 2 ^ 16;
      base_mid = base / 2 ^ 16 % 2 ^ 8;
      access = 0x89;
      granularity = limit / 2 ^ 16 % 16;
      base_high = base / 2 ^ 24 % 2 ^ 8;
    }) in
    update low (num + 1) (entry_of_word (base / 2 ^ 32))

-- `tss_init`; `address` is that of `kernel_tss`.
unfoldable pub tss_init : (address : ℕ) → Segments → Segments
tss_init address s = record s {
  kernel_tss = record (s.kernel_tss) { iomap_base = tss_size };
  gdt = tss_set_gdt_entry 6 address (tss_size - 1) s.gdt;
  tr = tss_selector;
}

unfoldable pub tss_set_kernel_stack : (stack : ℕ) → Segments → Segments
tss_set_kernel_stack stack s = record s { kernel_tss = record (s.kernel_tss) { rsp0 = stack } }

-- `tss_get`
abbrev pub tss_get : Segments → Tss
tss_get s = s.kernel_tss
