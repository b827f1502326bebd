-- ===== src/Vmm/Tests.antt =====
-- The page tables at a concrete memory: four tables, one mapped page, five free frames.
use f_rat_os.Base.{bit_and, bit_or, if◌then◌else◌, refl, true, ℕ, ◌==◌, ◌≡◌}
use f_rat_os.Pmm.{alloc_frame, find_free, take_page}
use f_rat_os.Pmm.Bitmap.{bitmap_set, bitmap_test}
use f_rat_os.Vmm.{
  Vmm, get_physical, get_pte, map_page, new_table, parse_address, pd_of, pdpt_of, pt_of, pte_create,
  set_pte, split_flags,
}
use f_rat_os.Vmm.Mapped.{Mapped}
use f_rat_os.Base.Bits.{byte_set, byte_test}
use f_rat_os.Pmm.Sample.{small}
use f_rat_os.Vmm.Faults.{get_physical-huge}

abbrev level_at : ℕ → ℕ
level_at p =
    if p == 2 then 4 else if p == 4 then 3 else if p == 7 then 2 else if p == 8 then 1 else 0

-- PML4 at 0x2000, PDPT at 0x4000, PD at 0x7000, PT at 0x8000; address 0 is mapped to 0x5000.
abbrev words : ℕ → ℕ
words a =
    if a == 0x2000
    then 0x4003
    else if a == 0x4000
    then 0x7003
    else if a == 0x7000
    then 0x8003
    else if a == 0x8000
    then 0x5003
    else 0

abbrev tables : Vmm
tables = record {
  kernel_pml4 = 0x2000;
  initialized = true;
  pml4_physical = 0x2000;
  mapped_pages = 1;
  kernel_pages = 0;
  page_tables_allocated = 4;
  memory = words;
  pmm = small;
}

-- The masks of the source, and the quotients and remainders that stand for them.
masks_seen :
    pte_create 0xFEDCBA9876543210 0x8123456789ABCDEF
    ≡ bit_or
        (bit_and 0xFEDCBA9876543210 0x000FFFFFFFFFF000)
        (bit_and 0x8123456789ABCDEF 0xFFF0000000000FFF)
unfolding pte_create
masks_seen = refl

split_flags_seen :
    split_flags 0x8120000000000F9D ≡ bit_or (bit_and 0x8120000000000F9D 0xFFFFFFFFFFFFFF7F) 3
split_flags_seen = refl

-- A page in a fresh part of the address space: three new tables, in the frames 3, 5 and 6.
mapped_seen : (get_physical 0x123456789ABC (map_page 0x123456789ABC 0x7000 3 tables).1).0 ≡ 0x7ABC
unfolding map_page get_physical get_pte parse_address pdpt_of pd_of pt_of new_table set_pte
    pte_create alloc_frame find_free take_page bitmap_test bitmap_set byte_test byte_set
mapped_seen = refl

-- The first 2 MB as one page.
abbrev huge : Vmm
huge = record tables { memory = λ a. if a == 0x7000 then 0x83 else words a }

get_physical-huge_example : get_physical 0x1234 huge ≡ (0, huge)
get_physical-huge_example =
    get_physical-huge 0x1234 0x2000 0x4000 0x7000 huge refl refl refl refl refl refl refl refl
