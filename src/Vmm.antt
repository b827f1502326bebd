-- ===== src/Vmm.antt =====
-- kernel/vmm.c and kernel/vmm.h: the four-level page tables, over the memory that holds them and
-- the frame allocator below. The code reaches a table through a pointer that is its physical
-- address, so it relies on pages that map the tables at those addresses. The model reads and writes
-- the words at the physical addresses themselves; that is the code as long as those pages stay. Messages, the serial port, the test writes to the screen and the flushes of
-- the TLB are left out. A mask with ones from bit i to bit j is `/ 2 ^ i` and `% 2 ^ (j - i + 1)`,
-- and `|` of words without a common bit is `+`.
pub mod Paged
pub mod Step
pub mod Tables
pub mod Walk
pub mod Descend
pub mod Set
pub mod Map
pub mod Mapped
pub mod Faults
mod Tests
use f_rat_os.Base.{
  Bool, Option, add64, false, if◌then◌else◌, none, not, some, sub64, suc, true, zero, ℕ, ◌%◌, ◌*◌,
  ◌+◌, ◌-◌, ◌/◌, ◌==◌, ◌^◌,
}
use f_rat_os.Base.Loops.{count_up}
use f_rat_os.Boot.{BootInfo, aurora_boot_magic}
use f_rat_os.Pmm.{Pmm, alloc_frame}

-- ALIGN_DOWN and ALIGN_UP, to PAGE_SIZE
abbrev pub align_down : ℕ → ℕ
align_down addr = addr / 4096 * 4096

abbrev pub align_up : ℕ → ℕ
align_up addr = add64 addr 4095 / 4096 * 4096

-- `virt_addr_t`
pub record VirtAddr : Type 0 where
  pub offset : ℕ
  pub pt_index : ℕ
  pub pd_index : ℕ
  pub pdpt_index : ℕ
  pub pml4_index : ℕ
  pub sign_ext : ℕ

unfoldable pub parse_address : ℕ → VirtAddr
parse_address addr = record {
  offset = addr % 2 ^ 12;
  pt_index = addr / 2 ^ 12 % 2 ^ 9;
  pd_index = addr / 2 ^ 21 % 2 ^ 9;
  pdpt_index = addr / 2 ^ 30 % 2 ^ 9;
  pml4_index = addr / 2 ^ 39 % 2 ^ 9;
  sign_ext = addr / 2 ^ 48 % 2 ^ 16;
}

-- The state of vmm.c, the 64-bit words of the memory by their addresses, and the frame allocator.
pub record Vmm : Type 0 where
  pub kernel_pml4 : ℕ
  pub initialized : Bool
  pub pml4_physical : ℕ
  pub mapped_pages : ℕ
  pub kernel_pages : ℕ
  pub page_tables_allocated : ℕ
  pub memory : ℕ → ℕ
  pub pmm : Pmm

-- PTE_PRESENT and PTE_HUGE of an entry
abbrev pub is_present : ℕ → Bool
is_present pte = pte % 2 == 1

abbrev pub is_huge : ℕ → Bool
is_huge pte = pte / 2 ^ 7 % 2 == 1

-- PTE_KERNEL_FLAGS
abbrev pub pte_kernel_flags : ℕ
pte_kernel_flags = 3

abbrev pub pte_get_addr : ℕ → ℕ
pte_get_addr pte = pte % 2 ^ 52 / 2 ^ 12 * 2 ^ 12

-- `pte & PTE_FLAGS_MASK`
abbrev pub pte_get_flags : ℕ → ℕ
pte_get_flags pte = pte % 2 ^ 12 + pte / 2 ^ 52 % 2 ^ 12 * 2 ^ 52

unfoldable pub pte_create : (phys_addr flags : ℕ) → ℕ
pte_create phys_addr flags = pte_get_addr phys_addr + pte_get_flags flags

-- `&table->entries[index]`
abbrev pub entry_of : (table index : ℕ) → ℕ
entry_of table index = add64 table (8 * index)

abbrev pub write : (addr value : ℕ) → Vmm → Vmm
write addr value v = record v { memory = λ a. if a == addr then value else v.memory a }

abbrev pub count_table : Vmm → Vmm
count_table v = record v { page_tables_allocated = add64 v.page_tables_allocated 1 }

-- A step of the walk: the address of a table, or `none` for `return NULL`.
abbrev pub Walk : Type 0
Walk = Vmm → Option ℕ × Vmm

infixl 5 ◌>>=◌
abbrev pub ◌>>=◌ : Walk → (ℕ → Walk) → Walk
◌>>=◌ m f v = let (r, v') = m v in elim r [ none ↦ (none, v') | some t ↦ f t v' ]

-- A new table for the entry at address `e`.
unfoldable pub new_table : (e : ℕ) → Walk
new_table e v =
    let (phys, pmm) = alloc_frame v.pmm in
    let v' = record v { pmm = pmm } in
    if phys == 0
    then (none, v')
    else (some phys, count_table (write e (pte_create phys pte_kernel_flags) v'))

-- The PDPT of the PML4 entry at `e`.
unfoldable pub pdpt_of : (create : Bool) (e : ℕ) → Walk
pdpt_of create e v =
    if is_present (v.memory e)
    then (some (pte_get_addr (v.memory e)), v)
    else if create
    then new_table e v
    else (none, v)

-- The PD of the PDPT entry at `e`.
unfoldable pub pd_of : (create : Bool) (e : ℕ) → Walk
pd_of create e v =
    if not (is_present (v.memory e))
    then (if create then new_table e v else (none, v))
    else if is_huge (v.memory e)
    then (none, v)
    else (some (pte_get_addr (v.memory e)), v)

-- The loop that fills the table at `phys` with the 512 pages from `base` on.
unfoldable pub fill_table : (phys base flags : ℕ) → Vmm → Vmm
fill_table phys base flags =
    count_up (λ i. write (entry_of phys i) (pte_create (add64 base (i * 4096)) flags)) 512 0

-- `(huge_flags & ~PTE_HUGE) | PTE_PRESENT | PTE_WRITE`
abbrev pub split_flags : ℕ → ℕ
split_flags flags = flags / 2 ^ 8 * 2 ^ 8 + flags / 2 ^ 2 % 2 ^ 5 * 2 ^ 2 + 3

-- A table in place of the 2 MB page of the entry at `e`.
unfoldable pub split_huge : (e : ℕ) → Walk
split_huge e v =
    let entry = v.memory e in
    let (phys, pmm) = alloc_frame v.pmm in
    let v' = record v { pmm = pmm } in
    if phys == 0 then (none, v') else (
      some phys,
      count_table (
          write e (pte_create phys pte_kernel_flags)
            (fill_table phys (pte_get_addr entry) (split_flags (pte_get_flags entry)) v')),
    )

-- The PT of the PD entry at `e`.
unfoldable pub pt_of : (create : Bool) (e : ℕ) → Walk
pt_of create e v =
    if not (is_present (v.memory e))
    then (if create then new_table e v else (none, v))
    else if is_huge (v.memory e)
    then (if create then split_huge e v else (none, v))
    else (some (pte_get_addr (v.memory e)), v)

-- `vmm_get_pte`: the address of the entry.
unfoldable pub get_pte : (virt_addr : ℕ) (create : Bool) → Walk
get_pte virt_addr create v =
    let vaddr = parse_address virt_addr in
    if not v.initialized
    then (none, v)
    else (do
      pdpt ← pdpt_of create (entry_of v.kernel_pml4 vaddr.pml4_index)
      pd ← pd_of create (entry_of pdpt vaddr.pdpt_index)
      pt ← pt_of create (entry_of pd vaddr.pd_index)
      λ w. (some (entry_of pt vaddr.pt_index), w))
        v

-- What `vmm_map_page` does with the entry at address `e`; `flags | PTE_PRESENT` sets bit 0.
unfoldable pub set_pte : (e phys_addr flags : ℕ) → Vmm → Vmm
set_pte e phys_addr flags v =
    let pte = pte_create phys_addr (flags / 2 * 2 + 1) in
    if is_present (v.memory e)
    then write e pte v
    else record (write e pte v) { mapped_pages = add64 v.mapped_pages 1 }

unfoldable pub map_page : (virt_addr phys_addr flags : ℕ) → Vmm → Bool × Vmm
map_page virt_addr phys_addr flags v =
    let (r, v') = get_pte (align_down virt_addr) true v in
    elim r [ none ↦ (false, v') | some e ↦ (true, set_pte e (align_down phys_addr) flags v') ]

-- What `vmm_unmap_page` does with the entry at address `e`.
unfoldable pub clear_pte : (e : ℕ) → Vmm → Bool × Vmm
clear_pte e v =
    if not (is_present (v.memory e))
    then (false, v)
    else (true, record (write e 0 v) { mapped_pages = sub64 v.mapped_pages 1 })

unfoldable pub unmap_page : (virt_addr : ℕ) → Vmm → Bool × Vmm
unmap_page virt_addr v =
    let (r, v') = get_pte (align_down virt_addr) false v in
    elim r [ none ↦ (false, v') | some e ↦ clear_pte e v' ]

unfoldable pub get_physical : (virt_addr : ℕ) → Vmm → ℕ × Vmm
get_physical virt_addr v =
    let (r, v') = get_pte (align_down virt_addr) false v in
    elim r [
      | none ↦ (0, v')
      | some e ↦
          if not (is_present (v'.memory e))
          then (0, v')
          else (add64 (pte_get_addr (v'.memory e)) (virt_addr % 2 ^ 12), v')
    ]

-- The loop of `vmm_map_range`, with as many rounds as pages are left below `virt_end`.
unfoldable pub map_pages : (rounds virt phys flags : ℕ) → Vmm → Bool × Vmm
map_pages zero virt phys flags v = (true, v)
map_pages (suc n) virt phys flags v =
    let (mapped, v') = map_page virt phys flags v in
    let rest = map_pages n (add64 virt 4096) (add64 phys 4096) flags v' in
    if not mapped then (false, v') else rest

unfoldable pub map_range : (virt_addr phys_addr size flags : ℕ) → Vmm → Bool × Vmm
map_range virt_addr phys_addr size flags v =
    let virt_end = align_up (add64 virt_addr size) in
    map_pages ((virt_end - align_down virt_addr) / 4096) (align_down virt_addr)
      (align_down phys_addr) flags v

unfoldable pub unmap_range : (virt_addr size : ℕ) → Vmm → Bool × Vmm
unmap_range virt_addr size v =
    let virt_end = align_up (add64 virt_addr size) in
    (
      true,
      count_up (λ i w. (unmap_page (align_down virt_addr + i * 4096) w).1)
          ((virt_end - align_down virt_addr) / 4096) 0 v,
    )

-- KERNEL_VIRTUAL_BASE and RECURSIVE_SLOT
abbrev pub kernel_virtual_base : ℕ
kernel_virtual_base = 0xFFFFFFFF80000000

abbrev pub recursive_slot : ℕ
recursive_slot = 511

-- The end of `vmm_init`: the last entry of the PML4 maps the PML4.
unfoldable pub map_recursive : (pml4_phys : ℕ) → Vmm → Vmm
map_recursive pml4_phys v =
    write (entry_of v.kernel_pml4 recursive_slot) (pte_create pml4_phys pte_kernel_flags) v

-- `vmm_init`; `pml4_table` is the address that the linker gives the boot table of entry.S.
unfoldable pub init : (pml4_table : ℕ) → Option BootInfo → Vmm → Vmm
init pml4_table info v =
    let opened = record v {
      kernel_pml4 = pml4_table;
      pml4_physical = pml4_table;
      page_tables_allocated = 3;
      kernel_pages = 512 * 512;
      initialized = true;
    } in
    let unmapped = record opened { kernel_pages = add64 opened.kernel_pages 256 } in
    elim info [
      | none ↦ map_recursive pml4_table unmapped
      | some b ↦
          let (mapped, w) =
            map_range kernel_virtual_base b.kernel_physical_base b.kernel_size pte_kernel_flags
              opened in
          let counted = record w {
            kernel_pages = add64 w.kernel_pages (add64 b.kernel_size 4095 / 4096);
          } in
          if not (b.magic == aurora_boot_magic)
          then map_recursive pml4_table unmapped
          else if not mapped
          then w
          else map_recursive pml4_table counted
    ]
