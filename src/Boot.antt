-- ===== src/Boot.antt =====
-- The boot information of kernel/boot.h that the bootloader hands to the kernel.
use f_rat_os.Base.{ℕ, Option}

-- `memory_descriptor_t`; `kind` is its field `type`.
pub record MemoryDescriptor : Type 0 where
  pub kind : ℕ
  pub physical_start : ℕ
  pub virtual_start : ℕ
  pub number_of_pages : ℕ
  pub attribute : ℕ

-- `boot_info_t`. The map is `none` for NULL; else it gives the descriptor that stands at a byte
-- offset from its start. Pointers that the kernel only passes on are addresses.
pub record BootInfo : Type 0 where
  pub magic : ℕ
  pub memory_map : Option (ℕ → MemoryDescriptor)
  pub memory_map_size : ℕ
  pub memory_map_descriptor_size : ℕ
  pub graphics_info : ℕ
  pub acpi_rsdp : ℕ
  pub kernel_physical_base : ℕ
  pub kernel_virtual_base : ℕ
  pub kernel_size : ℕ

-- AURORA_BOOT_MAGIC
abbrev pub aurora_boot_magic : ℕ
aurora_boot_magic = 0x41555230524F0000
