-- ===== src/KernelMain.antt =====
-- src/kernel/kernel.cpp: the kernel's main program. The two structs that the bootloader passes, of the same
-- text as in Main, are copied before the mapping of the bootloader goes.
pub mod Laws
mod Tests
use aidos.Common.{ℕ, Option, List, sub64}
use aidos.Main.{BootInfo, BootInfoExtended}
use aidos.Paging.{Kernel}
use aidos.Paging.Clone.{setup_paging}
use aidos.Acpi.{acpi}

abbrev pub kernel_base : ℕ
kernel_base = 0xFFFF_8000_0000_0000

-- The statics that keep what the bootloader passes.
pub record Statics : Type 0 where
  pub boot_info_static : BootInfo
  pub boot_info_extended_static : BootInfoExtended

-- The two `memcpy`, each of a whole struct.
abbrev pub copy_info : BootInfo → BootInfoExtended → Statics
copy_info boot_info ext = record { boot_info_static = boot_info; boot_info_extended_static = ext }

-- `none` is a page fault; the loop without an end behind the constructor is left out.
unfoldable pub kernel_main :
    (physical : ℕ → ℕ) → BootInfo → BootInfoExtended → Kernel → Option (List ℕ × Kernel)
kernel_main physical boot_info ext s =
    let statics = copy_info boot_info ext in
    let info = statics.boot_info_static in
    let extended = statics.boot_info_extended_static in
    let kernel_offset = sub64 kernel_base extended.kernel_physical_base in
    acpi physical info.rsdp_addr (setup_paging extended.pml4_address kernel_offset s)
