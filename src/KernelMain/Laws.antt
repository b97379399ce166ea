-- ===== src/KernelMain/Laws.antt =====
-- The start of the kernel: the tables that `setup_paging` leaves are the ones that the parser of the ACPI
-- tables maps its page in.
use aidos.Common.{
  ℕ, ◌+◌, ◌%◌, ◌^◌, ◌≤◌, ◌<◌, ◌≡◌, ◌∙◌, inl, inr, arith, Option, none, some, List, sub64,
  Bool-cases, ◌==◌,
}
use aidos.Main.{BootInfo, BootInfoExtended}
use aidos.Paging.{Kernel, page_address}
use aidos.Paging.Mmu.{index_at, walk, translate}
use aidos.Paging.Way.{page}
use aidos.Paging.Map.{IsMapping}
use aidos.Paging.Range.{page_address_lem}
use aidos.Paging.Lookup.{identity}
use aidos.Paging.Clone.{setup_paging}
use aidos.Paging.Clone.Rooted.{IsLower}
use aidos.Paging.Clone.Upper.{IsHandedOver, HandsOver, setup_paging-HandsOver}
use aidos.Acpi.{acpi}
use aidos.Acpi.Laws.{bytes_at, Parses, parse_rsdp-Parses}
use aidos.KernelMain.{kernel_base, kernel_main}

-- The kernel has the bytes of the firmware's pointer, the upper half as it was, and nothing in the lower.
pub record Boots (physical : ℕ → ℕ) (rsdp old_pml4 : ℕ) (s : Kernel)
    (result : Option (List ℕ × Kernel)) : Type 0 where
  pub s' : Kernel
  pub returns : result ≡ some (bytes_at physical rsdp 40, s')
  pub mapping : IsMapping IsLower s'
  pub upper : (va : ℕ) → 256 ≤ index_at 3 va → translate s' va ≡ walk (identity s.mem) 4 old_pml4 va
  pub lower_empty : (va : ℕ) → IsLower va → translate s' va ≡ none

Boots-of_Parses :
    (physical : ℕ → ℕ) (lo hi : ℕ) (fits : hi + 0x10000 < 2 ^ 64)
    (rsdp old_pml4 kernel_offset spare : ℕ) (s s1 : Kernel) {result : Option (List ℕ × Kernel)}
    → rsdp < 2 ^ 32
    → HandsOver lo hi fits old_pml4 kernel_offset s spare s1
    → Parses physical IsLower rsdp s1 result
    → Boots physical rsdp old_pml4 s result
Boots-of_Parses physical lo hi fits rsdp old_pml4 kernel_offset spare s s1 low hands parses =
    record {
      s' = parses.s';
      returns = parses.returns;
      mapping = parses.mapping;
      upper = λ va up. parses.others va (λ e. omega arith) ∙ hands.upper va up;
      lower_empty = λ va down. elim (Bool-cases (page va == page rsdp)) [
        | inl hit ↦ parses.unmapped va (ground arith)
        | inr miss ↦ parses.others va (λ e. ground arith) ∙ hands.lower_empty va down
      ];
    }

-- With what the bootloader hands over in order, six pages of heap to spare, and a pointer below 2 ^ 32 whose
-- 40 bytes do not reach into the next page, the kernel's `main` comes to its end loop with the pointer's bytes,
-- with each address of the upper half where the bootloader's tables had it, and with the lower half,
-- the pointer's page included, unmapped.
pub kernel_main-Boots :
    (physical : ℕ → ℕ) (boot_info : BootInfo) (ext : BootInfoExtended) (s : Kernel) (lo hi : ℕ)
    (fits : hi + 0x10000 < 2 ^ 64) (level : ℕ → ℕ)
    → IsHandedOver lo hi fits ext.pml4_address
        (sub64 kernel_base ext.kernel_physical_base)
        s
        6
        level
    → boot_info.rsdp_addr < 2 ^ 32
    → boot_info.rsdp_addr % 4096 + 40 ≤ 4096
    → Boots physical boot_info.rsdp_addr ext.pml4_address s (kernel_main physical boot_info ext s)
unfolding kernel_main acpi
kernel_main-Boots physical boot_info ext s lo hi fits level h low inside =
    let kernel_offset = sub64 kernel_base ext.kernel_physical_base in
    let s1 = setup_paging ext.pml4_address kernel_offset s in
    let hands = setup_paging-HandsOver lo hi fits ext.pml4_address kernel_offset s h in
    let rsdp = boot_info.rsdp_addr in
    let first : IsLower (page_address rsdp 0) =
      rw (page_address_lem rsdp 0 (omega arith)) (omega arith) in
    Boots-of_Parses physical lo hi fits rsdp ext.pml4_address kernel_offset 6 s s1 low hands (
      parse_rsdp-Parses physical IsLower rsdp s1 hands.mapping first low inside
        (omega (arith, hands.room)))
