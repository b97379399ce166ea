-- ===== src/KernelMain/Tests.antt =====
-- The kernel on the tables of a small bootloader.
use aidos.Common.{arith}
use aidos.Main.{BootInfo, BootInfoExtended}
use aidos.KernelMain.{kernel_main}
use aidos.KernelMain.Laws.{Boots, kernel_main-Boots}
use aidos.Paging.Clone.Upper.Tests.{running, paged_level, running-IsHandedOver}

abbrev found : BootInfo
found = record {
  mem_map = λ i. record { base = 0; length = 0; type = 0; extra = 0 };
  mem_map_count = 0;
  rsdp_addr = 0xF_5AE0;
  ebda = 0;
  boot_drive = 0;
}

abbrev passed : BootInfoExtended
passed = record { memory_map_index = 0; pml4_address = 0x8000; kernel_physical_base = 0x10_0000 }

kernel_main-Boots_example :
    Boots (λ a. a) 0xF_5AE0 0x8000 running (kernel_main (λ a. a) found passed running)
kernel_main-Boots_example =
    kernel_main-Boots (λ a. a) found passed running 0xFFFF_8000_0011_0000 0xFFFF_8000_0012_0000
      (omega arith) paged_level running-IsHandedOver (omega arith) (omega arith)
