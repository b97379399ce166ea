-- ===== src/Main/Tests.antt =====
-- The main program on small machines.
use aidos.Common.{ℕ, ◌*◌, ◌≡◌, refl, true, false, Option, none, some, ◌==◌, if◌then◌else◌, []}
use aidos.Io.{Device, outb, inb}
use aidos.Ata
use aidos.Ata.{ata_drive}
use aidos.Fat.{BlockDevice, FileData}
use aidos.Main.{
  MemoryRegion, BootInfo, BootInfoExtended, Stage2, Ending, Message, halted, entered, divided_by_0,
  lost, failed_ata, find_region, start_drivers, stage2_main,
}

abbrev map_of : ℕ → MemoryRegion
map_of i =
    if i == 0
    then record { base = 0; length = 0x9_FC00; type = 1; extra = 0 }
    else if i == 1
    then record { base = 0xF_0000; length = 0x1_0000; type = 2; extra = 0 }
    else record { base = i * 0x8_0000; length = 0x700_0000; type = 1; extra = 0 }

abbrev boot_info : BootInfo
boot_info = record {
  mem_map = map_of;
  mem_map_count = 4;
  rsdp_addr = 0xF_5AE0;
  ebda = 0;
  boot_drive = 0x80;
}

abbrev empty : BootInfoExtended
empty = record { memory_map_index = 0; pml4_address = 0; kernel_physical_base = 0 }

third_region : find_region map_of 4 0 ≡ some 2
unfolding find_region
third_region = refl

abbrev machine : Stage2
machine = record {
  boot = record {
    mem = λ _. 0xCC;
    heap = record { heap_base = 0x20_0000; heap_size = 0x10_0000; heap_offset = 0 };
    pml4 = 0x8000;
    pdpt = 0x9000;
    pd = 0xA000;
    pt = 0xB000;
    cr3 = 0;
  };
  vga = record { screen = λ _. 0; x = 0; y = 0; ports = [] };
  ata = ata_drive;
  fat = record {
    boot_sector = λ _. 0;
    root_directory = closed_file;
    opened_files = λ _. closed_file;
    fat_cache = λ _. 0;
    fat_cache_position = 0;
    data_section_lba = 0;
    total_sectors = 0;
    sectors_per_fat = 0;
  };
  mem = λ _. 0xCC;
}
  where
    closed_file : FileData
    closed_file = record {
      buffer = λ _. 0;
      public = record { handle = 0; is_directory = false; size = 0; position = 0 };
      opened = false;
      first_cluster = 0;
      current_cluster = 0;
      current_sector_in_cluster = 0;
    }

-- Every status is an error; or every drive has data, all of it 0.
abbrev no_drives : Device
no_drives h port = 1

abbrev drives : Device
drives h port = if port == 0x1F7 then 8 else 0

-- A disk of zeros.
abbrev empty_disk : BlockDevice
empty_disk = record { read_sectors = λ lba count buffer. (true, λ _. 0) }

abbrev message_of : Ending → Option Message
message_of (halted message s) = some message
message_of (entered entry ext s) = none
message_of divided_by_0 = none
message_of (lost result) = none

no_drive :
    message_of (stage2_main no_drives empty_disk (λ _. 0xCC) 100 boot_info empty machine)
    ≡ some failed_ata
unfolding stage2_main start_drivers Ata.initialize Ata.initialize_loop Ata.probe Ata.wait_selected
    Ata.wait_data Ata.delay outb inb
no_drive = refl
