-- ===== src/Main.antt =====
-- src/bootloader/stage2/Main.cpp: the bootloader's main program, on the functions of Boot, Vga, Ata, Fat,
-- Elf and Stdio. The devices behind the ports are a parameter, and so are the reads of the disk that the file
-- system is given, as in Fat. The calls of `map_4k` and `map_2m` that the loader makes are made here, in
-- their order.
pub mod Laws
mod Tests
use aidos.Common.{
  ℕ, zero, suc, ◌+◌, ◌*◌, ◌^◌, Option, none, some, Bool, true, false, not, ◌&&◌, leb, ◌==◌,
  if◌then◌else◌, u8, List, [], ◌∷◌,
}
use aidos.Mem.{Memory}
use aidos.Io.{Device}
use aidos.Vga
use aidos.Vga.{Vga}
use aidos.Stdio.{printf}
use aidos.Stdio.Console.{console}
use aidos.Ata
use aidos.Ata.{AtaDrive}
use aidos.Boot
use aidos.Boot.{Boot, get_pml4, map_4k, map_2m}
use aidos.Fat.{BlockDevice, Fat}
use aidos.Fat.Read.{read, seek}
use aidos.Fat.Mount.{detect_and_mount}
use aidos.Fat.Open.{Opening, returned, name_overflow, null_read, endless, open_path}
use aidos.Elf.{ElfInfo, Files, Call, pages_4k, pages_2m, read_elf}

pub record MemoryRegion : Type 0 where
  pub base : ℕ
  pub length : ℕ
  pub type : ℕ
  pub extra : ℕ

-- `mem_map` by its numbers. The program does not hold `mem_map_count` against the length of the array.
pub record BootInfo : Type 0 where
  pub mem_map : ℕ → MemoryRegion
  pub mem_map_count : ℕ
  pub rsdp_addr : ℕ
  pub ebda : ℕ
  pub boot_drive : ℕ

pub record BootInfoExtended : Type 0 where
  pub memory_map_index : ℕ
  pub pml4_address : ℕ
  pub kernel_physical_base : ℕ

-- The texts that the program prints.
pub data Message : Type 0 where
  failed_ata : Message
  failed_file_system : Message
  could_not_load : Message
  no_segments : Message
  stage2_loaded : Message

abbrev pub text_of : Message → List ℕ
text_of failed_ata =
    69 ∷ 82 ∷ 82 ∷ 79 ∷ 82 ∷ 58 ∷ 32 ∷ 70 ∷ 65 ∷ 73 ∷ 76 ∷ 69 ∷ 68 ∷ 32 ∷ 84 ∷ 79 ∷ 32 ∷ 73 ∷ 78
    ∷ 73 ∷ 84 ∷ 73 ∷ 65 ∷ 76 ∷ 73 ∷ 90 ∷ 69 ∷ 32 ∷ 65 ∷ 84 ∷ 65 ∷ 32 ∷ 68 ∷ 82 ∷ 73 ∷ 86 ∷ 69 ∷ 82
    ∷ []
text_of failed_file_system =
    69 ∷ 82 ∷ 82 ∷ 79 ∷ 82 ∷ 58 ∷ 32 ∷ 70 ∷ 65 ∷ 73 ∷ 76 ∷ 69 ∷ 68 ∷ 32 ∷ 84 ∷ 79 ∷ 32 ∷ 73 ∷ 78
    ∷ 73 ∷ 84 ∷ 73 ∷ 65 ∷ 76 ∷ 73 ∷ 90 ∷ 69 ∷ 32 ∷ 70 ∷ 73 ∷ 76 ∷ 69 ∷ 83 ∷ 89 ∷ 83 ∷ 84 ∷ 69 ∷ 77
    ∷ 32 ∷ 79 ∷ 78 ∷ 32 ∷ 68 ∷ 82 ∷ 73 ∷ 86 ∷ 69 ∷ []
text_of could_not_load =
    69 ∷ 82 ∷ 82 ∷ 79 ∷ 82 ∷ 58 ∷ 32 ∷ 67 ∷ 111 ∷ 117 ∷ 108 ∷ 100 ∷ 32 ∷ 110 ∷ 111 ∷ 116 ∷ 32 ∷ 108
    ∷ 111 ∷ 97 ∷ 100 ∷ 32 ∷ 107 ∷ 101 ∷ 114 ∷ 110 ∷ 101 ∷ 108 ∷ 46 ∷ 101 ∷ 108 ∷ 102 ∷ 33 ∷ []
text_of no_segments =
    69 ∷ 82 ∷ 82 ∷ 79 ∷ 82 ∷ 58 ∷ 32 ∷ 67 ∷ 111 ∷ 117 ∷ 108 ∷ 100 ∷ 32 ∷ 110 ∷ 111 ∷ 116 ∷ 32 ∷ 102
    ∷ 105 ∷ 110 ∷ 100 ∷ 32 ∷ 97 ∷ 110 ∷ 121 ∷ 32 ∷ 109 ∷ 101 ∷ 109 ∷ 111 ∷ 114 ∷ 121 ∷ 32 ∷ 115
    ∷ 101 ∷ 103 ∷ 109 ∷ 101 ∷ 110 ∷ 116 ∷ 115 ∷ 32 ∷ 102 ∷ 111 ∷ 114 ∷ 32 ∷ 107 ∷ 101 ∷ 114 ∷ 110
    ∷ 101 ∷ 108 ∷ 33 ∷ []
text_of stage2_loaded =
    83 ∷ 116 ∷ 97 ∷ 103 ∷ 101 ∷ 32 ∷ 50 ∷ 32 ∷ 99 ∷ 112 ∷ 112 ∷ 32 ∷ 108 ∷ 111 ∷ 97 ∷ 100 ∷ 101
    ∷ 100 ∷ 33 ∷ []

-- "/kernel.elf"
abbrev pub kernel_path : List ℕ
kernel_path = 47 ∷ 107 ∷ 101 ∷ 114 ∷ 110 ∷ 101 ∷ 108 ∷ 46 ∷ 101 ∷ 108 ∷ 102 ∷ []

-- The page tables with the heap, the console with the ports, the disk driver, the object of the file system,
-- and the bytes at virtual addresses.
pub record Stage2 : Type 0 where
  pub boot : Boot
  pub vga : Vga
  pub ata : AtaDrive
  pub fat : Fat
  pub mem : Memory

-- Where the program ends: in a loop without an end behind a message, in the kernel, in a division by a sector
-- size of 0, or in what `open` comes to where it does not return.
pub data Ending : Type 0 where
  halted : Message → Stage2 → Ending
  entered : (entry : ℕ) → BootInfoExtended → Stage2 → Ending
  divided_by_0 : Ending
  lost : Opening → Ending

abbrev pub mib : ℕ
mib = 0x10_0000

-- The three tests of a region.
abbrev pub is_usable : MemoryRegion → Bool
is_usable r = leb mib r.base && (leb mib r.length && (r.type == 1))

-- The search for the kernel's region, from region `i` on.
unfoldable pub find_region : (ℕ → MemoryRegion) → (left i : ℕ) → Option ℕ
find_region mem_map zero i = none
find_region mem_map (suc left) i =
    let rest = find_region mem_map left (i + 1) in if is_usable (mem_map i) then some i else rest

-- `printf` of a text without a conversion, which always returns.
unfoldable pub say : Message → Stage2 → Stage2
say message s = record s {
  vga = elim (printf console (text_of message) [] s.vga) [ some v ↦ v | none ↦ s.vga ];
}

-- The calls of the loader, the latest first.
unfoldable pub map_calls : List Call → Boot → Boot
map_calls [] b = b
map_calls (pages_4k virt phys count ∷ calls) b = map_4k virt phys count (map_calls calls b)
map_calls (pages_2m virt phys count ∷ calls) b = map_2m virt phys count (map_calls calls b)

-- `seek` and `read` of a handle.
abbrev pub files_of : BlockDevice → (handle : ℕ) → Files Fat
files_of disk handle = record {
  seek = λ position s. seek disk handle position s;
  read = λ byte_count s. read disk handle byte_count s;
}

-- The state behind the start of the console and of the disk driver.
unfoldable pub start_drivers : Device → (stack : Memory) → Stage2 → Bool × Stage2
start_drivers device stack s =
    let (vga, shown) = Vga.initialize device s.vga in
    let (ready, ata, ports) = Ata.initialize device stack s.ata vga.ports in
    (ready, record s { vga = record vga { ports = ports }; ata = ata })

-- `stack` is what the stack holds where a buffer or a struct is declared, and `rounds` bounds the searches of
-- directories.
module _ (device : Device) (disk : BlockDevice) (stack : Memory) (rounds : ℕ)
    (boot_info : BootInfo) where
  -- Behind the search. `kernelStart` is null where no region was found, as a base is not 0.
  unfoldable pub load_kernel : (handle : ℕ) → BootInfoExtended → Option ℕ → Stage2 → Ending
  unfolding say map_calls
  load_kernel handle ext none s = halted no_segments (say no_segments s)
  load_kernel handle ext (some i) s =
      let kernel_start = MemoryRegion.base (boot_info.mem_map i) in
      let (info, m) =
        read_elf (files_of disk handle) stack kernel_start
          (record { files = s.fat; mem = s.mem; calls = [] }) in
      entered info.entry
        (record {
          memory_map_index = u8 i;
          pml4_address = ext.pml4_address;
          kernel_physical_base = info.phys_base;
        })
        (say stage2_loaded
          (record s { fat = m.files; mem = m.mem; boot = map_calls m.calls s.boot }))

  -- Behind `open`.
  unfoldable pub find_kernel : BootInfoExtended → Opening → Stage2 → Ending
  unfolding load_kernel find_region say
  find_kernel ext (returned none fat) s =
      halted could_not_load (say could_not_load (record s { fat = fat }))
  find_kernel ext (returned (some handle) fat) s =
      load_kernel handle ext (find_region boot_info.mem_map boot_info.mem_map_count 0)
        (record s { fat = fat })
  find_kernel ext name_overflow s = lost name_overflow
  find_kernel ext null_read s = lost null_read
  find_kernel ext endless s = lost endless

  -- Behind `detectAndMount`. The object of a file system that was not mounted is not used again.
  unfoldable pub open_kernel : BootInfoExtended → Option (Option Fat) → Stage2 → Ending
  unfolding find_kernel say
  open_kernel ext none s = divided_by_0
  open_kernel ext (some none) s = halted failed_file_system (say failed_file_system s)
  open_kernel ext (some (some fat)) s =
      find_kernel ext (open_path disk rounds kernel_path fat) (record s { fat = fat })

  unfoldable pub stage2_main : BootInfoExtended → Stage2 → Ending
  unfolding start_drivers open_kernel say
  stage2_main ext s =
      let boot = Boot.setup_paging s.boot in
      let ext1 : BootInfoExtended = record ext { pml4_address = get_pml4 boot } in
      let (ready, s1) = start_drivers device stack (record s { boot = boot }) in
      if not ready
      then halted failed_ata (say failed_ata s1)
      else open_kernel ext1 (detect_and_mount disk stack s1.fat) s1
