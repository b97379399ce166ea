-- ===== src/Main/Laws.antt =====
-- How the bootloader's main program ends.
use aidos.Common.{
  ℕ, zero, suc, ◌+◌, ◌%◌, ◌^◌, ◌≤◌, ◌<◌, ◌≡◌, ◌≢◌, inl, inr, refl, arith, Option, none, some, Bool,
  true, false, ◌==◌, ==_iff, Bool-cases, [],
}
use aidos.Mem.{Memory}
use aidos.Io.{Device, History}
use aidos.Stdio.{print, printf}
use aidos.Stdio.Console.{console}
use aidos.Vga
use aidos.Ata
use aidos.Ata.{AtaDrive, all_drives}
use aidos.Ata.Identify.{IsAmong}
use aidos.Boot
use aidos.Boot.{Boot, get_pml4}
use aidos.Fat.{BlockDevice, Fat}
use aidos.Fat.Mount.{detect_and_mount}
use aidos.Fat.Open.{Opening, returned, open_path}
use aidos.Elf.{read_elf}
use aidos.Main.{
  MemoryRegion, BootInfo, BootInfoExtended, Message, Stage2, Ending, halted, entered, divided_by_0,
  lost, failed_ata, failed_file_system, could_not_load, no_segments, stage2_loaded, text_of,
  kernel_path, is_usable, find_region, say, map_calls, files_of,
}

-- A region of free memory that begins behind the first MiB and is as large as that.
abbrev pub IsUsable : MemoryRegion → Type 0
IsUsable r = (0x10_0000 ≤ r.base) × (0x10_0000 ≤ r.length) × (r.type ≡ 1)

is_usable-true : (r : MemoryRegion) → is_usable r ≡ true → IsUsable r
is_usable-true r e = ground arith

is_usable-false : (r : MemoryRegion) → is_usable r ≡ false → ¬ IsUsable r
is_usable-false r e = λ u. absurd (ground arith)

-- The first of the regions from `i` on that is usable.
pub record IsFirst (mem_map : ℕ → MemoryRegion) (left i found : ℕ) : Type 0 where
  pub after : i ≤ found
  pub before : found < i + left
  pub usable : IsUsable (mem_map found)
  pub first : (k : ℕ) → i ≤ k → k < found → ¬ IsUsable (mem_map k)

-- The result of a search for it.
abbrev pub IsFound : (mem_map : ℕ → MemoryRegion) → (left i : ℕ) → Option ℕ → Type 0
IsFound mem_map left i none = (k : ℕ) → i ≤ k → k < i + left → ¬ IsUsable (mem_map k)
IsFound mem_map left i (some found) = IsFirst mem_map left i found

IsFound-later :
    (mem_map : ℕ → MemoryRegion) (left i : ℕ) (result : Option ℕ)
    → ¬ IsUsable (mem_map i)
    → IsFound mem_map left (i + 1) result
    → IsFound mem_map (suc left) i result
IsFound-later mem_map left i none bad rest = λ k a b. elim (Bool-cases (i == k)) [
  | inl same ↦ rw (← (==_iff i k).0 same) bad
  | inr ne ↦ rest k (ground arith) (omega arith)
]
IsFound-later mem_map left i (some found) bad rest = record {
  after = omega (arith, rest.after);
  before = omega (arith, rest.before);
  usable = rest.usable;
  first = λ k a b. elim (Bool-cases (i == k)) [
    | inl same ↦ rw (← (==_iff i k).0 same) bad
    | inr ne ↦ rest.first k (ground arith) b
  ];
}

pub find_region-IsFound :
    (mem_map : ℕ → MemoryRegion) (left i : ℕ) → IsFound mem_map left i (find_region mem_map left i)
unfolding find_region
find_region-IsFound mem_map zero i = λ k a b. absurd (omega arith)
find_region-IsFound mem_map (suc left) i = elim (Bool-cases (is_usable (mem_map i))) [
  | inl good ↦ rw good (record {
    after = omega arith;
    before = omega arith;
    usable = is_usable-true (mem_map i) good;
    first = λ k a b. absurd (omega arith);
  })
  | inr bad ↦ rw bad (
      IsFound-later mem_map left i (find_region mem_map left (i + 1))
        (is_usable-false (mem_map i) bad) (find_region-IsFound mem_map left (i + 1)))
]

-- Each message is a text without a conversion, which `printf` writes whole.
pub say_lem :
    (message : Message) (s : Stage2)
    → say message s ≡ record s { vga = print console (text_of message) s.vga }
unfolding say printf print
say_lem failed_ata s = refl
say_lem failed_file_system s = refl
say_lem could_not_load s = refl
say_lem no_segments s = refl
say_lem stage2_loaded s = refl

module _ (device : Device) (disk : BlockDevice) (stack : Memory) (rounds : ℕ) (boot_info : BootInfo)
    (s : Stage2) where
  -- What `initialize` of the disk driver gives, behind that of the console.
  abbrev pub drive_found : Bool × AtaDrive × History
  drive_found = Ata.initialize device stack s.ata (Vga.initialize device s.vga).0.ports

  -- The state behind `setup_paging` and the start of the two drivers, and whether a disk was found.
  abbrev pub started : Bool × Stage2
  started = (
    drive_found.0,
    record s {
      boot = Boot.setup_paging s.boot;
      vga = record (Vga.initialize device s.vga).0 { ports = drive_found.2 };
      ata = drive_found.1;
    },
  )

  -- The file system that was mounted, and what `open` gives for the path of the kernel.
  pub record Opens (result : Opening) : Type 0 where
    pub fat : Fat
    pub mounted : detect_and_mount disk stack s.fat ≡ some (some fat)
    pub opened : open_path disk rounds kernel_path fat ≡ result

  -- The kernel is entered with what the loader says of the file and of the first usable region, with the
  -- segments in memory and their pages mapped in the tables of `setup_paging`.
  pub record Enters (entry : ℕ) (ext' : BootInfoExtended) (s' : Stage2) : Type 0 where
    pub ready : started.0 ≡ true
    pub drive : IsAmong all_drives s'.ata
    pub handle : ℕ
    pub files : Fat
    pub opens : Opens (returned (some handle) files)
    pub region : ℕ
    pub is_first : IsFirst boot_info.mem_map boot_info.mem_map_count 0 region
    pub index : ext'.memory_map_index ≡ region % 2 ^ 8
    pub pml4_ok : ext'.pml4_address ≡ s.boot.pml4
    pub loaded :
        let kernel_start = MemoryRegion.base (boot_info.mem_map region) in
        let (info, m) =
          read_elf
            (files_of disk handle)
            stack
            kernel_start
            (record { files = files; mem = s.mem; calls = [] }) in
        (entry ≡ info.entry)
        × ((ext'.kernel_physical_base ≡ info.phys_base)
            × ((s'.mem ≡ m.mem) × (s'.boot ≡ map_calls m.calls (Boot.setup_paging s.boot))))

  -- The reason that a message tells.
  abbrev pub Fails : Message → Stage2 → Type 0
  Fails failed_ata s' = (started.0 ≡ false) × (s'.ata ≡ s.ata)
  Fails failed_file_system s' =
      IsAmong all_drives s'.ata × (detect_and_mount disk stack s.fat ≡ some none)
  Fails could_not_load s' = IsAmong all_drives s'.ata × Opens (returned none s'.fat)
  Fails no_segments s' =
      IsAmong all_drives s'.ata
      × ((k : ℕ) → k < boot_info.mem_map_count → ¬ IsUsable (boot_info.mem_map k))
  Fails stage2_loaded s' = ⊥

  -- The end tells what came before it, and a message is all that is on the console since the start.
  abbrev pub Ends : Ending → Type 0
  Ends (halted message s') =
      Fails message s' × (s'.vga ≡ print console (text_of message) started.1.vga)
  Ends (entered entry ext' s') =
      Enters entry ext' s' × (s'.vga ≡ print console (text_of stage2_loaded) started.1.vga)
  Ends divided_by_0 = detect_and_mount disk stack s.fat ≡ none
  Ends (lost result) =
      Opens result × ((handle : Option ℕ) (fat : Fat) → result ≢ returned handle fat)

  abbrev ext_of : BootInfoExtended → BootInfoExtended
  ext_of ext = record ext { pml4_address = get_pml4 (Boot.setup_paging s.boot) }
