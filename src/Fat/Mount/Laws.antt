-- ===== src/Fat/Mount/Laws.antt =====
-- What `initialize` makes of a boot sector.
use native.Mathlib.Nat.{mul-le-mul_right, mul_comm, div-le_self, le_trans}
use aidos.Common.{
  ℕ, ◌+◌, ◌-◌, ◌*◌, ◌/◌, ◌^◌, ◌≤◌, ◌<◌, ◌≡◌, ◌≢◌, ◌⊎◌, inl, inr, ◌∙◌, refl, arith, ap, Bool, true,
  false, Option, none, some, ◌==◌, Bool-cases, u32, sub32,
}
use aidos.Mem.{Memory}
use aidos.Fat.{
  BlockDevice, Fat, bytes_per_sector, sectors_per_cluster, reserved_sector_count, num_fats,
  root_entry_count, total_sectors_16, fat_size_16, root_directory_handle,
}
use aidos.Fat.Cluster.{cluster_to_lba}
use aidos.Fat.Mount.{root_dir_lba, root_dir_sectors, set_root, initialize}

-- Where the format puts the root directory: behind the reserved sectors and the tables.
abbrev pub root_start : Memory → ℕ
root_start b = reserved_sector_count b + num_fats b * fat_size_16 b

-- How many sectors the root directory takes: the entries of 32 bytes, rounded up.
abbrev pub root_length : Memory → ℕ
root_length b = (root_entry_count b * 32 + bytes_per_sector b - 1) / bytes_per_sector b

-- The fields that FAT12 has and FAT32 leaves 0.
abbrev pub IsFat12 : Memory → Type 0
IsFat12 b = (total_sectors_16 b ≢ 0) × (fat_size_16 b ≢ 0)

-- The state behind the tests of `initialize`.
abbrev pub tested : Memory → Fat → Fat
tested b s = record s {
  boot_sector = b;
  fat_cache_position = 0xFFFF_FFFF;
  total_sectors = total_sectors_16 b;
}

-- The boot sector was read.
abbrev pub Readable : BlockDevice → Fat → Type 0
Readable disk s = (disk.read_sectors 0 1 s.boot_sector).0 ≡ true

-- A file system ready for use, with the boot sector `b`.
pub record IsMounted (disk : BlockDevice) (s : Fat) (b : Memory) (s' : Fat) : Type 0 where
  pub fields : IsFat12 b
  pub sized : bytes_per_sector b ≢ 0
  pub boot : s'.boot_sector ≡ b
  pub table : s'.sectors_per_fat ≡ fat_size_16 b
  pub sectors : s'.total_sectors ≡ total_sectors_16 b
  pub data_start : s'.data_section_lba ≡ root_start b + root_length b
  pub areas :
      (c : ℕ)
      → 2 ≤ c
      → c < 0xFF8
      → cluster_to_lba c s' ≡ root_start b + root_length b + (c - 2) * sectors_per_cluster b
  pub cache : s'.fat_cache_position ≡ 0xFFFF_FFFF
  pub root_file : s'.root_directory.public ≡ record {
    handle = root_directory_handle;
    is_directory = true;
    size = root_entry_count b * 32;
    position = 0;
  }
  pub root_opened : s'.root_directory.opened ≡ true
  pub root_place : s'.root_directory.current_cluster ≡ root_start b
  pub root_again : s'.root_directory.first_cluster ≡ root_start b
  pub root_sector : s'.root_directory.current_sector_in_cluster ≡ 0
  pub root_buffer :
      disk.read_sectors (root_start b) 1 s.root_directory.buffer ≡ (true, s'.root_directory.buffer)
  pub closed : (i : ℕ) → i < 10 → (s'.opened_files i).opened ≡ false

-- The outcomes of `initialize`.
pub data Mounts (disk : BlockDevice) (s : Fat) (b : Memory) : Option (Bool × Fat) → Type 0 where
  unreadable :
      (disk.read_sectors 0 1 s.boot_sector).0 ≡ false
      → Mounts disk s b (some (false, record s { boot_sector = b }))
  not_fat12 :
      Readable disk s
      → (total_sectors_16 b ≡ 0) ⊎ (fat_size_16 b ≡ 0)
      → Mounts disk s b (some (false, tested b s))
  divides_by_0 : Readable disk s → IsFat12 b → bytes_per_sector b ≡ 0 → Mounts disk s b none
  root_unreadable :
      (s' : Fat)
      → Readable disk s
      → IsFat12 b
      → bytes_per_sector b ≢ 0
      → (disk.read_sectors (root_start b) 1 s.root_directory.buffer).0 ≡ false
      → s'.opened_files ≡ s.opened_files
      → Mounts disk s b (some (false, s'))
  mounted : (s' : Fat) → Readable disk s → IsMounted disk s b s' → Mounts disk s b (some (true, s'))

-- The boot sector consists of bytes.
module _ (b : Memory) (bytes : (a : ℕ) → b a < 256) where
  tables_bound : num_fats b * fat_size_16 b ≤ 256 * 65535
  tables_bound =
      let pairs : num_fats b * fat_size_16 b ≤ 256 * fat_size_16 b =
        mul-le-mul_right (fat_size_16 b) (omega (arith, bytes 0x10)) in
      omega (arith, pairs, bytes 0x16, bytes 0x17)

  root_start_bound : root_start b ≤ 2 ^ 16 + 256 * 65535
  root_start_bound = omega (arith, tables_bound, bytes 0x0E, bytes 0x0F)

  root_dir_lba_lem : root_dir_lba b ≡ root_start b
  root_dir_lba_lem =
      let swap : fat_size_16 b * num_fats b ≡ num_fats b * fat_size_16 b = mul_comm _ _ in
      rw swap (omega (arith, tables_bound, bytes 0x0E, bytes 0x0F))

  root_size_bound : root_entry_count b * 32 + bytes_per_sector b ≤ 2 ^ 22
  root_size_bound = omega (arith, bytes 0x11, bytes 0x12, bytes 0x0B, bytes 0x0C)

  root_dir_sectors_lem : bytes_per_sector b ≢ 0 → root_dir_sectors b ≡ root_length b
  root_dir_sectors_lem pos =
      let e : sub32 (u32 (32 * root_entry_count b + bytes_per_sector b)) 1
          ≡ root_entry_count b * 32 + bytes_per_sector b - 1 =
        omega (arith, root_size_bound, pos) in
      rw e refl

  root_length_bound : root_length b ≤ 2 ^ 22
  root_length_bound =
      le_trans (div-le_self (root_entry_count b * 32 + bytes_per_sector b - 1) (bytes_per_sector b))
        (omega (arith, root_size_bound))

  area_bound : (c : ℕ) → c < 0xFF8 → (c - 2) * sectors_per_cluster b ≤ 0xFF8 * 256
  area_bound c h =
      let over : (c - 2) * sectors_per_cluster b ≤ 0xFF8 * sectors_per_cluster b =
        mul-le-mul_right (sectors_per_cluster b) (omega arith) in
      omega (arith, over, bytes 0x0D)

  -- Cluster 2 begins at the data section, and each cluster follows the one before.
  area_lem :
      (s : Fat) (c : ℕ)
      → s.boot_sector ≡ b
      → s.data_section_lba ≡ root_start b + root_length b
      → 2 ≤ c
      → c < 0xFF8
      → cluster_to_lba c s ≡ root_start b + root_length b + (c - 2) * sectors_per_cluster b
  unfolding cluster_to_lba
  area_lem s c boot start low high =
      let down : sub32 c 2 ≡ c - 2 = omega arith in
      rw (boot, start, down) (omega (arith, area_bound c high, root_start_bound, root_length_bound))

  module _ (disk : BlockDevice) (s : Fat) where
    start_lem :
        bytes_per_sector b ≢ 0
        → u32 (root_dir_lba b + root_dir_sectors b) ≡ root_start b + root_length b
    start_lem pos =
        rw (root_dir_lba_lem, root_dir_sectors_lem pos)
          (omega (arith, root_start_bound, root_length_bound))

    abbrev root_read : Bool × Memory
    root_read = disk.read_sectors (root_dir_lba b) 1 s.root_directory.buffer

    set_root-IsMounted :
        IsFat12 b
        → bytes_per_sector b ≢ 0
        → root_read.0 ≡ true
        → IsMounted disk s b (set_root disk (tested b s)).1
    unfolding set_root
    set_root-IsMounted fields pos done = rw done (record {
      fields = fields;
      sized = pos;
      boot = refl;
      table = refl;
      sectors = refl;
      data_start = start_lem pos;
      areas = λ c low high. area_lem _ c refl (start_lem pos) low high;
      cache = refl;
      root_file =
          ap
            (λ (n : ℕ). record {
              handle = root_directory_handle;
              is_directory = true;
              size = n;
              position = 0;
            })
            (mul_comm 32 (root_entry_count b));
      root_opened = refl;
      root_place = root_dir_lba_lem;
      root_again = root_dir_lba_lem;
      root_sector = refl;
      root_buffer = rw (← root_dir_lba_lem) (ap (λ (d : Bool). (d, root_read.1)) done);
      closed = λ i h. ground arith;
    })

    set_root_done : (set_root disk (tested b s)).0 ≡ root_read.0
    unfolding set_root
    set_root_done = elim (Bool-cases root_read.0) [
      | inl done ↦ rw done refl
      | inr failed ↦ rw failed refl
    ]

    -- A root directory that cannot be read leaves the handles alone.
    set_root-handles :
        root_read.0 ≡ false → (set_root disk (tested b s)).1.opened_files ≡ s.opened_files
    unfolding set_root
    set_root-handles failed = rw failed refl

    set_root-Mounts :
        Readable disk s
        → IsFat12 b
        → bytes_per_sector b ≢ 0
        → Mounts disk s b (some (set_root disk (tested b s)))
    set_root-Mounts readable fields pos =
        let result : Fat = (set_root disk (tested b s)).1 in
        elim (Bool-cases root_read.0) [
          | inl done ↦
              let whole : set_root disk (tested b s) ≡ (true, result) =
                ap (λ (d : Bool). (d, result)) (set_root_done ∙ done) in
              rw whole (mounted result readable (set_root-IsMounted fields pos done))
          | inr failed ↦
              let whole : set_root disk (tested b s) ≡ (false, result) =
                ap (λ (d : Bool). (d, result)) (set_root_done ∙ failed) in
              rw whole (
                root_unreadable result readable fields pos (rw (← root_dir_lba_lem) failed)
                  (set_root-handles failed))
        ]

-- `initialize` reads the boot sector. If the sector consists of bytes, it refuses a disk whose boot sector
-- cannot be read, or whose 16-bit number of sectors or of sectors of a table is 0, with nothing changed
-- but the boot sector, the place of the cache and the number of sectors; it divides by zero if the sector
-- size is 0; it refuses a root directory that cannot be read, with the handles as before; and otherwise,
-- with none of these 0, it leaves a file system ready for use: the root directory is open at its start,
-- every handle is free, and the clusters lie one behind the other after the root directory.
pub initialize-Mounts :
    (disk : BlockDevice) (s : Fat)
    → ((a : ℕ) → (disk.read_sectors 0 1 s.boot_sector).1 a < 256)
    → Mounts disk s (disk.read_sectors 0 1 s.boot_sector).1 (initialize disk s)
unfolding initialize
initialize-Mounts disk s bytes =
    let out = disk.read_sectors 0 1 s.boot_sector in
    let b = out.1 in
    elim (Bool-cases out.0) [
      | inr failed ↦ rw failed (unreadable failed)
      | inl done ↦ rw done (elim (Bool-cases (total_sectors_16 b == 0)) [
        | inl none_here ↦ rw none_here (not_fat12 done (inl (ground arith)))
        | inr some_here ↦ rw some_here (elim (Bool-cases (fat_size_16 b == 0)) [
          | inl no_table ↦ rw no_table (not_fat12 done (inr (ground arith)))
          | inr table ↦
              let fields : IsFat12 b = (ground arith, ground arith) in
              rw table (elim (Bool-cases (bytes_per_sector b == 0)) [
                | inl null_size ↦ rw null_size (divides_by_0 done fields (ground arith))
                | inr sized ↦ rw sized (set_root-Mounts b bytes disk s done fields (ground arith))
              ])
        ])
      ])
    ]
