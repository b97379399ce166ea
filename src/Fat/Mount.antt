-- ===== src/Fat/Mount.antt =====
-- fat_common.cpp, fat12.cpp and detect.cpp: `detect`, the constructor, `initialize` and
-- `detectAndMount`. Objects stand where `operator new` put them, which is not looked at here.
pub mod Laws
use aidos.Common.{
  ℕ, ◌+◌, ◌-◌, ◌*◌, ◌/◌, Bool, true, false, not, ◌&&◌, ◌||◌, Option, none, some, ltb, leb, ◌==◌,
  if◌then◌else◌, bit_and, u32, sub32,
}
use aidos.Mem.{Memory}
use aidos.Fat.{
  BlockDevice, File, FileData, Fat, bytes_per_sector, sectors_per_cluster, reserved_sector_count,
  num_fats, root_entry_count, total_sectors_16, fat_size_16, total_sectors_32, max_file_handles,
  root_directory_handle,
}
use aidos.Fat.Read.{directory_entry_size}

-- The tests of `detect` on the first sector.
abbrev pub total_sectors_of : Memory → ℕ
total_sectors_of b = if total_sectors_16 b == 0 then total_sectors_32 b else total_sectors_16 b

abbrev pub root_sectors : Memory → ℕ
root_sectors b = (root_entry_count b * 32 + (bytes_per_sector b - 1)) / bytes_per_sector b

abbrev pub clusters_of : Memory → ℕ
clusters_of b =
    sub32 (total_sectors_of b)
      (u32 (reserved_sector_count b + num_fats b * fat_size_16 b + root_sectors b))
    / sectors_per_cluster b

unfoldable pub is_fat12 : Memory → Bool
is_fat12 b =
    let bps = bytes_per_sector b in
    let spc = sectors_per_cluster b in
    if not (b 510 == 0x55) || not (b 511 == 0xAA)
    then false
    else if bps == 0
        || not (bit_and bps (bps - 1) == 0)
        || spc == 0
        || not (bit_and spc (spc - 1) == 0)
    then false
    else if fat_size_16 b == 0
    then false
    else not (leb 4085 (clusters_of b))

-- Whether an object is made; `sector` is what the local buffer held before.
unfoldable pub detect : BlockDevice → (sector : Memory) → Bool
unfolding is_fat12
detect disk sector = let (done, b) = disk.read_sectors 0 1 sector in done && is_fat12 b

-- The constructor, on what the memory of the object held.
unfoldable pub fat12_file_system : Fat → Fat
fat12_file_system s = record s { sectors_per_fat = 0; data_section_lba = 0; total_sectors = 0 }

abbrev pub root_dir_lba : Memory → ℕ
root_dir_lba b = u32 (reserved_sector_count b + u32 (fat_size_16 b * num_fats b))

abbrev pub root_dir_size : Memory → ℕ
root_dir_size b = directory_entry_size * root_entry_count b

-- The sectors of the root directory, where the sector size is not 0.
abbrev pub root_dir_sectors : Memory → ℕ
root_dir_sectors b = sub32 (u32 (root_dir_size b + bytes_per_sector b)) 1 / bytes_per_sector b

-- The root directory's file data, but for its buffer.
abbrev pub root_data : Memory → FileData → FileData
root_data b fd = record fd {
  public = record {
    handle = root_directory_handle;
    is_directory = true;
    size = root_dir_size b;
    position = 0;
  };
  opened = true;
  first_cluster = root_dir_lba b;
  current_cluster = root_dir_lba b;
  current_sector_in_cluster = 0;
}

-- The end of `initialize`, behind its tests, in the state after them.
unfoldable pub set_root : BlockDevice → Fat → Bool × Fat
set_root disk s =
    let b = s.boot_sector in
    let root = root_data b s.root_directory in
    let (done, buffer) = disk.read_sectors (root_dir_lba b) 1 root.buffer in
    let s1 = record s {
      sectors_per_fat = fat_size_16 b;
      data_section_lba = u32 (root_dir_lba b + root_dir_sectors b);
      root_directory = record root { buffer = buffer };
    } in
    let files = λ (i : ℕ).
      if ltb i max_file_handles
      then record (s.opened_files i) { opened = false }
      else s.opened_files i in
    if done then (true, record s1 { opened_files = files }) else (false, s1)

-- `none` is the division by a sector size of 0.
unfoldable pub initialize : BlockDevice → Fat → Option (Bool × Fat)
unfolding set_root
initialize disk s =
    let (done, b) = disk.read_sectors 0 1 s.boot_sector in
    let read = record s { boot_sector = b } in
    let s1 = record read { fat_cache_position = 0xFFFF_FFFF; total_sectors = total_sectors_16 b } in
    if not done
    then some (false, read)
    else if total_sectors_16 b == 0
    then some (false, s1)
    else if fat_size_16 b == 0
    then some (false, s1)
    else if bytes_per_sector b == 0
    then none
    else some (set_root disk s1)

-- The table of detectors has one entry. `s` is what the memory of the object held.
unfoldable pub detect_and_mount : BlockDevice → (sector : Memory) → Fat → Option (Option Fat)
unfolding detect initialize
detect_and_mount disk sector s =
    if not (detect disk sector) then some none else elim (initialize disk (fat12_file_system s)) [
      | some (true, s') ↦ some (some s')
      | some (false, s') ↦ some none
      | none ↦ none
    ]
