-- ===== src/Fat.antt =====
-- src/bootloader/stage2/dev/io/fs/fat: the FAT12 driver. This file holds the state of fat.hpp, and
-- its children the functions of fat12.cpp and fat_common.cpp, each with what is proved of it.
-- A buffer is the memory of its bytes. The messages that the driver prints are left out.
pub mod Cluster
pub mod Name
pub mod Read
pub mod Entry
pub mod Open
pub mod Mount
mod Tests
use aidos.Common.{ℕ, ◌+◌, ◌*◌, Bool, Option, none, some, ◌==◌, if◌then◌else◌}
use aidos.Mem.{Memory}

abbrev pub sector_size : ℕ
sector_size = 512

abbrev pub max_path_size : ℕ
max_path_size = 256

abbrev pub max_file_handles : ℕ
max_file_handles = 10

abbrev pub root_directory_handle : ℕ
root_directory_handle = max_file_handles + 1

abbrev pub fat_cache_size : ℕ
fat_cache_size = 5

-- `read_sectors lba count buffer` of a `BlockIODevice`: whether it succeeds, and the buffer after it.
-- The driver does not write to the disk, and a read changes nothing that a later read can see.
pub record BlockDevice : Type 0 where
  pub read_sectors : (lba count : ℕ) → Memory → Bool × Memory

-- `struct File`
pub record File : Type 0 where
  pub handle : ℕ
  pub is_directory : Bool
  pub size : ℕ
  pub position : ℕ

-- `FAT_FileData`
pub record FileData : Type 0 where
  pub buffer : Memory
  pub public : File
  pub opened : Bool
  pub first_cluster : ℕ
  pub current_cluster : ℕ
  pub current_sector_in_cluster : ℕ

-- The members of `FAT12FileSystem`, with those of its `FAT_Data`.
pub record Fat : Type 0 where
  pub boot_sector : Memory
  pub root_directory : FileData
  pub opened_files : ℕ → FileData
  pub fat_cache : Memory
  pub fat_cache_position : ℕ
  pub data_section_lba : ℕ
  pub total_sectors : ℕ
  pub sectors_per_fat : ℕ

abbrev pub le16 : Memory → ℕ → ℕ
le16 m a = m a + 256 * m (a + 1)

abbrev pub le32 : Memory → ℕ → ℕ
le32 m a = le16 m a + 0x1_0000 * le16 m (a + 2)

-- The fields of `FAT_BootSector`, at their offsets.
abbrev pub bytes_per_sector : Memory → ℕ
bytes_per_sector b = le16 b 0x0B

abbrev pub sectors_per_cluster : Memory → ℕ
sectors_per_cluster b = b 0x0D

abbrev pub reserved_sector_count : Memory → ℕ
reserved_sector_count b = le16 b 0x0E

abbrev pub num_fats : Memory → ℕ
num_fats b = b 0x10

abbrev pub root_entry_count : Memory → ℕ
root_entry_count b = le16 b 0x11

abbrev pub total_sectors_16 : Memory → ℕ
total_sectors_16 b = le16 b 0x13

abbrev pub fat_size_16 : Memory → ℕ
fat_size_16 b = le16 b 0x16

abbrev pub total_sectors_32 : Memory → ℕ
total_sectors_32 b = le32 b 0x20

-- The file data that a handle selects, and its update.
abbrev pub file_data : ℕ → Fat → FileData
file_data handle s =
    if handle == root_directory_handle then s.root_directory else s.opened_files handle

abbrev pub set_file_data : ℕ → FileData → Fat → Fat
set_file_data handle fd s =
    if handle == root_directory_handle
    then record s { root_directory = fd }
    else record s { opened_files = λ i. if i == handle then fd else s.opened_files i }
