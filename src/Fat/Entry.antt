-- ===== src/Fat/Entry.antt =====
-- fat12.cpp: `FindFile` and `OpenEntry`, on the bytes of a directory entry.
pub mod Laws
pub mod Find
pub mod Missed
use aidos.Common.{
  ℕ, zero, suc, ◌+◌, ◌*◌, Bool, true, false, not, ◌&&◌, ◌||◌, Option, none, some, List, [], ◌∷◌,
  get_or, ltb, leb, ◌==◌, if◌then◌else◌, bit_and,
}
use aidos.Mem.{Memory}
use aidos.Fat.{BlockDevice, File, FileData, Fat, le16, le32, set_file_data, max_file_handles}
use aidos.Fat.Cluster.{cluster_to_lba}
use aidos.Fat.Name.{fat_name}
use aidos.Fat.Read.{read_entry}

abbrev pub fat_attribute_directory : ℕ
fat_attribute_directory = 0x10

-- The fields of `FAT_DirectoryEntry`, at their offsets.
abbrev pub bytes_of : List ℕ → Memory
bytes_of entry i = get_or entry i 0

abbrev pub attributes : List ℕ → ℕ
attributes entry = bytes_of entry 11

abbrev pub first_cluster_high : List ℕ → ℕ
first_cluster_high entry = le16 (bytes_of entry) 20

abbrev pub first_cluster_low : List ℕ → ℕ
first_cluster_low entry = le16 (bytes_of entry) 26

abbrev pub size : List ℕ → ℕ
size entry = le32 (bytes_of entry) 28

abbrev pub is_directory : List ℕ → Bool
is_directory entry = not (bit_and (attributes entry) fat_attribute_directory == 0)

-- `memcmp(fatName, entry.Name, 11) == 0`, for `left` bytes from `i` on.
abbrev pub same_name : (left i : ℕ) → (name entry : List ℕ) → Bool
same_name zero i name entry = true
same_name (suc left) i name entry =
    (get_or name i 0 == get_or entry i 0) && same_name left (i + 1) name entry

-- What `FindFile` comes to: the entry, the end of the directory, or neither in the rounds given.
pub data Search : Type 0 where
  found : (entry : List ℕ) → Search
  not_found : Search
  unfinished : Search

-- The loop of `FindFile`. A chain of clusters that is a circle can keep it running.
unfoldable pub find_loop : BlockDevice → (rounds handle : ℕ) → (name : List ℕ) → Fat → Search × Fat
find_loop disk zero handle name s = (unfinished, s)
find_loop disk (suc rounds) handle name s =
    let (more, entry, s') = read_entry disk handle s in
    let rest = find_loop disk rounds handle name s' in
    if not more
    then (not_found, s')
    else if same_name 11 0 name entry
    then (found entry, s')
    else rest

unfoldable pub find_file : BlockDevice → (rounds handle : ℕ) → (name : List ℕ) → Fat → Search × Fat
unfolding find_loop
find_file disk rounds handle name s = find_loop disk rounds handle (fat_name name) s

-- The loop that takes the first handle that is not opened, for `left` handles from `i` on.
abbrev pub first_free : (left i : ℕ) → (ℕ → FileData) → Option ℕ
first_free zero i files = none
first_free (suc left) i files =
    if not (files i).opened then some i else first_free left (i + 1) files

-- The file data that `OpenEntry` sets up, `Opened` and `Buffer` left as they are.
abbrev pub set_up : (handle : ℕ) → (entry : List ℕ) → FileData → FileData
set_up handle entry fd =
    let cluster = first_cluster_low entry + first_cluster_high entry * 0x1_0000 in
    record fd {
      public = record {
        handle = handle;
        is_directory = is_directory entry;
        size = size entry;
        position = 0;
      };
      first_cluster = cluster;
      current_cluster = cluster;
      current_sector_in_cluster = 0;
    }

-- `OpenEntry` with the handle that it found.
unfoldable pub open_at : BlockDevice → (handle : ℕ) → (entry : List ℕ) → Fat → Option ℕ × Fat
open_at disk handle entry s =
    let fd = set_up handle entry (s.opened_files handle) in
    let (done, buffer) = disk.read_sectors (cluster_to_lba fd.current_cluster s) 1 fd.buffer in
    let loaded = record fd { buffer = buffer } in
    if ltb fd.current_cluster 2 || leb 0xFF8 fd.current_cluster
    then (none, set_file_data handle fd s)
    else if not done
    then (none, set_file_data handle loaded s)
    else (some handle, set_file_data handle (record loaded { opened = true }) s)

-- The result is a handle for the file, or null.
unfoldable pub open_entry : BlockDevice → (entry : List ℕ) → Fat → Option ℕ × Fat
unfolding open_at
open_entry disk entry s = elim (first_free max_file_handles 0 s.opened_files) [
  | none ↦ (none, s)
  | some handle ↦ open_at disk handle entry s
]
