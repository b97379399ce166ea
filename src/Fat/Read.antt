-- ===== src/Fat/Read.antt =====
-- fat12.cpp: `read`, `ReadEntry`, `seek` and `close`. A `File*` that is not null is given by its
-- handle, through which each of these functions goes. What `read` stores at `dataOut` is its result.
pub mod Volume
pub mod Sector
pub mod Seek
pub mod Kept
pub mod Laws
use aidos.Common.{
  ℕ, zero, suc, ◌+◌, ◌-◌, ◌*◌, ◌/◌, ◌%◌, Bool, true, false, not, ◌&&◌, ◌||◌, Option, none, some,
  List, [], ◌∷◌, ◌++◌, length, ltb, leb, ◌==◌, if◌then◌else◌, u32, sub32, get_or,
}
use aidos.Mem.{Memory}
use aidos.Fat.{
  BlockDevice, File, FileData, Fat, file_data, set_file_data, sectors_per_cluster, sector_size,
  root_directory_handle,
}
use aidos.Fat.Cluster.{next_cluster, cluster_to_lba}

-- minmax.hpp
unfoldable pub min : ℕ → ℕ → ℕ
min a b = if ltb a b then a else b

unfoldable pub max : ℕ → ℕ → ℕ
max a b = if ltb b a then a else b

-- The `n` bytes of a buffer from `start` on, which `memcpy` hands over.
abbrev pub slice : Memory → (start n : ℕ) → List ℕ
slice m start zero = []
slice m start (suc n) = m start ∷ slice m (start + 1) n

-- The next cluster and the next sector in it, once the sector in the buffer is used up.
unfoldable pub next_place : BlockDevice → FileData → Fat → ℕ × ℕ × Fat
next_place disk fd s =
    let sector = u32 (fd.current_sector_in_cluster + 1) in
    let next = next_cluster disk fd.current_cluster s in
    if leb (sectors_per_cluster s.boot_sector) sector
    then (next.0, 0, next.1)
    else (fd.current_cluster, sector, s)

-- The end of a round of `read`; `false` is a `break`. At the end of the chain the size is cut to the
-- position.
unfoldable pub next_sector : BlockDevice → (handle : ℕ) → Fat → Bool × Fat
unfolding next_place
next_sector disk handle s =
    let fd = file_data handle s in
    let (cluster, sector, s1) = next_place disk fd s in
    let moved = record fd { current_cluster = cluster; current_sector_in_cluster = sector } in
    let (done, buffer) = disk.read_sectors (u32 (cluster_to_lba cluster s1 + sector)) 1 fd.buffer in
    if leb 0xFFFF_FFF8 cluster
    then (
      false,
      set_file_data handle
          (record moved { public = record fd.public { size = fd.public.position } }) s1,
    )
    else (done, set_file_data handle (record moved { buffer = buffer }) s1)

-- The position goes up by what was taken.
abbrev pub advance : (handle take : ℕ) → Fat → Fat
advance handle take s =
    let fd = file_data handle s in
    set_file_data handle
      (record fd { public = record fd.public { position = u32 (fd.public.position + take) } }) s

-- The loop of `read`. A round takes at least one byte, so `byte_count` rounds are enough.
unfoldable pub read_loop : BlockDevice → (handle rounds byte_count : ℕ) → Fat → List ℕ × Fat
read_loop disk handle zero byte_count s = ([], s)
read_loop disk handle (suc rounds) byte_count s =
    let fd = file_data handle s in
    let start = fd.public.position % sector_size in
    let left_in_buffer = sector_size - start in
    let take = min byte_count left_in_buffer in
    let bytes = slice fd.buffer start take in
    let s1 = advance handle take s in
    let (more, s2) = next_sector disk handle s1 in
    let over = read_loop disk handle rounds (byte_count - take) s2 in
    let same = read_loop disk handle rounds (byte_count - take) s1 in
    if byte_count == 0
    then ([], s)
    else if left_in_buffer == take
    then (if more then (bytes ++ over.0, over.1) else (bytes, s2))
    else (bytes ++ same.0, same.1)

-- Reads end at the file's end, but for a directory of size 0.
abbrev pub limited : File → (byte_count : ℕ) → ℕ
limited file byte_count =
    if not file.is_directory || (file.is_directory && not (file.size == 0))
    then min byte_count (sub32 file.size file.position)
    else byte_count

unfoldable pub read : BlockDevice → (handle byte_count : ℕ) → Fat → List ℕ × Fat
unfolding read_loop min
read disk handle byte_count s =
    let fd = file_data handle s in
    let count = limited fd.public byte_count in
    let out = read_loop disk handle count count s in if not fd.opened then ([], s) else out

-- `sizeof(FAT_DirectoryEntry)`
abbrev pub directory_entry_size : ℕ
directory_entry_size = 32

-- The bytes of the entry, and whether it is one.
unfoldable pub read_entry : BlockDevice → (handle : ℕ) → Fat → Bool × List ℕ × Fat
read_entry disk handle s =
    let (bytes, s') = read disk handle directory_entry_size s in
    (length bytes == directory_entry_size && not (get_or bytes 0 0 == 0), bytes, s')

unfoldable pub close : (handle : ℕ) → Fat → Fat
close handle s =
    if handle == root_directory_handle
    then (let fd = s.root_directory in
        record s {
          root_directory = record fd {
            public = record fd.public { position = 0 };
            current_cluster = fd.first_cluster;
          };
        })
    else set_file_data handle (record (s.opened_files handle) { opened = false }) s

-- The walk along the chain in `seek`; `none` is the end of the chain, and `rounds` bounds the loop.
unfoldable pub seek_loop : BlockDevice → (rounds cluster offset : ℕ) → Fat → Option (ℕ × ℕ) × Fat
seek_loop disk zero cluster offset s = (none, s)
seek_loop disk (suc rounds) cluster offset s =
    let cluster_size = sectors_per_cluster s.boot_sector * sector_size in
    let (next, s1) = next_cluster disk cluster s in
    let rest = seek_loop disk rounds next (offset - cluster_size) s1 in
    if ltb offset cluster_size
    then (some (cluster, offset), s)
    else if leb 0xFFFF_FFF8 next
    then (none, s1)
    else rest

-- The end of `seek`, once the cluster and the offset in it are known.
unfoldable pub load_at : BlockDevice → (handle cluster offset : ℕ) → Fat → Bool × Fat
load_at disk handle cluster offset s =
    let fd = file_data handle s in
    let sector = offset / sector_size in
    let (done, buffer) = disk.read_sectors (u32 (cluster_to_lba cluster s + sector)) 1 fd.buffer in
    (
      done,
      set_file_data handle
          (record fd {
            current_cluster = cluster;
            current_sector_in_cluster = sector;
            buffer = buffer;
          })
          s,
    )

-- A round goes over a cluster, of at least one byte, so `position + 1` rounds are enough where a
-- cluster has a sector.
unfoldable pub seek : BlockDevice → (handle position : ℕ) → Fat → Bool × Fat
unfolding seek_loop load_at
seek disk handle position s =
    let fd = file_data handle s in
    let s1 =
      set_file_data handle (record fd { public = record fd.public { position = position } }) s in
    let (found, s2) = seek_loop disk (position + 1) fd.first_cluster position s1 in
    if not fd.public.is_directory && ltb fd.public.size position
    then (false, s)
    else if not fd.opened
    then (false, s)
    else elim found [
      | none ↦ (false, s2)
      | some (cluster, offset) ↦ load_at disk handle cluster offset s2
    ]
