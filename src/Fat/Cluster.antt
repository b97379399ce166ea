-- ===== src/Fat/Cluster.antt =====
-- fat12.cpp: `NextCluster`, `ReadFat` and `clusterToLba`.
pub mod Laws
use aidos.Common.{
  ℕ, ◌+◌, ◌-◌, ◌*◌, ◌/◌, ◌%◌, Bool, ◌||◌, ltb, leb, ◌==◌, if◌then◌else◌, u8, u32, sub32, ◌>>>◌,
  bit_and, bit_or,
}
use aidos.Mem.{Memory}
use aidos.Fat.{
  BlockDevice, Fat, le16, reserved_sector_count, sectors_per_cluster, sector_size, fat_cache_size,
}

unfoldable pub cluster_to_lba : (cluster : ℕ) → Fat → ℕ
cluster_to_lba cluster s =
    u32 (s.data_section_lba + u32 (sub32 cluster 2 * sectors_per_cluster s.boot_sector))

unfoldable pub read_fat : BlockDevice → (lba_index : ℕ) → Fat → Bool × Fat
read_fat disk lba_index s =
    let (done, cache) =
      disk.read_sectors (u32 (reserved_sector_count s.boot_sector + lba_index)) fat_cache_size
        s.fat_cache in
    (done, record s { fat_cache = cache })

-- The bytes from `_data.FatCache` on. Behind the 2560 bytes of the array stands the little-endian
-- `FatCachePosition`.
abbrev pub cache_byte : Fat → ℕ → ℕ
cache_byte s i =
    if ltb i 2560 then s.fat_cache i else u8 (s.fat_cache_position >>> (8 * (i - 2560)))

abbrev pub cache_word : Fat → ℕ → ℕ
cache_word s i = le16 (cache_byte s) i

-- Whether the cache lacks a sector of the FAT. The sum wraps, as `FatCachePosition` starts at
-- 0xFFFFFFFF.
abbrev pub is_miss : (fat_index_sector : ℕ) → Fat → Bool
is_miss sector s =
    ltb sector s.fat_cache_position || leb (u32 (s.fat_cache_position + fat_cache_size)) sector

-- The result of `ReadFat` is not looked at.
unfoldable pub fill_cache : BlockDevice → (fat_index_sector : ℕ) → Fat → Fat
unfolding read_fat
fill_cache disk sector s =
    if is_miss sector s
    then (let (_, s1) = read_fat disk sector s in record s1 { fat_cache_position = sector })
    else s

unfoldable pub next_cluster : BlockDevice → (current_cluster : ℕ) → Fat → ℕ × Fat
next_cluster disk current_cluster s =
    let fat_index = u32 (current_cluster * 3) / 2 in
    let s1 = fill_cache disk (fat_index / sector_size) s in
    let offset = sub32 fat_index (u32 (s1.fat_cache_position * sector_size)) in
    let next =
      if current_cluster % 2 == 0
      then bit_and (cache_word s1 offset) 0x0FFF
      else cache_word s1 offset >>> 4 in
    (if leb 0xFF8 next then bit_or next 0xFFFF_F000 else next, s1)
