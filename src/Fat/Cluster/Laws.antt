-- ===== src/Fat/Cluster/Laws.antt =====
-- `NextCluster` against the table on the disk.
use aidos.Common.{
  ℕ, ◌+◌, ◌-◌, ◌*◌, ◌/◌, ◌%◌, ◌^◌, ◌≤◌, ◌<◌, ◌≡◌, ◌≢◌, ◌⊎◌, inl, inr, refl, arith, true, ltb, leb,
  ◌==◌, if◌then◌else◌, u8, u32, sub32, ◌>>>◌, bit_or, Bool-cases, ==_iff, ap,
}
use aidos.Common.Bits.{bit_and_mask}
use aidos.Common.Table.{all_below, all_below_sound}
use aidos.Mem.{Memory}
use aidos.Fat.{BlockDevice, Fat, reserved_sector_count, fat_cache_size}
use aidos.Fat.Cluster.{cache_word, is_miss, fill_cache, next_cluster}

-- Entry `c` of a FAT12 table, as the format packs it: twelve bits, two entries to three bytes.
abbrev pub fat12_entry : Memory → ℕ → ℕ
fat12_entry table c =
    let i = c * 3 / 2 in
    if c % 2 == 0 then table i + 256 * (table (i + 1) % 16) else table i / 16 + 16 * table (i + 1)

-- What the driver makes of an entry: the marks of a chain's end are spread to 32 bits.
abbrev pub widened : ℕ → ℕ
widened e = if leb 0xFF8 e then e + 0xFFFF_F000 else e

-- The table consists of bytes, and a read of `FAT_CACHE_SIZE` sectors from its sector `i` gives them.
-- Entries below 0xFF8 lie in the first twelve sectors.
pub record Serves (disk : BlockDevice) (reserved : ℕ) (table : Memory) : Type 0 where
  pub bytes : (a : ℕ) → table a < 256
  pub reads :
      (i a : ℕ) (buffer : Memory)
      → i < 12
      → a < 2560
      → (disk.read_sectors (reserved + i) fat_cache_size buffer).1 a ≡ table (i * 512 + a)

-- The cache is empty, or holds five sectors of the table.
pub record IsCached (table : Memory) (s : Fat) : Type 0 where
  pub position : (s.fat_cache_position ≡ 0xFFFF_FFFF) ⊎ (s.fat_cache_position < 12)
  pub holds :
      (a : ℕ)
      → s.fat_cache_position < 12
      → a < 2560
      → s.fat_cache a ≡ table (s.fat_cache_position * 512 + a)

spread_table :
    all_below 4096 (λ n. (if leb 0xFF8 n then bit_or n 0xFFFF_F000 else n) == widened n) ≡ true
unfolding all_below
spread_table = refl

-- The last test of `NextCluster`.
spread_lem : (n : ℕ) → n < 4096 → (if leb 0xFF8 n then bit_or n 0xFFFF_F000 else n) ≡ widened n
spread_lem n h = (==_iff _ _).0 (all_below_sound 4096 _ n spread_table h)

module _ (disk : BlockDevice) (table : Memory) (s : Fat)
    (serves : Serves disk (reserved_sector_count s.boot_sector) table) (cached : IsCached table s)
    (few : reserved_sector_count s.boot_sector < 2 ^ 16) where
  -- The cache is filled from the sector asked for, or has it.
  pub record IsFilled (sector : ℕ) (s' : Fat) : Type 0 where
    pub still : IsCached table s'
    pub low : s'.fat_cache_position ≤ sector
    pub high : sector < s'.fat_cache_position + 5
    pub real : s'.fat_cache_position < 12
    pub same_boot : s'.boot_sector ≡ s.boot_sector

  fill_cache-IsFilled : (sector : ℕ) → sector < 12 → IsFilled sector (fill_cache disk sector s)
  unfolding fill_cache
  fill_cache-IsFilled sector h = elim (Bool-cases (is_miss sector s)) [
    | inl miss ↦ rw miss (record {
      still = record {
        position = inr h;
        holds = λ a p q.
            let base : u32 (reserved_sector_count s.boot_sector + sector)
                ≡ reserved_sector_count s.boot_sector + sector =
              omega arith in
            rw base (serves.reads sector a s.fat_cache h q);
      };
      low = omega arith;
      high = omega arith;
      real = h;
      same_boot = refl;
    })
    | inr hit ↦ rw hit (record {
      still = cached;
      low = ground (arith, cached.position);
      high = ground (arith, cached.position);
      real = ground (arith, cached.position);
      same_boot = refl;
    })
  ]

  -- The entry does not reach over the end of the cache that is in use after `fill_cache`.
  abbrev pub IsInside : (c : ℕ) → Type 0
  IsInside c = (fill_cache disk (c * 3 / 2 / 512) s).fat_cache_position * 512 + 2559 ≢ c * 3 / 2

  cache_word_lem :
      (c : ℕ)
      → c < 0xFF8
      → IsInside c
      → let s' = fill_cache disk (c * 3 / 2 / 512) s in
        cache_word s' (sub32 (c * 3 / 2) (u32 (s'.fat_cache_position * 512)))
        ≡ table (c * 3 / 2) + 256 * table (c * 3 / 2 + 1)
  cache_word_lem c h inside =
      let s' = fill_cache disk (c * 3 / 2 / 512) s in
      let filled = fill_cache-IsFilled (c * 3 / 2 / 512) (omega arith) in
      let o = c * 3 / 2 - s'.fat_cache_position * 512 in
      let offset : sub32 (c * 3 / 2) (u32 (s'.fat_cache_position * 512)) ≡ o =
        omega (arith, filled) in
      let at0 : s'.fat_cache_position * 512 + o ≡ c * 3 / 2 = omega (arith, filled) in
      let at1 : s'.fat_cache_position * 512 + (o + 1) ≡ c * 3 / 2 + 1 = omega (arith, filled) in
      let low0 : ltb o 2560 ≡ true = ground (arith, filled) in
      let low1 : ltb (o + 1) 2560 ≡ true = ground (arith, filled) in
      rw offset (
        rw
          (
            low0,
            low1,
            filled.still.holds o filled.real (ground arith),
            filled.still.holds (o + 1) filled.real (ground arith),
            at0,
            at1,
          )
          refl)

  -- Over the end of the cache, the second byte is that of `FatCachePosition`.
  cache_word_over :
      (c : ℕ)
      → c < 0xFF8
      → let s' = fill_cache disk (c * 3 / 2 / 512) s in
        s'.fat_cache_position * 512 + 2559 ≡ c * 3 / 2
        → cache_word s' (sub32 (c * 3 / 2) (u32 (s'.fat_cache_position * 512)))
          ≡ table (c * 3 / 2) + 256 * s'.fat_cache_position
  cache_word_over c h over =
      let s' = fill_cache disk (c * 3 / 2 / 512) s in
      let filled = fill_cache-IsFilled (c * 3 / 2 / 512) (omega arith) in
      let offset : sub32 (c * 3 / 2) (u32 (s'.fat_cache_position * 512)) ≡ 2559 =
        omega (arith, filled) in
      let byte : u8 (s'.fat_cache_position >>> 0) ≡ s'.fat_cache_position = omega (arith, filled) in
      rw offset (rw (filled.still.holds 2559 filled.real (omega arith), byte, over) refl)

  -- The rest of `NextCluster`, for the word that it reads.
  abbrev twelve_bits : (c w : ℕ) → ℕ
  twelve_bits c w = if c % 2 == 0 then w % 4096 else w / 16

  next_cluster_of_word :
      (c w : ℕ)
      → c < 0xFF8
      → w < 0x1_0000
      → let s' = fill_cache disk (c * 3 / 2 / 512) s in
        cache_word s' (sub32 (c * 3 / 2) (u32 (s'.fat_cache_position * 512))) ≡ w
        → next_cluster disk c s ≡ (widened (twelve_bits c w), s')
  unfolding next_cluster
  next_cluster_of_word c w h small e =
      let index : u32 (c * 3) / 2 ≡ c * 3 / 2 = omega arith in
      rw (index, e, bit_and_mask 12 w)
        (ap (λ (n : ℕ). (n, fill_cache disk (c * 3 / 2 / 512) s))
          (spread_lem (twelve_bits c w) (ground arith)))

  -- With a cache that is empty or right, a disk that serves the table and a cluster below 0xFF8,
  -- `NextCluster` gives the twelve-bit entry of the table, an end mark spread to 32 bits, and leaves
  -- the cache right, if the entry does not reach over the end of the five sectors cached.
  pub next_cluster-fat12_entry :
      (c : ℕ)
      → c < 0xFF8
      → IsInside c
      → ((next_cluster disk c s).0 ≡ widened (fat12_entry table c))
        × IsCached table (next_cluster disk c s).1
  next_cluster-fat12_entry c h inside =
      let t0 = serves.bytes (c * 3 / 2) in
      let t1 = serves.bytes (c * 3 / 2 + 1) in
      let result =
        next_cluster_of_word c (table (c * 3 / 2) + 256 * table (c * 3 / 2 + 1)) h
          (omega (arith, t0, t1)) (cache_word_lem c h inside) in
      let bits : twelve_bits c (table (c * 3 / 2) + 256 * table (c * 3 / 2 + 1))
          ≡ fat12_entry table c =
        ground (arith, t0, t1) in
      rw result (ap widened bits, (fill_cache-IsFilled (c * 3 / 2 / 512) (omega arith)).still)

  -- With a cache that is empty or right and a disk that serves the table, an entry below 0xFF8 that
  -- reaches over the end of the cache is read with the number of the first sector cached in the place
  -- of its second byte.
  pub next_cluster_over :
      (c : ℕ)
      → c < 0xFF8
      → let p = (fill_cache disk (c * 3 / 2 / 512) s).fat_cache_position in
        p * 512 + 2559 ≡ c * 3 / 2
        → (next_cluster disk c s).0 ≡ widened (twelve_bits c (table (c * 3 / 2) + 256 * p))
  next_cluster_over c h over =
      let filled = fill_cache-IsFilled (c * 3 / 2 / 512) (omega arith) in
      let s' = fill_cache disk (c * 3 / 2 / 512) s in
      let t0 = serves.bytes (c * 3 / 2) in
      rw
        (next_cluster_of_word c (table (c * 3 / 2) + 256 * s'.fat_cache_position) h
          (omega (arith, filled, t0)) (cache_word_over c h over))
        refl
