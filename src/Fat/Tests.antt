-- ===== src/Fat/Tests.antt =====
-- The FAT driver's theorems at a concrete table and concrete names.
use aidos.Common.{
  zero, suc, ◌-◌, ◌/◌, ℕ, ◌+◌, ◌*◌, ◌%◌, ◌≡◌, ◌≢◌, ◌<◌, refl, ap, arith, true, false, inl, inr,
  Option, some, List, [], ◌∷◌, ◌++◌, replicate, ltb, ◌==◌, if◌then◌else◌,
}
use aidos.Mem.{Memory}
use aidos.Elf.Segment
use aidos.Elf.Volume.{volume_files, IsOpenOn, volume_files-IsFile}
use aidos.Fat.{BlockDevice, FileData, Fat, reserved_sector_count}
use aidos.Fat.Cluster.{fill_cache, next_cluster}
use aidos.Fat.Cluster.Laws.{
  fat12_entry, widened, Serves, IsCached, next_cluster-fat12_entry, next_cluster_over,
}
use aidos.Fat.Mount.{is_fat12, detect, set_root, initialize, detect_and_mount}
use aidos.Fat.Mount.Laws.{Mounts, initialize-Mounts}
use aidos.Fat.Entry.{open_at, open_entry}
use aidos.Fat.Entry.Laws.{Opens, open_entry-Opens}
use aidos.Fat.Open.{next_component}
use aidos.Fat.Read.{min, read, seek}
use aidos.Fat.Read.Seek.{Seeks, seek-Seeks}
use aidos.Fat.Read.Volume.{Volume, IsVolume, IsFile, Stands}
use aidos.Fat.Read.Laws.{Reads, read-Reads}
use aidos.Fat.Name.{dot, fat_name}
use aidos.Fat.Name.Laws.{padded, fat_name-dotted}

-- A table in the sectors from 0 on.
abbrev table : Memory
table a = if ltb a 6 then 0x34 else 0x12

abbrev disk : BlockDevice
disk = record { read_sectors = λ lba count buffer. (true, λ a. table (lba * 512 + a)) }

abbrev no_file : FileData
no_file = record {
  buffer = λ a. 0;
  public = record { handle = 0; is_directory = false; size = 0; position = 0 };
  opened = false;
  first_cluster = 0;
  current_cluster = 0;
  current_sector_in_cluster = 0;
}

abbrev mounted : Fat
mounted = record {
  boot_sector = λ a. 0;
  root_directory = no_file;
  opened_files = λ i. no_file;
  fat_cache = λ a. 0;
  fat_cache_position = 0xFFFF_FFFF;
  data_section_lba = 0;
  total_sectors = 0;
  sectors_per_fat = 0;
}

at_zero : (i a : ℕ) → (0 + i) * 512 + a ≡ i * 512 + a
at_zero i a = omega arith

serves : Serves disk (reserved_sector_count mounted.boot_sector) table
serves = record { bytes = λ a. ground arith; reads = λ i a buffer h k. ap table (at_zero i a) }

cached : IsCached table mounted
cached = record { position = inl refl; holds = λ a h. omega (arith, h) }

entries : ((next_cluster disk 2 mounted).0 ≡ 0x434) × ((next_cluster disk 5 mounted).0 ≡ 0x121)
unfolding next_cluster fill_cache
entries = (refl, refl)

not_over : (fill_cache disk 0 mounted).fat_cache_position * 512 + 2559 ≢ 4
unfolding fill_cache
not_over e = omega (arith, e)

next_cluster-fat12_entry_example :
    ((next_cluster disk 3 mounted).0 ≡ widened (fat12_entry table 3))
    × IsCached table (next_cluster disk 3 mounted).1
next_cluster-fat12_entry_example =
    next_cluster-fat12_entry disk table mounted serves cached (omega arith) 3 (omega arith) not_over

-- Entry 1706 begins in the last byte that the first five sectors of the table hold.
abbrev first_sectors : Fat
first_sectors = record mounted { fat_cache = table; fat_cache_position = 0 }

from_zero : (a : ℕ) → a ≡ 0 * 512 + a
from_zero a = omega arith

first_sectors-IsCached : IsCached table first_sectors
first_sectors-IsCached = record {
  position = inr (omega arith);
  holds = λ a h k. ap table (from_zero a);
}

reaches_over : (fill_cache disk 4 first_sectors).fat_cache_position * 512 + 2559 ≡ 2559
unfolding fill_cache
reaches_over = refl

next_cluster_over_example :
    (next_cluster disk 1706 first_sectors).0 ≡ widened ((table 2559 + 256 * 0) % 4096)
unfolding fill_cache
next_cluster_over_example =
    next_cluster_over disk table first_sectors serves first_sectors-IsCached (omega arith) 1706
      (omega arith) reaches_over

fat_name-dotted_example :
    fat_name (107 ∷ 101 ∷ dot ∷ 101 ∷ 108 ∷ 102 ∷ [])
    ≡ padded 8 (107 ∷ 101 ∷ []) ++ padded 3 (101 ∷ 108 ∷ 102 ∷ [])
fat_name-dotted_example =
    fat_name-dotted (107 ∷ 101 ∷ []) (101 ∷ 108 ∷ 102 ∷ []) (omega arith) (omega arith)
      (omega arith) (omega arith) (omega arith)

-- The boot sector of a floppy disk of 2880 sectors, the same in each sector of its disk.
abbrev floppy : Memory
floppy a =
    if a == 0x0C
    then 2
    else if a == 0x0D
    then 1
    else if a == 0x0E
    then 1
    else if a == 0x10
    then 2
    else if a == 0x11
    then 224
    else if a == 0x13
    then 0x40
    else if a == 0x14
    then 0x0B
    else if a == 0x16
    then 9
    else if a == 510
    then 0x55
    else if a == 511
    then 0xAA
    else 0

abbrev floppy_disk : BlockDevice
floppy_disk = record { read_sectors = λ lba count buffer. (true, floppy) }

floppy-bytes : (a : ℕ) → floppy a < 256
floppy-bytes a = ground arith

detected : detect floppy_disk (λ a. 0) ≡ true
unfolding detect is_fat12
detected = refl

abbrev data_start : Option (Option Fat) → ℕ
data_start (some (some s)) = s.data_section_lba
data_start _ = 0

mounted_at : data_start (detect_and_mount floppy_disk (λ a. 0) mounted) ≡ 33
unfolding detect_and_mount detect is_fat12 initialize set_root
mounted_at = refl

initialize-Mounts_example : Mounts floppy_disk mounted floppy (initialize floppy_disk mounted)
initialize-Mounts_example = initialize-Mounts floppy_disk mounted floppy-bytes

-- The entry of a file of 5 bytes in cluster 2.
abbrev two_entry : List ℕ
two_entry = replicate 11 65 ++ 0x20 ∷ replicate 14 0 ++ 2 ∷ 0 ∷ 5 ∷ 0 ∷ 0 ∷ 0 ∷ []

opened_first : (open_entry floppy_disk two_entry mounted).0 ≡ some 0
unfolding open_entry open_at
opened_first = refl

open_entry-Opens_example :
    Opens floppy_disk two_entry mounted (open_entry floppy_disk two_entry mounted)
open_entry-Opens_example = open_entry-Opens floppy_disk two_entry mounted

-- "boot/k" is split at the first slash.
components :
    (next_component (98 ∷ 111 ∷ 47 ∷ 107 ∷ []) ≡ (98 ∷ 111 ∷ [], false, 107 ∷ []))
    × (next_component (107 ∷ []) ≡ (107 ∷ [], true, []))
unfolding next_component
components = (refl, refl)

-- A volume with one sector to a cluster, and a file of 600 bytes in the clusters 2 and 0x434.
abbrev volume : Volume
volume = record { disk = disk; table = table; image = table; reserved = 0; spc = 1; start = 33 }

volume-IsVolume : IsVolume volume
volume-IsVolume = record {
  serves = serves;
  holds = record { succeeds = λ lba buffer. refl; gives = λ lba buffer a h. refl };
  few = omega arith;
  pos = omega arith;
  byte = omega arith;
  low = omega arith;
}

abbrev file_clusters : ℕ → ℕ
file_clusters n = if n == 0 then 2 else 0x434

file_linked :
    (n : ℕ) → (n + 1) * 1 * 512 < 600 → fat12_entry table (file_clusters n) ≡ file_clusters (n + 1)
file_linked zero h = refl
file_linked (suc n) h = absurd (omega (arith, h))

second_cluster : (n : ℕ) → file_clusters (suc n) ≡ 0x434
second_cluster n = ground arith

clusters_whole : (n : ℕ) → file_clusters n * 3 / 2 % 512 ≢ 511
clusters_whole zero e = omega (arith, e)
clusters_whole (suc n) e = omega (arith, e, second_cluster n)

file-IsFile : IsFile volume file_clusters 600 (λ p. 0x12)
file-IsFile = record {
  small = omega arith;
  low = λ n h. ground arith;
  high = λ n h. ground arith;
  whole = λ n h. clusters_whole n;
  linked = file_linked;
  bytes = λ n j a h k q. ground arith;
}

abbrev reading : Fat
reading = record mounted {
  boot_sector = λ a. if a == 0x0D then 1 else 0;
  data_section_lba = 33;
  opened_files = λ i. record no_file {
    buffer = λ a. 0x12;
    public = record { handle = 0; is_directory = false; size = 600; position = 500 };
    opened = true;
    first_cluster = 2;
    current_cluster = 2;
  };
}

reading-Stands : Stands volume file_clusters 600 0 500 reading
reading-Stands = record {
  n = 0;
  j = 0;
  on = record {
    reserved = refl;
    spc = refl;
    start = refl;
    cached = record { position = inl refl; holds = λ a h. omega (arith, h) };
  };
  at = record {
    opened = refl;
    plain = refl;
    bytes = refl;
    position = refl;
    cluster = refl;
    sector = refl;
    place = refl;
    inside = omega arith;
    within = omega arith;
    buffer = λ a h. ground arith;
  };
}

read-Reads_example :
    Reads volume volume-IsVolume file_clusters 600
      (λ p. 0x12)
      file-IsFile
      0
      500
      (min 60 (600 - 500))
      (read disk 0 60 reading)
read-Reads_example =
    read-Reads volume volume-IsVolume file_clusters 600 (λ p. 0x12) file-IsFile 0 500 60 reading
      reading-Stands

seek-Seeks_example :
    Seeks volume volume-IsVolume file_clusters 600
      (λ p. 0x12)
      file-IsFile
      0
      550
      (seek disk 0 550 reading)
seek-Seeks_example =
    seek-Seeks volume volume-IsVolume file_clusters 600 (λ p. 0x12) file-IsFile 0 550 reading
      reading-Stands.on (record { opened = refl; plain = refl; bytes = refl; first = refl })
      (omega arith)

volume_files-IsFile_example :
    Segment.IsFile
      (volume_files volume volume-IsVolume file_clusters 600 (λ p. 0x12) file-IsFile 0)
      (IsOpenOn volume volume-IsVolume file_clusters 600 (λ p. 0x12) file-IsFile 0)
      (λ p. 0x12)
      600
volume_files-IsFile_example =
    volume_files-IsFile volume volume-IsVolume file_clusters 600 (λ p. 0x12) file-IsFile 0
