-- ===== src/Elf/Opened/Tests.antt =====
-- A disk with the file of Elf/Tests in its cluster 2, under the name "K".
use aidos.Common.{
  ℕ, ◌+◌, ◌-◌, ◌*◌, ◌<◌, ◌≡◌, refl, arith, ap, inl, sym, ◌∙◌, [], ◌∷◌, true, false, ltb, leb, ◌==◌,
  if◌then◌else◌,
}
use aidos.Mem.{Memory}
use aidos.Str.{strchr, toupper}
use aidos.Fat.{BlockDevice, FileData, Fat}
use aidos.Fat.Name.{fat_name}
use aidos.Fat.Read.Volume
use aidos.Fat.Read.Volume.{Volume, IsVolume, IsOn}
use aidos.Fat.Entry.{is_directory}
use aidos.Fat.Entry.Find.{entry_at}
use aidos.Fat.Open.{slash, open_path}
use aidos.Fat.Open.Rounds.{IsInRoot}
use aidos.Fat.Open.Laws.{IsEntryOf, OpensFile, open_path-OpensFile}
use aidos.Fat.Open.Refused.{not_a_directory}
use aidos.Fat.Open.Recovery.{IsRefused, open_path-IsRefused}
use aidos.Elf.Tests.{content, content-IsTable}
use aidos.Elf.Opened.{LoadsFrom, open_path-LoadsFrom}

-- The content stands in sector 33, and the rest is empty.
abbrev image : Memory
image a = if leb 16896 a then content (a - 16896) else 0

image-bytes : (a : ℕ) → image a < 256
image-bytes a = ground arith

abbrev kernel_disk : BlockDevice
kernel_disk = record { read_sectors = λ lba count buffer. (true, λ a. image (lba * 512 + a)) }

abbrev kernel_volume : Volume
kernel_volume = record {
  disk = kernel_disk;
  table = image;
  image = image;
  reserved = 0;
  spc = 1;
  start = 33;
}

at_zero : (i a : ℕ) → (0 + i) * 512 + a ≡ i * 512 + a
at_zero i a = omega arith

-- The content in its sector.
image-content : (a : ℕ) → image (16896 + a) ≡ content a
image-content a =
    let behind : leb 16896 (16896 + a) ≡ true = ground arith in
    let back : 16896 + a - 16896 ≡ a = omega arith in rw behind (ap content back)

kernel_volume-IsVolume : IsVolume kernel_volume
kernel_volume-IsVolume = record {
  serves = record { bytes = image-bytes; reads = λ i a buffer h k. ap image (at_zero i a) };
  holds = record { succeeds = λ lba buffer. refl; gives = λ lba buffer a h. refl };
  few = omega arith;
  pos = omega arith;
  byte = omega arith;
  low = omega arith;
}

kernel-IsFile : Volume.IsFile kernel_volume (λ n. 2) 125 content
kernel-IsFile = record {
  small = omega arith;
  low = λ n h. omega arith;
  high = λ n h. omega arith;
  whole = λ n h e. omega (arith, e);
  linked = λ n h. absurd (omega (arith, h));
  bytes = λ n j a h k q.
      let here : (n * 1 + j) * 512 + a ≡ a = omega (arith, h, q) in
      let there : (33 + j) * 512 + a ≡ 16896 + a = omega (arith, h) in
      ap content here ∙ sym (ap image there ∙ image-content a);
}

-- The entry "K", of 125 bytes in cluster 2.
abbrev directory : Memory
directory a =
    if a == 0
    then 75
    else if ltb a 11
    then 32
    else if a == 26
    then 2
    else if a == 28
    then 125
    else 0

abbrev closed_file : FileData
closed_file = record {
  buffer = λ a. 0;
  public = record { handle = 0; is_directory = false; size = 0; position = 0 };
  opened = false;
  first_cluster = 0;
  current_cluster = 0;
  current_sector_in_cluster = 0;
}

abbrev mounted_kernel : Fat
mounted_kernel = record {
  boot_sector = λ a. if a == 0x0D then 1 else 0;
  root_directory = record closed_file {
    buffer = directory;
    public = record { handle = 11; is_directory = true; size = 7168; position = 0 };
    opened = true;
    first_cluster = 19;
    current_cluster = 19;
  };
  opened_files = λ i. closed_file;
  fat_cache = λ a. 0;
  fat_cache_position = 0xFFFF_FFFF;
  data_section_lba = 33;
  total_sectors = 2880;
  sectors_per_fat = 9;
}

kernel-IsOn : IsOn kernel_volume mounted_kernel
kernel-IsOn = record {
  reserved = refl;
  spc = refl;
  start = refl;
  cached = record { position = inl refl; holds = λ a h. omega (arith, h) };
}

kernel-IsInRoot : IsInRoot (107 ∷ []) 0 mounted_kernel
unfolding fat_name strchr toupper entry_at
kernel-IsInRoot = record {
  listed = record {
    inside = omega arith;
    present = λ j le. ground arith;
    others = λ j lt. absurd (omega (arith, lt));
    named = refl;
  };
  opened = refl;
  kind = refl;
  position = refl;
  fits = omega arith;
  small = omega arith;
}

kernel-IsEntryOf :
    IsEntryOf kernel_volume kernel_volume-IsVolume
      (λ n. 2)
      125
      content
      kernel-IsFile
      (entry_at directory 0)
unfolding entry_at
kernel-IsEntryOf = record { plain = refl; bytes = refl; first = refl }

open_path-OpensFile_example :
    OpensFile kernel_volume kernel_volume-IsVolume
      (λ n. 2)
      125
      content
      kernel-IsFile
      (open_path kernel_disk 20 (slash ∷ 107 ∷ []) mounted_kernel)
open_path-OpensFile_example =
    open_path-OpensFile kernel_volume kernel_volume-IsVolume (λ n. 2) 125 content kernel-IsFile 20 0
      107 [] mounted_kernel 0 kernel-IsOn kernel-IsInRoot kernel-IsEntryOf (omega arith)
      (λ e. omega (arith, e), tt) (λ e. omega (arith, e), tt) (omega arith) (omega arith)
      (omega arith) refl

kernel_as_directory : is_directory (entry_at directory 0) ≡ false
unfolding entry_at
kernel_as_directory = refl

-- "/k/x", where "K" is a file.
open_path-IsRefused_example :
    IsRefused mounted_kernel
      (open_path kernel_disk 20 (slash ∷ 107 ∷ slash ∷ 120 ∷ []) mounted_kernel)
open_path-IsRefused_example =
    open_path-IsRefused kernel_disk 20 0 107 [] (slash ∷ 120 ∷ []) mounted_kernel
      (λ e. omega (arith, e), tt) (λ e. omega (arith, e), tt) (omega arith) (omega arith)
      (not_a_directory (120 ∷ []) refl kernel-IsInRoot kernel_as_directory)

open_path-LoadsFrom_example :
    LoadsFrom kernel_volume kernel_volume-IsVolume
      (λ n. 2)
      125
      content
      kernel-IsFile
      (λ a. 0)
      0x10_0000
      (λ a. 0xCC)
      []
      (open_path kernel_disk 20 (slash ∷ 107 ∷ []) mounted_kernel)
open_path-LoadsFrom_example =
    open_path-LoadsFrom kernel_volume kernel_volume-IsVolume (λ n. 2) 125 content kernel-IsFile
      (λ a. 0) 0x10_0000 (λ a. 0xCC) [] 20 0 107 [] mounted_kernel 0 kernel-IsOn kernel-IsInRoot
      kernel-IsEntryOf (omega arith) (λ good. content-IsTable) (λ e. omega (arith, e), tt)
      (λ e. omega (arith, e), tt) (omega arith) (omega arith) (omega arith) refl
