-- ===== src/Fat/Read/Volume.antt =====
-- A mounted volume, a file on it, and where a handle stands in the file. The content of a file goes
-- along its chain of clusters.
use aidos.Common.{
  ℕ, zero, suc, ◌+◌, ◌-◌, ◌*◌, ◌/◌, ◌%◌, ◌^◌, ◌≤◌, ◌<◌, ◌≡◌, ◌≢◌, inl, inr, refl, sym, ap, ◌∙◌,
  arith, true, false, List, [], ◌∷◌, ◌++◌, ◌==◌, Bool-cases,
}
use aidos.Mem.{Memory}
use aidos.Fat.{
  BlockDevice, FileData, Fat, file_data, set_file_data, sectors_per_cluster, reserved_sector_count,
  root_directory_handle,
}
use aidos.Fat.Cluster.Laws.{fat12_entry, Serves, IsCached}
use aidos.Fat.Read.{slice}

-- A read of one sector succeeds and gives its bytes.
pub record Holds (disk : BlockDevice) (image : Memory) : Type 0 where
  pub succeeds : (lba : ℕ) (buffer : Memory) → (disk.read_sectors lba 1 buffer).0 ≡ true
  pub gives :
      (lba : ℕ) (buffer : Memory) (a : ℕ)
      → a < 512
      → (disk.read_sectors lba 1 buffer).1 a ≡ image (lba * 512 + a)

-- A mounted disk: the layout, of which `start` is the first sector of cluster 2, and its table.
pub record Volume : Type 0 where
  pub disk : BlockDevice
  pub table : Memory
  pub image : Memory
  pub reserved : ℕ
  pub spc : ℕ
  pub start : ℕ

pub record IsVolume (v : Volume) : Type 0 where
  pub serves : Serves v.disk v.reserved v.table
  pub holds : Holds v.disk v.image
  pub few : v.reserved < 2 ^ 16
  pub pos : 0 < v.spc
  pub byte : v.spc < 256
  pub low : v.start < 2 ^ 31

-- The driver's state is that of the volume, with a right cache.
pub record IsOn (v : Volume) (s : Fat) : Type 0 where
  pub reserved : reserved_sector_count s.boot_sector ≡ v.reserved
  pub spc : sectors_per_cluster s.boot_sector ≡ v.spc
  pub start : s.data_section_lba ≡ v.start
  pub cached : IsCached v.table s

abbrev pub lba_of : Volume → (cluster : ℕ) → ℕ
lba_of v cluster = v.start + (cluster - 2) * v.spc

-- A file of `size` bytes with the content given, in the clusters `clusters 0`, `clusters 1`, ...,
-- which the table links. No entry of theirs reaches over the end of a sector.
pub record IsFile (v : Volume) (clusters : ℕ → ℕ) (size : ℕ) (content : ℕ → ℕ) : Type 0 where
  pub small : size < 2 ^ 32
  pub low : (n : ℕ) → n * v.spc * 512 < size → 2 ≤ clusters n
  pub high : (n : ℕ) → n * v.spc * 512 < size → clusters n < 0xFF8
  pub whole : (n : ℕ) → n * v.spc * 512 < size → clusters n * 3 / 2 % 512 ≢ 511
  pub linked :
      (n : ℕ) → (n + 1) * v.spc * 512 < size → fat12_entry v.table (clusters n) ≡ clusters (n + 1)
  pub bytes :
      (n j a : ℕ)
      → j < v.spc
      → a < 512
      → n * v.spc * 512 < size
      → content ((n * v.spc + j) * 512 + a) ≡ v.image ((lba_of v (clusters n) + j) * 512 + a)

-- The handle stands at position `p` of the file, in its cluster `n` and the sector `j` of it, and the
-- buffer holds that sector.
pub record IsAt (v : Volume) (clusters : ℕ → ℕ) (size p n j : ℕ) (fd : FileData) : Type 0 where
  pub opened : fd.opened ≡ true
  pub plain : fd.public.is_directory ≡ false
  pub bytes : fd.public.size ≡ size
  pub position : fd.public.position ≡ p
  pub cluster : fd.current_cluster ≡ clusters n
  pub sector : fd.current_sector_in_cluster ≡ j
  pub place : p / 512 ≡ n * v.spc + j
  pub inside : j < v.spc
  pub within : p < size
  pub buffer : (a : ℕ) → a < 512 → fd.buffer a ≡ v.image ((lba_of v (clusters n) + j) * 512 + a)

-- The handle is at the end of sector `j` of cluster `n`, and the file goes on.
pub record IsLeaving (v : Volume) (clusters : ℕ → ℕ) (size p n j : ℕ) (fd : FileData) : Type 0 where
  pub opened : fd.opened ≡ true
  pub plain : fd.public.is_directory ≡ false
  pub bytes : fd.public.size ≡ size
  pub position : fd.public.position ≡ p
  pub cluster : fd.current_cluster ≡ clusters n
  pub sector : fd.current_sector_in_cluster ≡ j
  pub place : p ≡ (n * v.spc + j + 1) * 512
  pub inside : j < v.spc
  pub within : p < size

-- The state behind a round that goes on at position `p`.
pub record Stands (v : Volume) (clusters : ℕ → ℕ) (size handle p : ℕ) (s : Fat) : Type 0 where
  pub n : ℕ
  pub j : ℕ
  pub on : IsOn v s
  pub at : IsAt v clusters size p n j (file_data handle s)

-- The bytes of the file from `p` on.
abbrev pub content_at : (content : ℕ → ℕ) → (p count : ℕ) → List ℕ
content_at content p zero = []
content_at content p (suc count) = content p ∷ content_at content (p + 1) count

pub file_data-set :
    (handle : ℕ) (fd : FileData) (s : Fat) → file_data handle (set_file_data handle fd s) ≡ fd
file_data-set handle fd s = elim (Bool-cases (handle == root_directory_handle)) [
  | inl root ↦ rw root refl
  | inr other ↦ let same : (handle == handle) ≡ true = ground arith in rw (other, same) refl
]

pub set_file_data-IsOn :
    (v : Volume) (handle : ℕ) (fd : FileData) (s : Fat)
    → IsOn v s
    → IsOn v (set_file_data handle fd s)
set_file_data-IsOn v handle fd s on = elim (Bool-cases (handle == root_directory_handle)) [
  | inl root ↦ rw root (record {
    reserved = on.reserved;
    spc = on.spc;
    start = on.start;
    cached = record { position = on.cached.position; holds = on.cached.holds };
  })
  | inr other ↦ rw other (record {
    reserved = on.reserved;
    spc = on.spc;
    start = on.start;
    cached = record { position = on.cached.position; holds = on.cached.holds };
  })
]

pub zero_behind : (p : ℕ) → p ≡ p + 0
zero_behind p = omega arith

zero_before : (p : ℕ) → 0 + p ≡ p
zero_before p = omega arith

one_behind : (p i : ℕ) → p + 1 + i ≡ p + (i + 1)
one_behind p i = omega arith

pub slice-content :
    (m content : ℕ → ℕ) (count start p : ℕ)
    → ((i : ℕ) → i < count → m (start + i) ≡ content (p + i))
    → slice m start count ≡ content_at content p count
slice-content m content zero start p h = refl
slice-content m content (suc count) start p h =
    let head : m start ≡ content p =
      ap m (zero_behind start) ∙ h 0 (omega arith) ∙ ap content (sym (zero_behind p)) in
    let rest : slice m (start + 1) count ≡ content_at content (p + 1) count =
      slice-content m content count (start + 1) (p + 1) (λ i q.
        ap m (one_behind start i) ∙ h (i + 1) (omega arith) ∙ ap content (sym (one_behind p i))) in
    rw (head, rest) refl

pub content_at-append :
    (content : ℕ → ℕ) (a b p : ℕ)
    → content_at content p a ++ content_at content (p + a) b ≡ content_at content p (a + b)
content_at-append content zero b p = rw (← zero_behind p, zero_before b) refl
content_at-append content (suc a) b p =
    let e : p + suc a ≡ p + 1 + a = omega arith in
    let f : suc a + b ≡ suc (a + b) = omega arith in
    let rest = content_at-append content a b (p + 1) in rw (e, f, rest) refl
