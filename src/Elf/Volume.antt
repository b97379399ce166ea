-- ===== src/Elf/Volume.antt =====
-- The file that the loader is given: one of a FAT12 volume, by the functions of Fat.
use aidos.Common.{ℕ, zero, suc, ◌+◌, ◌-◌, ◌<◌, ◌≡◌, ◌∙◌, refl, ap, arith, List, ◌∷◌, Bool}
use aidos.Mem.{Memory}
use aidos.Fat.{Fat, file_data}
use aidos.Fat.Read.{min, slice, read, seek}
use aidos.Fat.Read.Volume
use aidos.Fat.Read.Volume.{Volume, IsVolume, IsOn, Stands, content_at}
use aidos.Fat.Read.Seek.{IsOpenFor, seek-Seeks}
use aidos.Fat.Read.Laws.{read-Reads}
use aidos.Fat.Read.Kept.{read-first, seek-first}
use aidos.Elf.{Files}
use aidos.Elf.Segment.{IsFile}

content_at-slice : (content : Memory) (p n : ℕ) → content_at content p n ≡ slice content p n
content_at-slice content p zero = refl
content_at-slice content p (suc n) =
    ap (λ (l : List ℕ). content p ∷ l) (content_at-slice content (p + 1) n)

module _ (v : Volume) (ok : IsVolume v) (clusters : ℕ → ℕ) (size : ℕ) (content : ℕ → ℕ)
    (file : Volume.IsFile v clusters size content) (handle : ℕ) where
  -- The functions of the file system, for a handle.
  abbrev pub volume_files : Files Fat
  volume_files = record {
    seek = λ position s. seek v.disk handle position s;
    read = λ byte_count s. read v.disk handle byte_count s;
  }

  -- The driver is that of the volume, and the handle is open for the file.
  abbrev pub IsOpenOn : Fat → Type 0
  IsOpenOn s = IsOn v s × IsOpenFor v ok clusters size content file (file_data handle s)

  reads_there :
      (s : Fat) (p n : ℕ)
      → IsOpenOn s
      → p < size
      → p + n < size
      → ((read v.disk handle n (seek v.disk handle p s).1).0 ≡ slice content p n)
        × IsOpenOn (read v.disk handle n (seek v.disk handle p s).1).1
  reads_there s p n (on, is_open) starts ends =
      let sought = seek-Seeks v ok clusters size content file handle p s on is_open starts in
      let s1 = (seek v.disk handle p s).1 in
      let there : s1 ≡ sought.s' = ap (λ (r : Bool × Fat). r.1) sought.returns in
      let stands : Stands v clusters size handle p s1 = rw there sought.stands in
      let all : min n (size - p) ≡ n = unfold min in ground arith in
      let out = rw all at (read-Reads v ok clusters size content file handle p n s1 stands) in
      let after = out.stands ends in
      (
        out.gives ∙ content_at-slice content p n,
        (
          after.on,
          record {
            opened = after.at.opened;
            plain = after.at.plain;
            bytes = after.at.bytes;
            first = read-first v.disk handle n s1 ∙ seek-first v.disk handle p s ∙ is_open.first;
          },
        ),
      )

  -- On a volume whose reads succeed, for a file whose clusters the table links and none of whose table
  -- entries reaches over the end of a sector, `seek` and `read` of the file system give the loader what
  -- its theorem asks of a file, from any state of the driver in which the handle is open for the file.
  pub volume_files-IsFile : IsFile volume_files IsOpenOn content size
  volume_files-IsFile = record { short = file.small; reads = reads_there }
