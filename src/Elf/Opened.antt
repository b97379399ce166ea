-- ===== src/Elf/Opened.antt =====
-- The kernel's file from the path to memory: `open` of Fat, then `readElf` on the handle.
mod Tests
use aidos.Common.{ℕ, ◌+◌, ◌*◌, ◌<◌, ◌≡◌, Bool, true, false, Option, some, List, ◌∷◌, length, arith}
use aidos.Mem.{Memory}
use aidos.Str.Laws.{NoNul, NotIn}
use aidos.Fat.{Fat}
use aidos.Fat.Read.Volume
use aidos.Fat.Read.Volume.{Volume, IsVolume, IsOn}
use aidos.Fat.Entry.Find.{entry_at}
use aidos.Fat.Open.{slash, Opening, returned, open_path}
use aidos.Fat.Open.Rounds.{IsInRoot}
use aidos.Fat.Open.Laws.{IsEntryOf, OpensFile, open_path-OpensFile}
use aidos.Elf.{Call, Machine, Elf64Ehdr, ehdr_of, has_magic, read_elf}
use aidos.Elf.Table.{IsTable}
use aidos.Elf.Laws.{ReadsElf, read_elf-ReadsElf}
use aidos.Elf.Volume.{volume_files, IsOpenOn, volume_files-IsFile}

module _ (v : Volume) (ok : IsVolume v) (clusters : ℕ → ℕ) (size : ℕ) (content : ℕ → ℕ)
    (file : Volume.IsFile v clusters size content) (stack : Memory) (data_at : ℕ) (mem : Memory)
    (calls : List Call) where
  abbrev pub machine_of : Fat → Machine Fat
  machine_of files = record { files = files; mem = mem; calls = calls }

  -- A handle was given, on which `readElf` does what it does on the content.
  pub record LoadsFrom (result : Opening) : Type 0 where
    pub handle : ℕ
    pub files : Fat
    pub returns : result ≡ returned (some handle) files
    pub loads :
        let fs = volume_files v ok clusters size content file handle in
        ReadsElf fs stack
          (IsOpenOn v ok clusters size content file handle)
          content
          size
          (volume_files-IsFile v ok clusters size content file handle)
          data_at
          (ehdr_of content)
          (machine_of files)
          (read_elf fs stack data_at (machine_of files))

  -- On a volume whose reads succeed, with the file's entry in the first sector of the root directory as `open`
  -- finds it, and a file of more than 64 bytes whose headers and segments, if it has the magic
  -- number, end before it does, `open` gives a handle, and `readElf` on this handle loads
  -- the content of the file, or refuses its magic number.
  pub open_path-LoadsFrom :
      (rounds k c : ℕ) (path : List ℕ) (s : Fat) (free : ℕ)
      → IsOn v s
      → IsInRoot (c ∷ path) k s
      → IsEntryOf v ok clusters size content file (entry_at s.root_directory.buffer k)
      → 64 < size
      → (has_magic (Elf64Ehdr.e_ident (ehdr_of content)) ≡ true
          → IsTable content size (ehdr_of content))
      → NoNul (c ∷ path)
      → NotIn slash (c ∷ path)
      → length (c ∷ path) < 256
      → k < rounds
      → free < 10
      → (s.opened_files free).opened ≡ false
      → LoadsFrom (open_path v.disk rounds (slash ∷ c ∷ path) s)
  open_path-LoadsFrom rounds k c path s free on r e long table no_nul no_slash short enough below
        idle =
      let o =
        open_path-OpensFile v ok clusters size content file rounds k c path s free on r e
          (omega arith) no_nul no_slash short enough below idle in
      record {
        handle = o.handle;
        files = o.s';
        returns = o.returns;
        loads =
            read_elf-ReadsElf (volume_files v ok clusters size content file o.handle) stack
              (IsOpenOn v ok clusters size content file o.handle) content size
              (volume_files-IsFile v ok clusters size content file o.handle) data_at
              (machine_of o.s') (o.on, o.is_open) long table;
      }
