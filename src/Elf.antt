-- ===== src/Elf.antt =====
-- src/bootloader/stage2/elf.cpp: the loader of the kernel's ELF file. The open file is a parameter, the
-- two functions of FileSystem that the loader calls. Memory is that of bytes at virtual addresses; the
-- calls of `map_4k` and `map_2m`, which Boot models, are kept in a list.
pub mod Bytes
pub mod Segment
pub mod Table
pub mod Loop
pub mod Laws
pub mod Volume
pub mod Opened
pub mod Tests
use aidos.Common.{
  ℕ, zero, suc, ◌+◌, ◌-◌, ◌*◌, ◌/◌, ◌%◌, ◌^◌, List, [], ◌∷◌, Bool, false, ltb, not, ◌&&◌, ◌==◌,
  if◌then◌else◌, u32, u64,
}
use aidos.Mem.{Memory, write, memset}
use aidos.Fat.Read.{slice}

pub record Elf64Ehdr : Type 0 where
  pub e_ident : List ℕ
  pub e_type : ℕ
  pub e_machine : ℕ
  pub e_version : ℕ
  pub e_entry : ℕ
  pub e_phoff : ℕ
  pub e_shoff : ℕ
  pub e_flags : ℕ
  pub e_ehsize : ℕ
  pub e_phentsize : ℕ
  pub e_phnum : ℕ
  pub e_shentsize : ℕ
  pub e_shnum : ℕ
  pub e_shstrndx : ℕ

pub record Elf64Phdr : Type 0 where
  pub p_type : ℕ
  pub p_flags : ℕ
  pub p_offset : ℕ
  pub p_vaddr : ℕ
  pub p_paddr : ℕ
  pub p_filesz : ℕ
  pub p_memsz : ℕ
  pub p_align : ℕ

-- `PT_LOAD`
abbrev pub pt_load : ℕ
pt_load = 1

pub record ElfInfo : Type 0 where
  pub entry : ℕ
  pub phys_base : ℕ

-- A little-endian field of `w` bytes.
abbrev pub le : Memory → (at_byte w : ℕ) → ℕ
le m at_byte zero = 0
le m at_byte (suc w) = m at_byte + 2 ^ 8 * le m (at_byte + 1) w

unfoldable pub ehdr_of : Memory → Elf64Ehdr
ehdr_of m = record {
  e_ident = slice m 0 16;
  e_type = le m 16 2;
  e_machine = le m 18 2;
  e_version = le m 20 4;
  e_entry = le m 24 8;
  e_phoff = le m 32 8;
  e_shoff = le m 40 8;
  e_flags = le m 48 4;
  e_ehsize = le m 52 2;
  e_phentsize = le m 54 2;
  e_phnum = le m 56 2;
  e_shentsize = le m 58 2;
  e_shnum = le m 60 2;
  e_shstrndx = le m 62 2;
}

unfoldable pub phdr_of : Memory → Elf64Phdr
phdr_of m = record {
  p_type = le m 0 4;
  p_flags = le m 4 4;
  p_offset = le m 8 8;
  p_vaddr = le m 16 8;
  p_paddr = le m 24 8;
  p_filesz = le m 32 8;
  p_memsz = le m 40 8;
  p_align = le m 48 8;
}

-- The test of the magic number.
abbrev pub has_magic : List ℕ → Bool
has_magic (a ∷ b ∷ c ∷ d ∷ _) = (a == 0x7F) && ((b == b'E') && ((c == b'L') && (d == b'F')))
has_magic _ = false

-- `seek` and `read` of a FileSystem, on its states.
pub record Files (S : Type 0) : Type 0 where
  pub seek : (position : ℕ) → S → Bool × S
  pub read : (byte_count : ℕ) → S → List ℕ × S

pub data Call : Type 0 where
  pages_4k : (virt phys count : ℕ) → Call
  pages_2m : (virt phys count : ℕ) → Call

-- The file system, the memory, and the calls that map pages, the latest first.
pub record Machine (S : Type 0) : Type 0 where
  pub files : S
  pub mem : Memory
  pub calls : List Call

-- What `read` stores at an address.
unfoldable pub store_bytes : List ℕ → (a : ℕ) → Memory → Memory
store_bytes [] a m = m
store_bytes (b ∷ bytes) a m = store_bytes bytes (a + 1) (write m a b)

abbrev pub page_4k : ℕ
page_4k = 0x1000

abbrev pub page_2m : ℕ
page_2m = 0x20_0000

unfoldable pub map_segment : (virt phys size : ℕ) → List Call → List Call
map_segment virt phys size calls =
    if (virt % page_2m == 0) && ((phys % page_2m == 0) && (size % page_2m == 0))
    then pages_2m virt phys (size / page_2m) ∷ calls
    else pages_4k virt phys (u64 (size + page_4k - 1) / page_4k) ∷ calls

unfoldable pub zero_rest : Elf64Phdr → Memory → Memory
zero_rest phdr m =
    if ltb phdr.p_filesz phdr.p_memsz
    then memset m (phdr.p_vaddr + phdr.p_filesz) 0 (phdr.p_memsz - phdr.p_filesz)
    else m

-- `stack` is what the stack holds where a header is declared.
module _ {S : Type 0} (fs : Files S) (stack : Memory) where
  -- A struct read from the file; a short read leaves the bytes behind it.
  unfoldable pub read_struct : (position size : ℕ) → S → Memory × S
  read_struct position size f =
      let (found, f1) = fs.seek (u32 position) f in
      let (bytes, f2) = fs.read size f1 in (store_bytes bytes 0 stack, f2)

  -- Steps 1 to 3 of the loop.
  unfoldable pub load_segment : Elf64Phdr → (phys : ℕ) → Machine S → Machine S
  load_segment phdr phys s =
      let (found, f1) = fs.seek (u32 phdr.p_offset) s.files in
      let (bytes, f2) = fs.read (u32 phdr.p_filesz) f1 in
      record {
        files = f2;
        mem = zero_rest phdr (store_bytes bytes phdr.p_vaddr s.mem);
        calls = map_segment phdr.p_vaddr phys phdr.p_memsz s.calls;
      }

  unfoldable pub load_loop :
      (data_at : ℕ) → Elf64Ehdr → (left i phys_base : ℕ) → Machine S → ℕ × Machine S
  load_loop data_at ehdr zero i phys_base s = (phys_base, s)
  load_loop data_at ehdr (suc left) i phys_base s =
      let (m, f) = read_struct (u64 (ehdr.e_phoff + i * ehdr.e_phentsize)) 56 s.files in
      let phdr = phdr_of m in
      let s1 : Machine S = record { files = f; mem = s.mem; calls = s.calls } in
      let phys = u64 (data_at + phdr.p_paddr) in
      let skipped = load_loop data_at ehdr left (i + 1) phys_base s1 in
      let loaded =
        load_loop data_at ehdr left (i + 1) (if ltb phys phys_base then phys else phys_base)
          (load_segment phdr phys s1) in
      if phdr.p_type == pt_load then loaded else skipped

  unfoldable pub read_elf : (data_at : ℕ) → Machine S → ElfInfo × Machine S
  read_elf data_at s =
      let (m, f) = read_struct 0 64 s.files in
      let ehdr = ehdr_of m in
      let s1 : Machine S = record { files = f; mem = s.mem; calls = s.calls } in
      let (phys_base, s2) = load_loop data_at ehdr ehdr.e_phnum 0 (2 ^ 64 - 1) s1 in
      let base = if phys_base == 2 ^ 64 - 1 then data_at else phys_base in
      if has_magic ehdr.e_ident
      then (record { entry = ehdr.e_entry; phys_base = base }, s2)
      else (record { entry = 0; phys_base = 0 }, s1)
