-- ===== src/Elf/Tests.antt =====
-- A file of one segment: four bytes, and four zeros behind them.
use aidos.Common.{ℕ, ◌+◌, ◌≡◌, refl, arith, [], true, ◌==◌, if◌then◌else◌}
use aidos.Mem.{Memory}
use aidos.Fat.Read.{slice}
use aidos.Elf.{
  Elf64Ehdr, Elf64Phdr, Files, Machine, ehdr_of, phdr_of, read_elf, load_loop, load_segment,
  read_struct, store_bytes, zero_rest,
}
use aidos.Elf.Table.{IsTable, header}

abbrev pub content : Memory
content c =
    if c == 0
    then 0x7F
    else if c == 1
    then b'E'
    else if c == 2
    then b'L'
    else if c == 3
    then b'F'
    else if c == 25
    then 0x20
    else if c == 32
    then 64
    else if c == 54
    then 56
    else if c == 56
    then 1
    else if c == 64
    then 1
    else if c == 72
    then 120
    else if c == 81
    then 0x20
    else if c == 89
    then 1
    else if c == 96
    then 4
    else if c == 104
    then 8
    else if c == 120
    then 0xF4
    else 0

-- The position is all the state.
abbrev files : Files ℕ
files = record {
  seek = λ position f. (true, position);
  read = λ byte_count f. (slice content f byte_count, f + byte_count);
}

abbrev phdr : Elf64Phdr
phdr = record {
  p_type = 1;
  p_flags = 0;
  p_offset = 120;
  p_vaddr = 0x2000;
  p_paddr = 0x100;
  p_filesz = 4;
  p_memsz = 8;
  p_align = 0;
}

first_header : header content (ehdr_of content) 0 ≡ phdr
unfolding ehdr_of phdr_of
first_header = refl

header_counts :
    (Elf64Ehdr.e_phnum (ehdr_of content) ≡ 1) × (Elf64Ehdr.e_phoff (ehdr_of content) ≡ 64)
unfolding ehdr_of
header_counts = (refl, refl)

pub content-IsTable : IsTable content 125 (ehdr_of content)
content-IsTable = record {
  entries =
      λ k lt. let e : k ≡ 0 = omega (arith, header_counts) in rw e (omega (arith, header_counts));
  segments = λ k lt load.
      let e : k ≡ 0 = omega (arith, header_counts) in
      rw (e, first_header)
        (record {
          starts = omega arith;
          ends = omega arith;
          fits = omega arith;
          whole = omega arith;
        });
}

abbrev machine : Machine ℕ
machine = record { files = 0; mem = λ c. 0xCC; calls = [] }

loaded_bytes :
    let r = read_elf files (λ _. 0) 0x10_0000 machine in
    (r.0.phys_base ≡ 0x10_0100)
    × (r.1.mem 0x2000 ≡ 0xF4)
    × (r.1.mem 0x2007 ≡ 0)
    × (r.1.mem 0x2008 ≡ 0xCC)
unfolding read_elf ehdr_of read_struct store_bytes load_loop phdr_of load_segment zero_rest
    aidos.Mem.memset
loaded_bytes = (refl, refl, refl, refl)
