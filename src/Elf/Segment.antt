-- ===== src/Elf/Segment.antt =====
-- One program header: its struct, and the segment that it describes.
use aidos.Common.{
  ℕ, ◌+◌, ◌-◌, ◌*◌, ◌/◌, ◌%◌, ◌^◌, ◌≤◌, ◌<◌, ◌≡◌, ◌∙◌, ◌⊎◌, inl, inr, refl, arith, List, ◌∷◌, ltb,
  leb, ◌&&◌, ◌==◌, if◌then◌else◌, Bool-cases, u32, u64,
}
use aidos.Mem.{Memory}
use aidos.Mem.Laws.{memset_lem}
use aidos.Fat.Read.{slice}
use aidos.Elf.{
  Elf64Phdr, Files, Machine, Call, pages_4k, pages_2m, page_2m, map_segment, zero_rest, read_struct,
  load_segment,
}
use aidos.Elf.Bytes.{store_bytes-slice}

-- An open file with the given content: a seek and a read that stays before its end give
-- the bytes there, and leave it open.
pub record IsFile {S : Type 0} (fs : Files S) (IsOpen : S → Type 0) (content : Memory) (size : ℕ)
    : Type 0 where
  pub short : size < 2 ^ 32
  pub reads :
      (f : S) (p n : ℕ)
      → IsOpen f
      → p < size
      → p + n < size
      → ((fs.read n (fs.seek p f).1).0 ≡ slice content p n) × IsOpen (fs.read n (fs.seek p f).1).1

-- The content of a segment, byte by byte, over the memory before.
abbrev pub segment : (content : Memory) → Elf64Phdr → Memory → Memory
segment content phdr m c =
    if leb phdr.p_vaddr c && ltb c (phdr.p_vaddr + phdr.p_memsz)
    then (if ltb (c - phdr.p_vaddr) phdr.p_filesz
        then content (phdr.p_offset + (c - phdr.p_vaddr))
        else 0)
    else m c

-- The segment ends before the file does, and is not larger there than in memory.
pub record IsInFile (size : ℕ) (phdr : Elf64Phdr) : Type 0 where
  pub starts : phdr.p_offset < size
  pub ends : phdr.p_offset + phdr.p_filesz < size
  pub fits : phdr.p_filesz ≤ phdr.p_memsz
  pub whole : phdr.p_memsz + 0x1000 ≤ 2 ^ 64

-- As many pages as `size` takes, rounded up, from `virt` on, for those from `phys` on. They hold each
-- address of the segment if `virt` is at the start of a page.
pub record Covers (virt phys size : ℕ) (call : Call) : Type 0 where
  pub pages : ℕ
  pub page : ℕ
  pub is_call :
      ((page ≡ 0x1000) × (call ≡ pages_4k virt phys pages))
      ⊎ ((page ≡ 0x20_0000) × (call ≡ pages_2m virt phys pages))
  pub enough : size ≤ pages * page
  pub tight : pages * page < size + 0x1000
  pub holds :
      virt % 0x1000 ≡ 0
      → (a : ℕ) → virt ≤ a
      → a < virt + size
      → (virt / page ≤ a / page) × (a / page < virt / page + pages)

-- The latest call covers the segment.
pub record MapsSegment (virt phys size : ℕ) (calls : List Call) (result : List Call) : Type 0 where
  pub call : Call
  pub covers : Covers virt phys size call
  pub added : result ≡ call ∷ calls

pub map_segment-MapsSegment :
    (virt phys size : ℕ) (calls : List Call)
    → size + 0x1000 ≤ 2 ^ 64
    → MapsSegment virt phys size calls (map_segment virt phys size calls)
unfolding map_segment
map_segment-MapsSegment virt phys size calls whole =
    elim (Bool-cases ((virt % page_2m == 0) && ((phys % page_2m == 0) && (size % page_2m == 0)))) [
      | inl large ↦
          let even : size % 0x20_0000 ≡ 0 = ground arith in
          rw large (record {
            call = pages_2m virt phys (size / 0x20_0000);
            covers = record {
              pages = size / 0x20_0000;
              page = 0x20_0000;
              is_call = inr (refl, refl);
              enough = omega arith;
              tight = omega arith;
              holds = λ al a from to.
                  let start : virt % 0x20_0000 ≡ 0 = ground arith in
                  (omega arith, omega (arith, start, even));
            };
            added = refl;
          })
      | inr small ↦ rw small (record {
        call = pages_4k virt phys (u64 (size + 0x1000 - 1) / 0x1000);
        covers = record {
          pages = u64 (size + 0x1000 - 1) / 0x1000;
          page = 0x1000;
          is_call = inl (refl, refl);
          enough = omega arith;
          tight = omega arith;
          holds = λ al a from to. (omega arith, omega arith);
        };
        added = refl;
      })
    ]

zero_rest_lem :
    (phdr : Elf64Phdr) (m : Memory) (c : ℕ)
    → zero_rest phdr m c ≡ (
        if leb (phdr.p_vaddr + phdr.p_filesz) c && ltb c (phdr.p_vaddr + phdr.p_memsz)
        then 0
        else m c)
unfolding zero_rest
zero_rest_lem phdr m c = elim (Bool-cases (ltb phdr.p_filesz phdr.p_memsz)) [
  | inl more ↦ rw more (
      memset_lem m (phdr.p_vaddr + phdr.p_filesz) 0 (phdr.p_memsz - phdr.p_filesz) c ∙ ground arith)
  | inr none_left ↦ rw none_left (ground arith)
]

two_parts :
    (content m : Memory) (v o n w c : ℕ)
    → n ≤ w
    → (if leb (v + n) c && ltb c (v + w)
        then 0
        else (if leb v c && ltb c (v + n) then content (o + (c - v)) else m c))
      ≡ (if leb v c && ltb c (v + w)
          then (if ltb (c - v) n then content (o + (c - v)) else 0)
          else m c)
two_parts content m v o n w c fits = ground arith

module _ {S : Type 0} (fs : Files S) (stack : Memory) (IsOpen : S → Type 0) (content : Memory)
    (size : ℕ) (file : IsFile fs IsOpen content size) where
  pub record ReadsStruct (position n : ℕ) (result : Memory × S) : Type 0 where
    pub open_still : IsOpen result.1
    pub holds : (c : ℕ) → c < n → result.0 c ≡ content (position + c)

  pub read_struct-ReadsStruct :
      (position n : ℕ) (f : S)
      → IsOpen f
      → position < size
      → position + n < size
      → ReadsStruct position n (read_struct fs stack position n f)
  unfolding read_struct
  read_struct-ReadsStruct position n f is_open starts ends =
      let word : u32 position ≡ position = omega (arith, file.short) in
      let read = file.reads f position n is_open starts ends in
      rw word (record {
        open_still = read.1;
        holds = λ c lt. rw (read.0) (store_bytes-slice content position n 0 stack c ∙ ground arith);
      })

  pub record LoadsSegment (phdr : Elf64Phdr) (phys : ℕ) (s s' : Machine S) : Type 0 where
    pub open_still : IsOpen s'.files
    pub holds : (c : ℕ) → s'.mem c ≡ segment content phdr s.mem c
    pub maps : MapsSegment phdr.p_vaddr phys phdr.p_memsz s.calls s'.calls

  pub load_segment-LoadsSegment :
      (phdr : Elf64Phdr) (phys : ℕ) (s : Machine S)
      → IsOpen s.files
      → IsInFile size phdr
      → LoadsSegment phdr phys s (load_segment fs stack phdr phys s)
  unfolding load_segment
  load_segment-LoadsSegment phdr phys s is_open inside =
      let word : u32 phdr.p_offset ≡ phdr.p_offset = omega (arith, file.short, inside.starts) in
      let word' : u32 phdr.p_filesz ≡ phdr.p_filesz = omega (arith, file.short, inside.ends) in
      let read = file.reads s.files phdr.p_offset phdr.p_filesz is_open inside.starts inside.ends in
      rw (word, word')
        (record {
          open_still = read.1;
          holds = λ c.
              zero_rest_lem phdr _ c
              ∙ rw
                  (
                    read.0,
                    store_bytes-slice content phdr.p_offset phdr.p_filesz phdr.p_vaddr s.mem c,
                  )
                  (two_parts content s.mem phdr.p_vaddr phdr.p_offset phdr.p_filesz phdr.p_memsz c
                    inside.fits);
          maps = map_segment-MapsSegment phdr.p_vaddr phys phdr.p_memsz s.calls inside.whole;
        })
