-- ===== src/Elf/Laws.antt =====
-- The loader on a whole file.
use aidos.Common.{
  ℕ, ◌-◌, ◌^◌, ◌≤◌, ◌<◌, ◌≡◌, ◌≢◌, ◌∙◌, ◌⊎◌, inl, inr, refl, ap, arith, true, false, ◌==◌,
  if◌then◌else◌, Bool-cases,
}
use aidos.Mem.{Memory}
use aidos.Elf.{
  Elf64Ehdr, ElfInfo, Files, Machine, has_magic, ehdr_of, read_struct, load_loop, read_elf,
}
use aidos.Elf.Bytes.{ehdr_of-same}
use aidos.Elf.Segment.{IsFile, read_struct-ReadsStruct}
use aidos.Elf.Table.{header, Loaded, IsTable, Overlays, IsLeast, MapsAll, phys_of}
use aidos.Elf.Loop.{Loads, load_loop-Loads}

module _ {S : Type 0} (fs : Files S) (stack : Memory) (IsOpen : S → Type 0) (content : Memory)
    (size : ℕ) (file : IsFile fs IsOpen content size) (data_at : ℕ) where
  -- The file was loaded: the entry point is that of the header, memory has the segments, each of them is
  -- mapped, and the base is at most each address of a segment.
  pub record LoadsElf (ehdr : Elf64Ehdr) (s : Machine S) (result : ElfInfo × Machine S)
      : Type 0 where
    pub entry_ok : result.0.entry ≡ ehdr.e_entry
    pub memory : Overlays content ehdr ehdr.e_phnum 0 s.mem result.1.mem
    pub maps : MapsAll content ehdr data_at ehdr.e_phnum 0 s.calls result.1.calls
    pub least :
        (k : ℕ)
        → k < ehdr.e_phnum
        → Loaded (header content ehdr k)
        → phys_of data_at (header content ehdr k) ≢ 2 ^ 64 - 1
        → result.0.phys_base ≤ phys_of data_at (header content ehdr k)
    pub attained :
        (result.0.phys_base ≡ data_at)
        ⊎ ((k : ℕ) × (k < ehdr.e_phnum)
            × Loaded (header content ehdr k)
            × (result.0.phys_base ≡ phys_of data_at (header content ehdr k)))

  -- The file was refused, and nothing loaded.
  pub record Refuses (s : Machine S) (result : ElfInfo × Machine S) : Type 0 where
    pub info : result.0 ≡ record { entry = 0; phys_base = 0 }
    pub same_mem : result.1.mem ≡ s.mem
    pub same_calls : result.1.calls ≡ s.calls

  abbrev pub ReadsElf : (ehdr : Elf64Ehdr) (s : Machine S) (result : ElfInfo × Machine S) → Type 0
  ReadsElf ehdr s result =
      ((has_magic ehdr.e_ident ≡ false) × Refuses s result)
      ⊎ ((has_magic ehdr.e_ident ≡ true) × LoadsElf ehdr s result)

  final_least :
      (ehdr : Elf64Ehdr) (left b : ℕ)
      → IsLeast content ehdr data_at left 0 (2 ^ 64 - 1) b
      → (k : ℕ) → k < left
      → Loaded (header content ehdr k)
      → phys_of data_at (header content ehdr k) ≢ 2 ^ 64 - 1
      → (if b == 2 ^ 64 - 1 then data_at else b) ≤ phys_of data_at (header content ehdr k)
  final_least ehdr left b found k lt load ne =
      let at_least = found.least k (omega arith) (omega arith) load in
      let e : (b == 2 ^ 64 - 1) ≡ false = ground arith in rw e at_least

  final_attained :
      (ehdr : Elf64Ehdr) (left b : ℕ)
      → IsLeast content ehdr data_at left 0 (2 ^ 64 - 1) b
      → ((if b == 2 ^ 64 - 1 then data_at else b) ≡ data_at)
        ⊎ ((k : ℕ) × (k < left)
            × Loaded (header content ehdr k)
            × ((if b == 2 ^ 64 - 1 then data_at else b) ≡ phys_of data_at (header content ehdr k)))
  final_attained ehdr left b found = elim (Bool-cases (b == 2 ^ 64 - 1)) [
    | inl none_found ↦ inl (rw none_found refl)
    | inr some_found ↦ elim found.attained [
      | inl e ↦ absurd (ground arith)
      | inr (k, lt, load, e) ↦ inr (k, omega arith, load, rw some_found e)
    ]
  ]

  read_elf-Refuses :
      (s : Machine S) {ehdr : Elf64Ehdr}
      → ehdr_of (read_struct fs stack 0 64 s.files).0 ≡ ehdr
      → has_magic ehdr.e_ident ≡ false
      → Refuses s (read_elf fs stack data_at s)
  unfolding read_elf
  read_elf-Refuses s e bad =
      rw (e, bad) (record { info = refl; same_mem = refl; same_calls = refl })

  read_elf-LoadsElf :
      (s : Machine S) {ehdr : Elf64Ehdr}
      → ehdr_of (read_struct fs stack 0 64 s.files).0 ≡ ehdr
      → has_magic ehdr.e_ident ≡ true
      → (let s1 : Machine S = record {
        files = (read_struct fs stack 0 64 s.files).1;
        mem = s.mem;
        calls = s.calls;
      } in
          Loads fs stack IsOpen content size file data_at ehdr ehdr.e_phnum 0
            (2 ^ 64 - 1)
            s1
            (load_loop fs stack data_at ehdr ehdr.e_phnum 0 (2 ^ 64 - 1) s1))
      → LoadsElf ehdr s (read_elf fs stack data_at s)
  unfolding read_elf
  read_elf-LoadsElf s {ehdr} e good loads =
      rw (e, good)
        (record {
          entry_ok = refl;
          memory = loads.memory;
          maps = loads.maps;
          least = λ k lt load ne. final_least ehdr ehdr.e_phnum _ loads.base k lt load ne;
          attained = final_attained ehdr ehdr.e_phnum _ loads.base;
        })

  pub read_elf-ReadsElf :
      (s : Machine S)
      → IsOpen s.files
      → 64 < size
      → (has_magic (Elf64Ehdr.e_ident (ehdr_of content)) ≡ true
          → IsTable content size (ehdr_of content))
      → ReadsElf (ehdr_of content) s (read_elf fs stack data_at s)
  read_elf-ReadsElf s is_open long table =
      let ehdr = ehdr_of content in
      let r =
        read_struct-ReadsStruct fs stack IsOpen content size file 0 64 s.files is_open (omega arith)
          (omega arith) in
      let same : (c : ℕ) → c < 64 → (read_struct fs stack 0 64 s.files).0 c ≡ content c =
        λ c lt. r.holds c lt ∙ ap content (omega arith) in
      let e = ehdr_of-same (read_struct fs stack 0 64 s.files).0 content 64 same refl in
      elim (Bool-cases (has_magic ehdr.e_ident)) [
        | inr bad ↦ inl (bad, read_elf-Refuses s e bad)
        | inl good ↦
            let s1 : Machine S = record {
              files = (read_struct fs stack 0 64 s.files).1;
              mem = s.mem;
              calls = s.calls;
            } in
            let loads =
              load_loop-Loads fs stack IsOpen content size file data_at ehdr (table good)
                ehdr.e_phnum 0 (2 ^ 64 - 1) s1 (omega arith) r.open_still in
            inr (good, read_elf-LoadsElf s e good loads)
      ]
