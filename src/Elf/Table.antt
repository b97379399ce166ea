-- ===== src/Elf/Table.antt =====
-- What the headers of a table do, put together from what each of them does.
use aidos.Common.{
  ℕ, suc, ◌+◌, ◌-◌, ◌*◌, ◌≤◌, ◌<◌, ◌≡◌, ◌∙◌, ◌⊎◌, inl, inr, refl, arith, List, [], ◌∷◌, true, false,
  ltb, leb, ◌&&◌, ◌==◌, ==_iff, if◌then◌else◌, Bool-cases, u64,
}
use aidos.Mem.{Memory}
use aidos.Elf.{Elf64Ehdr, Elf64Phdr, Call, pt_load, phdr_of}
use aidos.Elf.Segment.{IsInFile, Covers, MapsSegment, segment}

abbrev pub Among : Call → List Call → Type 0
Among call [] = ⊥
Among call (x ∷ calls) = (call ≡ x) ⊎ Among call calls

-- Header `k` of the table.
abbrev pub header : (content : Memory) → Elf64Ehdr → ℕ → Elf64Phdr
header content ehdr k = phdr_of (λ c. content (ehdr.e_phoff + k * ehdr.e_phentsize + c))

abbrev pub Loaded : Elf64Phdr → Type 0
Loaded phdr = phdr.p_type ≡ pt_load

abbrev pub Outside : Elf64Phdr → ℕ → Type 0
Outside phdr a = (a < phdr.p_vaddr) ⊎ (phdr.p_vaddr + phdr.p_memsz ≤ a)

abbrev pub phys_of : (data_at : ℕ) → Elf64Phdr → ℕ
phys_of data_at phdr = u64 (data_at + phdr.p_paddr)

-- The table ends before the file does, and so do the segments that are loaded.
pub record IsTable (content : Memory) (size : ℕ) (ehdr : Elf64Ehdr) : Type 0 where
  pub entries : (k : ℕ) → k < ehdr.e_phnum → ehdr.e_phoff + k * ehdr.e_phentsize + 56 < size
  pub segments :
      (k : ℕ)
      → k < ehdr.e_phnum
      → Loaded (header content ehdr k)
      → IsInFile size (header content ehdr k)

-- What the headers from `i` on do to memory: the last segment over an address gives its byte.
pub record Overlays (content : Memory) (ehdr : Elf64Ehdr) (left i : ℕ) (m m' : Memory)
    : Type 0 where
  pub holds :
      (k j : ℕ)
      → i ≤ k
      → k < i + left
      → Loaded (header content ehdr k)
      → j < (header content ehdr k).p_memsz
      → ((l : ℕ)
          → k < l
          → l < i + left
          → Loaded (header content ehdr l)
          → Outside (header content ehdr l) ((header content ehdr k).p_vaddr + j))
      → m' ((header content ehdr k).p_vaddr + j) ≡ (
          if ltb j (header content ehdr k).p_filesz
          then content ((header content ehdr k).p_offset + j)
          else 0)
  pub kept :
      (a : ℕ)
      → ((l : ℕ)
          → i ≤ l
          → l < i + left
          → Loaded (header content ehdr l)
          → Outside (header content ehdr l) a)
      → m' a ≡ m a

-- The least of `base` and the physical addresses of the segments.
pub record IsLeast (content : Memory) (ehdr : Elf64Ehdr) (data_at left i base base' : ℕ)
    : Type 0 where
  pub below : base' ≤ base
  pub least :
      (k : ℕ)
      → i ≤ k
      → k < i + left
      → Loaded (header content ehdr k)
      → base' ≤ phys_of data_at (header content ehdr k)
  pub attained :
      (base' ≡ base)
      ⊎ ((k : ℕ) × (k < i + left)
          × Loaded (header content ehdr k)
          × (base' ≡ phys_of data_at (header content ehdr k)))

-- A call for each segment, and the calls before.
pub record MapsAll (content : Memory) (ehdr : Elf64Ehdr) (data_at left i : ℕ)
    (calls calls' : List Call) : Type 0 where
  pub mapped :
      (k : ℕ)
      → i ≤ k
      → k < i + left
      → Loaded (header content ehdr k)
      → (call : Call) × Among call calls'
        × Covers
            (header content ehdr k).p_vaddr
            (phys_of data_at (header content ehdr k))
            (header content ehdr k).p_memsz
            call
  pub keeps : (call : Call) → Among call calls → Among call calls'

segment-Outside :
    (content : Memory) (phdr : Elf64Phdr) (m : Memory) (a : ℕ)
    → Outside phdr a
    → segment content phdr m a ≡ m a
segment-Outside content phdr m a out =
    let e : (leb phdr.p_vaddr a && ltb a (phdr.p_vaddr + phdr.p_memsz)) ≡ false = ground arith in
    rw e refl

segment-inside :
    (content : Memory) (phdr : Elf64Phdr) (m : Memory) (j : ℕ)
    → j < phdr.p_memsz
    → segment content phdr m (phdr.p_vaddr + j)
      ≡ (if ltb j phdr.p_filesz then content (phdr.p_offset + j) else 0)
segment-inside content phdr m j lt =
    let e : (leb phdr.p_vaddr (phdr.p_vaddr + j)
          && ltb (phdr.p_vaddr + j) (phdr.p_vaddr + phdr.p_memsz))
        ≡ true =
      ground arith in
    let back : phdr.p_vaddr + j - phdr.p_vaddr ≡ j = omega arith in rw (e, back) refl

module _ (content : Memory) (ehdr : Elf64Ehdr) (left i : ℕ) (m m1 m' : Memory) where
  -- The first header is one of another kind.
  pub Overlays-skip :
      (Loaded (header content ehdr i) → ⊥)
      → Overlays content ehdr left (i + 1) m m'
      → Overlays content ehdr (suc left) i m m'
  Overlays-skip other rest = record {
    holds = λ k j a b load lt later. elim (Bool-cases (i == k)) [
      | inl same ↦ absurd (other (rw ((==_iff i k).0 same) load))
      | inr ne ↦
          rest.holds k j (ground arith) (omega arith) load lt (λ l p q. later l p (omega arith))
    ];
    kept = λ a out. rest.kept a (λ l p q. out l (omega arith) (omega arith));
  }

  -- The first header is loaded.
  pub Overlays-load :
      Loaded (header content ehdr i)
      → ((c : ℕ) → m1 c ≡ segment content (header content ehdr i) m c)
      → Overlays content ehdr left (i + 1) m1 m'
      → Overlays content ehdr (suc left) i m m'
  Overlays-load load first rest = record {
    holds = λ k j a b load' lt later. elim (Bool-cases (k == i)) [
      | inl same ↦
          let e : k ≡ i = (==_iff k i).0 same in
          let h = header content ehdr k in
          rest.kept (h.p_vaddr + j) (λ l p q. later l (omega arith) (omega arith))
          ∙ first (h.p_vaddr + j)
          ∙ rw (← e) (segment-inside content h m j lt)
      | inr ne ↦
          rest.holds k j (ground arith) (omega arith) load' lt (λ l p q. later l p (omega arith))
    ];
    kept = λ a out.
        rest.kept a (λ l p q. out l (omega arith) (omega arith))
        ∙ first a
        ∙ segment-Outside content (header content ehdr i) m a
            (out i (omega arith) (omega arith) load);
  }

abbrev pub less : (phys phys_base : ℕ) → ℕ
less phys phys_base = if ltb phys phys_base then phys else phys_base

module _ (content : Memory) (ehdr : Elf64Ehdr) (data_at left i base base' : ℕ) where
  pub IsLeast-skip :
      (Loaded (header content ehdr i) → ⊥)
      → IsLeast content ehdr data_at left (i + 1) base base'
      → IsLeast content ehdr data_at (suc left) i base base'
  IsLeast-skip other rest = record {
    below = rest.below;
    least = λ k a b load. elim (Bool-cases (i == k)) [
      | inl same ↦ absurd (other (rw ((==_iff i k).0 same) load))
      | inr ne ↦ rest.least k (ground arith) (omega arith) load
    ];
    attained = elim rest.attained [
      | inl e ↦ inl e
      | inr (k, lt, load, e) ↦ inr (k, omega arith, load, e)
    ];
  }

  pub IsLeast-load :
      Loaded (header content ehdr i)
      → IsLeast content ehdr data_at left
          (i + 1)
          (less (phys_of data_at (header content ehdr i)) base)
          base'
      → IsLeast content ehdr data_at (suc left) i base base'
  IsLeast-load load rest = record {
    below = ground (arith, rest.below);
    least = λ k a b load'. elim (Bool-cases (k == i)) [
      | inl same ↦
          let e : k ≡ i = (==_iff k i).0 same in
          let first : base' ≤ phys_of data_at (header content ehdr i) =
            ground (arith, rest.below) in
          rw e first
      | inr ne ↦ rest.least k (ground arith) (omega arith) load'
    ];
    attained = elim rest.attained [
      | inr (k, lt, load', e) ↦ inr (k, omega arith, load', e)
      | inl e ↦ elim (Bool-cases (ltb (phys_of data_at (header content ehdr i)) base)) [
        | inl lt ↦ inr (i, omega arith, load, rw lt at e)
        | inr ge ↦ inl (rw ge at e)
      ]
    ];
  }

module _ (content : Memory) (ehdr : Elf64Ehdr) (data_at left i : ℕ)
    (calls calls1 calls' : List Call) where
  pub MapsAll-skip :
      (Loaded (header content ehdr i) → ⊥)
      → MapsAll content ehdr data_at left (i + 1) calls calls'
      → MapsAll content ehdr data_at (suc left) i calls calls'
  MapsAll-skip other rest = record {
    mapped = λ k a b load. elim (Bool-cases (i == k)) [
      | inl same ↦ absurd (other (rw ((==_iff i k).0 same) load))
      | inr ne ↦ rest.mapped k (ground arith) (omega arith) load
    ];
    keeps = rest.keeps;
  }

  pub MapsAll-load :
      (let h = header content ehdr i in
        MapsSegment h.p_vaddr (phys_of data_at h) h.p_memsz calls calls1)
      → MapsAll content ehdr data_at left (i + 1) calls1 calls'
      → MapsAll content ehdr data_at (suc left) i calls calls'
  MapsAll-load first rest = record {
    mapped = λ k a b load. elim (Bool-cases (k == i)) [
      | inl same ↦
          let e : k ≡ i = (==_iff k i).0 same in
          let here : Among first.call calls1 = rw first.added (inl refl) in
          rw e (first.call, rest.keeps first.call here, first.covers)
      | inr ne ↦ rest.mapped k (ground arith) (omega arith) load
    ];
    keeps = λ call among.
        let there : Among call calls1 = rw first.added (inr among) in rest.keeps call there;
  }
