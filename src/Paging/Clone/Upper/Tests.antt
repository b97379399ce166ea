-- ===== src/Paging/Clone/Upper/Tests.antt =====
-- Old tables that map the pages from 0x10_0000 on to the upper half, and a kernel behind them.
use aidos.Common.{
  ℕ, ◌+◌, ◌*◌, ◌-◌, ◌/◌, ◌%◌, ◌^◌, ◌≤◌, ◌<◌, ◌≡◌, ◌⊎◌, inl, inr, refl, arith, some, leb, ltb, ◌&&◌,
  ◌==◌, if◌then◌else◌, [], ◌∙◌,
}
use aidos.Mem.{Memory}
use aidos.Paging.{Kernel, entry, pml4_i, pdpt_i, pd_i, pt_i}
use aidos.Paging.Entry.{index_bits}
use aidos.Paging.Mmu.{index_at, walk}
use aidos.Paging.Lookup.{identity, IsOrdinary, walk-ordinary, e4, e3, e2, e1}
use aidos.Paging.Tree.{Leads}
use aidos.Paging.Clone.{setup_paging}
use aidos.Paging.Clone.Copy.{tables, IsOldTree, IsPlaced}
use aidos.Paging.Clone.Upper.{IsHandedOver, HandsOver, setup_paging-HandsOver}

abbrev pub paged : Memory
paged c =
    if leb 0x1600 c && ltb c 0x1700
    then 3 + 4096 * (c - 0x1600)
    else if leb 0x1700 c && ltb c 0x1800
    then 0x10_0003 + 4096 * (c - 0x1600)
    else if c == 0x1000
    then 0x9003
    else if c == 0x1100
    then 0x9003
    else if c == 0x1200
    then 0xA003
    else if c == 0x1400
    then 0xB003
    else 0

abbrev pub paged_level : ℕ → ℕ
paged_level t =
    if t == 0x8000
    then 4
    else if t == 0x9000
    then 3
    else if t == 0xA000
    then 2
    else if t == 0xB000
    then 1
    else 0

paged_tables :
    (t : ℕ) → 0 < paged_level t → (t ≡ 0x8000) ⊎ ((t ≡ 0x9000) ⊎ ((t ≡ 0xA000) ⊎ (t ≡ 0xB000)))
paged_tables t lv = ground arith

-- Each table is mapped to itself.
paged_readable : (t : ℕ) → 0 < paged_level t → walk (identity paged) 4 0x8000 t ≡ some t
unfolding walk
paged_readable t lv = elim (paged_tables t lv) [
  | inl e ↦ rw e refl
  | inr (inl e) ↦ rw e refl
  | inr (inr (inl e)) ↦ rw e refl
  | inr (inr (inr e)) ↦ rw e refl
]

abbrev pub running : Kernel
running = record {
  mem = paged;
  heap = record { heap_base = 0xFFFF_8000_0011_0000; heap_size = 0x1_0000; heap_offset = 0 };
  pml4 = 0xFFFF_8000_0010_0000;
  kernel_offset = 0;
  cr3 = 0x8000;
  flushed = [];
}

paged_count : tables paged 3 256 256 0x8000 ≡ 3
unfolding tables
paged_count = refl

-- An entry of `t` that leads on to a table.
abbrev To : (t e from to : ℕ) → Type 0
To t e from to = (t ≡ from) × (e ≡ to)

paged-Leads :
    (t i : ℕ)
    → 1 < paged_level t
    → i < 512
    → Leads (entry paged t i)
    → To t (entry paged t i) 0x8000 0x9003
      ⊎ (To t (entry paged t i) 0x9000 0xA003 ⊎ To t (entry paged t i) 0xA000 0xB003)
paged-Leads t i lv lt leads = ground arith

paged-IsOldTree :
    IsOldTree paged 0xFFFF_8000_0011_0000 0xFFFF_8000_0012_0000 0xFFFF_8000_0010_0000 paged_level
paged-IsOldTree = record {
  aligned = λ t lv. ground arith;
  low = λ t lv. ground arith;
  safe = λ t i lv lt. ground arith;
  small = λ t i lv lt leads. ground arith;
  below = λ t i lv lt leads. elim (paged-Leads t i lv lt leads) [
    | inl (from, to) ↦ rw (to, from) refl
    | inr (inl (from, to)) ↦ rw (to, from) refl
    | inr (inr (from, to)) ↦ rw (to, from) refl
  ];
}

abbrev HeapPage : ℕ → Type 0
HeapPage p = (p % 4096 ≡ 0) × (0xFFFF_8000_0011_0000 ≤ p) × (p + 4096 ≤ 0xFFFF_8000_0012_0000)

paged_4 : (p : ℕ) → HeapPage p → pml4_i p ≡ 256
paged_4 p page = index_bits (p / 2 ^ 39) ∙ omega arith

paged_3 : (p : ℕ) → HeapPage p → pdpt_i p ≡ 0
paged_3 p page = index_bits (p / 2 ^ 30) ∙ omega arith

paged_2 : (p : ℕ) → HeapPage p → pd_i p ≡ 0
paged_2 p page = index_bits (p / 2 ^ 21) ∙ omega arith

paged_1 : (p : ℕ) → HeapPage p → pt_i p ≡ p / 4096 - 0xF_FFF8_0000_0000
paged_1 p page = index_bits (p / 4096) ∙ omega arith

paged_entries :
    (p : ℕ)
    → HeapPage p
    → (e4 paged p 0x8000 ≡ 0x9003)
      × ((e3 paged p 0x8000 ≡ 0xA003)
          × ((e2 paged p 0x8000 ≡ 0xB003)
              × (e1 paged p 0x8000 ≡ 0x10_0003 + 4096 * (p / 4096 - 0xF_FFF8_0000_0000))))
paged_entries p page =
    let i3 : index_at 3 p ≡ 256 = omega arith in
    let i2 : index_at 2 p ≡ 0 = omega arith in
    let i1 : index_at 1 p ≡ 0 = omega arith in
    let i0 : index_at 0 p ≡ p / 4096 - 0xF_FFF8_0000_0000 = omega arith in
    rw (i3, i2, i1, i0) (refl, (refl, (refl, ground arith)))

paged-IsOrdinary : (p : ℕ) → HeapPage p → IsOrdinary paged p 0x8000
paged-IsOrdinary p page =
    let e = paged_entries p page in
    record {
      aligned = refl;
      below = omega arith;
      near4 = omega (arith, e);
      near3 = omega (arith, e);
      near2 = omega (arith, e);
      near1 = omega (arith, e);
      small4 = omega (arith, e);
      small3 = omega (arith, e);
      small2 = omega (arith, e);
    }

paged-IsPlaced :
    (p : ℕ)
    → p % 4096 ≡ 0
    → 0xFFFF_8000_0011_0000 ≤ p
    → p + 4096 ≤ 0xFFFF_8000_0012_0000
    → IsPlaced paged 0xFFFF_8000_0011_0000 0xFFFF_8000_0012_0000 0xFFFF_8000_0010_0000 0x8000 p
        (p - 0xFFFF_7FFF_FFF0_0000)
paged-IsPlaced p al from to =
    let page : HeapPage p = (al, from, to) in
    record {
      safe4 = rw (paged_4 p page) (omega arith);
      safe3 = rw (paged_4 p page, paged_3 p page) (omega arith);
      safe2 = rw (paged_4 p page, paged_3 p page, paged_2 p page) (omega arith);
      safe1 = rw (paged_4 p page, paged_3 p page, paged_2 p page, paged_1 p page) (omega arith);
      ordinary = paged-IsOrdinary p page;
      place =
          let (is4, (is3, (is2, is1))) = paged_entries p page in
          walk-ordinary paged p 0x8000 (paged-IsOrdinary p page)
          ∙ rw (is1, is2, is3, is4) (ground (arith, page));
    }

pub running-IsHandedOver :
    IsHandedOver 0xFFFF_8000_0011_0000 0xFFFF_8000_0012_0000
      (omega arith)
      0x8000
      0xFFFF_7FFF_FFF0_0000
      running
      6
      paged_level
unfolding walk
running-IsHandedOver = record {
  ready = record {
    heap_on = record {
      heap_ok = record { room = omega arith; used = omega arith; based = omega arith };
      base_ok = refl;
      end_ok = refl;
    };
    aligned = refl;
    real = omega arith;
    apart = inl (omega arith);
    ordinary = omega arith;
    safe4 = omega arith;
    safe3 = omega arith;
    safe2 = omega arith;
    safe1 = omega arith;
    above = omega arith;
    below = omega arith;
    whole = omega arith;
  };
  tree = paged-IsOldTree;
  root = refl;
  readable = paged_readable;
  low = omega arith;
  above = omega arith;
  below = omega arith;
  offset_aligned = refl;
  placed = paged-IsPlaced;
  root_placed = refl;
  room = rw paged_count (omega arith);
}

setup_paging-HandsOver_example :
    HandsOver 0xFFFF_8000_0011_0000 0xFFFF_8000_0012_0000
      (omega arith)
      0x8000
      0xFFFF_7FFF_FFF0_0000
      running
      6
      (setup_paging 0x8000 0xFFFF_7FFF_FFF0_0000 running)
setup_paging-HandsOver_example =
    setup_paging-HandsOver 0xFFFF_8000_0011_0000 0xFFFF_8000_0012_0000 (omega arith) 0x8000
      0xFFFF_7FFF_FFF0_0000 running running-IsHandedOver

-- Where the address was.
old_place : walk (identity paged) 4 0x8000 0xFFFF_8000_0010_0123 ≡ some 0x20_0123
unfolding walk
old_place = refl
