-- ===== src/Paging/Lookup.antt =====
-- `virt_to_phys` against the processor's walk. The function reads the tables through the identity
-- mapping, so it is compared with a walk in which physical and virtual addresses are the same.
use mathlib.Core.Option
use aidos.Common.{
  ℕ, suc, ◌+◌, ◌*◌, ◌/◌, ◌%◌, ◌^◌, ◌<◌, ◌≡◌, refl, arith, none, some, Bool, true, false, not, ◌∙◌,
  ◌==◌, if◌then◌else◌, bit_and, u64, [],
}
use aidos.Mem.{Memory}
use aidos.Paging.{Kernel, entry, virt_to_phys}
use aidos.Paging.Entry.{index_bits, present_bit, pse_bit, addr_bits}
use aidos.Common.Bits.{bit_and_mask}
use aidos.Paging.Mmu.{index_at, walk, frame, is_large}

-- A kernel that sees physical memory as it is.
abbrev pub identity : Memory → Kernel
identity m = record {
  mem = m;
  heap = record { heap_base = 0; heap_size = 0; heap_offset = 0 };
  pml4 = 0;
  kernel_offset = 0;
  cr3 = 0;
  flushed = [];
}

-- The address of the table or frame of an entry, as `virt_to_phys` takes it: bits 12 to 47.
abbrev pub addr : ℕ → ℕ
addr e = e / 4096 % 2 ^ 36 * 4096

-- An entry whose frame lies below 2 ^ 48.
abbrev pub IsNear : ℕ → Type 0
IsNear e = frame e ≡ addr e

-- The entries on the way of `va`, from the PML4 at `t`.
abbrev pub e4 : Memory → (va t : ℕ) → ℕ
e4 m va t = entry m t (index_at 3 va)

abbrev pub e3 : Memory → (va t : ℕ) → ℕ
e3 m va t = entry m (addr (e4 m va t)) (index_at 2 va)

abbrev pub e2 : Memory → (va t : ℕ) → ℕ
e2 m va t = entry m (addr (e3 m va t)) (index_at 1 va)

abbrev pub e1 : Memory → (va t : ℕ) → ℕ
e1 m va t = entry m (addr (e2 m va t)) (index_at 0 va)

offset_1g : (va : ℕ) → bit_and va 0x3FFF_FFFF ≡ va % 2 ^ 30
offset_1g va = bit_and_mask 30 va

offset_2m : (va : ℕ) → bit_and va 0x1F_FFFF ≡ va % 2 ^ 21
offset_2m va = bit_and_mask 21 va

offset_4k : (va : ℕ) → bit_and va 0xFFF ≡ va % 4096
offset_4k va = bit_and_mask 12 va

pse_test : (e : ℕ) → not (e / 128 % 2 * 128 == 0) ≡ (e / 128 % 2 == 1)
pse_test e = ground arith

-- The code without its bit operations.
pub virt_to_phys_lem :
    (m : Memory) (va t : ℕ)
    → virt_to_phys m va t ≡ (
        if e4 m va t % 2 == 0
        then 0
        else if e4 m va t / 128 % 2 == 1
        then u64 (addr (e4 m va t) + va % 2 ^ 30)
        else if e3 m va t % 2 == 0
        then 0
        else if e3 m va t / 128 % 2 == 1
        then u64 (addr (e3 m va t) + va % 2 ^ 21)
        else if e2 m va t % 2 == 0
        then 0
        else if e1 m va t % 2 == 0
        then 0
        else u64 (addr (e1 m va t) + va % 4096))
unfolding virt_to_phys
virt_to_phys_lem m va t =
    simp (index_bits, present_bit, pse_bit, addr_bits, offset_1g, offset_2m, offset_4k)
      (simp pse_test refl)

-- The table at `t`, and the entries on the way of `va`, name tables and frames below 2 ^ 48, and none
-- of them is a large page.
pub record IsOrdinary (m : Memory) (va t : ℕ) : Type 0 where
  pub aligned : t % 4096 ≡ 0
  pub below : t < 2 ^ 48
  pub near4 : IsNear (e4 m va t)
  pub near3 : IsNear (e3 m va t)
  pub near2 : IsNear (e2 m va t)
  pub near1 : IsNear (e1 m va t)
  pub small4 : e4 m va t / 128 % 2 ≡ 0
  pub small3 : e3 m va t / 128 % 2 ≡ 0
  pub small2 : e2 m va t / 128 % 2 ≡ 0

-- One level of the walk.
walk-near :
    (m : Memory) (n t va : ℕ)
    → t % 4096 ≡ 0
    → t < 2 ^ 48
    → IsNear (entry m t (index_at n va))
    → is_large n (entry m t (index_at n va)) ≡ false
    → walk (identity m) (suc n) t va ≡ (
        if entry m t (index_at n va) % 2 == 0
        then none
        else walk (identity m) n (addr (entry m t (index_at n va))) va)
unfolding walk
walk-near m n t va aligned below near small =
    let cell : u64 (t + 8 * index_at n va + 0) / 8 ≡ t / 8 + index_at n va = omega arith in
    rw cell (rw (small, near) (ground arith))

-- The walk with the branches of the code.
pub walk-ordinary :
    (m : Memory) (va t : ℕ)
    → IsOrdinary m va t
    → walk (identity m) 4 t va ≡ (
        if e4 m va t % 2 == 0
        then none
        else if e3 m va t % 2 == 0
        then none
        else if e2 m va t % 2 == 0
        then none
        else if e1 m va t % 2 == 0
        then none
        else some (addr (e1 m va t) + va % 4096))
walk-ordinary m va t o =
    let w4 = walk-near m 3 t va o.aligned o.below o.near4 (ground arith) in
    let w3 =
      walk-near m 2 (addr (e4 m va t)) va (omega arith) (omega arith) o.near3 (ground arith) in
    let w2 =
      walk-near m 1 (addr (e3 m va t)) va (omega arith) (omega arith) o.near2 (ground arith) in
    let w1 = walk-near m 0 (addr (e2 m va t)) va (omega arith) (omega arith) o.near1 refl in
    w4 ∙ rw w3 (rw w2 (rw w1 (unfold walk in refl)))

ladder :
    (a b c d : Bool) (x : ℕ)
    → (if a then 0 else if b then 0 else if c then 0 else if d then 0 else x)
      ≡ Option.get_or
          (if a then none else if b then none else if c then none else if d then none else some x)
          0
ladder true b c d x = refl
ladder false true c d x = refl
ladder false false true d x = refl
ladder false false false true x = refl
ladder false false false false x = refl

large_walk :
    (m : Memory) (t va : ℕ)
    → t % 4096 ≡ 0
    → t < 2 ^ 48
    → entry m t (index_at 1 va) % 2 ≡ 1
    → entry m t (index_at 1 va) / 128 % 2 ≡ 1
    → walk (identity m) 2 t va
      ≡ some (entry m t (index_at 1 va) / 2 ^ 21 % 2 ^ 31 * 2 ^ 21 + va % 2 ^ 21)
unfolding walk
large_walk m t va aligned below there large =
    let cell : u64 (t + 8 * index_at 1 va + 0) / 8 ≡ t / 8 + index_at 1 va = omega arith in
    rw cell (rw (there, large) refl)

-- Where no large page is met and every frame lies below 2 ^ 48, `virt_to_phys` is the processor's
-- walk, with 0 for an address that is not mapped.
pub virt_to_phys-walk :
    (m : Memory) (va t : ℕ)
    → IsOrdinary m va t
    → virt_to_phys m va t ≡ Option.get_or (walk (identity m) 4 t va) 0
virt_to_phys-walk m va t o =
    let plain4 : (e4 m va t / 128 % 2 == 1) ≡ false = ground arith in
    let plain3 : (e3 m va t / 128 % 2 == 1) ≡ false = ground arith in
    let fits : u64 (addr (e1 m va t) + va % 4096) ≡ addr (e1 m va t) + va % 4096 = omega arith in
    virt_to_phys_lem m va t
    ∙ rw (plain4, plain3, fits)
        (rw (walk-ordinary m va t o) (
          ladder (e4 m va t % 2 == 0) (e3 m va t % 2 == 0) (e2 m va t % 2 == 0) (e1 m va t % 2 == 0)
            (addr (e1 m va t) + va % 4096)))

-- An address under a large page of 2 MiB, whose first half of the way is ordinary. The content of the
-- page is even at the place that `virt_to_phys` takes for an entry.
pub record IsUnderLarge (m : Memory) (va t : ℕ) : Type 0 where
  pub aligned : t % 4096 ≡ 0
  pub below : t < 2 ^ 48
  pub near4 : IsNear (e4 m va t)
  pub near3 : IsNear (e3 m va t)
  pub small4 : e4 m va t / 128 % 2 ≡ 0
  pub small3 : e3 m va t / 128 % 2 ≡ 0
  pub present4 : e4 m va t % 2 ≡ 1
  pub present3 : e3 m va t % 2 ≡ 1
  pub present2 : e2 m va t % 2 ≡ 1
  pub large2 : e2 m va t / 128 % 2 ≡ 1
  pub content : e1 m va t % 2 ≡ 0

-- An address under a present large page of 2 MiB, whose first cell that `virt_to_phys` takes for an
-- entry is even, is mapped by the processor, and `virt_to_phys` says that it is not.
pub virt_to_phys_large :
    (m : Memory) (va t : ℕ)
    → IsUnderLarge m va t
    → (virt_to_phys m va t ≡ 0)
      × (walk (identity m) 4 t va ≡ some (e2 m va t / 2 ^ 21 % 2 ^ 31 * 2 ^ 21 + va % 2 ^ 21))
virt_to_phys_large m va t o =
    let w4 = walk-near m 3 t va o.aligned o.below o.near4 (ground arith) in
    let w3 =
      walk-near m 2 (addr (e4 m va t)) va (omega arith) (omega arith) o.near3 (ground arith) in
    (
      virt_to_phys_lem m va t ∙ ground arith,
      w4
          ∙ rw o.present4 (
              rw w3 (
                rw o.present3 (
                  large_walk m (addr (e3 m va t)) va (omega arith) (omega arith) o.present2
                    o.large2))),
    )
