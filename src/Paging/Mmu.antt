-- ===== src/Paging/Mmu.antt =====
-- The processor's own walk through the levels of tables, over physical memory. It is written from
-- the levels up, independently of the kernel's code, and is what that code is measured against.
-- Physical address `a` is the cell that the kernel reaches at `a + KERNEL_OFFSET`.
use aidos.Common.{
  ℕ, zero, suc, ◌+◌, ◌*◌, ◌-◌, ◌/◌, ◌%◌, ◌^◌, Option, none, some, Bool, ◌&&◌, leb, ◌==◌,
  if◌then◌else◌, u64,
}
use aidos.Paging.{Kernel}

abbrev pub phys_entry : Kernel → (table index : ℕ) → ℕ
phys_entry s table index = s.mem (u64 (table + 8 * index + s.kernel_offset) / 8)

-- A table of level n + 1 is indexed by the nine bits from 12 + 9 * n on.
abbrev pub index_at : (n va : ℕ) → ℕ
index_at n va = va / 2 ^ (12 + 9 * n) % 512

-- The frame that an entry names: bits 12 to 51.
abbrev pub frame : ℕ → ℕ
frame e = e / 4096 % 2 ^ 40 * 4096

abbrev pub is_present : ℕ → Bool
is_present e = e % 2 == 1

-- Bit 7 marks a large page in an entry of level 2 or 3. At level 4 it is reserved.
abbrev pub is_large : (n e : ℕ) → Bool
is_large n e = leb 1 n && (e / 128 % 2 == 1)

abbrev pub large_page : (n e va : ℕ) → Option ℕ
large_page n e va =
    if leb n 2
    then some (e / 2 ^ (12 + 9 * n) % 2 ^ (40 - 9 * n) * 2 ^ (12 + 9 * n) + va % 2 ^ (12 + 9 * n))
    else none

-- From level 0, a frame, to level 4, the PML4. `none` is a page fault.
unfoldable pub walk : Kernel → (level table va : ℕ) → Option ℕ
walk s zero table va = some (table + va % 4096)
walk s (suc n) table va =
    let e = phys_entry s table (index_at n va) in
    let rest = walk s n (frame e) va in
    if is_present e then (if is_large n e then large_page n e va else rest) else none

-- Where an access to `va` goes, with the kernel's PML4 in CR3.
abbrev pub translate : Kernel → ℕ → Option ℕ
translate s va = walk s 4 (s.pml4 - s.kernel_offset) va
