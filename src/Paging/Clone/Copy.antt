-- ===== src/Paging/Clone/Copy.antt =====
-- What it means that a table of the kernel stands for a table of the bootloader: the processor's walk
-- from it, through the window of the kernel, ends where the walk from the old table ends.
use aidos.Common.{
  ℕ, zero, suc, ◌+◌, ◌*◌, ◌-◌, ◌/◌, ◌%◌, ◌^◌, ◌≤◌, ◌<◌, ◌≡◌, ◌⊎◌, refl, arith, Option, none, some,
  ◌∙◌, true, false, if◌then◌else◌,
}
use aidos.Mem.{Memory}
use aidos.Paging.{Kernel, entry, virt_to_phys}
use aidos.Paging.Mmu.{phys_entry, index_at, frame, is_present, is_large, large_page, walk}
use aidos.Paging.Tree.{InWindow, Leads, walk-suc}
use aidos.Paging.Lookup.{identity, addr, IsOrdinary, virt_to_phys-walk}
use aidos.Paging.Clone.{leads_on}
use aidos.Paging.Clone.Laws.{cell4, cell3, cell2, cell1}
use aidos.Paging.Clone.Frame.{Kept}

-- The number of copies that a loop over `left` entries from `i` on of the old table `t` takes, `n` levels
-- of loops deep.
unfoldable pub tables : Memory → (n left i t : ℕ) → ℕ
tables m zero left i t = 0
tables m (suc n) zero i t = 0
tables m (suc n) (suc left) i t =
    let rest = tables m (suc n) left (i + 1) t in
    elim (leads_on (entry m t i)) [
      | true ↦ suc (tables m n 512 0 (addr (entry m t i)) + rest)
      | false ↦ rest
    ]

-- Where the heap will next give a block.
abbrev pub frontier : Kernel → ℕ
frontier s = s.heap.heap_base + s.heap.heap_offset

-- The heap can give `k` pages.
abbrev pub Room : (k : ℕ) → Kernel → Type 0
Room k s = (frontier s + 4095) / 4096 * 4096 + 4096 * k < s.heap.heap_base + s.heap.heap_size

-- The memory seen through the window that begins at `offset`.
abbrev pub through : (offset : ℕ) → Memory → Kernel
through offset m = record (identity m) { kernel_offset = offset }

-- Where `e`, an entry of a table of level n + 1, takes the walk of `va`.
abbrev pub from_entry : Kernel → (n e va : ℕ) → Option ℕ
from_entry s n e va =
    if is_present e
    then (if is_large n e then large_page n e va else walk s n (frame e) va)
    else none

-- The walk reads nothing of the kernel but the memory and the offset.
pub walk-through :
    (s : Kernel) (n t va : ℕ) → walk s n t va ≡ walk (through s.kernel_offset s.mem) n t va
unfolding walk
walk-through s zero t va = refl
walk-through s (suc n) t va = rw (walk-through s n (frame (phys_entry s t (index_at n va))) va) refl

-- A cell that is neither in page 0, nor in the heap, nor in the page of the PML4.
abbrev pub Safe : (lo hi pml4 c : ℕ) → Type 0
Safe lo hi pml4 c = Kept lo hi c × ((c < pml4 / 8) ⊎ (pml4 / 8 + 512 ≤ c))

-- The old tables form a tree, `level` says of each page the level of the table that it holds (0 if none).
-- They lie below 2 ^ 48, in safe cells.
pub record IsOldTree (m : Memory) (lo hi pml4 : ℕ) (level : ℕ → ℕ) : Type 0 where
  pub aligned : (t : ℕ) → 0 < level t → t % 4096 ≡ 0
  pub low : (t : ℕ) → 0 < level t → t < 2 ^ 48
  pub safe : (t i : ℕ) → 0 < level t → i < 512 → Safe lo hi pml4 (t / 8 + i)
  pub small : (t i : ℕ) → 1 < level t → i < 512 → Leads (entry m t i) → entry m t i < 2 ^ 48
  pub below :
      (t i : ℕ)
      → 1 < level t
      → i < 512
      → Leads (entry m t i)
      → suc (level (addr (entry m t i))) ≡ level t

-- The processor finds the page `p` at `pa` by the old tables, with no large page on its way, and what they
-- say of it stands in safe cells.
pub record IsPlaced (m : Memory) (lo hi pml4 old_pml4 p pa : ℕ) : Type 0 where
  pub safe4 : Safe lo hi pml4 (cell4 old_pml4 p)
  pub safe3 : Safe lo hi pml4 (cell3 m old_pml4 p)
  pub safe2 : Safe lo hi pml4 (cell2 m old_pml4 p)
  pub safe1 : Safe lo hi pml4 (cell1 m old_pml4 p)
  pub ordinary : IsOrdinary m p old_pml4
  pub place : walk (identity m) 4 old_pml4 p ≡ some pa

-- Then the kernel finds it there, too.
pub virt_to_phys-mapped :
    (m : Memory) (va old_pml4 pa : ℕ)
    → IsOrdinary m va old_pml4
    → walk (identity m) 4 old_pml4 va ≡ some pa
    → virt_to_phys m va old_pml4 ≡ pa
virt_to_phys-mapped m va old_pml4 pa ordinary place =
    virt_to_phys-walk m va old_pml4 ordinary ∙ rw place refl

-- One step of a walk through a window.
pub walk-from_entry :
    (offset : ℕ) (m : Memory) (n t va : ℕ)
    → InWindow (through offset m) t
    → walk (through offset m) (suc n) (t - offset) va
      ≡ from_entry (through offset m) n (entry m t (index_at n va)) va
walk-from_entry offset m n t va w = walk-suc (through offset m) n t va w

-- Where the walk goes from an old entry, and from one that names a table of the same bits.
pub from_entry-link :
    (s : Kernel) (n p f va : ℕ)
    → p % 4096 ≡ 0
    → p < 2 ^ 52
    → f < 4096
    → f % 2 ≡ 1
    → f / 128 % 2 ≡ 0
    → from_entry s n (p + f) va ≡ walk s n p va
from_entry-link s n p f va al lt fl on small =
    let to : frame (p + f) ≡ p = omega arith in
    let there : is_present (p + f) ≡ true = ground arith in
    let plain : is_large n (p + f) ≡ false = ground arith in rw (there, plain, to) refl

pub tables-leads :
    (m : Memory) (n left i t : ℕ)
    → leads_on (entry m t i) ≡ true
    → tables m (suc n) (suc left) i t
      ≡ suc (tables m n 512 0 (addr (entry m t i)) + tables m (suc n) left (i + 1) t)
unfolding tables
tables-leads m n left i t on = rw (on, tables) refl

pub tables-ends :
    (m : Memory) (n left i t : ℕ)
    → leads_on (entry m t i) ≡ false
    → tables m (suc n) (suc left) i t ≡ tables m (suc n) left (i + 1) t
unfolding tables
tables-ends m n left i t off = rw (off, tables) refl

pub tables-none : (m : Memory) (n i t : ℕ) → tables m (suc n) 0 i t ≡ 0
unfolding tables
tables-none m n i t = refl
