-- ===== src/Paging/Tree.antt =====
-- The invariant of the kernel's tables: they form a tree below the PML4. Two ghost functions say,
-- of each page, the level of the table that it holds (0 if none) and the bits of the virtual
-- addresses that lead to that table.
use aidos.Common.{
  ℕ, suc, ◌+◌, ◌*◌, ◌-◌, ◌/◌, ◌%◌, ◌^◌, ◌≤◌, ◌<◌, ◌≡◌, ◌⊎◌, arith, none, u64, ap, if◌then◌else◌,
}
use aidos.Heap.Laws.{IsHeap}
use aidos.Paging.{Kernel, entry}
use aidos.Paging.Mmu.{phys_entry, index_at, frame, is_present, is_large, large_page, walk}

-- The virtual address of the table that a plain entry names.
abbrev pub child : Kernel → ℕ → ℕ
child s e = e / 4096 * 4096 + s.kernel_offset

-- An entry that leads on to a table.
abbrev pub Leads : ℕ → Type 0
Leads e = (e % 2 ≡ 1) × (e / 128 % 2 ≡ 0)

-- The tables stand in the window of the kernel, apart from the free part of the heap, and so does
-- each table that the heap will give.
pub record InWindow (s : Kernel) (t : ℕ) : Type 0 where
  pub nonzero : 0 < t
  pub aligned : t % 4096 ≡ 0
  pub above : s.kernel_offset ≤ t
  pub below : t + 4096 ≤ s.kernel_offset + 2 ^ 52
  pub whole : t + 4096 ≤ 2 ^ 64

pub record IsTree (s : Kernel) (level prefix : ℕ → ℕ) : Type 0 where
  pub heap_ok : IsHeap s.heap
  pub heap_above : s.kernel_offset ≤ s.heap.heap_base
  pub heap_below : s.heap.heap_base + s.heap.heap_size ≤ s.kernel_offset + 2 ^ 52
  pub heap_whole : s.heap.heap_base + s.heap.heap_size + 0x10000 ≤ 2 ^ 64
  pub offset_aligned : s.kernel_offset % 4096 ≡ 0
  pub root : level s.pml4 ≡ 4
  pub root_prefix : prefix s.pml4 ≡ 0
  pub window : (t : ℕ) → 0 < level t → InWindow s t
  pub taken :
      (t : ℕ)
      → 0 < level t
      → (t + 4096 ≤ s.heap.heap_base + s.heap.heap_offset)
        ⊎ (s.heap.heap_base + s.heap.heap_size ≤ t)
  pub small : (t i : ℕ) → 1 < level t → i < 512 → Leads (entry s.mem t i) → entry s.mem t i < 2 ^ 52
  pub below :
      (t i : ℕ)
      → 1 < level t
      → i < 512
      → Leads (entry s.mem t i)
      → suc (level (child s (entry s.mem t i))) ≡ level t
  pub below_prefix :
      (t i : ℕ)
      → 1 < level t
      → i < 512
      → Leads (entry s.mem t i)
      → prefix (child s (entry s.mem t i)) ≡ prefix t * 512 + i

pub InWindow-same :
    (s s' : Kernel) (t : ℕ) → s'.kernel_offset ≡ s.kernel_offset → InWindow s t → InWindow s' t
InWindow-same s s' t e w = ground arith

-- The processor reads the entries that the kernel reads.
pub phys_entry-eq-entry :
    (s : Kernel) (t i : ℕ)
    → InWindow s t
    → i < 512
    → phys_entry s (t - s.kernel_offset) i ≡ entry s.mem t i
phys_entry-eq-entry s t i w lt =
    let same : u64 (t - s.kernel_offset + 8 * i + s.kernel_offset) / 8 ≡ t / 8 + i = omega arith in
    ap s.mem same

pub frame-eq-child : (s : Kernel) (e : ℕ) → e < 2 ^ 52 → frame e ≡ child s e - s.kernel_offset
frame-eq-child s e lt = omega arith

-- One step of the walk, from a table of the tree.
pub walk-suc :
    (s : Kernel) (n t va : ℕ)
    → InWindow s t
    → walk s (suc n) (t - s.kernel_offset) va ≡ (
        let e = entry s.mem t (index_at n va) in
        if is_present e
        then (if is_large n e then large_page n e va else walk s n (frame e) va)
        else none)
unfolding walk
walk-suc s n t va w = rw (phys_entry-eq-entry s t (index_at n va) w (omega arith))
