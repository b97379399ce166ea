-- ===== src/Paging/Clone/Takeover.antt =====
-- What `setup_paging` starts from, and what a part of its loops leaves.
use aidos.Common.{ℕ, ◌+◌, ◌*◌, ◌-◌, ◌/◌, ◌%◌, ◌^◌, ◌≤◌, ◌<◌, ◌≡◌, ◌⊎◌}
use aidos.Mem.{Memory}
use aidos.Heap.Laws.{IsHeap}
use aidos.Paging.{Kernel, entry}
use aidos.Paging.Lookup.{addr}
use aidos.Paging.Clone.Copy.{frontier, Room, Safe, IsOldTree, IsPlaced}

-- The old tables in the memory `old`, the heap of the kernel from `lo` to `hi`, and its PML4.
pub record Takeover : Type 0 where
  pub lo : ℕ
  pub hi : ℕ
  pub offset : ℕ
  pub pml4 : ℕ
  pub old_pml4 : ℕ
  pub old : Memory
  pub level : ℕ → ℕ
  pub tree : IsOldTree old lo hi pml4 level
  pub fits : hi + 0x10000 < 2 ^ 64
  pub low : 4096 ≤ lo
  pub above : offset ≤ lo
  pub below : hi ≤ offset + 2 ^ 52
  pub offset_aligned : offset % 4096 ≡ 0
  pub placed :
      (p : ℕ)
      → p % 4096 ≡ 0
      → lo ≤ p
      → p + 4096 ≤ hi
      → IsPlaced old lo hi pml4 old_pml4 p (p - offset)
  pub pml4_aligned : pml4 % 4096 ≡ 0
  pub pml4_apart : (pml4 + 4096 ≤ lo) ⊎ (hi ≤ pml4)

module _ (g : Takeover) where
  -- The heap is in its place, and the safe cells are as they were.
  pub record Stands (s : Kernel) : Type 0 where
    pub heap_ok : IsHeap s.heap
    pub base_ok : s.heap.heap_base ≡ g.lo
    pub end_ok : s.heap.heap_base + s.heap.heap_size ≡ g.hi
    pub offset_ok : s.kernel_offset ≡ g.offset
    pub old_kept : (c : ℕ) → Safe g.lo g.hi g.pml4 c → s.mem c ≡ g.old c

  -- A cell of what was given out up to `top`, or outside of the heap.
  abbrev pub Settled : (top c : ℕ) → Type 0
  Settled top c = (c * 8 + 8 ≤ top) ⊎ (g.hi ≤ c * 8)

  -- A table that the kernel has: a page given out by the heap, or the PML4.
  abbrev pub IsOwn : (top t : ℕ) → Type 0
  IsOwn top t = ((t % 4096 ≡ 0) × (g.lo ≤ t) × (t + 4096 ≤ top)) ⊎ (t ≡ g.pml4)

  -- From `s` to `s'`, a part of a loop over the entries of `t` from `i` on took its pages from the heap,
  -- has left `k` of them, and has changed nothing but them and `left` entries.
  pub record Grown (t i left k : ℕ) (s s' : Kernel) : Type 0 where
    pub stands : Stands s'
    pub grown : frontier s ≤ frontier s'
    pub room : Room k s'
    pub kept :
        (c : ℕ)
        → Settled (frontier s) c
        → (c < t / 8 + i) ⊎ (t / 8 + i + left ≤ c)
        → s'.mem c ≡ s.mem c

  -- The copy of the table that `e` names is in a new page and linked from entry `i` of `t`, with the
  -- flags of `e`.
  pub record Entered (t i k e : ℕ) (s : Kernel) (p : ℕ) (s' : Kernel) : Type 0 where
    pub aligned : p % 4096 ≡ 0
    pub fresh : frontier s ≤ p
    pub last : p + 4096 ≡ frontier s'
    pub grown : Grown t i 1 k s s'
    pub copied : (j : ℕ) → j < 512 → entry s'.mem p j ≡ entry g.old (addr e) j
    pub link : entry s'.mem t i ≡ p - g.offset + e % 4096
