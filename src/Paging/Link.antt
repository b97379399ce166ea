-- ===== src/Paging/Link.antt =====
-- Linking a fresh table into the tree: what `get_or_create_table` does to memory on a missing entry.
use aidos.Common.{
  ℕ, suc, ◌+◌, ◌*◌, ◌-◌, ◌/◌, ◌%◌, ◌^◌, ◌≤◌, ◌<◌, ◌≡◌, ◌≢◌, ◌⊎◌, inl, inr, arith, ◌==◌,
  if◌then◌else◌, Bool-cases, ==_iff,
}
use aidos.Heap.{Heap}
use aidos.Heap.Blocks.{IsBlock, IsBlock-IsHeap}
use aidos.Mem.{Memory, write, memset}
use aidos.Mem.Laws.{memset_lem}
use aidos.Paging.{Kernel, entry}
use aidos.Paging.Tree.{InWindow, IsTree, Leads, child}

-- The entry that links the table `p`, and memory with that table cleared and linked.
abbrev pub link_entry : Kernel → ℕ → ℕ
link_entry s p = p - s.kernel_offset + 3

abbrev pub linked_mem : Kernel → (parent index p : ℕ) → Memory
linked_mem s parent index p =
    write (memset s.mem (p / 8) 0 512) (parent / 8 + index) (link_entry s p)

-- Two slots are the same, or differ in the table or in the index.
pub same_slot : (t i u j : ℕ) → ((t ≡ u) × (i ≡ j)) ⊎ (t ≢ u) ⊎ (i ≢ j)
same_slot t i u j = elim (Bool-cases (t == u)) [
  | inr ne ↦ inr (inl (ground arith))
  | inl e ↦ elim (Bool-cases (i == j)) [
    | inl e' ↦ inl (ground arith)
    | inr ne ↦ inr (inr (ground arith))
  ]
]

-- Cells of two tables are apart if the tables or the indices are.
pub cells_apart :
    (t u i j : ℕ)
    → t % 4096 ≡ 0
    → u % 4096 ≡ 0
    → i < 512
    → j < 512
    → (t ≢ u) ⊎ (i ≢ j)
    → t / 8 + i ≢ u / 8 + j
cells_apart t u i j ht hu hi hj (inl ne) e = ne (omega arith)
cells_apart t u i j ht hu hi hj (inr ne) e = ne (omega arith)

module _ (s : Kernel) {level prefix : ℕ → ℕ} (tree : IsTree s level prefix) (parent index p : ℕ)
    (heap' : Heap) (inner : 1 < level parent) (lt : index < 512)
    (block : IsBlock 4096 12 s.heap p heap') where
  abbrev pub level' : ℕ → ℕ
  level' t = if t == p then level parent - 1 else level t

  abbrev pub prefix' : ℕ → ℕ
  prefix' t = if t == p then prefix parent * 512 + index else prefix t

  abbrev pub s' : Kernel
  s' = record s { mem = linked_mem s parent index p; heap = heap' }

  pub fresh_lem : level p ≡ 0
  fresh_lem = elim (Bool-cases (level p == 0)) [
    | inl e ↦ ground arith
    | inr ne ↦ absurd (ground (arith, tree.taken p, tree.heap_ok, block.above, block.inside))
  ]

  pub p-InWindow : InWindow s p
  p-InWindow = ground (
    arith, tree.heap_ok, tree.heap_above, tree.heap_below, block.aligned, block.above, block.inside,
  )

  pub table-ne-fresh : (u : ℕ) → 0 < level u → u ≢ p
  table-ne-fresh u pos e = ground (arith, fresh_lem)

  pub entry-linked : entry (linked_mem s parent index p) parent index ≡ link_entry s p
  entry-linked = ground arith

  pub entry-fresh : (i : ℕ) → i < 512 → entry (linked_mem s parent index p) p i ≡ 0
  entry-fresh i h = ground (
    arith,
    memset_lem s.mem (p / 8) 0 512 (p / 8 + i),
    cells_apart p parent i index p-InWindow.aligned (tree.window parent (omega arith)).aligned h lt
        (inl λ e. table-ne-fresh parent (omega arith) (omega arith)),
  )

  pub entry-other :
      (u i : ℕ)
      → 0 < level u
      → i < 512
      → (u ≢ parent) ⊎ (i ≢ index)
      → entry (linked_mem s parent index p) u i ≡ entry s.mem u i
  entry-other u i pos h ne = ground (
    arith,
    memset_lem s.mem (p / 8) 0 512 (u / 8 + i),
    cells_apart u parent i index (tree.window u pos).aligned
        (tree.window parent (omega arith)).aligned h lt ne,
    p-InWindow.aligned,
    (tree.window u pos).aligned,
    table-ne-fresh u pos,
  )

  -- The linking entry is that of a table: present, not large, and it names `p`.
  pub link_entry_lem :
      Leads (link_entry s p) × (link_entry s p < 2 ^ 52) × (child s (link_entry s p) ≡ p)
  link_entry_lem =
      let w = p-InWindow in omega (arith, tree.offset_aligned, w.aligned, w.above, w.below)

  -- What the invariant says of the entry `i` of `t`.
  abbrev Linked : (t i : ℕ) → Type 0
  Linked t i =
      let e = entry (linked_mem s parent index p) t i in
      (e < 2 ^ 52)
      × (suc (level' (child s' e)) ≡ level' t)
      × (prefix' (child s' e) ≡ prefix' t * 512 + i)

  pub level'-old : (u : ℕ) → 0 < level u → level' u ≡ level u
  level'-old u pos = ground (arith, table-ne-fresh u pos)

  pub prefix'-old : (u : ℕ) → 0 < level u → prefix' u ≡ prefix u
  prefix'-old u pos = ground (arith, table-ne-fresh u pos)

  level'-new : level' p ≡ level parent - 1
  level'-new = ground arith

  prefix'-new : prefix' p ≡ prefix parent * 512 + index
  prefix'-new = ground arith

  Linked-parent : Linked parent index
  Linked-parent = rw entry-linked (
    link_entry_lem.1,
    rw link_entry_lem.2 (omega (arith, level'-new, level'-old parent (omega arith))),
    rw link_entry_lem.2 (omega (arith, prefix'-new, prefix'-old parent (omega arith))),
  )

  Linked-other :
      (t i : ℕ)
      → 1 < level t
      → i < 512
      → (t ≢ parent) ⊎ (i ≢ index)
      → Leads (entry (linked_mem s parent index p) t i)
      → Linked t i
  Linked-other t i pos h ne leads =
      let same = entry-other t i (omega arith) h ne in
      let old : Leads (entry s.mem t i) = rw same at leads in
      let down = tree.below t i pos h old in
      let c = child s (entry s.mem t i) in
      rw same (
        tree.small t i pos h old,
        omega (arith, down, level'-old c (omega (arith, down)), level'-old t (omega arith)),
        omega (
          arith,
          tree.below_prefix t i pos h old,
          prefix'-old c (omega (arith, down)),
          prefix'-old t (omega arith),
        ),
      )

  Linked_lem :
      (t i : ℕ)
      → 1 < level' t
      → i < 512
      → Leads (entry (linked_mem s parent index p) t i)
      → Linked t i
  Linked_lem t i pos h leads = elim (Bool-cases (t == p)) [
    | inl new ↦ absurd (fresh_leads_not t i ((==_iff t p).0 new) h leads)
    | inr old ↦ elim (same_slot t i parent index) [
      | inl (e, e') ↦ rw (e, e') Linked-parent
      | inr other ↦ Linked-other t i (rw old at pos) h other leads
    ]
  ]
    where
      fresh_leads_not :
          (t i : ℕ) → t ≡ p → i < 512 → Leads (entry (linked_mem s parent index p) t i) → ⊥
      fresh_leads_not t i e h (one, _) =
          let zero_entry : entry (linked_mem s parent index p) t i ≡ 0 = rw e (entry-fresh i h) in
          omega (arith, rw zero_entry at one)

  InWindow_lem : (t : ℕ) → 0 < level' t → InWindow s' t
  InWindow_lem t pos = elim (Bool-cases (t == p)) [
    | inl new ↦ ground (arith, p-InWindow)
    | inr old ↦ ground (arith, tree.window t (rw old at pos))
  ]

  taken_lem :
      (t : ℕ)
      → 0 < level' t
      → (t + 4096 ≤ heap'.heap_base + heap'.heap_offset) ⊎ (heap'.heap_base + heap'.heap_size ≤ t)
  taken_lem t pos = elim (Bool-cases (t == p)) [
    | inl new ↦ inl (ground (arith, block))
    | inr old ↦ ground (arith, tree.taken t (rw old at pos), block)
  ]

  -- The tables form a tree again, with the new one in it.
  pub linked-IsTree : IsTree s' level' prefix'
  linked-IsTree = record {
    heap_ok = IsBlock-IsHeap tree.heap_ok block;
    heap_above = omega (arith, tree.heap_above, block);
    heap_below = omega (arith, tree.heap_below, block);
    heap_whole = omega (arith, tree.heap_whole, block);
    offset_aligned = tree.offset_aligned;
    root = omega (arith, level'-old s.pml4 (omega (arith, tree.root)), tree.root);
    root_prefix = omega (arith, prefix'-old s.pml4 (omega (arith, tree.root)), tree.root_prefix);
    window = InWindow_lem;
    taken = taken_lem;
    small = λ t i pos h leads. (Linked_lem t i pos h leads).0;
    below = λ t i pos h leads. (Linked_lem t i pos h leads).1;
    below_prefix = λ t i pos h leads. (Linked_lem t i pos h leads).2;
  }
