-- ===== src/Paging/Create.antt =====
-- The contract of `get_or_create_table`.
use aidos.Common.{
  ℕ, zero, suc, ◌+◌, ◌-◌, ◌/◌, ◌%◌, ◌≤◌, ◌<◌, ◌≡◌, ◌⊎◌, inl, inr, refl, arith, none, some, true,
  false, ◌==◌, Bool-cases, ==_iff, ◌∙◌, sym, u64, bit_and, bit_or, sub64,
}
use aidos.Heap.{Heap, null, kmalloc}
use aidos.Heap.Blocks.{IsBlock, kmalloc-Served}
use aidos.Heap.Laws.{round_up_bounds}
use aidos.Paging.{Kernel, entry, get_or_create_table}
use aidos.Paging.Entry.{present_bit, page_bits, with_flags}
use aidos.Paging.Mmu.{index_at, walk, translate, frame, is_present, is_large}
use aidos.Paging.Tree.{InWindow, InWindow-same, IsTree, Leads, child, walk-suc}
use aidos.Paging.Link
use aidos.Paging.Link.{linked_mem, link_entry, same_slot}
use aidos.Paging.Walk.{walk_same}
use aidos.Paging.Grows.{Grows}

module _ (s : Kernel) {level prefix : ℕ → ℕ} (tree : IsTree s level prefix) (parent index : ℕ)
    (inner : 1 < level parent) (lt : index < 512) where
  parent-ne-null : (parent == null) ≡ false
  parent-ne-null = ground (arith, tree.window parent)

  -- The entry is there: it is followed.
  create-present :
      Leads (entry s.mem parent index)
      → get_or_create_table parent index s ≡ some (child s (entry s.mem parent index), s)
  unfolding get_or_create_table
  create-present leads =
      let e = entry s.mem parent index in
      let small = tree.small parent index inner lt leads in
      let w = tree.window (child s e) (omega (arith, tree.below parent index inner lt leads)) in
      let there : bit_and e 1 ≡ 1 = present_bit e ∙ leads.0 in
      let target : u64 (bit_and e 0xFFFF_FFFF_FFFF_F000 + s.kernel_offset) ≡ child s e =
        rw page_bits (omega (arith, w.whole)) in
      rw (parent-ne-null, there, target) refl

  -- The entry is missing and the heap gives a page.
  create-missing :
      (p : ℕ) (heap' : Heap)
      → entry s.mem parent index % 2 ≡ 0
      → kmalloc 4096 4096 s.heap ≡ (p, heap')
      → IsBlock 4096 12 s.heap p heap'
      → get_or_create_table parent index s
        ≡ some (p, record s { mem = linked_mem s parent index p; heap = heap' })
  unfolding get_or_create_table
  create-missing p heap' absent given block =
      let e = entry s.mem parent index in
      let missing : bit_and e 1 ≡ 0 = present_bit e ∙ absent in
      let w = Link.p-InWindow s tree parent index p heap' inner lt block in
      let real : (p == null) ≡ false = ground (arith, w.nonzero) in
      let link : bit_or (bit_or (sub64 p s.kernel_offset) 1) 2 ≡ link_entry s p =
        let plain : sub64 p s.kernel_offset ≡ p - s.kernel_offset = omega (arith, w) in
        rw plain (with_flags (p - s.kernel_offset) (omega (arith, w, tree.offset_aligned))) in
      rw (parent-ne-null, missing, given, real, link) refl

  -- A missing entry ends the walk, and so does one that leads to an empty table.
  walk-missing :
      (m va : ℕ)
      → InWindow s parent
      → entry s.mem parent (index_at m va) % 2 ≡ 0
      → walk s (suc m) (parent - s.kernel_offset) va ≡ none
  walk-missing m va w absent = walk-suc s m parent va w ∙ ground arith

  walk-linked :
      (p : ℕ) (heap' : Heap) (m va : ℕ)
      → IsBlock 4096 12 s.heap p heap'
      → level parent ≡ suc m
      → index ≡ index_at m va
      → let s' = record s { mem = linked_mem s parent index p; heap = heap' } in
        walk s' (suc m) (parent - s.kernel_offset) va ≡ none
  walk-linked p heap' zero va block lv e = absurd (omega arith)
  walk-linked p heap' (suc k) va block lv e =
      let s' : Kernel = record s { mem = linked_mem s parent index p; heap = heap' } in
      let link = Link.link_entry_lem s tree parent index p heap' inner lt block in
      let empty =
        Link.entry-fresh s tree parent index p heap' inner lt block (index_at k va) (omega arith) in
      let at_link : entry s'.mem parent (index_at (suc k) va) ≡ link_entry s p =
        rw (← e) (Link.entry-linked s tree parent index p heap' inner lt block) in
      let there : is_present (link_entry s p) ≡ true = ground (arith, link) in
      let plain : is_large (suc k) (link_entry s p) ≡ false = ground (arith, link) in
      let onward : frame (link_entry s p) ≡ p - s.kernel_offset =
        omega (arith, link, tree.offset_aligned) in
      let parent_window = InWindow-same s s' parent refl (tree.window parent (omega arith)) in
      let p_window =
        InWindow-same s s' p refl (Link.p-InWindow s tree parent index p heap' inner lt block) in
      walk-suc s' (suc k) parent va parent_window
      ∙ rw (at_link, there, plain, onward) (walk-suc s' k p va p_window ∙ rw empty)

  -- Linking a fresh table changes no translation.
  linked-same_walk :
      (p : ℕ) (heap' : Heap) (va : ℕ)
      → entry s.mem parent index % 2 ≡ 0
      → IsBlock 4096 12 s.heap p heap'
      → translate (record s { mem = linked_mem s parent index p; heap = heap' }) va ≡ translate s va
  linked-same_walk p heap' va absent block =
      walk_same s tree (linked_mem s parent index p) heap' va 3 s.pml4 (omega arith) tree.root
        (omega (arith, tree.root_prefix))
        λ m u lv pre. elim (same_slot u (index_at m va) parent index) [
          | inr ne ↦ inl (
              Link.entry-other s tree parent index p heap' inner lt block u (index_at m va)
                (omega arith) (omega arith) ne)
          | inl (e, e') ↦ inr (
              rw e (
                walk-linked p heap' m va block (rw e at lv) (sym e')
                ∙ sym (walk-missing m va (tree.window parent (omega arith)) (rw e' absent))))
        ]

  missing-Grows :
      (p : ℕ) (heap' : Heap)
      → entry s.mem parent index % 2 ≡ 0
      → (block : IsBlock 4096 12 s.heap p heap') → heap'.heap_offset ≤ s.heap.heap_offset + 8191
      → Grows s level prefix parent index p
          (record s { mem = linked_mem s parent index p; heap = heap' })
          (Link.level' s tree parent index p heap' inner lt block)
          (Link.prefix' s tree parent index p heap' inner lt block)
  missing-Grows p heap' absent block spent =
      let link = Link.link_entry_lem s tree parent index p heap' inner lt block in
      let at_link = Link.entry-linked s tree parent index p heap' inner lt block in
      record {
        tree = Link.linked-IsTree s tree parent index p heap' inner lt block;
        level_ok = ground arith;
        prefix_ok = ground arith;
        leads = rw at_link link.0;
        leads_to = rw at_link link.2;
        keep_level = Link.level'-old s tree parent index p heap' inner lt block;
        keep_prefix = Link.prefix'-old s tree parent index p heap' inner lt block;
        others = Link.entry-other s tree parent index p heap' inner lt block;
        stays = λ u i pos h leads. elim (same_slot u i parent index) [
          | inr ne ↦ Link.entry-other s tree parent index p heap' inner lt block u i pos h ne
          | inl (e, e') ↦ absurd (ground arith)
        ];
        fresh = λ u i pos old h. elim (Bool-cases (u == p)) [
          | inl new ↦
              let e : u ≡ p = (==_iff u p).0 new in
              rw e (Link.entry-fresh s tree parent index p heap' inner lt block i h)
          | inr ne ↦ absurd (ground arith)
        ];
        same_walk = λ va. linked-same_walk p heap' va absent block;
        spent = spent;
        same_heap = block.same_size;
        same_pml4 = refl;
        same_offset = refl;
      }

  present-Grows :
      Leads (entry s.mem parent index)
      → Grows s level prefix parent index (child s (entry s.mem parent index)) s level prefix
  present-Grows leads = record {
    tree = tree;
    level_ok = tree.below parent index inner lt leads;
    prefix_ok = tree.below_prefix parent index inner lt leads;
    leads = leads;
    leads_to = refl;
    keep_level = λ u pos. refl;
    keep_prefix = λ u pos. refl;
    others = λ u i pos h ne. refl;
    stays = λ u i pos h old. refl;
    fresh = λ u i pos old h. absurd (omega arith);
    same_walk = λ va. refl;
    spent = omega arith;
    same_heap = refl;
    same_pml4 = refl;
    same_offset = refl;
  }

pub parity : (e : ℕ) → (e % 2 ≡ 0) ⊎ (e % 2 ≡ 1)
parity e = omega arith

-- The result of a call that finds or makes the table.
pub record Got (s : Kernel) (level prefix : ℕ → ℕ) (parent index : ℕ) : Type 0 where
  pub t : ℕ
  pub s' : Kernel
  pub level' : ℕ → ℕ
  pub prefix' : ℕ → ℕ
  pub returns : get_or_create_table parent index s ≡ some (t, s')
  pub grows : Grows s level prefix parent index t s' level' prefix'

-- In a tree of tables, with two pages left in the heap, `get_or_create_table` returns the table
-- below an entry that is missing or leads to one: it makes and links an empty table or follows the
-- entry, and no translation changes.
pub get_or_create_table-Got :
    (s : Kernel) {level prefix : ℕ → ℕ}
    → IsTree s level prefix
    → (parent index : ℕ) → 1 < level parent
    → index < 512
    → (entry s.mem parent index % 2 ≡ 1 → entry s.mem parent index / 128 % 2 ≡ 0)
    → s.heap.heap_offset + 8192 ≤ s.heap.heap_size
    → Got s level prefix parent index
get_or_create_table-Got s {level} {prefix} tree parent index inner lt plain room =
    elim (parity (entry s.mem parent index)) [
      | inr there ↦ record {
        t = child s (entry s.mem parent index);
        s' = s;
        level' = level;
        prefix' = prefix;
        returns = create-present s tree parent index inner lt (there, plain there);
        grows = present-Grows s tree parent index inner lt (there, plain there);
      }
      | inl absent ↦
          elim (kmalloc-Served 4096 12 s.heap tree.heap_ok (omega (arith, tree.heap_whole))) [
            | inl (_, full) ↦
                absurd (omega (arith, round_up_bounds 12 (s.heap.heap_base + s.heap.heap_offset)))
            | inr block ↦ record {
              t = (kmalloc 4096 4096 s.heap).0;
              s' = record s {
                mem = linked_mem s parent index (kmalloc 4096 4096 s.heap).0;
                heap = (kmalloc 4096 4096 s.heap).1;
              };
              level' =
                  Link.level' s tree parent index (kmalloc 4096 4096 s.heap).0
                    (kmalloc 4096 4096 s.heap).1 inner lt block;
              prefix' =
                  Link.prefix' s tree parent index (kmalloc 4096 4096 s.heap).0
                    (kmalloc 4096 4096 s.heap).1 inner lt block;
              returns =
                  create-missing s tree parent index inner lt (kmalloc 4096 4096 s.heap).0
                    (kmalloc 4096 4096 s.heap).1 absent refl block;
              grows =
                  missing-Grows s tree parent index inner lt (kmalloc 4096 4096 s.heap).0
                    (kmalloc 4096 4096 s.heap).1 absent block (omega (arith, block));
            }
          ]
    ]
