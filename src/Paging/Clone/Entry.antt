-- ===== src/Paging/Clone/Entry.antt =====
-- The copy of one table in `setup_paging`.
use aidos.Common.{
  ℕ, suc, ◌+◌, ◌-◌, ◌/◌, ◌%◌, ◌^◌, ◌≤◌, ◌<◌, ◌≡◌, ◌∙◌, ◌⊎◌, inl, inr, arith, true, false, ◌==◌,
  bit_and, bit_or, ltb, leb, ◌&&◌,
}
use aidos.Mem.{Memory, write, memcpy}
use aidos.Mem.Laws.{memcpy_lem, memcpy-outside}
use aidos.Heap.{Heap, kmalloc}
use aidos.Heap.Blocks.{IsBlock, IsBlock-IsHeap, kmalloc-Served}
use aidos.Paging.{Kernel, entry, addr_mask, virt_to_phys}
use aidos.Paging.Entry.{addr_bits}
use aidos.Paging.Lookup.{addr}
use aidos.Paging.Clone.{clone_entry, flags_mask}
use aidos.Paging.Clone.Flags.{flag_bits, link_bits}
use aidos.Paging.Clone.Laws.{virt_to_phys-same, cell4, cell3, cell2, cell1}
use aidos.Paging.Clone.Copy.{virt_to_phys-mapped, frontier, Room, Safe}
use aidos.Paging.Clone.Takeover.{Takeover, Stands, Settled, IsOwn, Grown, Entered}

module _ (g : Takeover) where
  -- A request for a page that there is room for.
  kmalloc_page :
      (k : ℕ) (s : Kernel)
      → Stands g s
      → Room (suc k) s
      → IsBlock 4096 12 s.heap (kmalloc 4096 4096 s.heap).0 (kmalloc 4096 4096 s.heap).1
  kmalloc_page k s st room =
      let fits : s.heap.heap_base + s.heap.heap_size + 0x10000 < 2 ^ 64 =
        omega (arith, st.end_ok, g.fits) in
      elim (kmalloc-Served 4096 12 s.heap st.heap_ok (omega arith)) [
        | inl (kept, full) ↦ absurd (omega (arith, full, room))
        | inr block ↦ block
      ]

  -- A page above the frontier, in the heap.
  abbrev pub InHeap : (s : Kernel) (p : ℕ) → Type 0
  InHeap s p = (p % 4096 ≡ 0) × (frontier s ≤ p) × (g.lo ≤ p) × (p + 4096 ≤ g.hi)

  pub Own-apart :
      (s : Kernel) (t p c : ℕ)
      → InHeap s p
      → IsOwn g (frontier s) t
      → t / 8 ≤ c
      → c < t / 8 + 512
      → (c < p / 8) ⊎ (p / 8 + 512 ≤ c)
  Own-apart s t p c (al, fr, ge, le) (inl own) from to = omega arith
  Own-apart s t p c (al, fr, ge, le) (inr own) from to =
      omega (arith, own, g.pml4_apart, g.pml4_aligned)

  Settled-apart :
      (s : Kernel) (p c : ℕ)
      → InHeap s p
      → Settled g (frontier s) c
      → (c < p / 8) ⊎ (p / 8 + 512 ≤ c)
  Settled-apart s p c page out = omega arith

  Safe-apart :
      (s : Kernel) (p c : ℕ)
      → InHeap s p
      → Safe g.lo g.hi g.pml4 c
      → (c < p / 8) ⊎ (p / 8 + 512 ≤ c)
  Safe-apart s p c page safe = omega arith

  Safe-own :
      (top t c : ℕ)
      → IsOwn g top t
      → top ≤ g.hi
      → Safe g.lo g.hi g.pml4 c
      → (c < t / 8) ⊎ (t / 8 + 512 ≤ c)
  Safe-own top t c (inl own) le safe = omega arith
  Safe-own top t c (inr own) le safe = omega (arith, own)

  abbrev copied_mem : (s : Kernel) (p e : ℕ) → Memory
  copied_mem s p e = memcpy s.mem (p / 8) (bit_and e addr_mask / 8) 512

  copied_mem-place :
      (s : Kernel) (p e : ℕ)
      → Stands g s
      → InHeap s p
      → virt_to_phys (copied_mem s p e) p g.old_pml4 ≡ p - g.offset
  copied_mem-place s p e st page =
      let at_p = g.placed p page.0 page.2 page.3 in
      let same : (c : ℕ) → Safe g.lo g.hi g.pml4 c → copied_mem s p e c ≡ g.old c = λ c safe.
        memcpy-outside s.mem (p / 8) (bit_and e addr_mask / 8) 512 c (Safe-apart s p c page safe)
        ∙ st.old_kept c safe in
      virt_to_phys-same g.old (copied_mem s p e) p g.old_pml4 (same (cell4 g.old_pml4 p) at_p.safe4)
        (same (cell3 g.old g.old_pml4 p) at_p.safe3) (same (cell2 g.old g.old_pml4 p) at_p.safe2)
        (same (cell1 g.old g.old_pml4 p) at_p.safe1)
      ∙ virt_to_phys-mapped g.old p g.old_pml4 (p - g.offset) at_p.ordinary at_p.place

  copied_mem-copied :
      (s : Kernel) (p e j : ℕ)
      → Stands g s
      → InHeap s p
      → 0 < g.level (addr e)
      → j < 512
      → entry (copied_mem s p e) p j ≡ entry g.old (addr e) j
  copied_mem-copied s p e j st page lv lt =
      let first = Safe-apart s p (addr e / 8 + 0) page (g.tree.safe (addr e) 0 lv (omega arith)) in
      let last =
        Safe-apart s p (addr e / 8 + 511) page (g.tree.safe (addr e) 511 lv (omega arith)) in
      let hit : (leb (p / 8) (p / 8 + j) && ltb (p / 8 + j) (p / 8 + 512)) ≡ true = ground arith in
      let source : addr e / 8 + (p / 8 + j - p / 8) ≡ addr e / 8 + j = omega arith in
      rw (addr_bits e) (
        memcpy_lem s.mem (p / 8) (addr e / 8) 512 (p / 8 + j) (omega (arith, first, last))
        ∙ rw (hit, source) (st.old_kept (addr e / 8 + j) (g.tree.safe (addr e) j lv lt)))

  -- The state behind the copy, for the page and the heap that `kmalloc` answers with.
  abbrev entered : (t i p : ℕ) (heap : Heap) (s : Kernel) → Kernel
  entered t i p heap s =
      let e = entry s.mem t i in
      let m = copied_mem s p e in
      let link = bit_or (virt_to_phys m p g.old_pml4) (bit_and e flags_mask) in
      record s { mem = write m (t / 8 + i) link; heap = heap }

  entered-Grown :
      (t i k p : ℕ) (heap : Heap) (s : Kernel)
      → Stands g s
      → IsOwn g (frontier s) t
      → i < 512
      → Room (suc k) s
      → IsBlock 4096 12 s.heap p heap
      → Grown g t i 1 k s (entered t i p heap s)
  entered-Grown t i k p heap s st own lt room block =
      let page : InHeap s p = (
        block.aligned,
        block.above,
        omega (arith, block.above, st.base_ok),
        omega (arith, block.inside, st.end_ok),
      ) in
      let e = entry s.mem t i in
      let outside : (c : ℕ) → (c < p / 8) ⊎ (p / 8 + 512 ≤ c) → copied_mem s p e c ≡ s.mem c =
        λ c out. memcpy-outside s.mem (p / 8) (bit_and e addr_mask / 8) 512 c out in
      record {
        stands = record {
          heap_ok = IsBlock-IsHeap st.heap_ok block;
          base_ok = block.same_base ∙ st.base_ok;
          end_ok = omega (arith, block.same_base, block.same_size, st.end_ok);
          offset_ok = st.offset_ok;
          old_kept = λ c safe.
              let off =
                Safe-own (frontier s) t c own (omega (arith, st.heap_ok.used, st.end_ok)) safe in
              let miss : (c == t / 8 + i) ≡ false = ground arith in
              rw miss (outside c (Safe-apart s p c page safe) ∙ st.old_kept c safe);
        };
        grown = omega (arith, block);
        room = omega (arith, block, room);
        kept = λ c settled off.
            let miss : (c == t / 8 + i) ≡ false = ground arith in
            rw miss (outside c (Settled-apart s p c page settled));
      }

  entered-Entered :
      (t i k p : ℕ) (heap : Heap) (s : Kernel)
      → Stands g s
      → IsOwn g (frontier s) t
      → i < 512
      → Room (suc k) s
      → IsBlock 4096 12 s.heap p heap
      → 0 < g.level (addr (entry s.mem t i))
      → entry s.mem t i < 2 ^ 48
      → Entered g t i k (entry s.mem t i) s p (entered t i p heap s)
  entered-Entered t i k p heap s st own lt room block lv small =
      let page : InHeap s p = (
        block.aligned,
        block.above,
        omega (arith, block.above, st.base_ok),
        omega (arith, block.inside, st.end_ok),
      ) in
      let e = entry s.mem t i in
      record {
        aligned = block.aligned;
        fresh = block.above;
        last = omega (arith, block.next, block.same_base);
        grown = entered-Grown t i k p heap s st own lt room block;
        copied = λ j below.
            let apart = Own-apart s t p (t / 8 + i) page own (omega arith) (omega arith) in
            let miss : (p / 8 + j == t / 8 + i) ≡ false = ground arith in
            rw miss (copied_mem-copied s p e j st page lv below);
        link =
            let hit : (t / 8 + i == t / 8 + i) ≡ true = ground arith in
            rw (hit, copied_mem-place s p e st page, flag_bits e small)
              (link_bits (p - g.offset) (e % 4096) (omega (arith, block.aligned, g.offset_aligned))
                (omega arith));
      }

  -- With room for a page, the table that an entry names is copied and linked.
  pub clone_entry-Entered :
      (t i k : ℕ) (s : Kernel)
      → Stands g s
      → IsOwn g (frontier s) t
      → i < 512
      → Room (suc k) s
      → 0 < g.level (addr (entry s.mem t i))
      → entry s.mem t i < 2 ^ 48
      → let r = clone_entry t i g.old_pml4 s in Entered g t i k (entry s.mem t i) s r.0 r.1
  unfolding clone_entry
  clone_entry-Entered t i k s st own lt room lv small =
      let r = kmalloc 4096 4096 s.heap in
      entered-Entered t i k r.0 r.1 s st own lt room (kmalloc_page k s st room) lv small
