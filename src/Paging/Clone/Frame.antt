-- ===== src/Paging/Clone/Frame.antt =====
-- What the loops of `setup_paging` leave alone.
use aidos.Common.{
  ℕ, zero, suc, ◌+◌, ◌*◌, ◌/◌, ◌%◌, ◌^◌, ◌≤◌, ◌<◌, ◌≡◌, ◌∙◌, ◌⊎◌, inl, inr, refl, arith, false,
  ◌==◌, Bool-cases, bit_and,
}
use aidos.Mem.Laws.{memcpy-outside}
use aidos.Heap.{Heap, null, kmalloc}
use aidos.Heap.Laws.{IsHeap}
use aidos.Heap.Blocks.{kmalloc-Served}
use aidos.Paging.{Kernel, entry, addr_mask}
use aidos.Paging.Clone.{clone_entry, clone_loop, clone_pt, clone_pd, clone_pdpt, leads_on}

-- The cells outside of page 0 and of the heap, which lies from `lo` to `hi`.
abbrev pub Kept : (lo hi c : ℕ) → Type 0
Kept lo hi c = (512 ≤ c) × ((c * 8 + 8 ≤ lo) ⊎ (hi ≤ c * 8))

module _ (lo hi : ℕ) (fits : hi + 0x10000 < 2 ^ 64) where
  -- The heap, with what was given out.
  pub record OnHeap (s : Kernel) : Type 0 where
    pub heap_ok : IsHeap s.heap
    pub base_ok : s.heap.heap_base ≡ lo
    pub end_ok : s.heap.heap_base + s.heap.heap_size ≡ hi

  -- A page of the heap, or page 0.
  abbrev Given : ℕ → Type 0
  Given p = (p ≡ 0) ⊎ ((p % 4096 ≡ 0) × (lo ≤ p) × (p + 4096 ≤ hi))

  -- The heap is still in its place, and so are the cells outside of it, but for those of `t` from `i` on.
  pub record Frame (t i left : ℕ) (s s' : Kernel) : Type 0 where
    pub heap_on : OnHeap s'
    pub same_pml4 : s'.pml4 ≡ s.pml4
    pub same_offset : s'.kernel_offset ≡ s.kernel_offset
    pub kept :
        (c : ℕ) → Kept lo hi c → (c < t / 8 + i) ⊎ (t / 8 + i + left ≤ c) → s'.mem c ≡ s.mem c

  Given-apart : (p c : ℕ) → Given p → Kept lo hi c → (c < p / 8) ⊎ (p / 8 + 512 ≤ c)
  Given-apart p c (inl e) kept = omega arith
  Given-apart p c (inr (al, ge, le)) kept = omega arith

  record Allocates (s : Kernel) (result : ℕ × Heap) : Type 0 where
    given : Given result.0
    heap_on : OnHeap (record s { heap = result.1 })

  kmalloc-Allocates : (s : Kernel) → OnHeap s → Allocates s (kmalloc 4096 4096 s.heap)
  kmalloc-Allocates s on =
      let ok = on.heap_ok in
      elim (kmalloc-Served 4096 12 s.heap ok (omega (arith, on.end_ok))) [
        | inl (kept, full) ↦
            let same : kmalloc 4096 4096 s.heap ≡ (null, s.heap) = kept in
            rw same (record {
              given = inl refl;
              heap_on = record { heap_ok = ok; base_ok = on.base_ok; end_ok = on.end_ok };
            })
        | inr block ↦ record {
          given = inr (
            block.aligned,
            omega (arith, block.above, on.base_ok),
            omega (arith, block.inside, on.end_ok),
          );
          heap_on = record {
            heap_ok = record {
              room = omega (arith, block, ok.room);
              used = omega (arith, block);
              based = omega (arith, block.same_base, ok.based);
            };
            base_ok = block.same_base ∙ on.base_ok;
            end_ok = omega (arith, block.same_base, block.same_size, on.end_ok);
          };
        }
      ]

  clone_entry-Frame :
      (t i old_pml4 : ℕ) (s : Kernel)
      → OnHeap s
      → Given (clone_entry t i old_pml4 s).0 × Frame t i 1 s (clone_entry t i old_pml4 s).1
  unfolding clone_entry
  clone_entry-Frame t i old_pml4 s on =
      let a = kmalloc-Allocates s on in
      let p = (kmalloc 4096 4096 s.heap).0 in
      (
        a.given,
        record {
          heap_on = record {
            heap_ok = a.heap_on.heap_ok;
            base_ok = a.heap_on.base_ok;
            end_ok = a.heap_on.end_ok;
          };
          same_pml4 = refl;
          same_offset = refl;
          kept = λ c kept out.
              let miss : (c == t / 8 + i) ≡ false = ground arith in
              rw miss (
                memcpy-outside s.mem (p / 8) (bit_and (entry s.mem t i) addr_mask / 8) 512 c
                  (Given-apart p c a.given kept));
        },
      )

  -- What the loop inside does with each copy.
  abbrev Frames : (ℕ → Kernel → Kernel) → Type 0
  Frames below = (p : ℕ) (s : Kernel) → Given p → OnHeap s → Frame p 0 512 s (below p s)

  Frame-then :
      (t i left : ℕ) (s s1 s' : Kernel)
      → Frame t i 1 s s1
      → Frame t (i + 1) left s1 s'
      → Frame t i (suc left) s s'
  Frame-then t i left s s1 s' first rest = record {
    heap_on = rest.heap_on;
    same_pml4 = rest.same_pml4 ∙ first.same_pml4;
    same_offset = rest.same_offset ∙ first.same_offset;
    kept = λ c kept out. rest.kept c kept (omega arith) ∙ first.kept c kept (omega arith);
  }

  Frame-below :
      (t i p : ℕ) (s s1 s2 : Kernel)
      → Given p
      → Frame t i 1 s s1
      → Frame p 0 512 s1 s2
      → Frame t i 1 s s2
  Frame-below t i p s s1 s2 given first inner = record {
    heap_on = inner.heap_on;
    same_pml4 = inner.same_pml4 ∙ first.same_pml4;
    same_offset = inner.same_offset ∙ first.same_offset;
    kept = λ c kept out.
        let apart = Given-apart p c given kept in
        inner.kept c kept (omega arith) ∙ first.kept c kept out;
  }

  pub clone_loop-Frame :
      (below : ℕ → Kernel → Kernel)
      → Frames below
      → (old_pml4 left i t : ℕ) (s : Kernel) → OnHeap s
      → Frame t i left s (clone_loop below old_pml4 left i t s)
  unfolding clone_loop
  clone_loop-Frame below frames old_pml4 zero i t s on = record {
    heap_on = on;
    same_pml4 = refl;
    same_offset = refl;
    kept = λ c kept out. refl;
  }
  clone_loop-Frame below frames old_pml4 (suc left) i t s on =
      elim (Bool-cases (leads_on (entry s.mem t i))) [
        | inl leads ↦
            let (given, first) = clone_entry-Frame t i old_pml4 s on in
            let r = clone_entry t i old_pml4 s in
            let inner = frames r.0 r.1 given first.heap_on in
            rw leads (
              Frame-then t i left s (below r.0 r.1) _
                (Frame-below t i r.0 s r.1 (below r.0 r.1) given first inner)
                (clone_loop-Frame below frames old_pml4 left (i + 1) t (below r.0 r.1)
                  inner.heap_on))
        | inr other ↦
            let same : Frame t i 1 s s = record {
              heap_on = on;
              same_pml4 = refl;
              same_offset = refl;
              kept = λ c kept out. refl;
            } in
            rw other (
              Frame-then t i left s s _ same
                (clone_loop-Frame below frames old_pml4 left (i + 1) t s on))
      ]

  clone_pt-Frames : Frames clone_pt
  clone_pt-Frames p s given on = record {
    heap_on = on;
    same_pml4 = refl;
    same_offset = refl;
    kept = λ c kept out. refl;
  }

  clone_pd-Frames : (old_pml4 : ℕ) → Frames (clone_pd old_pml4)
  unfolding clone_pd
  clone_pd-Frames old_pml4 p s given on =
      clone_loop-Frame clone_pt clone_pt-Frames old_pml4 512 0 p s on

  pub clone_pdpt-Frames : (old_pml4 : ℕ) → Frames (clone_pdpt old_pml4)
  unfolding clone_pdpt
  clone_pdpt-Frames old_pml4 p s given on =
      clone_loop-Frame (clone_pd old_pml4) (clone_pd-Frames old_pml4) old_pml4 512 0 p s on
