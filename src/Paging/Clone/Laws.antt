-- ===== src/Paging/Clone/Laws.antt =====
-- What `setup_paging` leaves: the old tables as they were, and an empty lower half.
use mathlib.Core.Option
use aidos.Common.{
  ℕ, zero, suc, ◌+◌, ◌/◌, ◌%◌, ◌^◌, ◌≤◌, ◌<◌, ◌≡◌, ◌∙◌, ◌⊎◌, refl, arith, none, true, false, ltb,
  leb, ◌&&◌, if◌then◌else◌, bit_and,
}
use aidos.Mem.{Memory, write, memcpy}
use aidos.Mem.Laws.{memcpy-outside}
use aidos.Paging.{Kernel, entry, addr_mask, virt_to_phys, pml4_i, pdpt_i, pd_i, pt_i}
use aidos.Paging.Mmu.{index_at, walk, translate, is_present}
use aidos.Paging.Lookup.{identity, IsOrdinary, virt_to_phys-walk}
use aidos.Paging.Tree.{InWindow, walk-suc}
use aidos.Paging.Clone.{clone_loop, clone_pdpt, clear_lower, load_cr3, setup_paging}
use aidos.Paging.Clone.Frame.{Kept, OnHeap, Frame, clone_loop-Frame, clone_pdpt-Frames}

pub clear_lower_lem :
    (pml4 left i : ℕ) (m : Memory) (c : ℕ)
    → clear_lower pml4 left i m c
      ≡ (if leb (pml4 / 8 + i) c && ltb c (pml4 / 8 + i + left) then 0 else m c)
unfolding clear_lower
clear_lower_lem pml4 zero i m c = ground arith
clear_lower_lem pml4 (suc left) i m c =
    clear_lower_lem pml4 left (i + 1) (write m (pml4 / 8 + i) 0) c ∙ ground arith

-- The cells that `virt_to_phys` reads.
abbrev pub cell4 : (old_pml4 va : ℕ) → ℕ
cell4 old_pml4 va = old_pml4 / 8 + pml4_i va

abbrev pub cell3 : Memory → (old_pml4 va : ℕ) → ℕ
cell3 m old_pml4 va = bit_and (m (cell4 old_pml4 va)) addr_mask / 8 + pdpt_i va

abbrev pub cell2 : Memory → (old_pml4 va : ℕ) → ℕ
cell2 m old_pml4 va = bit_and (m (cell3 m old_pml4 va)) addr_mask / 8 + pd_i va

abbrev pub cell1 : Memory → (old_pml4 va : ℕ) → ℕ
cell1 m old_pml4 va = bit_and (m (cell2 m old_pml4 va)) addr_mask / 8 + pt_i va

pub virt_to_phys-same :
    (m m' : Memory) (va old_pml4 : ℕ)
    → m' (cell4 old_pml4 va) ≡ m (cell4 old_pml4 va)
    → m' (cell3 m old_pml4 va) ≡ m (cell3 m old_pml4 va)
    → m' (cell2 m old_pml4 va) ≡ m (cell2 m old_pml4 va)
    → m' (cell1 m old_pml4 va) ≡ m (cell1 m old_pml4 va)
    → virt_to_phys m' va old_pml4 ≡ virt_to_phys m va old_pml4
unfolding virt_to_phys
virt_to_phys-same m m' va old_pml4 e4 e3 e2 e1 = rw (e4, e3, e2, e1) refl

module _ (lo hi : ℕ) (fits : hi + 0x10000 < 2 ^ 64) (old_pml4 kernel_offset : ℕ) (s : Kernel) where
  -- A cell that `setup_paging` does not write.
  abbrev pub IsSafe : ℕ → Type 0
  IsSafe c = Kept lo hi c × ((c < s.pml4 / 8) ⊎ (s.pml4 / 8 + 512 ≤ c))

  -- The PML4 of the kernel lies outside of page 0 and of the heap, and the old tables that say where it is
  -- lie outside of it as well, with no large page among what they say.
  pub record IsReady : Type 0 where
    pub heap_on : OnHeap lo hi fits s
    pub aligned : s.pml4 % 4096 ≡ 0
    pub real : 4096 ≤ s.pml4
    pub apart : (s.pml4 + 4096 ≤ lo) ⊎ (hi ≤ s.pml4)
    pub ordinary : IsOrdinary s.mem s.pml4 old_pml4
    pub safe4 : IsSafe (cell4 old_pml4 s.pml4)
    pub safe3 : IsSafe (cell3 s.mem old_pml4 s.pml4)
    pub safe2 : IsSafe (cell2 s.mem old_pml4 s.pml4)
    pub safe1 : IsSafe (cell1 s.mem old_pml4 s.pml4)
    pub above : kernel_offset ≤ s.pml4
    pub below : s.pml4 + 4096 ≤ kernel_offset + 2 ^ 52
    pub whole : s.pml4 + 4096 ≤ 2 ^ 64

  abbrev pub lower : Kernel
  lower = record s {
    mem = clear_lower s.pml4 256 0 (memcpy s.mem (s.pml4 / 8) (old_pml4 / 8) 512);
    kernel_offset = kernel_offset;
  }

  pub lower-kept : (c : ℕ) → IsSafe c → lower.mem c ≡ s.mem c
  lower-kept c safe =
      let miss : (leb (s.pml4 / 8 + 0) c && ltb c (s.pml4 / 8 + 0 + 256)) ≡ false = ground arith in
      clear_lower_lem s.pml4 256 0 (memcpy s.mem (s.pml4 / 8) (old_pml4 / 8) 512) c
      ∙ rw miss (memcpy-outside s.mem (s.pml4 / 8) (old_pml4 / 8) 512 c safe.1)

  lower-zero : (i : ℕ) → i < 256 → lower.mem (s.pml4 / 8 + i) ≡ 0
  lower-zero i lt =
      let hit : (leb (s.pml4 / 8 + 0) (s.pml4 / 8 + i)
            && ltb (s.pml4 / 8 + i) (s.pml4 / 8 + 0 + 256))
          ≡ true =
        ground arith in
      clear_lower_lem s.pml4 256 0 (memcpy s.mem (s.pml4 / 8) (old_pml4 / 8) 512) (s.pml4 / 8 + i)
      ∙ rw hit refl

  -- The state behind the three loops.
  abbrev looped : Kernel
  looped = clone_loop (clone_pdpt old_pml4) old_pml4 256 256 s.pml4 lower

  pub looped-Frame : IsReady → Frame lo hi fits s.pml4 256 256 lower looped
  looped-Frame ready =
      clone_loop-Frame lo hi fits (clone_pdpt old_pml4) (clone_pdpt-Frames lo hi fits old_pml4)
        old_pml4 256 256 s.pml4 lower
        (record {
          heap_ok = ready.heap_on.heap_ok;
          base_ok = ready.heap_on.base_ok;
          end_ok = ready.heap_on.end_ok;
        })

  looped-kept : IsReady → (c : ℕ) → IsSafe c → looped.mem c ≡ s.mem c
  looped-kept ready c safe =
      Frame.kept (looped-Frame ready) c safe.0 (omega arith) ∙ lower-kept c safe

  pub looped-zero : IsReady → (i : ℕ) → i < 256 → entry looped.mem s.pml4 i ≡ 0
  looped-zero ready i lt =
      let kept : Kept lo hi (s.pml4 / 8 + i) =
        (omega (arith, ready.real), omega (arith, ready.apart, ready.aligned)) in
      Frame.kept (looped-Frame ready) (s.pml4 / 8 + i) kept (omega arith) ∙ lower-zero i lt

  pub record TakesOver (s' : Kernel) : Type 0 where
    pub offset_ok : s'.kernel_offset ≡ kernel_offset
    pub in_cr3 : s'.cr3 ≡ Option.get_or (walk (identity s.mem) 4 old_pml4 s.pml4) 0
    pub kept : (c : ℕ) → IsSafe c → s'.mem c ≡ s.mem c
    pub lower_empty : (va : ℕ) → index_at 3 va < 256 → translate s' va ≡ none

  walk-zero :
      (k : Kernel) (va : ℕ)
      → InWindow k k.pml4
      → entry k.mem k.pml4 (index_at 3 va) ≡ 0
      → translate k va ≡ none
  walk-zero k va w zeroth =
      let absent : is_present 0 ≡ false = refl in walk-suc k 3 k.pml4 va w ∙ rw zeroth refl

  TakesOver-loaded :
      (k : Kernel) (ready : IsReady)
      → k.mem ≡ looped.mem
      → k.kernel_offset ≡ kernel_offset
      → k.pml4 ≡ s.pml4
      → k.cr3 ≡ virt_to_phys looped.mem s.pml4 old_pml4
      → TakesOver k
  TakesOver-loaded k ready mem_eq offset_eq pml4_eq cr3_eq = record {
    offset_ok = offset_eq;
    in_cr3 =
        cr3_eq
        ∙ virt_to_phys-same s.mem looped.mem s.pml4 old_pml4
            (looped-kept ready (cell4 old_pml4 s.pml4) ready.safe4)
            (looped-kept ready (cell3 s.mem old_pml4 s.pml4) ready.safe3)
            (looped-kept ready (cell2 s.mem old_pml4 s.pml4) ready.safe2)
            (looped-kept ready (cell1 s.mem old_pml4 s.pml4) ready.safe1)
        ∙ virt_to_phys-walk s.mem s.pml4 old_pml4 ready.ordinary;
    kept = λ c safe. rw mem_eq (looped-kept ready c safe);
    lower_empty = λ va lt.
        let w : InWindow k k.pml4 = record {
          nonzero = omega (arith, ready.real, pml4_eq);
          aligned = omega (arith, ready.aligned, pml4_eq);
          above = omega (arith, ready.above, pml4_eq, offset_eq);
          below = omega (arith, ready.below, pml4_eq, offset_eq);
          whole = omega (arith, ready.whole, pml4_eq);
        } in
        walk-zero k va w (rw (mem_eq, pml4_eq) (looped-zero ready (index_at 3 va) lt));
  }

  -- With the heap from `lo` to `hi`, the PML4 of the kernel in a page outside of page 0 and of the heap and
  -- in the window of the kernel, and the four cells by which the old tables place it neither in these nor
  -- in it, below 2 ^ 48 and with no large page, `setup_paging` changes no cell outside of page 0, the heap
  -- and the PML4, the old tables among them, gives CR3 the physical address at which the processor finds
  -- the PML4 by the old tables, or 0 if it finds none, and leaves no address of the lower half mapped.
  pub setup_paging-TakesOver : IsReady → TakesOver (setup_paging old_pml4 kernel_offset s)
  unfolding setup_paging load_cr3
  setup_paging-TakesOver ready =
      let f = looped-Frame ready in
      TakesOver-loaded (setup_paging old_pml4 kernel_offset s) ready refl f.same_offset f.same_pml4
        refl
