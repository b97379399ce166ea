-- ===== src/Paging/Clone/Upper.antt =====
-- `setup_paging` keeps every translation of the upper half.
pub mod Tests
use aidos.Common.{
  ℕ, none, some, suc, ◌+◌, ◌*◌, ◌-◌, ◌/◌, ◌%◌, ◌^◌, ◌≤◌, ◌<◌, ◌≡◌, ◌∙◌, ◌⊎◌, inl, inr, refl, arith,
  false, true, sym, ltb, leb, ◌&&◌,
}
use aidos.Mem.{memcpy}
use aidos.Mem.Laws.{memcpy_lem}
use aidos.Paging.{Kernel, entry, virt_to_phys}
use aidos.Paging.Mmu.{index_at, walk, translate}
use aidos.Paging.Tree.{InWindow, InWindow-same}
use aidos.Paging.Map.{IsMapping}
use aidos.Paging.Lookup.{identity}
use aidos.Paging.Clone.{clone_loop, clone_pdpt, clear_lower, load_cr3, setup_paging}
use aidos.Paging.Clone.Laws.{
  looped-Frame, looped-zero, IsReady, TakesOver, lower, lower-kept, clear_lower_lem,
  setup_paging-TakesOver,
}
use aidos.Paging.Clone.Frame.{Frame}
use aidos.Paging.Clone.Rooted.{IsLower, IsMapping-of_shoots}
use aidos.Paging.Clone.Copy.{
  tables, frontier, Room, Safe, IsOldTree, IsPlaced, through, walk-through, walk-from_entry,
}
use aidos.Paging.Clone.Takeover.{Takeover, Stands}
use aidos.Paging.Clone.Loop.{Looped, Begins, clone_loop-Looped, clone_pdpt-Below}
use aidos.Paging.Clone.Walks.{window_old}

-- CR3 is not read.
IsMapping-cr3 :
    {P : ℕ → Type 0} (k : Kernel) (table : ℕ)
    → IsMapping P k
    → IsMapping P (record k { cr3 = table })
IsMapping-cr3 k table m =
    let t = m.tree in
    record {
      level = m.level;
      prefix = m.prefix;
      tree = record {
        heap_ok = t.heap_ok;
        heap_above = t.heap_above;
        heap_below = t.heap_below;
        heap_whole = t.heap_whole;
        offset_aligned = t.offset_aligned;
        root = t.root;
        root_prefix = t.root_prefix;
        window = λ u lv. InWindow-same k (record k { cr3 = table }) u refl (t.window u lv);
        taken = t.taken;
        small = t.small;
        below = t.below;
        below_prefix = t.below_prefix;
      };
      plain = m.plain;
    }

module _ (lo hi : ℕ) (fits : hi + 0x10000 < 2 ^ 64) (old_pml4 kernel_offset : ℕ) (s : Kernel) where
  -- The bootloader hands over a tree of tables, each of them mapped to itself, so that it can be read, by which the processor finds the heap and the PML4 of the
  -- kernel, by pages of 4 KiB, at the addresses below them by `kernel_offset`, and a heap with room for each table of the upper half
  -- and `spare` pages more.
  pub record IsHandedOver (spare : ℕ) (level : ℕ → ℕ) : Type 0 where
    pub ready : IsReady lo hi fits old_pml4 kernel_offset s
    pub tree : IsOldTree s.mem lo hi s.pml4 level
    pub root : level old_pml4 ≡ 4
    pub readable : (t : ℕ) → 0 < level t → walk (identity s.mem) 4 old_pml4 t ≡ some t
    pub low : 4096 ≤ lo
    pub above : kernel_offset ≤ lo
    pub below : hi ≤ kernel_offset + 2 ^ 52
    pub offset_aligned : kernel_offset % 4096 ≡ 0
    pub placed :
        (p : ℕ)
        → p % 4096 ≡ 0
        → lo ≤ p
        → p + 4096 ≤ hi
        → IsPlaced s.mem lo hi s.pml4 old_pml4 p (p - kernel_offset)
    pub root_placed : walk (identity s.mem) 4 old_pml4 s.pml4 ≡ some (s.pml4 - kernel_offset)
    pub room : Room (tables s.mem 3 256 256 old_pml4 + spare) s

  abbrev takeover : {spare : ℕ} {level : ℕ → ℕ} → IsHandedOver spare level → Takeover
  takeover {spare} {level} h = record {
    lo = lo;
    hi = hi;
    offset = kernel_offset;
    pml4 = s.pml4;
    old_pml4 = old_pml4;
    old = s.mem;
    level = level;
    tree = h.tree;
    fits = fits;
    low = h.low;
    above = h.above;
    below = h.below;
    offset_aligned = h.offset_aligned;
    placed = h.placed;
    pml4_aligned = h.ready.aligned;
    pml4_apart = h.ready.apart;
  }

  lower-copied :
      {spare : ℕ} {level : ℕ → ℕ} (h : IsHandedOver spare level) (j : ℕ)
      → 256 ≤ j
      → j < 512
      → entry (lower lo hi fits old_pml4 kernel_offset s).mem s.pml4 j ≡ entry s.mem old_pml4 j
  lower-copied h j from to =
      let first = h.tree.safe old_pml4 0 (omega (arith, h.root)) (omega arith) in
      let last = h.tree.safe old_pml4 511 (omega (arith, h.root)) (omega arith) in
      let al = h.ready.aligned in
      let old_al = h.tree.aligned old_pml4 (omega (arith, h.root)) in
      let miss : (leb (s.pml4 / 8 + 0) (s.pml4 / 8 + j)
            && ltb (s.pml4 / 8 + j) (s.pml4 / 8 + 0 + 256))
          ≡ false =
        ground arith in
      let hit : (leb (s.pml4 / 8) (s.pml4 / 8 + j) && ltb (s.pml4 / 8 + j) (s.pml4 / 8 + 512))
          ≡ true =
        ground arith in
      let source : old_pml4 / 8 + (s.pml4 / 8 + j - s.pml4 / 8) ≡ old_pml4 / 8 + j = omega arith in
      clear_lower_lem s.pml4 256 0 (memcpy s.mem (s.pml4 / 8) (old_pml4 / 8) 512) (s.pml4 / 8 + j)
      ∙ rw miss (
          memcpy_lem s.mem (s.pml4 / 8) (old_pml4 / 8) 512 (s.pml4 / 8 + j)
            (omega (arith, first, last, al, old_al))
          ∙ rw (hit, source) refl)

  lower-Begins :
      {spare : ℕ} {level : ℕ → ℕ} (h : IsHandedOver spare level)
      → Begins
          (takeover h)
          2
          256
          256
          s.pml4
          old_pml4
          spare
          (lower lo hi fits old_pml4 kernel_offset s)
  lower-Begins {spare} h = record {
    stands = record {
      heap_ok = h.ready.heap_on.heap_ok;
      base_ok = h.ready.heap_on.base_ok;
      end_ok = h.ready.heap_on.end_ok;
      offset_ok = refl;
      old_kept = λ c safe. lower-kept lo hi fits old_pml4 kernel_offset s c safe;
    };
    own = inr refl;
    of_level = h.root;
    within = omega arith;
    same = λ j from to. lower-copied h j from to;
    room = h.room;
  }

  abbrev after : Kernel
  after =
      clone_loop (clone_pdpt old_pml4) old_pml4 256 256 s.pml4
        (lower lo hi fits old_pml4 kernel_offset s)

  after-Looped :
      {spare : ℕ} {level : ℕ → ℕ} (h : IsHandedOver spare level)
      → Looped
          (takeover h)
          2
          256
          256
          s.pml4
          old_pml4
          spare
          (lower lo hi fits old_pml4 kernel_offset s)
          after
  after-Looped {spare} h =
      clone_loop-Looped (takeover h) 2 (clone_pdpt old_pml4) (clone_pdpt-Below (takeover h)) 256 256
        s.pml4 old_pml4 spare (lower lo hi fits old_pml4 kernel_offset s) (lower-Begins h)

  after-InWindow :
      {spare : ℕ} {level : ℕ → ℕ}
      → IsHandedOver spare level
      → InWindow (through kernel_offset after.mem) s.pml4
  after-InWindow h = record {
    nonzero = omega (arith, h.ready.real);
    aligned = h.ready.aligned;
    above = h.ready.above;
    below = h.ready.below;
    whole = h.ready.whole;
  }

  after-walk :
      {spare : ℕ} {level : ℕ → ℕ} (h : IsHandedOver spare level) (va : ℕ)
      → 256 ≤ index_at 3 va
      → walk (through kernel_offset after.mem) 4 (s.pml4 - kernel_offset) va
        ≡ walk (identity s.mem) 4 old_pml4 va
  after-walk h va upper =
      let done = after-Looped h in
      let w = after-InWindow h in
      let old =
        walk-from_entry 0 s.mem 3 old_pml4 va
          (window_old (takeover h) old_pml4 (omega (arith, h.root))) in
      let whole : old_pml4 - 0 ≡ old_pml4 = omega arith in
      walk-from_entry kernel_offset after.mem 3 s.pml4 va w
      ∙ done.1 (index_at 3 va) upper (omega arith) after.mem (λ c from to. refl) refl va
      ∙ sym (rw whole at old)

  -- What the kernel goes on from: a tree of tables that CR3 points to, the upper half as it was, and the
  -- heap.
  pub record HandsOver (spare : ℕ) (s' : Kernel) : Type 0 where
    pub mapping : IsMapping IsLower s'
    pub in_cr3 : s'.cr3 ≡ s'.pml4 - s'.kernel_offset
    pub upper :
        (va : ℕ) → 256 ≤ index_at 3 va → translate s' va ≡ walk (identity s.mem) 4 old_pml4 va
    pub lower_empty : (va : ℕ) → IsLower va → translate s' va ≡ none
    pub room : Room spare s'

  after-pml4 : {spare : ℕ} {level : ℕ → ℕ} → IsHandedOver spare level → after.pml4 ≡ s.pml4
  after-pml4 h = Frame.same_pml4 (looped-Frame lo hi fits old_pml4 kernel_offset s h.ready)

  after-IsMapping : {spare : ℕ} {level : ℕ → ℕ} → IsHandedOver spare level → IsMapping IsLower after
  after-IsMapping h =
      let done = after-Looped h in
      let start = lower lo hi fits old_pml4 kernel_offset s in
      IsMapping-of_shoots (takeover h) after done.0.stands (after-pml4 h) (after-InWindow h)
        (looped-zero lo hi fits old_pml4 kernel_offset s h.ready) (frontier start) (frontier after)
        (omega (arith, h.ready.heap_on.base_ok)) (omega arith)
        (done.2 0 (λ j from. inl (omega arith)))

  -- Where the old tables form a tree below 2 ^ 48, mapped to itself, by which the processor finds the heap and the PML4 of the
  -- kernel, by pages of 4 KiB, below them by the given offset, and the heap has room for a copy of each table of the upper half and `spare` pages more,
  -- `setup_paging` leaves a tree of tables with its PML4 in CR3, by which the processor finds each address
  -- of the upper half where the old tables had it, or finds it unmapped where they did not map it,
  -- and no address of the lower half; `spare` pages of heap are left.
  pub setup_paging-HandsOver :
      {spare : ℕ} {level : ℕ → ℕ}
      → IsHandedOver spare level
      → HandsOver spare (setup_paging old_pml4 kernel_offset s)
  unfolding setup_paging load_cr3
  setup_paging-HandsOver h =
      let s' = setup_paging old_pml4 kernel_offset s in
      let takes = setup_paging-TakesOver lo hi fits old_pml4 kernel_offset s h.ready in
      let offset : s'.kernel_offset ≡ kernel_offset = takes.offset_ok in
      let root : s'.pml4 ≡ s.pml4 = after-pml4 h in
      let done = after-Looped h in
      record {
        mapping = IsMapping-cr3 after s'.cr3 (after-IsMapping h);
        in_cr3 = takes.in_cr3 ∙ rw h.root_placed (rw (root, offset) refl);
        upper = λ va up.
            walk-through s' 4 (s'.pml4 - s'.kernel_offset) va
            ∙ rw (root, offset) (after-walk h va up);
        lower_empty = takes.lower_empty;
        room = done.0.room;
      }
