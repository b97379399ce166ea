-- ===== src/Boot/Setup.antt =====
-- What `setup_paging` leaves: the first MiB mapped to itself, in tables that form a tree.
use aidos.Common.{
  ℕ, zero, suc, ◌+◌, ◌*◌, ◌/◌, ◌%◌, ◌^◌, ◌-◌, ◌≤◌, ◌<◌, ◌≡◌, ◌≢◌, ◌∙◌, ◌⊎◌, arith, Bool, ltb, leb,
  ◌&&◌, ◌==◌, if◌then◌else◌,
}
use aidos.Mem.{Memory, write}
use aidos.Mem.Laws.{memset_lem}
use aidos.Heap.Laws.{IsHeap}
use aidos.Paging.Entry.{with_flags}
use aidos.Boot.{Boot, store_entry, clear_table, load_cr3, identity_loop, identity_map, setup_paging}

identity_loop_lem :
    (pt left n : ℕ) (m : Memory) (c : ℕ)
    → identity_loop pt left (n * 4096) m c
      ≡ (if leb (pt / 8 + n) c && ltb c (pt / 8 + n + left) then (c - pt / 8) * 4096 + 3 else m c)
unfolding identity_loop
identity_loop_lem pt zero n m c = ground arith
identity_loop_lem pt (suc left) n m c =
    let next : n * 4096 + 4096 ≡ (n + 1) * 4096 = omega arith in
    let here : n * 4096 / 4096 ≡ n = omega arith in
    rw (next, here, with_flags (n * 4096) (omega arith))
      (identity_loop_lem pt left (n + 1) (write m (pt / 8 + n) (n * 4096 + 3)) c ∙ ground arith)

-- Where a table may stand: in a page of its own, below 2 ^ 52, outside of the free part of the heap.
pub record IsPlaced (s : Boot) (t : ℕ) : Type 0 where
  pub nonzero : 0 < t
  pub aligned : t % 4096 ≡ 0
  pub below : t + 4096 ≤ 2 ^ 52
  pub taken :
      (t + 4096 ≤ s.heap.heap_base + s.heap.heap_offset) ⊎ (s.heap.heap_base + s.heap.heap_size ≤ t)

-- How the linker lays the bootloader out.
pub record IsLaidOut (s : Boot) : Type 0 where
  pub heap_ok : IsHeap s.heap
  pub heap_below : s.heap.heap_base + s.heap.heap_size ≤ 2 ^ 52
  pub pml4 : IsPlaced s s.pml4
  pub pdpt : IsPlaced s s.pdpt
  pub pd : IsPlaced s s.pd
  pub pt : IsPlaced s s.pt
  pub pml4_pdpt : s.pml4 ≢ s.pdpt
  pub pml4_pd : s.pml4 ≢ s.pd
  pub pml4_pt : s.pml4 ≢ s.pt
  pub pdpt_pd : s.pdpt ≢ s.pd
  pub pdpt_pt : s.pdpt ≢ s.pt
  pub pd_pt : s.pd ≢ s.pt

-- The memory behind `setup_paging`, cell by cell.
abbrev in_table : (t c : ℕ) → Bool
in_table t c = leb (t / 8) c && ltb c (t / 8 + 512)

abbrev pub after : Boot → ℕ → ℕ
after s c =
    if leb (s.pt / 8) c && ltb c (s.pt / 8 + 256)
    then (c - s.pt / 8) * 4096 + 3
    else if c == s.pd / 8
    then s.pt + 3
    else if c == s.pdpt / 8
    then s.pd + 3
    else if c == s.pml4 / 8
    then s.pdpt + 3
    else if in_table s.pt c
    then 0
    else if in_table s.pd c
    then 0
    else if in_table s.pdpt c
    then 0
    else if in_table s.pml4 c
    then 0
    else s.mem c

linked : Memory → Boot → Memory
linked m s =
    write (write (write m (s.pml4 / 8) (s.pdpt + 3)) (s.pdpt / 8) (s.pd + 3)) (s.pd / 8) (s.pt + 3)

pub setup_paging_lem : (s : Boot) → IsLaidOut s → (c : ℕ) → (setup_paging s).mem c ≡ after s c
unfolding setup_paging store_entry clear_table load_cr3 identity_map
setup_paging_lem s laid c =
    rw
      (
        with_flags s.pdpt laid.pdpt.aligned,
        with_flags s.pd laid.pd.aligned,
        with_flags s.pt laid.pt.aligned,
      )
      (rw (identity_loop_lem s.pt 256 0)
        (rw (memset_lem, memset_lem, memset_lem, memset_lem) (ground arith)))
