-- ===== src/Boot/Map.antt =====
-- The contract of the bootloader's `map_4k`, from that of the kernel's.
use aidos.Common.{
  ℕ, zero, suc, ◌+◌, ◌*◌, ◌%◌, ◌^◌, ◌≤◌, ◌<◌, ◌≡◌, ◌∙◌, ap, arith, Option, none, some, u64,
}
use aidos.Paging
use aidos.Paging.{Kernel, M, ◌>>=◌, page_address}
use aidos.Paging.Entry.{page_bits}
use aidos.Paging.Map.{IsMapping, MapsRange, map_4k-MapsRange}
use aidos.Boot.{Boot, map_4k_entry, map_4k_loop, map_4k}
use aidos.Boot.Same.{as_kernel, stored, ran, map_4k_entry-same}

page_address-aligned : (base i : ℕ) → base % 4096 ≡ 0 → page_address base i ≡ u64 (base + i * 4096)
page_address-aligned base i h = rw page_bits (omega arith)

module _ (virt phys : ℕ) (virt_aligned : virt % 4096 ≡ 0) (phys_aligned : phys % 4096 ≡ 0) where
  first-same :
      (i : ℕ) (s : Boot) {k' : Kernel}
      → Paging.map_4k_entry (page_address virt i) (page_address phys i) (as_kernel s)
        ≡ some (tt, k')
      → stored (map_4k_entry (u64 (virt + i * 4096)) (u64 (phys + i * 4096)) s) ≡ some (tt, k')
  first-same i s ok =
      rw (← page_address-aligned virt i virt_aligned, ← page_address-aligned phys i phys_aligned)
        (map_4k_entry-same (page_address virt i) (page_address phys i) s ok)

  map_4k_loop-same :
      (left i : ℕ) (s : Boot) {k' : Kernel}
      → Paging.map_4k_loop virt phys left i (as_kernel s) ≡ some (tt, k')
      → stored (map_4k_loop virt phys left i s) ≡ some (tt, k')
  unfolding Paging.map_4k_loop map_4k_loop
  map_4k_loop-same zero i s ok = ok
  map_4k_loop-same (suc left) i s {k'} ok =
      let loop : Unit {0} → M (Unit {0}) = λ _. Paging.map_4k_loop virt phys left (i + 1) in
      let q =
        ran (Paging.map_4k_entry (page_address virt i) (page_address phys i)) loop (as_kernel s)
          ok in
      let same = first-same i s q.first in
      map_4k_loop-same left (i + 1) _ (
        ap (λ (r : Option (Unit {0} × Kernel)). elim r [ none ↦ none | some (a, k) ↦ loop a k ])
          same
        ∙ q.rest)

  map_4k-same :
      (count : ℕ) (s : Boot) {k' : Kernel}
      → Paging.map_4k virt phys count (as_kernel s) ≡ some (tt, k')
      → stored (map_4k virt phys count s) ≡ some (tt, k')
  unfolding Paging.map_4k map_4k
  map_4k-same count s ok = map_4k_loop-same count 0 s ok

  -- In a tree of tables, with both addresses at the start of a page, physical addresses below 2 ^ 52,
  -- at most 2 ^ 36 pages, no large page on their way and six free pages of heap for each, the
  -- bootloader's `map_4k` leaves tables by which the processor translates each address of the range to
  -- the frame of its page and every other address as before; the tables are a tree with no new large
  -- page, and at most six pages of heap are used for each page.
  pub map_4k-MapsAligned :
      (P : ℕ → Type 0) (count : ℕ)
      → phys + count * 4096 ≤ 2 ^ 52
      → count ≤ 2 ^ 36
      → ((i : ℕ) → i < count → P (page_address virt i))
      → (s : Boot) → IsMapping P (as_kernel s)
      → s.heap.heap_offset + count * 24576 ≤ s.heap.heap_size
      → MapsRange P virt phys count 0 (as_kernel s) (stored (map_4k virt phys count s))
  map_4k-MapsAligned P count fits once plain s m room =
      let done = map_4k-MapsRange P virt phys count fits once plain (as_kernel s) m room in
      record {
        s' = done.s';
        returns = map_4k-same count s done.returns;
        mapping = done.mapping;
        range = done.range;
        but = done.but;
      }
