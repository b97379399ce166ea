-- ===== src/Boot/Large.antt =====
-- The contract of the bootloader's `map_2m`.
use aidos.Common.{
  ℕ, zero, suc, ◌+◌, ◌*◌, ◌/◌, ◌%◌, ◌^◌, ◌≤◌, ◌<◌, ◌≡◌, ◌≢◌, ◌∙◌, refl, sym, ap, arith, Option,
  none, some, u64, Bool-cases, ◌==◌, inl, inr, true, false,
}
use aidos.Paging.{Kernel}
use aidos.Paging.Mmu.{translate}
use aidos.Paging.Map.{IsMapping, SameBut}
use aidos.Paging.Directory.{region, SendsRegion}
use aidos.Paging.Large.{Outside, Mapped2m, map_2m_entry-Mapped2m}
use aidos.Boot.{Boot, map_2m_entry, map_2m_loop, map_2m}
use aidos.Boot.Same.{as_kernel, stored, map_2m_entry-same}

-- The address of the page `i` of a range.
abbrev pub large_address : (base i : ℕ) → ℕ
large_address base i = u64 (base + i * 0x20_0000)

-- The region of page `j` of a range.
abbrev pub region_of : (virt j : ℕ) → ℕ
region_of virt j = (virt / 2 ^ 21 + j) % 2 ^ 27

region-large_address :
    (virt i : ℕ) → virt % 2 ^ 21 ≡ 0 → region (large_address virt i) ≡ region_of virt i
region-large_address virt i al = omega arith

-- What a round does to the tables and to translation.
record Round (P : ℕ → Type 0) (va pa : ℕ) (k k' : Kernel) : Type 0 where
  mapping : IsMapping (Outside va P) k'
  sends : SendsRegion va (λ va'. some (pa + va' % 2 ^ 21)) k k'
  but : SameBut 2 k k'

Round-of_Mapped2m :
    (P : ℕ → Type 0) (va pa : ℕ) (k k' : Kernel) (m : Mapped2m P va pa k)
    → k' ≡ m.s'
    → Round P va pa k k'
Round-of_Mapped2m P va pa k k' m e = record {
  mapping = rw e m.mapping;
  sends = rw e m.sends;
  but = rw e m.but;
}

map_2m_entry-Round :
    (P : ℕ → Type 0) (va pa : ℕ) (s : Boot)
    → P va
    → pa % 2 ^ 21 ≡ 0
    → pa < 2 ^ 52
    → IsMapping P (as_kernel s)
    → s.heap.heap_offset + 2 * 8192 ≤ s.heap.heap_size
    → Round P va pa (as_kernel s) (as_kernel (map_2m_entry va pa s))
map_2m_entry-Round P va pa s p al small m room =
    let mapped = map_2m_entry-Mapped2m P va pa (as_kernel s) p al small m room in
    let same : stored (map_2m_entry va pa s) ≡ some (tt, mapped.s') =
      map_2m_entry-same va pa s mapped.returns in
    Round-of_Mapped2m P va pa (as_kernel s) (as_kernel (map_2m_entry va pa s)) mapped
      (state_of same)
  where
    state_of :
        {k k' : Kernel}
        → ◌≡◌ {A = Option (Unit {0} × Kernel)} (some (tt, k)) (some (tt, k'))
        → k ≡ k'
    state_of {k} e =
        ap (λ (r : Option (Unit {0} × Kernel)). elim r [ none ↦ k | some (u, t) ↦ t ]) e

IsMapping-fewer :
    (P Q : ℕ → Type 0) (k : Kernel) → ((va : ℕ) → Q va → P va) → IsMapping P k → IsMapping Q k
IsMapping-fewer P Q k fewer m = record {
  level = m.level;
  prefix = m.prefix;
  tree = m.tree;
  plain = λ va q. m.plain va (fewer va q);
}

-- Of the addresses of `P`, those outside of the pages from `i` on.
abbrev pub Beside : (P : ℕ → Type 0) (virt left i : ℕ) → ℕ → Type 0
Beside P virt left i va = P va × ((j : ℕ) → i ≤ j → j < i + left → region va ≢ region_of virt j)

-- The pages of the range from `i` on are mapped, each address of them to the frame of its page, and every
-- other address as before.
pub record MapsLarge (P : ℕ → Type 0) (virt phys left i : ℕ) (k k' : Kernel) : Type 0 where
  pub mapping : IsMapping (Beside P virt left i) k'
  pub inside :
      (j va : ℕ)
      → i ≤ j
      → j < i + left
      → region va ≡ region_of virt j
      → translate k' va ≡ some (phys + j * 0x20_0000 + va % 2 ^ 21)
  pub outside :
      (va : ℕ)
      → ((j : ℕ) → i ≤ j → j < i + left → region va ≢ region_of virt j)
      → translate k' va ≡ translate k va
  pub but : SameBut (2 * left) k k'

module _ (virt phys count : ℕ) (virt_aligned : virt % 2 ^ 21 ≡ 0) (phys_aligned : phys % 2 ^ 21 ≡ 0)
    (fits : phys + count * 0x20_0000 ≤ 2 ^ 52) (once : count ≤ 2 ^ 27) where
  frame_at : (i : ℕ) → i < count → large_address phys i ≡ phys + i * 0x20_0000
  frame_at i lt = omega arith

  apart : (i j : ℕ) → i < j → j < count → region_of virt i ≢ region_of virt j
  apart i j lt le e = omega arith

  -- A round, then the rest of the range.
  MapsLarge-then :
      (left i : ℕ) (P : ℕ → Type 0) (k k1 k' : Kernel)
      → i + suc left ≤ count
      → Round P (large_address virt i) (large_address phys i) k k1
      → MapsLarge (Outside (large_address virt i) P) virt phys left (i + 1) k1 k'
      → MapsLarge P virt phys (suc left) i k k'
  MapsLarge-then left i P k k1 k' h first rest =
      let at_region = region-large_address virt i virt_aligned in
      let at_frame = frame_at i (omega arith) in
      let missed : (va : ℕ) → region va ≢ region_of virt i → translate k1 va ≡ translate k va =
        λ va ne.
          let miss : (region (large_address virt i) == region va) ≡ false =
            ground (arith, at_region) in
          first.sends va ∙ rw miss refl in
      record {
        mapping =
            IsMapping-fewer (Beside (Outside (large_address virt i) P) virt left (i + 1))
              (Beside P virt (suc left) i) k'
              (λ va q. (
                (q.0, λ e. q.1 i (omega arith) (omega arith) (sym e ∙ at_region)),
                λ j from to. q.1 j (omega arith) (omega arith),
              ))
              rest.mapping;
        inside = λ j va from to e. elim (Bool-cases (i == j)) [
          | inl hit ↦
              let same : i ≡ j = ground arith in
              let here : region va ≡ region_of virt i = rw same e in
              let on : (region (large_address virt i) == region va) ≡ true =
                ground (arith, at_region, here) in
              rest.outside va (λ l a b f. apart i l (omega arith) (omega arith) (sym here ∙ f))
              ∙ first.sends va
              ∙ rw on (rw (at_frame, same) refl)
          | inr miss ↦ rest.inside j va (ground arith) (omega arith) e
        ];
        outside = λ va out.
            rest.outside va (λ j a b. out j (omega arith) (omega arith))
            ∙ missed va (out i (omega arith) (omega arith));
        but = record {
          spent = omega (arith, first.but, rest.but);
          same_heap = omega (arith, first.but, rest.but);
        };
      }

  map_2m_loop-MapsLarge :
      (left i : ℕ) (P : ℕ → Type 0) (s : Boot)
      → i + left ≤ count
      → IsMapping P (as_kernel s)
      → ((j : ℕ) → i ≤ j → j < i + left → P (large_address virt j))
      → s.heap.heap_offset + left * 16384 ≤ s.heap.heap_size
      → MapsLarge P virt phys left i (as_kernel s) (as_kernel (map_2m_loop virt phys left i s))
  unfolding map_2m_loop
  map_2m_loop-MapsLarge zero i P s h m plain room = record {
    mapping = IsMapping-fewer P (Beside P virt 0 i) (as_kernel s) (λ va q. q.0) m;
    inside = λ j va from to. absurd (omega arith);
    outside = λ va out. refl;
    but = record { spent = omega arith; same_heap = refl };
  }
  map_2m_loop-MapsLarge (suc left) i P s h m plain room =
      let va = large_address virt i in
      let pa = large_address phys i in
      let s1 = map_2m_entry va pa s in
      let at_frame = frame_at i (omega arith) in
      let first =
        map_2m_entry-Round P va pa s (plain i (omega arith) (omega arith)) (omega (arith, at_frame))
          (omega (arith, at_frame)) m (omega arith) in
      let rest =
        map_2m_loop-MapsLarge left (i + 1) (Outside va P) s1 (omega arith) first.mapping
          (λ j from to. (
            plain j (omega arith) (omega arith),
            λ e. apart i j (omega arith) (omega arith) (
                sym (region-large_address virt i virt_aligned)
                ∙ e
                ∙ region-large_address virt j virt_aligned),
          ))
          (omega (arith, first.but)) in
      MapsLarge-then left i P (as_kernel s) (as_kernel s1)
        (as_kernel (map_2m_loop virt phys left (i + 1) s1)) h first rest

  -- In a tree of tables, with both addresses at the start of 2 MiB, physical addresses up to 2 ^ 52, at most
  -- 2 ^ 27 pages, no large page on their way and four free pages of heap for each, the `map_2m` of the
  -- bootloader leaves tables by which the processor translates each address of the range to its place in
  -- its frame of 2 MiB and every other address as before; the tables are a tree, with no new large
  -- page outside of the range, and at most four pages of heap are used for each page.
  pub map_2m-MapsLarge :
      (P : ℕ → Type 0) (s : Boot)
      → IsMapping P (as_kernel s)
      → ((j : ℕ) → j < count → P (large_address virt j))
      → s.heap.heap_offset + count * 16384 ≤ s.heap.heap_size
      → MapsLarge P virt phys count 0 (as_kernel s) (as_kernel (map_2m virt phys count s))
  unfolding map_2m
  map_2m-MapsLarge P s m plain room =
      map_2m_loop-MapsLarge count 0 P s (omega arith) m (λ j from to. plain j (omega (arith, to)))
        room
