-- ===== src/Paging/Map.antt =====
-- The contract of `map_4k`.
use aidos.Common.{
  ℕ, zero, suc, ◌+◌, ◌*◌, ◌/◌, ◌%◌, ◌^◌, ◌≤◌, ◌<◌, ◌≡◌, refl, arith, Option, some, ◌∙◌, ap, bit_or,
}
use aidos.Paging.{
  Kernel, store_entry, get_or_create_table, map_4k_entry, map_4k_loop, map_4k, page_address, ◌>>=◌,
}
use aidos.Paging.Entry.{index_bits, with_flags}
use aidos.Paging.Mmu.{index_at, translate}
use aidos.Paging.Tree.{IsTree}
use aidos.Paging.Grows.{IsPlain}
use aidos.Paging.Create.{get_or_create_table-Got}
use aidos.Paging.Way.{Way, root, Way-level, Way-step, IsPlain-Grows}
use aidos.Paging.Range.{Sends, Sends-ext, IsRange, IsRange-zero, IsRange-suc, page_address_lem}
use aidos.Paging.Leaf

-- The tables form a tree, in which no large page lies on the way of an address of `P`.
pub record IsMapping (P : ℕ → Type 0) (s : Kernel) : Type 0 where
  pub level : ℕ → ℕ
  pub prefix : ℕ → ℕ
  pub tree : IsTree s level prefix
  pub plain : (va : ℕ) → P va → IsPlain s level prefix va

-- What stays the same, and what the heap gave, at most `pages` times two pages.
pub record SameBut (pages : ℕ) (s s' : Kernel) : Type 0 where
  pub spent : s'.heap.heap_offset ≤ s.heap.heap_offset + pages * 8192
  pub same_heap : s'.heap.heap_size ≡ s.heap.heap_size

-- One level down the way of `va`.
pub record Down (P : ℕ → Type 0) (va n t : ℕ) (s : Kernel) : Type 0 where
  pub u : ℕ
  pub s' : Kernel
  pub returns : get_or_create_table t (index_at (suc n) va) s ≡ some (u, s')
  pub mapping : IsMapping P s'
  pub way : Way s' va (suc n) u
  pub same_walk : (va' : ℕ) → translate s' va' ≡ translate s va'
  pub but : SameBut 1 s s'

-- The body of `map_4k`, as the calls that it makes.
map_4k_entry-steps :
    (va pa : ℕ) (s : Kernel) {t3 t2 t1 : ℕ} {s3 s2 s1 : Kernel}
    → get_or_create_table s.pml4 (index_at 3 va) s ≡ some (t3, s3)
    → get_or_create_table t3 (index_at 2 va) s3 ≡ some (t2, s2)
    → get_or_create_table t2 (index_at 1 va) s2 ≡ some (t1, s1)
    → map_4k_entry va pa s ≡ store_entry t1 (index_at 0 va) (bit_or (bit_or pa 1) 2) s1
unfolding map_4k_entry
map_4k_entry-steps va pa s e3 e2 e1 =
    rw (index_bits, index_bits, index_bits, index_bits)
      (rw (◌>>=◌, e3) (rw (◌>>=◌, e2) (rw (◌>>=◌, e1) refl)))

module _ (P : ℕ → Type 0) (va : ℕ) (p : P va) where
  pub down :
      (n t : ℕ) (s : Kernel)
      → n < 3
      → IsMapping P s
      → Way s va (suc (suc n)) t
      → s.heap.heap_offset + 8192 ≤ s.heap.heap_size
      → Down P va n t s
  down n t s lt m w room =
      let at_t = Way-level s m.tree va w in
      let got =
        get_or_create_table-Got s m.tree t (index_at (suc n) va) (omega (arith, at_t)) (omega arith)
          (m.plain va p n t at_t.0 at_t.1) room in
      record {
        u = got.t;
        s' = got.s';
        returns = got.returns;
        mapping = record {
          level = got.level';
          prefix = got.prefix';
          tree = got.grows.tree;
          plain = λ va' p'.
              IsPlain-Grows s m.tree t (index_at (suc n) va) got.t got.s' got.grows va'
                (m.plain va' p');
        };
        way = Way-step s m.tree t (index_at (suc n) va) got.t got.s' got.grows va lt w refl;
        same_walk = got.grows.same_walk;
        but = record { spent = omega (arith, got.grows.spent); same_heap = got.grows.same_heap };
      }

  -- The result of the body of `map_4k`.
  pub record Mapped (pa : ℕ) (s : Kernel) : Type 0 where
    pub s' : Kernel
    pub returns : map_4k_entry va pa s ≡ some (tt, s')
    pub mapping : IsMapping P s'
    pub sends : Sends va (λ va'. some (pa + va' % 4096)) s s'
    pub but : SameBut 3 s s'

  pub map_4k_entry-Mapped :
      (pa : ℕ) (s : Kernel)
      → pa % 4096 ≡ 0
      → pa < 2 ^ 52
      → IsMapping P s
      → s.heap.heap_offset + 3 * 8192 ≤ s.heap.heap_size
      → Mapped pa s
  map_4k_entry-Mapped pa s aligned small m room =
      let d3 = down 2 s.pml4 s (omega arith) m (root refl) (omega arith) in
      let d2 = down 1 d3.u d3.s' (omega arith) d3.mapping d3.way (omega (arith, d3.but)) in
      let d1 = down 0 d2.u d2.s' (omega arith) d2.mapping d2.way (omega (arith, d3.but, d2.but)) in
      let end = d1.mapping in
      let v = pa + 3 in
      record {
        s' = Leaf.leaf_state d1.s' end.tree va d1.u v d1.way;
        returns =
            map_4k_entry-steps va pa s d3.returns d2.returns d1.returns
            ∙ rw (with_flags pa aligned) (Leaf.store_entry-leaf d1.s' end.tree va d1.u v d1.way);
        mapping = record {
          level = end.level;
          prefix = end.prefix;
          tree = Leaf.leaf-IsTree d1.s' end.tree va d1.u v d1.way;
          plain =
              λ va' p'. Leaf.leaf-IsPlain d1.s' end.tree va d1.u v d1.way va' (end.plain va' p');
        };
        sends = λ va'. ground (
          arith,
          Leaf.leaf-translate d1.s' end.tree va d1.u v d1.way va',
          d1.same_walk va',
          d2.same_walk va',
          d3.same_walk va',
        );
        but = record {
          spent = omega (arith, d1.but, d2.but, d3.but);
          same_heap = omega (arith, d1.but, d2.but, d3.but);
        };
      }

map_4k_loop-suc :
    (virt phys left i : ℕ) (s : Kernel) {s1 : Kernel}
    → map_4k_entry (page_address virt i) (page_address phys i) s ≡ some (tt, s1)
    → map_4k_loop virt phys (suc left) i s ≡ map_4k_loop virt phys left (i + 1) s1
unfolding map_4k_loop
map_4k_loop-suc virt phys left i s e = rw (◌>>=◌, e) refl

-- The frame of page `j` of a range, with the offset in the page.
abbrev pub frame_of : ℕ → ℕ → ℕ → Option ℕ
frame_of phys j va = some ((phys / 4096 + j) * 4096 + va % 4096)

-- The call returns, with the range mapped and the tables a tree as before.
pub record MapsRange (P : ℕ → Type 0) (virt phys left i : ℕ) (s : Kernel)
    (result : Option (Unit {0} × Kernel)) : Type 0 where
  pub s' : Kernel
  pub returns : result ≡ some (tt, s')
  pub mapping : IsMapping P s'
  pub range : IsRange virt (frame_of phys) left i s s'
  pub but : SameBut (3 * left) s s'

module _ (P : ℕ → Type 0) (virt phys count : ℕ) (fits : phys + count * 4096 ≤ 2 ^ 52)
    (once : count ≤ 2 ^ 36) (plain : (i : ℕ) → i < count → P (page_address virt i)) where
  map_4k_loop-MapsRange :
      (left i : ℕ) (s : Kernel)
      → i + left ≤ count
      → IsMapping P s
      → s.heap.heap_offset + left * 24576 ≤ s.heap.heap_size
      → MapsRange P virt phys left i s (map_4k_loop virt phys left i s)
  map_4k_loop-MapsRange zero i s h m room = record {
    s' = s;
    returns = unfold map_4k_loop in refl;
    mapping = m;
    range = IsRange-zero virt (frame_of phys) i s;
    but = record { spent = omega arith; same_heap = refl };
  }
  map_4k_loop-MapsRange (suc left) i s h m room =
      let at_frame = page_address_lem phys i (omega arith) in
      let first =
        map_4k_entry-Mapped P (page_address virt i) (plain i (omega arith)) (page_address phys i) s
          (omega (arith, at_frame)) (omega (arith, at_frame)) m (omega arith) in
      let rest =
        map_4k_loop-MapsRange left (i + 1) first.s' (omega arith) first.mapping
          (omega (arith, first.but)) in
      let sent =
        Sends-ext (page_address virt i) (λ va. some (page_address phys i + va % 4096))
          (frame_of phys i) s first.s' (λ va. ap (λ (t : ℕ). some (t + va % 4096)) at_frame)
          first.sends in
      record {
        s' = rest.s';
        returns = map_4k_loop-suc virt phys left i s first.returns ∙ rest.returns;
        mapping = rest.mapping;
        range =
            IsRange-suc virt (frame_of phys) left i s first.s' rest.s' (omega arith) sent
              rest.range;
        but = omega (arith, first.but, rest.but);
      }

  -- In a tree of tables, with physical addresses below 2 ^ 52, at most 2 ^ 36 pages, no large page on
  -- their way and six free pages of heap for each, `map_4k` returns: the processor then translates
  -- each address of the range to the frame of its page and every other address as before, the tables
  -- are a tree with no new large page, and at most six pages of heap are used for each page.
  pub map_4k-MapsRange :
      (s : Kernel)
      → IsMapping P s
      → s.heap.heap_offset + count * 24576 ≤ s.heap.heap_size
      → MapsRange P virt phys count 0 s (map_4k virt phys count s)
  unfolding map_4k
  map_4k-MapsRange s m room = map_4k_loop-MapsRange count 0 s (omega arith) m room
