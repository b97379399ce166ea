-- ===== src/Paging/Unmap/Step.antt =====
-- `get_table_if_exists` on the way of an address, and what `invlpg` leaves as it is.
use aidos.Common.{
  ℕ, zero, suc, ◌+◌, ◌%◌, ◌<◌, ◌≡◌, inl, inr, refl, arith, none, some, false, ◌∙◌, ◌==◌, bit_and,
  u64, List,
}
use aidos.Heap.{null}
use aidos.Paging.{Kernel, entry, get_table_if_exists}
use aidos.Paging.Entry.{present_bit, page_bits}
use aidos.Paging.Mmu.{index_at, walk, translate}
use aidos.Paging.Tree.{InWindow-same, IsTree, Leads, child, walk-suc}
use aidos.Paging.Grows.{IsPlainAt}
use aidos.Paging.Create.{parity}
use aidos.Paging.Way.{Way, step, Way-level, Way-walk, Way-page, page, index_at-page}

module _ (s : Kernel) {level prefix : ℕ → ℕ} (tree : IsTree s level prefix) (parent index : ℕ)
    (inner : 1 < level parent) (lt : index < 512) where
  not_null : (parent == null) ≡ false
  not_null = ground (arith, tree.window parent)

  exists-missing :
      entry s.mem parent index % 2 ≡ 0 → get_table_if_exists parent index s ≡ some (null, s)
  unfolding get_table_if_exists
  exists-missing absent =
      let missing : bit_and (entry s.mem parent index) 1 ≡ 0 =
        present_bit (entry s.mem parent index) ∙ absent in
      rw (not_null, missing) refl

  exists-present :
      Leads (entry s.mem parent index)
      → get_table_if_exists parent index s ≡ some (child s (entry s.mem parent index), s)
  unfolding get_table_if_exists
  exists-present leads =
      let e = entry s.mem parent index in
      let small = tree.small parent index inner lt leads in
      let w = tree.window (child s e) (omega (arith, tree.below parent index inner lt leads)) in
      let there : bit_and e 1 ≡ 1 = present_bit e ∙ leads.0 in
      let target : u64 (bit_and e 0xFFFF_FFFF_FFFF_F000 + s.kernel_offset) ≡ child s e =
        rw page_bits (omega (arith, w.whole)) in
      rw (not_null, there, target) refl

-- What was flushed plays no part in the tables.
module _ (s : Kernel) (addresses : List ℕ) where
  pub walk-flushed : (n t va : ℕ) → walk (record s { flushed = addresses }) n t va ≡ walk s n t va
  unfolding walk
  walk-flushed zero t va = refl
  walk-flushed (suc n) t va = rw (walk-flushed n) refl

  pub IsTree-flushed :
      {level prefix : ℕ → ℕ}
      → IsTree s level prefix
      → IsTree (record s { flushed = addresses }) level prefix
  IsTree-flushed tree = record {
    heap_ok = tree.heap_ok;
    heap_above = tree.heap_above;
    heap_below = tree.heap_below;
    heap_whole = tree.heap_whole;
    offset_aligned = tree.offset_aligned;
    root = tree.root;
    root_prefix = tree.root_prefix;
    window = λ t pos. InWindow-same s (record s { flushed = addresses }) t refl (tree.window t pos);
    taken = tree.taken;
    small = tree.small;
    below = tree.below;
    below_prefix = tree.below_prefix;
  }

-- A way that ends in a missing entry leads nowhere.
pub Way-missing :
    (s : Kernel) {level prefix : ℕ → ℕ} (tree : IsTree s level prefix) (va : ℕ) {n t : ℕ}
    → Way s va (suc n) t
    → entry s.mem t (index_at n va) % 2 ≡ 0
    → translate s va ≡ none
Way-missing s tree va {n} {t} w absent =
    Way-walk s tree va w
    ∙ walk-suc s n t va (tree.window t (omega (arith, Way-level s tree va w)))
    ∙ ground arith

-- The call finds nothing, as the entry is not present; or it finds the next table.
pub data Next (s : Kernel) (va n t : ℕ) : Type 0 where
  missing :
      get_table_if_exists t (index_at (suc n) va) s ≡ some (null, s)
      → entry s.mem t (index_at (suc n) va) % 2 ≡ 0
      → Next s va n t
  found :
      (u : ℕ)
      → get_table_if_exists t (index_at (suc n) va) s ≡ some (u, s)
      → (u == null) ≡ false
      → Way s va (suc n) u
      → Next s va n t

module _ (s : Kernel) {level prefix : ℕ → ℕ} (tree : IsTree s level prefix) (va : ℕ) where
  pub next :
      (n t : ℕ) → n < 3 → IsPlainAt s level prefix va n t → Way s va (suc (suc n)) t → Next s va n t
  next n t lt plain w =
      let i = index_at (suc n) va in
      let at_t = Way-level s tree va w in
      elim (parity (entry s.mem t i)) [
        | inl absent ↦
            missing (exists-missing s tree t i (omega (arith, at_t)) (omega arith) absent) absent
        | inr there ↦
            let leads : Leads (entry s.mem t i) = (there, plain at_t.0 at_t.1 there) in
            let w' = step lt w leads refl in
            found (child s (entry s.mem t i))
              (exists-present s tree t i (omega (arith, at_t)) (omega arith) leads)
              (ground (
                arith,
                tree.window (child s (entry s.mem t i)) (omega (arith, Way-level s tree va w')),
              ))
              w'
      ]

  pub nowhere_page :
      (n t : ℕ)
      → n < 3
      → Way s va (suc (suc n)) t
      → entry s.mem t (index_at (suc n) va) % 2 ≡ 0
      → (va' : ℕ) → page va ≡ page va'
      → translate s va' ≡ none
  nowhere_page n t lt w absent va' e =
      Way-missing s tree va' (Way-page s e w)
        (rw (← index_at-page (suc n) va va' (omega arith) e) absent)
