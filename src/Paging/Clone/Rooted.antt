-- ===== src/Paging/Clone/Rooted.antt =====
-- The PML4 of the kernel with the trees below its upper half is a tree of tables.
use aidos.Common.{
  ℕ, zero, suc, ◌+◌, ◌*◌, ◌%◌, ◌≤◌, ◌<◌, ◌≡◌, ◌⊎◌, inl, inr, arith, leb, ◌==◌, Bool-cases,
}
use aidos.Paging.{Kernel, entry}
use aidos.Paging.Tree.{InWindow, IsTree, Leads}
use aidos.Paging.Mmu.{index_at}
use aidos.Paging.Walk.{path}
use aidos.Paging.Map.{IsMapping}
use aidos.Paging.Clone.Copy.{frontier, through}
use aidos.Paging.Clone.Takeover.{Takeover, Stands}
use aidos.Paging.Clone.Forest.{IsUpper, Shoots, Links}
use aidos.Paging.Clone.Forest.Root.{Links-root, at_root, at_other, at_self}

-- An address of the lower half.
abbrev pub IsLower : ℕ → Type 0
IsLower va = index_at 3 va < 256

lower-apart :
    (n pre va : ℕ) → IsLower va → IsUpper (suc (suc n)) pre → pre ≡ path (suc (suc n)) va → ⊥
lower-apart zero pre va low up e = omega arith
lower-apart (suc zero) pre va low up e = omega arith
lower-apart (suc (suc n)) pre va low up e = omega arith

module _ (g : Takeover) (k : Kernel) (st : Stands g k) (same_pml4 : k.pml4 ≡ g.pml4)
    (window : InWindow (through g.offset k.mem) g.pml4)
    (zeroth : (i : ℕ) → i < 256 → entry k.mem g.pml4 i ≡ 0) (a b : ℕ) (from : g.lo ≤ a)
    (upto : b ≤ frontier k) (shoots : Shoots g.offset 3 g.pml4 0 256 256 a b k.mem) where
  abbrev pub level_of : ℕ → ℕ
  level_of = at_root g.pml4 4 shoots.level

  abbrev pub prefix_of : ℕ → ℕ
  prefix_of = at_root g.pml4 0 shoots.prefix

  -- A table is the PML4, or in the heap.
  IsTable-cases :
      (t : ℕ) → 0 < level_of t → (t ≡ g.pml4) ⊎ ((t % 4096 ≡ 0) × (a ≤ t) × (t + 4096 ≤ b))
  IsTable-cases t lv = elim (Bool-cases (t == g.pml4)) [
    | inl hit ↦ inl (ground arith)
    | inr miss ↦ inr (shoots.forest.placed t (rw (at_other g.pml4 4 shoots.level t miss) at lv))
  ]

  heap_end : b ≤ g.hi
  heap_end = omega (arith, upto, st.heap_ok.used, st.end_ok)

  apart : (g.pml4 + 4096 ≤ a) ⊎ (b ≤ g.pml4)
  apart = omega (arith, g.pml4_apart, from, heap_end)

  entry-Links :
      (t i : ℕ)
      → 1 < level_of t
      → i < 512
      → Leads (entry k.mem t i)
      → Links g.offset level_of prefix_of (entry k.mem t i) (level_of t) (prefix_of t * 512 + i)
  entry-Links t i lv lt leads = elim (Bool-cases (t == g.pml4)) [
    | inl hit ↦
        let e : t ≡ g.pml4 = ground arith in
        let leads' : Leads (entry k.mem g.pml4 i) = rw e at leads in
        rw (e, at_self g.pml4 4 shoots.level, at_self g.pml4 0 shoots.prefix)
          (elim (Bool-cases (leb 256 i)) [
            | inl upper ↦
                Links-root g.offset g.pml4 a b (entry k.mem g.pml4 i) 4 (0 * 512 + i) 4 0 k.mem
                  shoots.level shoots.prefix shoots.forest apart (omega arith)
                  (shoots.entries i (ground arith) (omega arith) leads')
            | inr lower ↦
                let zero_entry = zeroth i (ground arith) in
                absurd (omega (arith, zero_entry, leads'))
          ])
    | inr miss ↦
        let e = at_other g.pml4 4 shoots.level t miss in
        let e' = at_other g.pml4 0 shoots.prefix t miss in
        rw (e, e')
          (Links-root g.offset g.pml4 a b (entry k.mem t i) (shoots.level t)
            (shoots.prefix t * 512 + i) 4 0 k.mem shoots.level shoots.prefix shoots.forest apart
            (rw e at lv) (shoots.forest.links t i (rw e at lv) lt leads))
  ]

  pub IsTree-of_shoots : IsTree k level_of prefix_of
  IsTree-of_shoots = record {
    heap_ok = st.heap_ok;
    heap_above = omega (arith, st.offset_ok, st.base_ok, g.above);
    heap_below = omega (arith, st.offset_ok, st.end_ok, g.below);
    heap_whole = omega (arith, st.end_ok, g.fits);
    offset_aligned = omega (arith, st.offset_ok, g.offset_aligned);
    root = rw same_pml4 (at_self g.pml4 4 shoots.level);
    root_prefix = rw same_pml4 (at_self g.pml4 0 shoots.prefix);
    window = λ t lv. elim (IsTable-cases t lv) [
      | inl e ↦ record {
        nonzero = omega (arith, e, window.nonzero);
        aligned = omega (arith, e, window.aligned);
        above = omega (arith, e, window.above, st.offset_ok);
        below = omega (arith, e, window.below, st.offset_ok);
        whole = omega (arith, e, window.whole);
      }
      | inr at ↦ record {
        nonzero = omega (arith, at, from, g.low);
        aligned = at.0;
        above = omega (arith, at, from, g.above, st.offset_ok);
        below = omega (arith, at, heap_end, g.below, st.offset_ok);
        whole = omega (arith, at, heap_end, g.fits);
      }
    ];
    taken = λ t lv. elim (IsTable-cases t lv) [
      | inl e ↦ omega (arith, e, g.pml4_apart, st)
      | inr at ↦ inl (omega (arith, at, upto))
    ];
    small = λ t i lv lt leads. (entry-Links t i lv lt leads).0;
    below = λ t i lv lt leads. rw st.offset_ok (entry-Links t i lv lt leads).1;
    below_prefix = λ t i lv lt leads. rw st.offset_ok (entry-Links t i lv lt leads).2;
  }

  -- No table but the PML4 lies on the way of an address of the lower half.
  pub IsMapping-of_shoots : IsMapping IsLower k
  IsMapping-of_shoots = record {
    level = level_of;
    prefix = prefix_of;
    tree = IsTree-of_shoots;
    plain = λ va low n t lv pre there. elim (Bool-cases (t == g.pml4)) [
      | inl hit ↦
          let e : t ≡ g.pml4 = ground arith in
          let of_root : level_of t ≡ 4 = rw e (at_self g.pml4 4 shoots.level) in
          let two : n ≡ 2 = omega (arith, of_root, lv) in
          let there' : entry k.mem g.pml4 (index_at 3 va) % 2 ≡ 1 = rw (e, two) at there in
          absurd (omega (arith, zeroth (index_at 3 va) low, there'))
      | inr miss ↦
          let e = at_other g.pml4 4 shoots.level t miss in
          let e' = at_other g.pml4 0 shoots.prefix t miss in
          let lv' : shoots.level t ≡ suc (suc n) = rw e at lv in
          let pre' : shoots.prefix t ≡ path (suc (suc n)) va = rw e' at pre in
          absurd (
            lower-apart n (shoots.prefix t) va low
              (rw lv' at (shoots.forest.upper t (omega (arith, lv')))) pre')
    ];
  }
