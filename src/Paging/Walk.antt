-- ===== src/Paging/Walk.antt =====
-- When two states of the tables translate an address alike.
use aidos.Common.{
  ℕ, zero, suc, ◌+◌, ◌*◌, ◌-◌, ◌/◌, ◌%◌, ◌^◌, ◌<◌, ◌≡◌, ◌⊎◌, inl, inr, refl, arith, true, false,
  ◌∙◌, sym, Bool-cases,
}
use aidos.Heap.{Heap}
use aidos.Mem.{Memory}
use aidos.Paging.{Kernel, entry}
use aidos.Paging.Mmu.{index_at, frame, is_present, is_large, walk}
use aidos.Paging.Tree.{InWindow, IsTree, Leads, child, walk-suc, frame-eq-child}

-- The bits of `va` above those that a table of level `n` resolves.
abbrev pub path : (n va : ℕ) → ℕ
path n va = va / 2 ^ (12 + 9 * n) % 2 ^ (36 - 9 * n)

pub path-suc : (n va : ℕ) → n < 4 → path n va ≡ path (suc n) va * 512 + index_at n va
path-suc zero va h = omega arith
path-suc (suc zero) va h = omega arith
path-suc (suc (suc zero)) va h = omega arith
path-suc (suc (suc (suc zero))) va h = omega arith
path-suc (suc (suc (suc (suc n)))) va h = absurd (omega arith)

-- The entry that a walk of `va` meets in `t`, of level n + 1, leads on if it is neither missing nor
-- large.
Leads-of_tests : (n e : ℕ) → is_present e ≡ true → is_large (suc n) e ≡ false → Leads e
Leads-of_tests n e p l = ground arith

-- One step of a walk goes on to the next table of the tree, on the way of the same address.
pub descend :
    (s : Kernel) {level prefix : ℕ → ℕ} (tree : IsTree s level prefix) (n t va : ℕ)
    → suc n < 4
    → level t ≡ suc (suc n)
    → prefix t ≡ path (suc (suc n)) va
    → Leads (entry s.mem t (index_at (suc n) va))
    → let e = entry s.mem t (index_at (suc n) va) in
      (level (child s e) ≡ suc n)
      × (prefix (child s e) ≡ path (suc n) va)
      × (frame e ≡ child s e - s.kernel_offset)
descend s tree n t va lt lv pre leads =
    let i = index_at (suc n) va in
    (
      omega (arith, tree.below t i (omega arith) (omega arith) leads),
      tree.below_prefix t i (omega arith) (omega arith) leads
          ∙ rw pre (sym (path-suc (suc n) va lt)),
      frame-eq-child s (entry s.mem t i) (tree.small t i (omega arith) (omega arith) leads),
    )

module _ (s : Kernel) {level prefix : ℕ → ℕ} (tree : IsTree s level prefix) (mem' : Memory)
    (heap' : Heap) where
  abbrev s' : Kernel
  s' = record s { mem = mem'; heap = heap' }

  InWindow' : {t : ℕ} → InWindow s t → InWindow s' t
  InWindow' w = record {
    nonzero = w.nonzero;
    aligned = w.aligned;
    above = w.above;
    below = w.below;
    whole = w.whole;
  }

  -- If each entry on the way of `va` is the same, or at least what follows it is, then `va`
  -- translates as before.
  pub walk_same :
      (va n t : ℕ)
      → n < 4
      → level t ≡ suc n
      → prefix t ≡ path (suc n) va
      → ((m u : ℕ)
          → level u ≡ suc m
          → prefix u ≡ path (suc m) va
          → (entry mem' u (index_at m va) ≡ entry s.mem u (index_at m va))
            ⊎ (walk s' (suc m) (u - s.kernel_offset) va ≡ walk s (suc m) (u - s.kernel_offset) va))
      → walk s' (suc n) (t - s.kernel_offset) va ≡ walk s (suc n) (t - s.kernel_offset) va
  walk_same va zero t lt lv pre same = elim (same zero t lv pre) [
    | inr e ↦ e
    | inl e ↦
        let w = tree.window t (omega arith) in
        walk-suc s' zero t va (InWindow' w)
        ∙ rw e (unfold walk in refl)
        ∙ sym (walk-suc s zero t va w)
  ]
  walk_same va (suc n) t lt lv pre same = elim (same (suc n) t lv pre) [
    | inr e ↦ e
    | inl e ↦
        let w = tree.window t (omega arith) in
        walk-suc s' (suc n) t va (InWindow' w)
        ∙ rw e (elim (Bool-cases (is_present (entry s.mem t (index_at (suc n) va)))) [
          | inr absent ↦ rw absent
          | inl there ↦
              rw there (elim (Bool-cases (is_large (suc n) (entry s.mem t (index_at (suc n) va)))) [
                | inl large ↦ rw large
                | inr plain ↦ rw plain (
                    let leads =
                      Leads-of_tests n (entry s.mem t (index_at (suc n) va)) there plain in
                    let next = descend s tree n t va lt lv pre leads in
                    rw next.2 (
                      walk_same va n (child s (entry s.mem t (index_at (suc n) va))) (omega arith)
                        next.0 next.1 same))
              ])
        ])
        ∙ sym (walk-suc s (suc n) t va w)
  ]
