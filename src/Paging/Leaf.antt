-- ===== src/Paging/Leaf.antt =====
-- Writing an entry of a page table, level 1, at the end of the way of an address: the last line of
-- the bodies of `map_4k` and `unmap_4k`.
use aidos.Common.{
  ℕ, zero, suc, ◌+◌, ◌/◌, ◌%◌, ◌<◌, ◌≡◌, ◌≢◌, ◌⊎◌, inl, inr, refl, arith, Option, none, some, false,
  ◌∙◌, sym, ap, Bool-cases, ◌==◌, ==_iff, if◌then◌else◌,
}
use aidos.Mem.{write}
use aidos.Paging.{Kernel, entry, store_entry}
use aidos.Paging.Mmu.{index_at, walk, translate, frame, is_present}
use aidos.Paging.Tree.{InWindow-same, IsTree, walk-suc}
use aidos.Paging.Walk.{path, walk_same}
use aidos.Paging.Grows.{IsPlain}
use aidos.Paging.Link.{cells_apart, same_slot}
use aidos.Paging.Way.{Way, root, step, Way-level, Way-walk, Way-page, page, index_at-page}

module _ (s : Kernel) {level prefix : ℕ → ℕ} (tree : IsTree s level prefix) (va t v : ℕ)
    (way : Way s va 1 t) where
  abbrev pub leaf_state : Kernel
  leaf_state = record s { mem = write s.mem (t / 8 + index_at 0 va) v }

  t-level : (level t ≡ 1) × (prefix t ≡ path 1 va)
  t-level = Way-level s tree va way

  pub store_entry-leaf : store_entry t (index_at 0 va) v s ≡ some (tt, leaf_state)
  unfolding store_entry
  store_entry-leaf =
      let real : (t == 0) ≡ false = ground (arith, tree.window t (omega (arith, t-level))) in
      rw real refl

  -- Every other entry of a table is the same.
  entry-apart :
      (u i : ℕ)
      → 0 < level u
      → i < 512
      → (u ≢ t) ⊎ (i ≢ index_at 0 va)
      → entry leaf_state.mem u i ≡ entry s.mem u i
  entry-apart u i pos h ne = ground (
    arith,
    cells_apart u t i (index_at 0 va) (tree.window u pos).aligned
        (tree.window t (omega (arith, t-level))).aligned h (omega arith) ne,
  )

  entry-above : (u i : ℕ) → 1 < level u → i < 512 → entry leaf_state.mem u i ≡ entry s.mem u i
  entry-above u i pos h = entry-apart u i (omega arith) h (inl λ e. ground (arith, t-level))

  pub leaf-IsTree : IsTree leaf_state level prefix
  leaf-IsTree = record {
    heap_ok = tree.heap_ok;
    heap_above = tree.heap_above;
    heap_below = tree.heap_below;
    heap_whole = tree.heap_whole;
    offset_aligned = tree.offset_aligned;
    root = tree.root;
    root_prefix = tree.root_prefix;
    window = λ u pos. InWindow-same s leaf_state u refl (tree.window u pos);
    taken = tree.taken;
    small = λ u i pos h. rw (entry-above u i pos h) (tree.small u i pos h);
    below = λ u i pos h. rw (entry-above u i pos h) (tree.below u i pos h);
    below_prefix = λ u i pos h. rw (entry-above u i pos h) (tree.below_prefix u i pos h);
  }

  pub leaf-IsPlain : (va' : ℕ) → IsPlain s level prefix va' → IsPlain leaf_state level prefix va'
  leaf-IsPlain va' plain n u lv pre =
      rw (entry-above u (index_at (suc n) va') (omega arith) (omega arith)) (plain n u lv pre)

  pub leaf-Way : {va' n u : ℕ} → 0 < n → Way s va' n u → Way leaf_state va' n u
  leaf-Way pos (root e) = root e
  leaf-Way {va'} pos (step {n} {t = u} lt w leads e) =
      let same =
        entry-above u (index_at (suc n) va') (omega (arith, Way-level s tree va' w))
          (omega arith) in
      step lt (leaf-Way (omega arith) w) (rw same leads) (rw same e)

  -- What the entry says, for the addresses of the page.
  abbrev pub leaf_target : ℕ → Option ℕ
  leaf_target va' = if is_present v then some (frame v + va' % 4096) else none

  here_lem : (va' : ℕ) → page va ≡ page va' → translate leaf_state va' ≡ leaf_target va'
  here_lem va' e =
      let at_slot : entry leaf_state.mem t (index_at 0 va') ≡ v =
        rw (← index_at-page 0 va va' (omega arith) e) (ground arith) in
      Way-walk leaf_state leaf-IsTree va' (leaf-Way (omega arith) (Way-page s e way))
      ∙ walk-suc leaf_state 0 t va'
          (InWindow-same s leaf_state t refl (tree.window t (omega (arith, t-level))))
      ∙ rw at_slot (unfold walk in ground arith)

  elsewhere_lem : (va' : ℕ) → page va ≢ page va' → translate leaf_state va' ≡ translate s va'
  elsewhere_lem va' ne =
      walk_same s tree leaf_state.mem s.heap va' 3 s.pml4 (omega arith) tree.root
        (omega (arith, tree.root_prefix))
        λ m u lv pre. elim (same_slot u (index_at m va') t (index_at 0 va)) [
          | inr other ↦ inl (entry-apart u (index_at m va') (omega arith) (omega arith) other)
          | inl (e, e') ↦ absurd (ne (meet m u lv pre e e'))
        ]
    where
      meet :
          (m u : ℕ)
          → level u ≡ suc m
          → prefix u ≡ path (suc m) va'
          → u ≡ t
          → index_at m va' ≡ index_at 0 va
          → page va ≡ page va'
      meet zero u lv pre e e' =
          let same : path 1 va' ≡ path 1 va = sym pre ∙ ap prefix e ∙ t-level.1 in omega arith
      meet (suc m) u lv pre e e' =
          let same : suc (suc m) ≡ 1 = sym lv ∙ ap level e ∙ t-level.0 in absurd (omega arith)

  -- The page of `va` is translated by the entry, and every other address as before.
  pub leaf-translate :
      (va' : ℕ)
      → translate leaf_state va'
        ≡ (if page va == page va' then leaf_target va' else translate s va')
  leaf-translate va' = elim (Bool-cases (page va == page va')) [
    | inl e ↦ rw e (here_lem va' ((==_iff (page va) (page va')).0 e))
    | inr ne ↦ rw ne (elsewhere_lem va' (ground arith))
  ]
