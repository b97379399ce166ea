-- ===== src/Paging/Directory.antt =====
-- An entry of a page directory, level 2, at the end of the way of an address, that is stored there and
-- leads to no table: that of a page of 2 MiB, or none.
use aidos.Common.{
  ℕ, zero, suc, ◌+◌, ◌*◌, ◌/◌, ◌%◌, ◌^◌, ◌<◌, ◌≡◌, ◌≢◌, ◌⊎◌, inl, inr, refl, arith, Option, some,
  false, ◌∙◌, sym, ap, Bool-cases, ◌==◌, if◌then◌else◌,
}
use aidos.Mem.{write}
use aidos.Paging.{Kernel, entry, store_entry}
use aidos.Paging.Mmu.{index_at, translate}
use aidos.Paging.Tree.{InWindow-same, IsTree, Leads}
use aidos.Paging.Walk.{path, walk_same}
use aidos.Paging.Grows.{IsPlain}
use aidos.Paging.Link.{cells_apart, same_slot}
use aidos.Paging.Way.{Way, root, step, Way-level}

-- The 2 MiB that an address lies in.
abbrev pub region : ℕ → ℕ
region va = va / 2 ^ 21 % 2 ^ 27

-- From `s` to `s'` the region of `va` is sent to `target`, and every other address stays.
abbrev pub SendsRegion : (va : ℕ) (target : ℕ → Option ℕ) (s s' : Kernel) → Type 0
SendsRegion va target s s' =
    (va' : ℕ) → translate s' va' ≡ (if region va == region va' then target va' else translate s va')

pub index_at-region :
    (n va va' : ℕ) → 0 < n → n < 4 → region va ≡ region va' → index_at n va ≡ index_at n va'
index_at-region zero va va' pos h e = absurd (omega arith)
index_at-region (suc zero) va va' pos h e = omega arith
index_at-region (suc (suc zero)) va va' pos h e = omega arith
index_at-region (suc (suc (suc zero))) va va' pos h e = omega arith
index_at-region (suc (suc (suc (suc n)))) va va' pos h e = absurd (omega arith)

pub Way-region :
    (s : Kernel) {va va' n t : ℕ}
    → region va ≡ region va'
    → Way s va (suc n) t
    → 0 < n
    → Way s va' (suc n) t
Way-region s h (root e) pos = root e
Way-region s {va} {va'} h (step {n} lt w leads e) pos =
    let same = index_at-region (suc n) va va' (omega arith) (omega arith) h in
    step lt (Way-region s h w (omega arith)) (rw (← same) leads) (rw (← same) e)

module _ (s : Kernel) {level prefix : ℕ → ℕ} (tree : IsTree s level prefix) (va t v : ℕ)
    (way : Way s va 2 t) (ends : Leads v → ⊥) where
  abbrev pub entry_state : Kernel
  entry_state = record s { mem = write s.mem (t / 8 + index_at 1 va) v }

  t-level : (level t ≡ 2) × (prefix t ≡ path 2 va)
  t-level = Way-level s tree va way

  pub store_entry-directory : store_entry t (index_at 1 va) v s ≡ some (tt, entry_state)
  unfolding store_entry
  store_entry-directory =
      let real : (t == 0) ≡ false = ground (arith, tree.window t (omega (arith, t-level))) in
      rw real refl

  -- Every other entry of a table is the same.
  entry-apart :
      (u i : ℕ)
      → 0 < level u
      → i < 512
      → (u ≢ t) ⊎ (i ≢ index_at 1 va)
      → entry entry_state.mem u i ≡ entry s.mem u i
  entry-apart u i pos h ne = ground (
    arith,
    cells_apart u t i (index_at 1 va) (tree.window u pos).aligned
        (tree.window t (omega (arith, t-level))).aligned h (omega arith) ne,
  )

  -- An entry is the new one, which leads to no table, or as before.
  pub entry-cases :
      (u i : ℕ)
      → 0 < level u
      → i < 512
      → ((u ≡ t) × (i ≡ index_at 1 va) × (entry entry_state.mem u i ≡ v))
        ⊎ (entry entry_state.mem u i ≡ entry s.mem u i)
  entry-cases u i pos h = elim (same_slot u i t (index_at 1 va)) [
    | inl (e, e') ↦ inl (e, e', rw (e, e') (ground arith))
    | inr ne ↦ inr (entry-apart u i pos h ne)
  ]

  -- What is said of entries that lead on is said of the same ones.
  kept_leads :
      (Q : ℕ → Type 0) (u i : ℕ)
      → 0 < level u
      → i < 512
      → (Leads (entry s.mem u i) → Q (entry s.mem u i))
      → Leads (entry entry_state.mem u i)
      → Q (entry entry_state.mem u i)
  kept_leads Q u i pos h q leads = elim (entry-cases u i pos h) [
    | inl (e, e', new) ↦ absurd (ends (rw new at leads))
    | inr same ↦ rw same (q (rw same at leads))
  ]

  pub directory-IsTree : IsTree entry_state level prefix
  directory-IsTree = record {
    heap_ok = tree.heap_ok;
    heap_above = tree.heap_above;
    heap_below = tree.heap_below;
    heap_whole = tree.heap_whole;
    offset_aligned = tree.offset_aligned;
    root = tree.root;
    root_prefix = tree.root_prefix;
    window = λ u pos. InWindow-same s entry_state u refl (tree.window u pos);
    taken = tree.taken;
    small = λ u i pos h. kept_leads (λ e. e < 2 ^ 52) u i (omega arith) h (tree.small u i pos h);
    below = λ u i pos h.
        kept_leads (λ e. suc (level (e / 4096 * 4096 + s.kernel_offset)) ≡ level u) u i
          (omega arith) h (tree.below u i pos h);
    below_prefix = λ u i pos h.
        kept_leads (λ e. prefix (e / 4096 * 4096 + s.kernel_offset) ≡ prefix u * 512 + i) u i
          (omega arith) h (tree.below_prefix u i pos h);
  }

  -- The new entry lies on the way of an address of the region only.
  meet :
      (m u va' : ℕ)
      → level u ≡ suc m
      → prefix u ≡ path (suc m) va'
      → u ≡ t
      → index_at m va' ≡ index_at 1 va
      → region va ≡ region va'
  meet zero u va' lv pre e e' =
      let levels : level u ≡ level t = ap level e in absurd (omega (arith, lv, levels, t-level))
  meet (suc zero) u va' lv pre e e' =
      let same : va' / 2 ^ 30 % 2 ^ 18 ≡ va / 2 ^ 30 % 2 ^ 18 = sym pre ∙ ap prefix e ∙ t-level.1 in
      let same' : va' / 2 ^ 21 % 512 ≡ va / 2 ^ 21 % 512 = e' in omega (arith, same, same')
  meet (suc (suc m)) u va' lv pre e e' =
      let levels : level u ≡ level t = ap level e in absurd (omega (arith, lv, levels, t-level))

  pub directory-IsPlain :
      (va' : ℕ)
      → region va ≢ region va'
      → IsPlain s level prefix va'
      → IsPlain entry_state level prefix va'
  directory-IsPlain va' ne plain n u lv pre there =
      elim (entry-cases u (index_at (suc n) va') (omega arith) (omega arith)) [
        | inl (e, e', new) ↦ absurd (ne (meet (suc n) u va' lv pre e e'))
        | inr same ↦ rw same (plain n u lv pre (rw same at there))
      ]

  directory-Way : {va' n u : ℕ} → 1 < n → Way s va' n u → Way entry_state va' n u
  directory-Way pos (root e) = root e
  directory-Way {va'} pos (step {n} {t = u} lt w leads e) =
      let at_u = Way-level s tree va' w in
      let same =
        entry-apart u (index_at (suc n) va') (omega (arith, at_u)) (omega arith)
          (inl λ e. ground (arith, t-level, at_u)) in
      step lt (directory-Way (omega arith) w) (rw same leads) (rw same e)

  elsewhere : (va' : ℕ) → region va ≢ region va' → translate entry_state va' ≡ translate s va'
  elsewhere va' ne =
      walk_same s tree entry_state.mem s.heap va' 3 s.pml4 (omega arith) tree.root
        (omega (arith, tree.root_prefix))
        λ m u lv pre. elim (same_slot u (index_at m va') t (index_at 1 va)) [
          | inr other ↦ inl (entry-apart u (index_at m va') (omega arith) (omega arith) other)
          | inl (e, e') ↦ absurd (ne (meet m u va' lv pre e e'))
        ]

  pub at_entry : (va' : ℕ) → region va ≡ region va' → entry entry_state.mem t (index_at 1 va') ≡ v
  at_entry va' e = rw (← index_at-region 1 va va' (omega arith) (omega arith) e) (ground arith)

  -- The way of an address of the region to the new entry.
  pub here-Way : (va' : ℕ) → region va ≡ region va' → Way entry_state va' 2 t
  here-Way va' e = directory-Way (omega arith) (Way-region s e way (omega arith))

  -- What the entry says counts for the region.
  pub directory-SendsRegion :
      (target : ℕ → Option ℕ)
      → ((va' : ℕ) → region va ≡ region va' → translate entry_state va' ≡ target va')
      → SendsRegion va target s entry_state
  directory-SendsRegion target says va' = elim (Bool-cases (region va == region va')) [
    | inl e ↦ rw e (says va' (ground arith))
    | inr ne ↦ rw ne (elsewhere va' (ground arith))
  ]
