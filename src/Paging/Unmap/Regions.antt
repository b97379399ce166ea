-- ===== src/Paging/Unmap/Regions.antt =====
-- The contract of the kernel's `unmap_2m`.
use aidos.Common.{
  ℕ, zero, suc, ◌+◌, ◌-◌, ◌%◌, ◌≤◌, ◌<◌, ◌≡◌, ◌≢◌, inl, inr, refl, arith, Option, none, some, ◌++◌,
  replicate, ◌⊎◌, sym, true, false, ◌∙◌, Bool-cases, ◌==◌, ◌∷◌,
}
use aidos.Paging.{
  Kernel, entry, store_entry, flush_tlb_single, unmap_2m_entry, unmap_2m_loop, unmap_2m,
  page_address, ◌>>=◌, ◌>>◌,
}
use aidos.Paging.Entry.{index_bits}
use aidos.Paging.Mmu.{index_at, translate}
use aidos.Paging.Tree.{IsTree, Leads}
use aidos.Paging.Grows.{IsPlain, IsPlainAt}
use aidos.Paging.Way.{Way, root}
use aidos.Paging.Directory.{
  region, SendsRegion, index_at-region, Way-region, entry_state, store_entry-directory,
  directory-IsTree, entry-cases, here-Way, at_entry, directory-SendsRegion,
}
use aidos.Paging.Unmap.Rounds.{replicate-append_suc}
use aidos.Paging.Unmap.Step.{missing, found, next, walk-flushed, IsTree-flushed, Way-missing}

-- No entry on the way of `va` is that of a page of 1 GiB; a page of 2 MiB may end it.
abbrev pub IsPlainAbove : Kernel → (level prefix : ℕ → ℕ) → ℕ → Type 0
IsPlainAbove s level prefix va = (n t : ℕ) → 0 < n → IsPlainAt s level prefix va n t

module _ (level prefix : ℕ → ℕ) where
  -- What a part of the loop does: the heap is untouched, the tables are the same tree less the entries
  -- cleared, and no way gets a large page.
  pub record Cleared (s s' : Kernel) : Type 0 where
    pub tree : IsTree s' level prefix
    pub above : (va : ℕ) → IsPlainAbove s level prefix va → IsPlainAbove s' level prefix va
    pub plain : (va : ℕ) → IsPlain s level prefix va → IsPlain s' level prefix va
    pub same_heap : s'.heap ≡ s.heap

  record Round (virt va : ℕ) (s : Kernel) (result : Option (Unit {0} × Kernel)) : Type 0 where
    s' : Kernel
    returns : result ≡ some (tt, s')
    cleared : Cleared s s'
    sends : SendsRegion va (λ _. none) s s'
    flushes :
        (s'.flushed ≡ virt ∷ s.flushed)
        ⊎ ((s'.flushed ≡ s.flushed) × ((va' : ℕ) → region va ≡ region va' → translate s va' ≡ none))

  module _ (virt va : ℕ) (s : Kernel) (tree : IsTree s level prefix) where
    nowhere :
        (n t : ℕ)
        → n < 3
        → 0 < n
        → Way s va (suc (suc n)) t
        → entry s.mem t (index_at (suc n) va) % 2 ≡ 0
        → (va' : ℕ) → region va ≡ region va'
        → translate s va' ≡ none
    nowhere n t lt pos w absent va' e =
        Way-missing s tree va' (Way-region s e w (omega arith))
          (rw (← index_at-region (suc n) va va' (omega arith) (omega arith) e) absent)

    skip-Round :
        {result : Option (Unit {0} × Kernel)}
        → result ≡ some (tt, s)
        → ((va' : ℕ) → region va ≡ region va' → translate s va' ≡ none)
        → Round virt va s result
    skip-Round e out = record {
      s' = s;
      returns = e;
      cleared = record { tree = tree; above = λ va' h. h; plain = λ va' h. h; same_heap = refl };
      sends = λ va'. ground (arith, out va');
      flushes = inr (refl, out);
    }

    module _ (t : ℕ) (w : Way s va 2 t) where
      ends : Leads 0 → ⊥
      ends leads = omega (arith, leads)

      empty_here :
          (va' : ℕ)
          → region va ≡ region va'
          → translate (entry_state s tree va t 0 w ends) va' ≡ none
      empty_here va' e =
          Way-missing (entry_state s tree va t 0 w ends) (directory-IsTree s tree va t 0 w ends) va'
            (here-Way s tree va t 0 w ends va' e) (rw (at_entry s tree va t 0 w ends va' e) refl)

      -- An entry that leads on in the new tables is as before.
      still-IsPlainAt :
          (va' n u : ℕ)
          → IsPlainAt s level prefix va' n u
          → IsPlainAt (entry_state s tree va t 0 w ends) level prefix va' n u
      still-IsPlainAt va' n u plain lv pre there =
          elim (entry-cases s tree va t 0 w ends u (index_at (suc n) va') (omega arith)
            (omega arith)) [
              | inl (e, e', new) ↦ absurd (omega (arith, new, there))
              | inr same ↦ rw same (plain lv pre (rw same at there))
            ]

      clear-Round :
          {result : Option (Unit {0} × Kernel)}
          → result ≡ (store_entry t (index_at 1 va) 0 >> flush_tlb_single virt) s
          → Round virt va s result
      unfolding flush_tlb_single
      clear-Round e = record {
        s' = record s { mem = (entry_state s tree va t 0 w ends).mem; flushed = virt ∷ s.flushed };
        returns = e ∙ rw (◌>>=◌, store_entry-directory s tree va t 0 w ends) refl;
        cleared = record {
          tree =
              IsTree-flushed (entry_state s tree va t 0 w ends) (virt ∷ s.flushed)
                (directory-IsTree s tree va t 0 w ends);
          above = λ va' plain n u pos. still-IsPlainAt va' n u (plain n u pos);
          plain = λ va' plain n u. still-IsPlainAt va' n u (plain n u);
          same_heap = refl;
        };
        sends = λ va'.
            walk-flushed (entry_state s tree va t 0 w ends) (virt ∷ s.flushed) 4
              (s.pml4 - s.kernel_offset) va'
            ∙ directory-SendsRegion s tree va t 0 w ends (λ _. none) empty_here va';
        flushes = inl refl;
      }

    -- One round clears the region of the address.
    unmap_2m_entry-Round :
        IsPlainAbove s level prefix va → Round virt va s (unmap_2m_entry virt va s)
    unfolding unmap_2m_entry
    unmap_2m_entry-Round plain =
        elim (next s tree va 2 s.pml4 (omega arith) (plain 2 s.pml4 (omega arith)) (root refl)) [
          | missing e3 absent ↦
              skip-Round (rw (index_bits, index_bits, index_bits) (rw (◌>>=◌, e3) refl))
                (nowhere 2 s.pml4 (omega arith) (omega arith) (root refl) absent)
          | found t3 e3 ne3 w3 ↦
              elim (next s tree va 1 t3 (omega arith) (plain 1 t3 (omega arith)) w3) [
                | missing e2 absent ↦
                    skip-Round
                      (rw (index_bits, index_bits, index_bits)
                        (rw (◌>>=◌, e3) (rw ne3 (rw (◌>>=◌, e2) refl))))
                      (nowhere 1 t3 (omega arith) (omega arith) w3 absent)
                | found t2 e2 ne2 w2 ↦ clear-Round t2 w2 (
                    rw (index_bits, index_bits, index_bits)
                      (rw (◌>>=◌, e3) (rw ne3 (rw (◌>>=◌, e2) (rw ne2 refl)))))
              ]
        ]

unmap_2m_loop-suc :
    (virt left i : ℕ) (s : Kernel) {s1 : Kernel}
    → unmap_2m_entry virt (page_address virt i) s ≡ some (tt, s1)
    → unmap_2m_loop virt (suc left) i s ≡ unmap_2m_loop virt left (i + 1) s1
unfolding unmap_2m_loop
unmap_2m_loop-suc virt left i s e = rw (◌>>=◌, e) refl

-- The addresses that are flushed: `virt`, once or more if an address of the range was mapped, and at
-- most once for each page.
pub record Flushes (virt left i : ℕ) (s s' : Kernel) : Type 0 where
  pub rounds : ℕ
  pub bound : rounds ≤ left
  pub all : s'.flushed ≡ replicate rounds virt ++ s.flushed
  pub some_round :
      (j va : ℕ)
      → i ≤ j
      → j < i + left
      → region va ≡ region (page_address virt j)
      → translate s va ≢ none
      → 0 < rounds

-- The call returns, and the 2 MiB around each of the pages of 4 KiB from `i` on are unmapped.
pub record UnmapsRegions (level prefix : ℕ → ℕ) (virt left i : ℕ) (s : Kernel)
    (result : Option (Unit {0} × Kernel)) : Type 0 where
  pub s' : Kernel
  pub returns : result ≡ some (tt, s')
  pub cleared : Cleared level prefix s s'
  pub inside :
      (j va : ℕ)
      → i ≤ j
      → j < i + left
      → region va ≡ region (page_address virt j)
      → translate s' va ≡ none
  pub outside :
      (va : ℕ)
      → ((j : ℕ) → i ≤ j → j < i + left → region va ≢ region (page_address virt j))
      → translate s' va ≡ translate s va
  pub still : (va : ℕ) → translate s va ≡ none → translate s' va ≡ none
  pub flushes : Flushes virt left i s s'

Cleared-then :
    (level prefix : ℕ → ℕ) (s s1 s' : Kernel)
    → Cleared level prefix s s1
    → Cleared level prefix s1 s'
    → Cleared level prefix s s'
Cleared-then level prefix s s1 s' first rest = record {
  tree = rest.tree;
  above = λ va h. rest.above va (first.above va h);
  plain = λ va h. rest.plain va (first.plain va h);
  same_heap = rest.same_heap ∙ first.same_heap;
}

-- A round, then the rest, by what the round flushed.
Flushes-then :
    (level prefix : ℕ → ℕ) (virt left i : ℕ) (s : Kernel) {result : Option (Unit {0} × Kernel)}
    (first : Round level prefix virt (page_address virt i) s result) (s' : Kernel)
    → Flushes virt left (i + 1) first.s' s'
    → Flushes virt (suc left) i s s'
Flushes-then level prefix virt left i s first s' rest = elim first.flushes [
  | inl one ↦ record {
    rounds = suc rest.rounds;
    bound = omega (arith, rest.bound);
    all = rest.all ∙ rw one (replicate-append_suc rest.rounds virt s.flushed);
    some_round = λ j va from to e was. omega arith;
  }
  | inr (same, out) ↦ record {
    rounds = rest.rounds;
    bound = omega (arith, rest.bound);
    all = rest.all ∙ rw same refl;
    some_round = λ j va from to e was.
        elim (Bool-cases (region (page_address virt i) == region va)) [
          | inl on ↦ absurd (was (out va (ground arith)))
          | inr off ↦
              let kept : translate first.s' va ≡ translate s va = first.sends va ∙ rw off refl in
              let later : i ≢ j = λ hit.
                let same_region : region (page_address virt i) ≡ region va = rw hit (sym e) in
                absurd (ground arith) in
              rest.some_round j va (omega (arith, later)) (omega arith) e (λ n. was (sym kept ∙ n))
        ];
  }
]

module _ (level prefix : ℕ → ℕ) (virt count : ℕ) where
  unmap_2m_loop-UnmapsRegions :
      (left i : ℕ) (s : Kernel)
      → i + left ≤ count
      → IsTree s level prefix
      → ((j : ℕ) → j < count → IsPlainAbove s level prefix (page_address virt j))
      → UnmapsRegions level prefix virt left i s (unmap_2m_loop virt left i s)
  unmap_2m_loop-UnmapsRegions zero i s h tree plain = record {
    s' = s;
    returns = unfold unmap_2m_loop in refl;
    cleared = record { tree = tree; above = λ va h. h; plain = λ va h. h; same_heap = refl };
    inside = λ j va from to. absurd (omega arith);
    outside = λ va h. refl;
    still = λ va e. e;
    flushes = record {
      rounds = 0;
      bound = omega arith;
      all = refl;
      some_round = λ j va from to. absurd (omega arith);
    };
  }
  unmap_2m_loop-UnmapsRegions (suc left) i s h tree plain =
      let va = page_address virt i in
      let first = unmap_2m_entry-Round level prefix virt va s tree (plain i (omega arith)) in
      let rest =
        unmap_2m_loop-UnmapsRegions left (i + 1) first.s' (omega arith) first.cleared.tree
          (λ j lt. first.cleared.above (page_address virt j) (plain j lt)) in
      record {
        s' = rest.s';
        returns = unmap_2m_loop-suc virt left i s first.returns ∙ rest.returns;
        cleared = Cleared-then level prefix s first.s' rest.s' first.cleared rest.cleared;
        inside = λ j va' from to e. elim (Bool-cases (i == j)) [
          | inl hit ↦
              let same : i ≡ j = ground arith in
              let on : (region va == region va') ≡ true = rw (e, same) (ground arith) in
              rest.still va' (first.sends va' ∙ rw on refl)
          | inr miss ↦ rest.inside j va' (ground arith) (omega arith) e
        ];
        outside = λ va' out.
            let ne = out i (omega arith) (omega arith) in
            let off : (region va == region va') ≡ false = ground (arith, ne) in
            rest.outside va' (λ j from to. out j (omega arith) (omega arith))
            ∙ first.sends va'
            ∙ rw off refl;
        still = λ va' e. rest.still va' (elim (Bool-cases (region va == region va')) [
          | inl on ↦ first.sends va' ∙ rw on refl
          | inr off ↦ first.sends va' ∙ rw off e
        ]);
        flushes = Flushes-then level prefix virt left i s first rest.s' rest.flushes;
      }

  -- In a tree of tables with no page of 1 GiB on the way of the pages, `unmap_2m` returns: the tables
  -- then translate no address in the 2 MiB around any of the `count` pages of 4 KiB from `virt` on, and
  -- every other address as before; they are a tree still, no way gets a large page, and the heap
  -- is untouched. Each address given to `invlpg` is `virt`, whichever page was unmapped, at most once for
  -- each page, and at least once if the tables translated an address of these 2 MiB before.
  pub unmap_2m-UnmapsRegions :
      (s : Kernel)
      → IsTree s level prefix
      → ((j : ℕ) → j < count → IsPlainAbove s level prefix (page_address virt j))
      → UnmapsRegions level prefix virt count 0 s (unmap_2m virt count s)
  unfolding unmap_2m
  unmap_2m-UnmapsRegions s tree plain =
      unmap_2m_loop-UnmapsRegions count 0 s (omega arith) tree plain
