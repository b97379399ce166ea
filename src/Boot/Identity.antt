-- ===== src/Boot/Identity.antt =====
-- The tables that `setup_paging` leaves, read by the processor.
use aidos.Common.{
  ℕ, suc, ◌+◌, ◌*◌, ◌%◌, ◌^◌, ◌-◌, ◌<◌, ◌≡◌, ◌≢◌, ◌∙◌, ◌⊎◌, inl, inr, refl, sym, ap, arith, none,
  some, true, false, ltb, ◌==◌, if◌then◌else◌, Bool-cases, ==_iff,
}
use aidos.Paging.{Kernel, entry}
use aidos.Paging.Mmu.{index_at, walk, translate, frame, is_present, is_large}
use aidos.Paging.Tree.{InWindow, IsTree, child, walk-suc}
use aidos.Paging.Map.{IsMapping}
use aidos.Boot.{Boot, store_entry, clear_table, load_cr3, identity_map, setup_paging}
use aidos.Boot.Same.{as_kernel}
use aidos.Boot.Entries.{HoldsTables, after-HoldsTables}
use aidos.Boot.Setup.{IsPlaced, IsLaidOut, setup_paging_lem}

abbrev level_of : Boot → ℕ → ℕ
level_of s t =
    if t == s.pml4
    then 4
    else if t == s.pdpt
    then 3
    else if t == s.pd
    then 2
    else if t == s.pt
    then 1
    else 0

-- The four indices of an address of the first MiB.
first_mib :
    (va : ℕ)
    → (if index_at 3 va == 0
        then (if index_at 2 va == 0
            then (if index_at 1 va == 0
                then (if ltb (index_at 0 va) 256
                    then some (index_at 0 va * 4096 + va % 4096)
                    else none)
                else none)
            else none)
        else none)
      ≡ (if ltb (va % 2 ^ 48) 0x10_0000 then some (va % 2 ^ 48) else none)
first_mib va = ground arith

module _ (s : Boot) (laid : IsLaidOut s) (k : Kernel) (heap_eq : k.heap ≡ s.heap)
    (pml4_eq : k.pml4 ≡ s.pml4) (offset_eq : k.kernel_offset ≡ 0)
    (tables : HoldsTables s k.mem) where
  in_window : (t : ℕ) → IsPlaced s t → InWindow k t
  in_window t p = record {
    nonzero = p.nonzero;
    aligned = p.aligned;
    above = omega arith;
    below = omega (arith, p.below);
    whole = omega (arith, p.below);
  }

  -- The table that a level stands for.
  table_cases :
      (t : ℕ)
      → 1 < level_of s t
      → ((t ≡ s.pml4) × (level_of s t ≡ 4))
        ⊎ (((t ≡ s.pdpt) × (level_of s t ≡ 3)) ⊎ ((t ≡ s.pd) × (level_of s t ≡ 2)))
  table_cases t h = ground arith

  level_pdpt : level_of s s.pdpt ≡ 3
  level_pdpt = let ne = laid.pml4_pdpt in ground arith

  level_pd : level_of s s.pd ≡ 2
  level_pd =
      let (ne, ne') : (s.pml4 ≢ s.pd) × (s.pdpt ≢ s.pd) = (laid.pml4_pd, laid.pdpt_pd) in
      ground arith

  level_pt : level_of s s.pt ≡ 1
  level_pt = ground (arith, laid.pml4_pt, laid.pdpt_pt, laid.pd_pt)

  -- The entries of a table above the lowest: the first one leads to a table, the others are empty.
  record Shape (t i : ℕ) : Type 0 where
    u : ℕ
    holds : entry k.mem t i ≡ (if i == 0 then u + 3 else 0)
    placed : IsPlaced s u
    deeper : suc (level_of s u) ≡ level_of s t

  entry-Shape : (t i : ℕ) → 1 < level_of s t → i < 512 → Shape t i
  entry-Shape t i inner h = elim (table_cases t inner) [
    | inl (e, lv) ↦ record {
      u = s.pdpt;
      holds = rw e (tables.at_pml4 i h);
      placed = laid.pdpt;
      deeper = ap suc level_pdpt ∙ sym lv;
    }
    | inr (inl (e, lv)) ↦ record {
      u = s.pd;
      holds = rw e (tables.at_pdpt i h);
      placed = laid.pd;
      deeper = ap suc level_pd ∙ sym lv;
    }
    | inr (inr (e, lv)) ↦ record {
      u = s.pt;
      holds = rw e (tables.at_pd i h);
      placed = laid.pt;
      deeper = ap suc level_pt ∙ sym lv;
    }
  ]

  first_entry :
      (t i u : ℕ)
      → entry k.mem t i ≡ (if i == 0 then u + 3 else 0)
      → entry k.mem t i % 2 ≡ 1
      → (i ≡ 0) × (entry k.mem t i ≡ u + 3)
  first_entry t i u e there = ground arith

  IsPlaced-cases : (t : ℕ) → 0 < level_of s t → IsPlaced s t
  IsPlaced-cases t pos = elim (Bool-cases (t == s.pml4)) [
    | inl e ↦ rw ((==_iff t s.pml4).0 e) laid.pml4
    | inr ne4 ↦ elim (Bool-cases (t == s.pdpt)) [
      | inl e ↦ rw ((==_iff t s.pdpt).0 e) laid.pdpt
      | inr ne3 ↦ elim (Bool-cases (t == s.pd)) [
        | inl e ↦ rw ((==_iff t s.pd).0 e) laid.pd
        | inr ne2 ↦ elim (Bool-cases (t == s.pt)) [
          | inl e ↦ rw ((==_iff t s.pt).0 e) laid.pt
          | inr ne1 ↦ absurd (ground arith)
        ]
      ]
    ]
  ]

  after-IsTree : IsTree k (level_of s) (λ _. 0)
  after-IsTree = record {
    heap_ok = rw heap_eq laid.heap_ok;
    heap_above = omega arith;
    heap_below = rw (heap_eq, offset_eq) laid.heap_below;
    heap_whole = rw heap_eq (omega (arith, laid.heap_below));
    offset_aligned = omega arith;
    root = rw pml4_eq (ground arith);
    root_prefix = refl;
    window = λ t pos. in_window t (IsPlaced-cases t pos);
    taken = λ t pos. rw heap_eq (IsPlaced.taken (IsPlaced-cases t pos));
    small = λ t i inner h leads.
        let o = entry-Shape t i inner h in
        omega (arith, first_entry t i o.u o.holds leads.0, o.placed.below);
    below = λ t i inner h leads.
        let o = entry-Shape t i inner h in
        let back : child k (entry k.mem t i) ≡ o.u =
          omega (arith, first_entry t i o.u o.holds leads.0, o.placed.aligned) in
        rw back o.deeper;
    below_prefix = λ t i inner h leads.
        let o = entry-Shape t i inner h in omega (arith, first_entry t i o.u o.holds leads.0);
  }

  after-IsMapping : IsMapping (λ _. Unit {0}) k
  after-IsMapping = record {
    level = level_of s;
    prefix = λ _. 0;
    tree = after-IsTree;
    plain = λ va p n t lv pre there.
        let i = index_at (suc n) va in
        let o = entry-Shape t i (omega arith) (omega arith) in
        omega (arith, first_entry t i o.u o.holds there, o.placed.aligned);
  }

  -- A table whose first entry is the only one.
  walk_down :
      (n t u va : ℕ)
      → IsPlaced s t
      → IsPlaced s u
      → entry k.mem t (index_at (suc n) va) ≡ (if index_at (suc n) va == 0 then u + 3 else 0)
      → walk k (suc (suc n)) t va ≡ (if index_at (suc n) va == 0 then walk k (suc n) u va else none)
  walk_down n t u va p q e =
      let here : t - k.kernel_offset ≡ t = omega arith in
      rw here at (walk-suc k (suc n) t va (in_window t p))
      ∙ rw e (elim (Bool-cases (index_at (suc n) va == 0)) [
        | inr ne ↦ rw ne refl
        | inl first ↦
            let there : is_present (u + 3) ≡ true = ground (arith, q.aligned) in
            let small : is_large (suc n) (u + 3) ≡ false = ground (arith, q.aligned) in
            let onward : frame (u + 3) ≡ u = omega (arith, q.aligned, q.below) in
            rw (first, there, small, onward) refl
      ])

  walk_page :
      (va : ℕ)
      → walk k 1 s.pt va
        ≡ (if ltb (index_at 0 va) 256 then some (index_at 0 va * 4096 + va % 4096) else none)
  unfolding walk
  walk_page va =
      let i = index_at 0 va in
      let e = tables.at_pt i (omega arith) in
      let here : s.pt - k.kernel_offset ≡ s.pt = omega arith in
      rw here at (walk-suc k 0 s.pt va (in_window s.pt laid.pt))
      ∙ rw e (elim (Bool-cases (ltb i 256)) [
        | inr ge ↦ rw ge refl
        | inl lt ↦
            let there : is_present (i * 4096 + 3) ≡ true = ground arith in
            let onward : frame (i * 4096 + 3) ≡ i * 4096 = omega arith in
            rw (lt, there, onward) refl
      ])

  after-translate :
      (va : ℕ) → translate k va ≡ (if ltb (va % 2 ^ 48) 0x10_0000 then some (va % 2 ^ 48) else none)
  after-translate va =
      let root_at : k.pml4 - k.kernel_offset ≡ s.pml4 = omega arith in
      let w4 =
        walk_down 2 s.pml4 s.pdpt va laid.pml4 laid.pdpt
          (tables.at_pml4 (index_at 3 va) (omega arith)) in
      let w3 =
        walk_down 1 s.pdpt s.pd va laid.pdpt laid.pd
          (tables.at_pdpt (index_at 2 va) (omega arith)) in
      let w2 =
        walk_down 0 s.pd s.pt va laid.pd laid.pt (tables.at_pd (index_at 1 va) (omega arith)) in
      rw (root_at, w4, w3, w2, walk_page va) (first_mib va)

-- What `setup_paging` leaves for `map_4k`, and where the processor then sends an address.
pub record IsSetUp (s : Boot) : Type 0 where
  pub mapping : IsMapping (λ _. Unit {0}) (as_kernel s)
  pub in_cr3 : s.cr3 ≡ s.pml4
  pub maps :
      (va : ℕ)
      → translate (as_kernel s) va
        ≡ (if ltb (va % 2 ^ 48) 0x10_0000 then some (va % 2 ^ 48) else none)

-- With the four tables in pages of their own outside of the free part of the heap, whatever memory
-- holds, `setup_paging` puts the PML4 into CR3 and leaves tables that form a tree without large pages,
-- by which the first MiB is mapped to itself and every other address is not mapped.
pub setup_paging-IsSetUp : (s : Boot) → IsLaidOut s → IsSetUp (setup_paging s)
setup_paging-IsSetUp s laid =
    let k = as_kernel (setup_paging s) in
    let tables = after-HoldsTables s laid k.mem (setup_paging_lem s laid) in
    unfold setup_paging store_entry clear_table load_cr3 identity_map in
    record {
      mapping = after-IsMapping s laid k refl refl refl tables;
      in_cr3 = refl;
      maps = after-translate s laid k refl refl refl tables;
    }
