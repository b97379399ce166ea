-- ===== src/Paging/Clone/Walks.antt =====
-- What a copied table does for the processor, whatever happens to the rest of memory.
use aidos.Common.{
  ℕ, zero, suc, ◌+◌, ◌-◌, ◌/◌, ◌%◌, ◌^◌, ◌≤◌, ◌<◌, ◌≡◌, ◌∙◌, inl, inr, refl, arith, true, false,
  Bool-cases, sym, ◌==◌, ◌&&◌,
}
use aidos.Mem.{Memory}
use aidos.Paging.{Kernel, entry}
use aidos.Paging.Mmu.{index_at, frame, is_present, is_large, walk}
use aidos.Paging.Tree.{InWindow, Leads}
use aidos.Paging.Lookup.{identity, addr}
use aidos.Paging.Clone.{clone_pt, leads_on}
use aidos.Paging.Clone.Flags.{leads_on_bits}
use aidos.Paging.Clone.Copy.{tables, frontier, Room, through, from_entry, walk-from_entry}
use aidos.Paging.Clone.Forest.{Agree, IsUpper, Subtree}
use aidos.Paging.Clone.Forest.Root.{Subtree-leaf}
use aidos.Paging.Clone.Takeover.{Takeover, Stands, Grown}

pub Leads-of_leads_on : (e : ℕ) → leads_on e ≡ true → Leads e
Leads-of_leads_on e on =
    let bits : ((e % 2 == 1) && (e / 128 % 2 == 0)) ≡ true = sym (leads_on_bits e) ∙ on in
    ground arith

pub ends : (e : ℕ) → leads_on e ≡ false → Leads e → ⊥
ends e off leads =
    let bits : ((e % 2 == 1) && (e / 128 % 2 == 0)) ≡ false = sym (leads_on_bits e) ∙ off in
    ground arith

-- An entry that does not lead on is the same to every walk.
pub from_entry-end :
    (s s' : Kernel) (n e va : ℕ)
    → leads_on e ≡ false
    → from_entry s (suc n) e va ≡ from_entry s' (suc n) e va
from_entry-end s s' n e va off =
    let bits : ((e % 2 == 1) && (e / 128 % 2 == 0)) ≡ false = sym (leads_on_bits e) ∙ off in
    elim (Bool-cases (is_present e)) [
      | inr absent ↦ rw absent refl
      | inl there ↦ let large : is_large (suc n) e ≡ true = ground arith in rw (there, large) refl
    ]

pub from_entry-table :
    (s : Kernel) (n e va : ℕ) → Leads e → e < 2 ^ 48 → from_entry s n e va ≡ walk s n (addr e) va
from_entry-table s n e va leads small =
    let to : frame e ≡ addr e = omega arith in
    let there : is_present e ≡ true = ground arith in
    let plain : is_large n e ≡ false = ground arith in rw (there, plain, to) refl

pub from_entry-zero : (s s' : Kernel) (e va : ℕ) → from_entry s 0 e va ≡ from_entry s' 0 e va
unfolding walk
from_entry-zero s s' e va = refl

module _ (g : Takeover) where
  pub Stands-frontier : (s : Kernel) → Stands g s → frontier s ≤ g.hi
  Stands-frontier s st = omega (arith, st.heap_ok.used, st.end_ok)

  -- The walk from the kernel's table `p` ends where that from the old table `pa` ends, whatever the
  -- memory holds outside of `a` to `b`.
  abbrev pub Copies : (n p pa a b : ℕ) → Memory → Type 0
  Copies n p pa a b m =
      (m' : Memory)
      → Agree a b m m'
      → (va : ℕ) → walk (through g.offset m') n (p - g.offset) va ≡ walk (identity g.old) n pa va

  -- Of the entries of `t` from `i` on.
  abbrev pub Entries : (n t pa i left a b : ℕ) → Memory → Type 0
  Entries n t pa i left a b m =
      (j : ℕ)
      → i ≤ j
      → j < i + left
      → (m' : Memory) → Agree a b m m'
      → entry m' t j ≡ entry m t j
      → (va : ℕ)
      → from_entry (through g.offset m') n (entry m' t j) va
        ≡ from_entry (identity g.old) n (entry g.old pa j) va

  -- What the loop inside does with a copy at `p` of the old table `pa`, of level n + 1.
  abbrev pub Below : (n : ℕ) → (ℕ → Kernel → Kernel) → Type 0
  Below n below =
      (p pa k : ℕ) (s : Kernel)
      → Stands g s
      → (p % 4096 ≡ 0) × (g.lo ≤ p) × (p + 4096 ≤ frontier s)
      → g.level pa ≡ suc n
      → ((j : ℕ) → j < 512 → entry s.mem p j ≡ entry g.old pa j)
      → Room (tables g.old n 512 0 pa + k) s
      → Grown g p 0 512 k s (below p s)
        × Copies (suc n) p pa p (frontier (below p s)) (below p s).mem
        × ((pre : ℕ)
            → IsUpper (suc n) pre
            → Subtree g.offset (suc n) p pre p (frontier (below p s)) (below p s).mem)

  pub window_new :
      (p top : ℕ) (m : Memory)
      → (p % 4096 ≡ 0) × (g.lo ≤ p) × (p + 4096 ≤ top)
      → top ≤ g.hi
      → InWindow (through g.offset m) p
  window_new p top m page le = record {
    nonzero = omega (arith, g.low);
    aligned = page.0;
    above = omega (arith, g.above);
    below = omega (arith, g.below);
    whole = omega (arith, g.fits);
  }

  pub window_old : (pa : ℕ) → 0 < g.level pa → InWindow (identity g.old) pa
  window_old pa lv =
      let low = g.tree.low pa lv in
      let safe = g.tree.safe pa 0 lv (omega arith) in
      record {
        nonzero = omega arith;
        aligned = g.tree.aligned pa lv;
        above = omega arith;
        below = omega arith;
        whole = omega arith;
      }

  -- A table each of whose entries is right is right.
  pub Copies-of_entries :
      (n p pa a b top : ℕ) (m : Memory)
      → (p % 4096 ≡ 0) × (g.lo ≤ p) × (p + 4096 ≤ top)
      → top ≤ g.hi
      → a ≤ p
      → p + 4096 ≤ b
      → 0 < g.level pa
      → ((m' : Memory)
          → Agree a b m m'
          → (j : ℕ) → j < 512
          → (va : ℕ)
          → from_entry (through g.offset m') n (entry m' p j) va
            ≡ from_entry (identity g.old) n (entry g.old pa j) va)
      → Copies (suc n) p pa a b m
  Copies-of_entries n p pa a b top m page le from to lv each m' same va =
      let whole : pa - 0 ≡ pa = omega arith in
      walk-from_entry g.offset m' n p va (window_new p top m' page le)
      ∙ each m' same (index_at n va) (omega arith) va
      ∙ sym (rw whole at (walk-from_entry 0 g.old n pa va (window_old pa lv)))

  pub clone_pt-Below : Below zero clone_pt
  unfolding tables
  clone_pt-Below p pa k s st page lv same room = (
    record {
      stands = st;
      grown = omega arith;
      room = omega (arith, room);
      kept = λ c settled off. refl;
    },
    Copies-of_entries 0 p pa p (frontier s) (frontier s) s.mem page (Stands-frontier s st)
        (omega arith) (omega arith) (omega arith)
        (λ m' agree j lt va.
          let e : entry m' p j ≡ entry g.old pa j =
            agree (p / 8 + j) (omega arith) (omega arith) ∙ same j lt in
          rw e (from_entry-zero (through g.offset m') (identity g.old) (entry g.old pa j) va)),
    λ pre up. Subtree-leaf g.offset p pre (frontier s) s.mem page.0 page.2 up,
  )
