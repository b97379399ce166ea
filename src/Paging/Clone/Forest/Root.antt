-- ===== src/Paging/Clone/Forest/Root.antt =====
-- A table that a loop of `setup_paging` fills, above the trees of its entries.
use aidos.Common.{
  ℕ, suc, ◌+◌, ◌*◌, ◌/◌, ◌%◌, ◌≤◌, ◌<◌, ◌≡◌, ◌⊎◌, inl, inr, refl, arith, false, Bool-cases, ◌==◌,
  if◌then◌else◌,
}
use aidos.Mem.{Memory}
use aidos.Paging.{entry}
use aidos.Paging.Clone.Forest.{IsForest, IsUpper, Links, Subtree, Shoots}

-- Another value at `p`.
abbrev pub at_root : (p n : ℕ) (f : ℕ → ℕ) → ℕ → ℕ
at_root p n f u = if u == p then n else f u

pub at_other : (p n : ℕ) (f : ℕ → ℕ) (u : ℕ) → (u == p) ≡ false → at_root p n f u ≡ f u
at_other p n f u miss = rw miss refl

pub at_self : (p n : ℕ) (f : ℕ → ℕ) → at_root p n f p ≡ n
at_self p n f = ground arith

module _ (offset : ℕ) where
  -- The links stay, with a table beside the forest.
  pub Links-root :
      (p a b e n pre q r : ℕ) (m : Memory) (l f : ℕ → ℕ)
      → IsForest offset a b m l f
      → (p + 4096 ≤ a) ⊎ (b ≤ p)
      → 1 < n
      → Links offset l f e n pre
      → Links offset (at_root p q l) (at_root p r f) e n pre
  Links-root p a b e n pre q r m l f forest apart lt (small, lv, pr) =
      let to = e / 4096 * 4096 + offset in
      let at = forest.placed to (omega arith) in
      let miss : (to == p) ≡ false = ground arith in
      (small, rw (at_other p q l to miss) lv, rw (at_other p r f to miss) pr)

  -- A whole table and the trees below its entries.
  pub Shoots-Subtree :
      (n p pre a b : ℕ) (m : Memory)
      → p % 4096 ≡ 0
      → p + 4096 ≤ a
      → a ≤ b
      → IsUpper (suc (suc n)) pre
      → Shoots offset (suc n) p pre 0 512 a b m
      → Subtree offset (suc (suc n)) p pre p b m
  Shoots-Subtree n p pre a b m al le le' up s = record {
    level = at_root p (suc (suc n)) s.level;
    prefix = at_root p pre s.prefix;
    forest = record {
      placed = λ u lv. elim (Bool-cases (u == p)) [
        | inl hit ↦ ground arith
        | inr miss ↦
            omega (arith, s.forest.placed u (rw (at_other p (suc (suc n)) s.level u miss) at lv))
      ];
      links = λ u i lv lt leads. elim (Bool-cases (u == p)) [
        | inl hit ↦
            let e : u ≡ p = ground arith in
            rw (e, at_self p (suc (suc n)) s.level, at_self p pre s.prefix)
              (Links-root p a b (entry m p i) (suc (suc n)) (pre * 512 + i) (suc (suc n)) pre m
                s.level s.prefix s.forest (inl le) (omega arith)
                (s.entries i (omega arith) lt (rw e at leads)))
        | inr miss ↦
            let e = at_other p (suc (suc n)) s.level u miss in
            let e' = at_other p pre s.prefix u miss in
            rw (e, e')
              (Links-root p a b (entry m u i) (s.level u) (s.prefix u * 512 + i) (suc (suc n)) pre m
                s.level s.prefix s.forest (inl le) (rw e at lv)
                (s.forest.links u i (rw e at lv) lt leads))
      ];
      upper = λ u lv. elim (Bool-cases (u == p)) [
        | inl hit ↦
            let e : u ≡ p = ground arith in
            rw (e, at_self p (suc (suc n)) s.level, at_self p pre s.prefix) up
        | inr miss ↦
            let e = at_other p (suc (suc n)) s.level u miss in
            rw (e, at_other p pre s.prefix u miss) (s.forest.upper u (rw e at lv))
      ];
    };
    root = at_self p (suc (suc n)) s.level;
    root_prefix = at_self p pre s.prefix;
  }

  -- A page table leads to no table.
  pub Subtree-leaf :
      (p pre b : ℕ) (m : Memory)
      → p % 4096 ≡ 0
      → p + 4096 ≤ b
      → IsUpper 1 pre
      → Subtree offset 1 p pre p b m
  Subtree-leaf p pre b m al le up = record {
    level = at_root p 1 (λ u. 0);
    prefix = λ u. pre;
    forest = record {
      placed = λ u lv. ground arith;
      links = λ u i lv lt leads. absurd (ground arith);
      upper = λ u lv. ground arith;
    };
    root = at_self p 1 (λ u. 0);
    root_prefix = refl;
  }
