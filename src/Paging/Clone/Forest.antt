-- ===== src/Paging/Clone/Forest.antt =====
-- The tables that the loops of `setup_paging` make form trees, each in the pages that its loop took from
-- the heap.
pub mod Join
pub mod Root
use aidos.Common.{
  ℕ, suc, ◌+◌, ◌*◌, ◌/◌, ◌%◌, ◌^◌, ◌≤◌, ◌<◌, ◌≡◌, ◌⊎◌, inl, inr, refl, arith, false, Bool-cases,
  ◌==◌, ltb, if◌then◌else◌,
}
use aidos.Mem.{Memory}
use aidos.Paging.{entry}
use aidos.Paging.Tree.{Leads}

-- The two memories have the same cells from `a` to `b`.
abbrev pub Agree : (a b : ℕ) (m m' : Memory) → Type 0
Agree a b m m' = (c : ℕ) → a ≤ c * 8 → c * 8 + 8 ≤ b → m' c ≡ m c

-- The addresses that lead to a table of level `n` by the bits `pre` lie in the upper half.
abbrev pub IsUpper : (n pre : ℕ) → Type 0
IsUpper n pre =
    ((n ≡ 3) × (256 ≤ pre)) ⊎ (((n ≡ 2) × (0x2_0000 ≤ pre)) ⊎ ((n ≡ 1) × (0x400_0000 ≤ pre)))

pub IsUpper-below : (n pre j : ℕ) → IsUpper (suc (suc n)) pre → IsUpper (suc n) (pre * 512 + j)
IsUpper-below n pre j up = omega arith

module _ (offset : ℕ) where
  -- Entry `e`, of a table of level `n`, leads to a table of the level below, reached by the bits `pre`.
  abbrev pub Links : (level prefix : ℕ → ℕ) (e n pre : ℕ) → Type 0
  Links level prefix e n pre =
      let to = e / 4096 * 4096 + offset in (e < 2 ^ 52) × (suc (level to) ≡ n) × (prefix to ≡ pre)

  -- The pages from `a` to `b` hold tables that lead only to each other.
  pub record IsForest (a b : ℕ) (m : Memory) (level prefix : ℕ → ℕ) : Type 0 where
    pub placed : (u : ℕ) → 0 < level u → (u % 4096 ≡ 0) × (a ≤ u) × (u + 4096 ≤ b)
    pub links :
        (u i : ℕ)
        → 1 < level u
        → i < 512
        → Leads (entry m u i)
        → Links level prefix (entry m u i) (level u) (prefix u * 512 + i)
    pub upper : (u : ℕ) → 0 < level u → IsUpper (level u) (prefix u)

  -- A tree below `p`.
  pub record Subtree (n p pre a b : ℕ) (m : Memory) : Type 0 where
    pub level : ℕ → ℕ
    pub prefix : ℕ → ℕ
    pub forest : IsForest a b m level prefix
    pub root : level p ≡ n
    pub root_prefix : prefix p ≡ pre

  -- The trees below the entries of `t` from `i` on.
  pub record Shoots (n t pre i left a b : ℕ) (m : Memory) : Type 0 where
    pub level : ℕ → ℕ
    pub prefix : ℕ → ℕ
    pub forest : IsForest a b m level prefix
    pub entries :
        (j : ℕ)
        → i ≤ j
        → j < i + left
        → Leads (entry m t j)
        → Links level prefix (entry m t j) (suc n) (pre * 512 + j)

  -- Only the pages of the forest count.
  pub IsForest-same :
      (a b a' b' : ℕ) (m m' : Memory) (level prefix : ℕ → ℕ)
      → IsForest a b m level prefix
      → Agree a b m m'
      → a' ≤ a
      → b ≤ b'
      → IsForest a' b' m' level prefix
  IsForest-same a b a' b' m m' level prefix f same lo hi = record {
    placed = λ u lv. omega (arith, f.placed u lv);
    links = λ u i lv lt leads.
        let at = f.placed u (omega arith) in
        let e : entry m' u i ≡ entry m u i =
          same (u / 8 + i) (omega (arith, at)) (omega (arith, at)) in
        rw e (f.links u i lv lt (rw e at leads));
    upper = f.upper;
  }

  pub Subtree-same :
      (n p pre a b a' : ℕ) (m m' : Memory)
      → Subtree n p pre a b m
      → Agree a b m m'
      → a' ≤ a
      → Subtree n p pre a' b m'
  Subtree-same n p pre a b a' m m' t same le = record {
    level = t.level;
    prefix = t.prefix;
    forest = IsForest-same a b a' b m m' t.level t.prefix t.forest same le (omega arith);
    root = t.root;
    root_prefix = t.root_prefix;
  }
