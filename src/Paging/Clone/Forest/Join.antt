-- ===== src/Paging/Clone/Forest/Join.antt =====
-- The trees that a loop of `setup_paging` makes below one table after the other, side by side.
use aidos.Common.{
  ℕ, suc, ◌+◌, ◌*◌, ◌/◌, ◌^◌, ◌≤◌, ◌<◌, ◌≡◌, inl, inr, arith, Bool-cases, ◌==◌, ltb, if◌then◌else◌,
}
use aidos.Mem.{Memory}
use aidos.Paging.{entry}
use aidos.Paging.Tree.{Leads}
use aidos.Paging.Clone.Forest.{IsForest, Links, Subtree, Shoots}

module _ (offset : ℕ) where
  abbrev either : (x : ℕ) (f g : ℕ → ℕ) → ℕ → ℕ
  either x f g u = if ltb u x then f u else g u

  left_of : (x : ℕ) (f g : ℕ → ℕ) (u : ℕ) → u < x → either x f g u ≡ f u
  left_of x f g u lt = ground arith

  right_of : (x : ℕ) (f g : ℕ → ℕ) (u : ℕ) → x ≤ u → either x f g u ≡ g u
  right_of x f g u le = ground arith

  Links-left :
      (a x e n pre : ℕ) (m : Memory) (l1 p1 l2 p2 : ℕ → ℕ)
      → IsForest offset a x m l1 p1
      → 1 < n
      → Links offset l1 p1 e n pre
      → Links offset (either x l1 l2) (either x p1 p2) e n pre
  Links-left a x e n pre m l1 p1 l2 p2 f lt (small, lv, pr) =
      let to = e / 4096 * 4096 + offset in
      let at = f.placed to (omega arith) in
      let below : to < x = omega (arith, at) in
      (small, rw (left_of x l1 l2 to below) lv, rw (left_of x p1 p2 to below) pr)

  Links-right :
      (x b e n pre : ℕ) (m : Memory) (l1 p1 l2 p2 : ℕ → ℕ)
      → IsForest offset x b m l2 p2
      → 1 < n
      → Links offset l2 p2 e n pre
      → Links offset (either x l1 l2) (either x p1 p2) e n pre
  Links-right x b e n pre m l1 p1 l2 p2 f lt (small, lv, pr) =
      let to = e / 4096 * 4096 + offset in
      let at = f.placed to (omega arith) in
      let above : x ≤ to = omega (arith, at) in
      (small, rw (right_of x l1 l2 to above) lv, rw (right_of x p1 p2 to above) pr)

  -- Two forests side by side.
  IsForest-join :
      (a x b : ℕ) (m : Memory) (l1 p1 l2 p2 : ℕ → ℕ)
      → a ≤ x
      → x ≤ b
      → IsForest offset a x m l1 p1
      → IsForest offset x b m l2 p2
      → IsForest offset a b m (either x l1 l2) (either x p1 p2)
  IsForest-join a x b m l1 p1 l2 p2 le le' f1 f2 = record {
    placed = λ u lv. elim (Bool-cases (ltb u x)) [
      | inl lt ↦ omega (arith, f1.placed u (rw (left_of x l1 l2 u (ground arith)) at lv))
      | inr ge ↦ omega (arith, f2.placed u (rw (right_of x l1 l2 u (ground arith)) at lv))
    ];
    links = λ u i lv lt leads. elim (Bool-cases (ltb u x)) [
      | inl less ↦
          let below : u < x = ground arith in
          let e = left_of x l1 l2 u below in
          let e' = left_of x p1 p2 u below in
          rw (e, e')
            (Links-left a x (entry m u i) (l1 u) (p1 u * 512 + i) m l1 p1 l2 p2 f1 (rw e at lv)
              (f1.links u i (rw e at lv) lt leads))
      | inr more ↦
          let above : x ≤ u = ground arith in
          let e = right_of x l1 l2 u above in
          let e' = right_of x p1 p2 u above in
          rw (e, e')
            (Links-right x b (entry m u i) (l2 u) (p2 u * 512 + i) m l1 p1 l2 p2 f2 (rw e at lv)
              (f2.links u i (rw e at lv) lt leads))
    ];
    upper = λ u lv. elim (Bool-cases (ltb u x)) [
      | inl less ↦
          let e = left_of x l1 l2 u (ground arith) in
          rw (e, left_of x p1 p2 u (ground arith)) (f1.upper u (rw e at lv))
      | inr more ↦
          let e = right_of x l1 l2 u (ground arith) in
          rw (e, right_of x p1 p2 u (ground arith)) (f2.upper u (rw e at lv))
    ];
  }

  -- The tree below entry `i`, and those below the next ones.
  pub Shoots-then :
      (n t pre i left p a x b : ℕ) (m : Memory)
      → Subtree offset (suc n) p (pre * 512 + i) a x m
      → a ≤ x
      → x ≤ b
      → entry m t i < 2 ^ 52
      → entry m t i / 4096 * 4096 + offset ≡ p
      → Shoots offset (suc n) t pre (i + 1) left x b m
      → Shoots offset (suc n) t pre i (suc left) a b m
  Shoots-then n t pre i left p a x b m sub le le' small to rest = record {
    level = either x sub.level rest.level;
    prefix = either x sub.prefix rest.prefix;
    forest =
        IsForest-join a x b m sub.level sub.prefix rest.level rest.prefix le le' sub.forest
          rest.forest;
    entries = λ j from upto leads. elim (Bool-cases (i == j)) [
      | inl hit ↦
          let e : i ≡ j = ground arith in
          rw e at (
            Links-left a x (entry m t i) (suc (suc n)) (pre * 512 + i) m sub.level sub.prefix
              rest.level rest.prefix sub.forest (omega arith)
              (small, rw to (omega (arith, sub.root)), rw to sub.root_prefix))
      | inr miss ↦
          Links-right x b (entry m t j) (suc (suc n)) (pre * 512 + j) m sub.level sub.prefix
            rest.level rest.prefix rest.forest (omega arith)
            (rest.entries j (ground arith) (omega arith) leads)
    ];
  }

  -- An entry that leads to no table.
  pub Shoots-skip :
      (n t pre i left a b : ℕ) (m : Memory)
      → (Leads (entry m t i) → ⊥)
      → Shoots offset n t pre (i + 1) left a b m
      → Shoots offset n t pre i (suc left) a b m
  Shoots-skip n t pre i left a b m off rest = record {
    level = rest.level;
    prefix = rest.prefix;
    forest = rest.forest;
    entries = λ j from upto leads. elim (Bool-cases (i == j)) [
      | inl hit ↦ let e : i ≡ j = ground arith in absurd (off (rw e leads))
      | inr miss ↦ rest.entries j (ground arith) (omega arith) leads
    ];
  }

  pub Shoots-none : (n t pre i a b : ℕ) (m : Memory) → Shoots offset n t pre i 0 a b m
  Shoots-none n t pre i a b m = record {
    level = λ u. 0;
    prefix = λ u. 0;
    forest = record {
      placed = λ u lv. absurd (omega arith);
      links = λ u i lv lt leads. absurd (omega arith);
      upper = λ u lv. absurd (omega arith);
    };
    entries = λ j from upto leads. absurd (omega arith);
  }
