-- ===== src/Mem/Laws.antt =====
-- What the loops of `memcmp`, `memcpy` and `memset` leave in memory.
use aidos.Common.{
  ℕ, zero, suc, ◌+◌, ◌-◌, ◌≤◌, ◌<◌, ◌≡◌, ◌∙◌, ◌⊎◌, ◌↔◌, refl, arith, ◌&&◌, ltb, leb, if◌then◌else◌,
  u8, pos,
}
use aidos.Mem.{Memory, write, memcmp_loop, memcmp, memcpy_loop, memcpy, memset_loop, memset}

memset_loop_lem :
    (p v left i : ℕ) (m : Memory) (a : ℕ)
    → memset_loop p v left i m a ≡ (if leb (p + i) a && ltb a (p + i + left) then v else m a)
unfolding memset_loop
memset_loop_lem p v zero i m a = ground arith
memset_loop_lem p v (suc left) i m a =
    ground (arith, memset_loop_lem p v left (i + 1) (write m (p + i) v) a)

-- `memset` fills its range with the low byte of the value and changes nothing else.
pub memset_lem :
    (m : Memory) (p v n a : ℕ) → memset m p v n a ≡ (if leb p a && ltb a (p + n) then u8 v else m a)
unfolding memset
memset_lem m p v n a = ground (arith, memset_loop_lem p (u8 v) n 0 m a)

memcpy_loop_lem :
    (d s left i : ℕ) (m : Memory) (a : ℕ)
    → (d ≤ s) ⊎ (s + i + left ≤ d + i)
    → memcpy_loop d s left i m a
      ≡ (if leb (d + i) a && ltb a (d + i + left) then m (s + (a - d)) else m a)
unfolding memcpy_loop
memcpy_loop_lem d s zero i m a h = ground arith
memcpy_loop_lem d s (suc left) i m a h =
    ground (arith, memcpy_loop_lem d s left (i + 1) (write m (d + i) (m (s + i))) a)

-- `memcpy` copies its range if the destination does not begin inside the source, behind its start.
pub memcpy_lem :
    (m : Memory) (d s n a : ℕ)
    → (d ≤ s) ⊎ (s + n ≤ d)
    → memcpy m d s n a ≡ (if leb d a && ltb a (d + n) then m (s + (a - d)) else m a)
unfolding memcpy
memcpy_lem m d s n a h = ground (arith, memcpy_loop_lem d s n 0 m a)

memcmp_loop_zero :
    (m : Memory) (a b left i j : ℕ)
    → memcmp_loop m a b left i ≡ pos 0
    → i ≤ j
    → j < i + left
    → m (a + j) ≡ m (b + j)
unfolding memcmp_loop
memcmp_loop_zero m a b zero i j e p q = absurd (omega arith)
memcmp_loop_zero m a b (suc left) i j e p q = ground (arith, memcmp_loop_zero m a b left (i + 1) j)

memcmp_loop_same :
    (m : Memory) (a b left i : ℕ)
    → ((j : ℕ) → i ≤ j → j < i + left → m (a + j) ≡ m (b + j))
    → memcmp_loop m a b left i ≡ pos 0
unfolding memcmp_loop
memcmp_loop_same m a b zero i h = refl
memcmp_loop_same m a b (suc left) i h = ground (
  arith,
  h i (omega arith) (omega arith),
  memcmp_loop_same m a b left (i + 1) (λ j p q. h j (omega arith) (omega arith)),
)

-- `memcmp` is 0 exactly when the two ranges agree cell by cell.
memcmp-zero_iff :
    (m : Memory) (a b n : ℕ) → (memcmp m a b n ≡ pos 0) ↔ ((j : ℕ) → j < n → m (a + j) ≡ m (b + j))
unfolding memcmp
memcmp-zero_iff m a b n = (
  λ e j q. memcmp_loop_zero m a b n 0 j e (omega arith) (omega arith),
  λ h. memcmp_loop_same m a b n 0 (λ j p q. h j (omega arith)),
)

memcpy_loop-outside :
    (d s left i : ℕ) (m : Memory) (a : ℕ)
    → (a < d + i) ⊎ (d + i + left ≤ a)
    → memcpy_loop d s left i m a ≡ m a
unfolding memcpy_loop
memcpy_loop-outside d s zero i m a out = refl
memcpy_loop-outside d s (suc left) i m a out =
    memcpy_loop-outside d s left (i + 1) (write m (d + i) (m (s + i))) a (omega arith)
    ∙ ground arith

-- Outside of its destination `memcpy` changes nothing, also where the two overlap.
pub memcpy-outside : (m : Memory) (d s n a : ℕ) → (a < d) ⊎ (d + n ≤ a) → memcpy m d s n a ≡ m a
unfolding memcpy
memcpy-outside m d s n a out = memcpy_loop-outside d s n 0 m a (omega arith)
