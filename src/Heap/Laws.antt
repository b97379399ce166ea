-- ===== src/Heap/Laws.antt =====
-- The contract of `kmalloc`, for a power of two as the alignment.
use aidos.Common.{
  ℕ, zero, suc, ◌+◌, ◌-◌, ◌*◌, ◌/◌, ◌%◌, ◌^◌, ◌≤◌, ◌<◌, ◌≡◌, arith, ap, ◌∙◌, sym, u64, sub64,
  bit_and, leb, if◌then◌else◌,
}
use mathlib.Core.Path.{ap₂}
use aidos.Common.Bits.{bit_and_field, two-pow-add}
use aidos.Heap.{Heap, null, kmalloc, bit_not64}
use native.Mathlib.Nat.{
  one-le-pow, mod-eq_of_lt, div-lt_iff_lt-mul, lt-div-mul-add, div-mul-le_self, mul-mod_left,
  mul-add-div_right, div-eq_of_lt, div-add-mod,
}

-- The heap's range and the offset fit in 64 bits.
pub record IsHeap (h : Heap) : Type 0 where
  pub room : h.heap_base + h.heap_size < 2 ^ 64
  pub used : h.heap_offset ≤ h.heap_size
  pub based : 0 < h.heap_base

-- The least multiple of `2 ^ k` from `x` on.
abbrev pub round_up : ℕ → ℕ → ℕ
round_up k x = (x + 2 ^ k - 1) / 2 ^ k * 2 ^ k

split64 : (k : ℕ) → k ≤ 64 → 2 ^ (64 - k) * 2 ^ k ≡ 2 ^ 64
split64 k h =
    let e : 64 - k + k ≡ 64 = omega arith in sym (two-pow-add (64 - k) k) ∙ ap (λ (t : ℕ). 2 ^ t) e

pred-mul : (a b : ℕ) → (a - 1) * b ≡ a * b - b
pred-mul zero b = omega arith
pred-mul (suc a) b = grind arith

-- `x & ~(2 ^ k - 1)` rounds down to a multiple of `2 ^ k`.
pub bit_and-high : (k x : ℕ) → k ≤ 64 → x < 2 ^ 64 → bit_and x (2 ^ 64 - 2 ^ k) ≡ x / 2 ^ k * 2 ^ k
bit_and-high k x h lt =
    let whole : (2 ^ (64 - k) - 1) * 2 ^ k ≡ 2 ^ 64 - 2 ^ k =
      omega (arith, split64 k h, pred-mul (2 ^ (64 - k)) (2 ^ k)) in
    let small : x / 2 ^ k < 2 ^ (64 - k) =
      (div-lt_iff_lt-mul (one-le-pow k 2 (omega arith))).1 (rw (split64 k h) lt) in
    sym (ap (bit_and x) whole)
    ∙ bit_and_field k (64 - k) x
    ∙ ap (λ (t : ℕ). t * 2 ^ k) (mod-eq_of_lt small)

round_to : ℕ → ℕ → ℕ
round_to q x = (x + q - 1) / q * q

round_to_bounds :
    (q x : ℕ) → 0 < q → (x ≤ round_to q x) × (round_to q x < x + q) × (round_to q x % q ≡ 0)
unfolding round_to
round_to_bounds q x pos = (
  grind (arith, lt-div-mul-add {a = x + q - 1} {b = q} pos),
  grind (arith, div-mul-le_self (x + q - 1) q),
  mul-mod_left ((x + q - 1) / q) q,
)

round_to_self : (q x : ℕ) → 0 < q → x % q ≡ 0 → (x + q - 1) / q * q ≡ x
round_to_self q x pos al =
    let whole : x ≡ x / q * q = grind (arith, div-add-mod x q) in
    let sum : x + q - 1 ≡ x / q * q + (q - 1) = omega (arith, whole) in
    let down : (x / q * q + (q - 1)) / q ≡ x / q =
      mul-add-div_right pos (x / q) (q - 1)
      ∙ ap (λ (r : ℕ). x / q + r) (div-eq_of_lt (omega arith))
      ∙ omega arith in
    rw sum (rw down (sym whole))

-- Rounding up moves by less than the alignment, onto a multiple of it.
pub round_up_bounds :
    (k x : ℕ) → (x ≤ round_up k x) × (round_up k x < x + 2 ^ k) × (round_up k x % 2 ^ k ≡ 0)
unfolding round_to
round_up_bounds k x = round_to_bounds (2 ^ k) x (one-le-pow k 2 (omega arith))

-- The two lines of `kmalloc` that align an address.
aligned_lem :
    (k x : ℕ)
    → k < 64
    → x + 2 ^ k ≤ 2 ^ 64
    → bit_and (u64 (u64 x + sub64 (2 ^ k) 1)) (bit_not64 (sub64 (2 ^ k) 1)) ≡ round_up k x
aligned_lem k x small fits =
    let pos : 1 ≤ 2 ^ k = one-le-pow k 2 (omega arith) in
    let sum : u64 (u64 x + sub64 (2 ^ k) 1) ≡ x + 2 ^ k - 1 = omega arith in
    let mask : bit_not64 (sub64 (2 ^ k) 1) ≡ 2 ^ 64 - 2 ^ k = omega arith in
    ap₂ bit_and sum mask ∙ bit_and-high k (x + 2 ^ k - 1) (omega arith) (omega arith)

-- Where nothing wraps, `kmalloc` takes the least aligned address from the end of what is in use on.
-- It gives the block out, and counts it as used, exactly when the block ends before the heap's end;
-- otherwise it answers null and the heap stays as it was.
pub kmalloc_lem :
    (size k : ℕ) (h : Heap)
    → IsHeap h
    → k < 64
    → round_up k (h.heap_base + h.heap_offset) + size + 2 ^ k < 2 ^ 64
    → let p = round_up k (h.heap_base + h.heap_offset) in
      kmalloc size (2 ^ k) h ≡ (
        if leb (h.heap_base + h.heap_size) (p + size)
        then (null, h)
        else (p, record h { heap_offset = p + size - h.heap_base }))
unfolding kmalloc
kmalloc_lem size k h ok small fits =
    let bounds = round_up_bounds k (h.heap_base + h.heap_offset) in
    rw (aligned_lem k (h.heap_base + h.heap_offset) small (omega (arith, bounds)))
      (ground (arith, bounds))

-- Where the end of what is in use has the alignment `2 ^ k` already, a request of `2 ^ 64 - n` cells at
-- that alignment, with `n` at most what is in use, is served, although no heap is that large: the sum
-- wraps, and the end of what is in use moves down by `n`.
pub kmalloc_wraps :
    (k n : ℕ) (h : Heap)
    → IsHeap h
    → k < 64
    → (h.heap_base + h.heap_offset) % 2 ^ k ≡ 0
    → h.heap_base + h.heap_offset + 2 ^ k ≤ 2 ^ 64
    → 0 < n
    → n ≤ h.heap_offset
    → kmalloc (2 ^ 64 - n) (2 ^ k) h
      ≡ (h.heap_base + h.heap_offset, record h { heap_offset = h.heap_offset - n })
unfolding kmalloc
kmalloc_wraps k n h ok small al fits pos le =
    let x = h.heap_base + h.heap_offset in
    rw (aligned_lem k x small fits)
      (rw (round_to_self (2 ^ k) x (one-le-pow k 2 (omega arith)) al) (ground arith))
