-- ===== src/Common/Bits/Step.antt =====
-- One equation for the lowest binary digit of `bit_and` and `bit_or`. The library defines both by
-- `bitwise`, which recurs on the digits with its first argument as fuel.
use Prim.Native.Nat.{
  ℕ, zero, suc, ◌+◌, ◌*◌, ◌/◌, ◌%◌, ◌≤◌, min, max, digits, bitwise, bit_and, bit_or,
  bit_and-bitwise, bit_or-bitwise,
}
use mathlib.Core.Path.{◌≡◌, refl}
use native.Mathlib.Omega.{arith}

module _ (empty : ℕ → ℕ) (digit : ℕ → ℕ → ℕ) where
  -- What is computed does not depend on the fuel, if there is enough.
  fuel_lem :
      (x y fuel spare : ℕ)
      → x ≤ fuel
      → x ≤ spare
      → digits empty digit spare x y ≡ digits empty digit fuel x y
  fuel_lem zero y zero zero h k = refl
  fuel_lem zero y zero (suc _) h k = refl
  fuel_lem zero y (suc _) zero h k = refl
  fuel_lem zero y (suc _) (suc _) h k = refl
  fuel_lem (suc x) y zero spare h k = absurd (omega (arith, h))
  fuel_lem (suc x) y (suc fuel) zero h k = absurd (omega (arith, k))
  fuel_lem (suc x) y (suc fuel) (suc spare) h k =
      let halves = fuel_lem (suc x / 2) (y / 2) fuel spare (omega (arith, h)) (omega (arith, k)) in
      rw halves refl

  lowest_digit :
      (x y : ℕ)
      → digit (suc x % 2) (y % 2) + 2 * bitwise empty digit (suc x / 2) (y / 2)
        ≡ bitwise empty digit (suc x) y
  lowest_digit x y =
      let enough : suc x / 2 ≤ x = omega arith in
      let same : suc x / 2 ≤ suc x / 2 = omega arith in
      omega (arith, fuel_lem (suc x / 2) (y / 2) x (suc x / 2) enough same)

pub bit_and_step : (x y : ℕ) → bit_and x y ≡ min (x % 2) (y % 2) + 2 * bit_and (x / 2) (y / 2)
bit_and_step zero y = simp bit_and-bitwise (omega arith)
bit_and_step (suc x) y = simp bit_and-bitwise (omega (arith, lowest_digit (λ _. 0) min x y))

pub bit_or_step : (x y : ℕ) → bit_or x y ≡ max (x % 2) (y % 2) + 2 * bit_or (x / 2) (y / 2)
bit_or_step zero y = simp bit_or-bitwise (omega arith)
bit_or_step (suc x) y = simp bit_or-bitwise (omega (arith, lowest_digit (λ n. n) max x y))
