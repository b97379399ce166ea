-- ===== src/Common/Bits.antt =====
-- The bit operations of the source as arithmetic: a mask of adjacent bits is a remainder and a
-- quotient, and `|` of fields that do not meet is a sum. The equations hold at every width.
mod Step
pub use Step.{bit_or_step, bit_and_step}
use Prim.Native.Nat.{ℕ, zero, suc, ◌+◌, ◌-◌, ◌*◌, ◌/◌, ◌%◌, ◌^◌, ◌≤◌, ◌<◌, bit_and, bit_or}
use mathlib.Core.Path.{◌≡◌, refl, sym, ap, ◌∙◌}
use mathlib.Core.WellFounded
use native.Mathlib.Nat.{pow-suc, pow-succ', one-le-pow, div-div-eq-div-mul, add_comm}
use native.Mathlib.Omega.{arith}
use aidos.Common.Order.{lt_wf}

-- Induction along the halves of a number.
by_halves : (P : ℕ → Type 0) → P 0 → ((n : ℕ) → P (suc n / 2) → P (suc n)) → (n : ℕ) → P n
by_halves P base step n = WellFounded.induction lt_wf n from_half
  where
    from_half : (n : ℕ) → ((m : ℕ) → m < n → P m) → P n
    from_half zero below = base
    from_half (suc n) below = step n (below (suc n / 2) (omega arith))

pub bit_or-zero : (a : ℕ) → bit_or a 0 ≡ a
bit_or-zero a =
    by_halves (λ n. bit_or n 0 ≡ n) refl (λ n half. omega (arith, half, bit_or_step (suc n) 0)) a

pub bit_and-zero : (a : ℕ) → bit_and a 0 ≡ 0
bit_and-zero a =
    by_halves (λ n. bit_and n 0 ≡ 0) refl (λ n half. omega (arith, half, bit_and_step (suc n) 0)) a

double : (n k : ℕ) → n * 2 ^ suc k ≡ 2 * (n * 2 ^ k)
double n k =
    let power : n * 2 ^ suc k ≡ n * (2 ^ k * 2) = ap (λ (t : ℕ). n * t) (pow-suc 2 k) in
    omega (arith, power)

-- `|` fills in the low `k` bits.
pub bit_or_fields : (k q r : ℕ) → r < 2 ^ k → bit_or (q * 2 ^ k) r ≡ q * 2 ^ k + r
bit_or_fields zero q r h = ground (arith, bit_or-zero q)
bit_or_fields (suc k) q r h =
    let upper = bit_or_fields k q (r / 2) (omega arith) in
    ground (arith, upper, double q k, bit_or_step (q * 2 ^ suc k) r)

low_field : (k q r : ℕ) → r < 2 ^ k → bit_and (q * 2 ^ k + r) (2 ^ k - 1) ≡ r
low_field zero q r h = rw bit_and-zero (omega arith)
low_field (suc k) q r h =
    let upper = low_field k q (r / 2) (omega arith) in
    ground (arith, upper, pow-suc 2 k, double q k, bit_and_step (q * 2 ^ suc k + r) (2 ^ suc k - 1))

-- The `k` low bits.
pub bit_and_mask : (k a : ℕ) → bit_and a (2 ^ k - 1) ≡ a % 2 ^ k
bit_and_mask k a =
    let pos : 1 ≤ 2 ^ k = one-le-pow k 2 (omega arith) in
    ground (arith, low_field k (a / 2 ^ k) (a % 2 ^ k))

div-two-pow-suc : (a k : ℕ) → a / 2 ^ suc k ≡ a / 2 / 2 ^ k
div-two-pow-suc a k = rw (pow-succ' 2 k) (sym (div-div-eq-div-mul a 2 (2 ^ k)))

-- A mask with `k` zeros at the bottom acts on the quotient.
pub bit_and_shifted : (k a m : ℕ) → bit_and a (m * 2 ^ k) ≡ bit_and (a / 2 ^ k) m * 2 ^ k
bit_and_shifted zero a m = ground arith
bit_and_shifted (suc k) a m = ground (
  arith,
  bit_and_step a (m * 2 ^ suc k),
  double m k,
  double (bit_and (a / 2 / 2 ^ k) m) k,
  bit_and_shifted k (a / 2) m,
  div-two-pow-suc a k,
)

-- A mask of `w` ones above `k` zeros.
pub bit_and_field : (k w a : ℕ) → bit_and a ((2 ^ w - 1) * 2 ^ k) ≡ a / 2 ^ k % 2 ^ w * 2 ^ k
bit_and_field k w a =
    bit_and_shifted k a (2 ^ w - 1) ∙ ap (λ (t : ℕ). t * 2 ^ k) (bit_and_mask w (a / 2 ^ k))

pub two-pow-add : (a b : ℕ) → 2 ^ (a + b) ≡ 2 ^ a * 2 ^ b
two-pow-add a zero = ground arith
two-pow-add a (suc b) =
    let step : a + suc b ≡ suc (a + b) = omega arith in
    let twice : 2 ^ a * 2 ^ suc b ≡ 2 ^ a * (2 ^ b * 2) = ap (λ (t : ℕ). 2 ^ a * t) (pow-suc 2 b) in
    rw step (omega (arith, pow-suc 2 (a + b), two-pow-add a b, twice))
