-- ===== src/Stdio/Digits.antt =====
-- The digits that `%d` and `%x` print denote the number.
use native.Mathlib.Nat.{mod-lt, div-add-mod', div-lt_iff_lt-mul, pow-zero, pow-suc}
use aidos.Common.{
  ℕ, zero, suc, ◌+◌, ◌-◌, ◌*◌, ◌/◌, ◌%◌, ◌^◌, ◌≤◌, ◌<◌, ◌≡◌, ◌∙◌, inl, inr, refl, ap, arith, Option,
  some, List, [], ◌∷◌, length, true, false, leb, ◌==◌, if◌then◌else◌, Bool-cases, sub32, ℤ, pos,
  negsuc,
}
use aidos.Stdio.{itoa_loop, decimal_digit, hex_digit, decimal, hexadecimal}

-- The number that digits of a base spell behind `n`.
abbrev pub value : (base : ℕ) → (digit_value : ℕ → ℕ) → (n : ℕ) → List ℕ → ℕ
value base digit_value n [] = n
value base digit_value n (c ∷ s) = value base digit_value (n * base + digit_value c) s

-- What the loop leaves in the buffer.
record Spelt (base : ℕ) (digit digit_value : ℕ → ℕ) (room digits val : ℕ) (p : List ℕ)
    (result : Option (ℕ × List ℕ)) : Type 0 where
  left : ℕ
  lead : ℕ
  tail : List ℕ
  lead_lt : lead < base
  returns : result ≡ some (left, digit lead ∷ tail)
  denotes : value base digit_value 0 (digit lead ∷ tail) ≡ value base digit_value val p
  longer : left + length tail + 1 ≡ room + length p
  spare : room ≤ left + digits

module _ (base : ℕ) (digit digit_value : ℕ → ℕ) (positive : 0 < base)
    (inverse : (d : ℕ) → d < base → digit_value (digit d) ≡ d) where
  -- The last digit of a number, behind the others.
  last_digit : (val : ℕ) → val / base * base + digit_value (digit (val % base)) ≡ val
  last_digit val =
      ap (λ (d : ℕ). val / base * base + d) (inverse (val % base) (mod-lt val positive))
      ∙ div-add-mod' val base

  div-lt-pow : (val room : ℕ) → val < base ^ suc room → val / base < base ^ room
  div-lt-pow val room h = (div-lt_iff_lt-mul positive).1 (rw (← pow-suc base room) h)

  one_digit :
      (room val : ℕ) (p : List ℕ)
      → (val / base == 0) ≡ true
      → Spelt base digit digit_value (suc room) 1 val p (itoa_loop base digit (suc room) val p)
  unfolding itoa_loop
  one_digit room val p last =
      let zeroth : val / base ≡ 0 = ground arith in
      let only : 0 * base + digit_value (digit (val % base)) ≡ val =
        rw zeroth at (last_digit val) in
      rw last (record {
        left = room;
        lead = val % base;
        tail = p;
        lead_lt = mod-lt val positive;
        returns = refl;
        denotes = ap (λ (n : ℕ). value base digit_value n p) only;
        longer = omega arith;
        spare = omega arith;
      })

  -- With room for the digits, the loop returns, and they denote the number.
  itoa_loop-Spelt :
      (room digits val : ℕ) (p : List ℕ)
      → digits ≤ room
      → val < base ^ suc digits
      → Spelt base digit digit_value
          (suc room)
          (suc digits)
          val
          p
          (itoa_loop base digit (suc room) val p)
  unfolding itoa_loop
  itoa_loop-Spelt room zero val p enough h =
      let one : base ^ 0 ≡ 1 = pow-zero base in
      let zeroth : val / base ≡ 0 = omega (arith, one, div-lt-pow val 0 h) in
      one_digit room val p (ground (arith, zeroth))
  itoa_loop-Spelt zero (suc digits) val p enough h = absurd (omega (arith, enough))
  itoa_loop-Spelt (suc room) (suc digits) val p enough h = elim (Bool-cases (val / base == 0)) [
    | inl last ↦
        let only = one_digit (suc room) val p last in
        record {
          left = only.left;
          lead = only.lead;
          tail = only.tail;
          lead_lt = only.lead_lt;
          returns = only.returns;
          denotes = only.denotes;
          longer = only.longer;
          spare = omega (arith, only.spare);
        }
    | inr more ↦
        let rest =
          itoa_loop-Spelt room digits (val / base) (digit (val % base) ∷ p) (omega (arith, enough))
            (div-lt-pow val (suc digits) h) in
        rw more (record {
          left = rest.left;
          lead = rest.lead;
          tail = rest.tail;
          lead_lt = rest.lead_lt;
          returns = rest.returns;
          denotes = rest.denotes ∙ ap (λ (n : ℕ). value base digit_value n p) (last_digit val);
          longer = omega (arith, rest.longer);
          spare = omega (arith, rest.spare);
        })
  ]

abbrev pub decimal_value : ℕ → ℕ
decimal_value c = c - b'0'

abbrev pub hex_value : ℕ → ℕ
hex_value c = if leb b'A' c then c - b'A' + 10 else c - b'0'

-- The number that a pattern of 32 bits stands for, as an `int`.
abbrev pub signed : ℕ → ℤ
signed val = if leb (2 ^ 31) val then negsuc (2 ^ 32 - 1 - val) else pos val

abbrev pub negated : ℕ → ℤ
negated zero = pos 0
negated (suc n) = negsuc n

-- Reads a number with or without a minus sign, the way that a person reads it.
abbrev pub read_signed : List ℕ → ℤ
read_signed [] = pos 0
read_signed (c ∷ s) =
    if c == b'-'
    then negated (value 10 decimal_value 0 s)
    else pos (value 10 decimal_value 0 (c ∷ s))

-- What is printed for a number: some text, which `buf` has room for and which is read back as it.
pub record IsText {A : Type 0} (read : List ℕ → A) (number : A) (most : ℕ)
    (result : Option (List ℕ)) : Type 0 where
  pub text : List ℕ
  pub returns : result ≡ some text
  pub fits : length text ≤ most
  pub meaning : read text ≡ number

decimal_inverse : (d : ℕ) → d < 10 → decimal_value (decimal_digit d) ≡ d
decimal_inverse d h = omega arith

hex_inverse : (d : ℕ) → d < 16 → hex_value (hex_digit d) ≡ d
hex_inverse d h = ground arith

-- `%x` prints at most eight digits, which are read back as the number.
pub hexadecimal-IsText :
    (val : ℕ) → val < 2 ^ 32 → IsText (value 16 hex_value 0) val 8 (hexadecimal val)
unfolding hexadecimal
hexadecimal-IsText val h =
    let spelt =
      itoa_loop-Spelt 16 hex_digit hex_value (omega arith) hex_inverse 14 7 val [] (omega arith)
        (omega arith) in
    rw (spelt.returns, hexadecimal)
      (record {
        text = hex_digit spelt.lead ∷ spelt.tail;
        returns = refl;
        fits = omega (arith, spelt.longer, spelt.spare);
        meaning = spelt.denotes;
      })

decimal-negative :
    (val : ℕ) {room : ℕ} {p : List ℕ}
    → leb (2 ^ 31) val ≡ true
    → itoa_loop 10 decimal_digit 15 (sub32 0 val) [] ≡ some (suc room, p)
    → decimal val ≡ some (b'-' ∷ p)
unfolding decimal
decimal-negative val neg e = rw (neg, e) refl

decimal-plain :
    (val : ℕ) {room : ℕ} {p : List ℕ}
    → leb (2 ^ 31) val ≡ false
    → itoa_loop 10 decimal_digit 15 val [] ≡ some (room, p)
    → decimal val ≡ some p
unfolding decimal
decimal-plain val nonneg e = rw (nonneg, e) refl

-- `%d` prints at most eleven characters, which are read back as the `int`, the least one included.
pub decimal-IsText : (val : ℕ) → val < 2 ^ 32 → IsText read_signed (signed val) 11 (decimal val)
decimal-IsText val h = elim (Bool-cases (leb (2 ^ 31) val)) [
  | inl neg ↦
      let complement : sub32 0 val ≡ suc (2 ^ 32 - 1 - val) = ground arith in
      let spelt =
        itoa_loop-Spelt 10 decimal_digit decimal_value (omega arith) decimal_inverse 14 9
          (sub32 0 val) [] (omega arith) (ground arith) in
      let room : spelt.left ≡ suc (spelt.left - 1) = omega (arith, spelt.spare) in
      rw neg (record {
        text = b'-' ∷ decimal_digit spelt.lead ∷ spelt.tail;
        returns =
            decimal-negative val neg (
              spelt.returns ∙ ap (λ (n : ℕ). some (n, decimal_digit spelt.lead ∷ spelt.tail)) room);
        fits = omega (arith, spelt.longer, spelt.spare);
        meaning = ap negated (spelt.denotes ∙ complement);
      })
  | inr nonneg ↦
      let spelt =
        itoa_loop-Spelt 10 decimal_digit decimal_value (omega arith) decimal_inverse 14 9 val []
          (omega arith) (ground arith) in
      let plain : (decimal_digit spelt.lead == b'-') ≡ false = ground (arith, spelt.lead_lt) in
      rw nonneg (record {
        text = decimal_digit spelt.lead ∷ spelt.tail;
        returns = decimal-plain val nonneg spelt.returns;
        fits = omega (arith, spelt.longer, spelt.spare);
        meaning = rw plain (ap pos spelt.denotes);
      })
]
