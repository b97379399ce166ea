-- ===== src/Stdio.antt =====
-- src/bootloader/stage2/stdio.cpp, and the class TextOutDriver of dev/io/text/textdriver.hpp that it
-- writes to. A string is the list of its bytes, without the terminator. An `int` or `unsigned` is its
-- 32-bit pattern.
pub mod Digits
pub mod Laws
pub mod Console
mod Tests
use aidos.Common.{
  ℕ, zero, suc, ◌+◌, ◌-◌, ◌/◌, ◌%◌, ◌^◌, Option, none, some, List, [], ◌∷◌, Bool, true, false, ltb,
  leb, ◌==◌, if◌then◌else◌, u8, sub32,
}

-- The one function that a driver must give, on the states of its device.
pub record TextOutDriver (S : Type 0) : Type 0 where
  pub putchar : (c : ℕ) → S → S

-- An argument behind the format. `va_arg` of another type than the argument's is undefined.
pub data Arg : Type 0 where
  text : List ℕ → Arg
  number : ℕ → Arg

abbrev pub percent : ℕ
percent = b'%'

-- The loops of `%d` and `%x`: `room` bytes of `buf` are left in front of `p`. `none` is a write in front
-- of the buffer.
unfoldable pub itoa_loop :
    (base : ℕ) → (digit : ℕ → ℕ) → (room val : ℕ) → (p : List ℕ) → Option (ℕ × List ℕ)
itoa_loop base digit zero val p = none
itoa_loop base digit (suc room) val p =
    let p' = digit (val % base) ∷ p in
    let rest = itoa_loop base digit room (val / base) p' in
    if val / base == 0 then some (room, p') else rest

-- `'0' + d`
abbrev pub decimal_digit : ℕ → ℕ
decimal_digit d = b'0' + d

-- `"0123456789ABCDEF"[d]`
abbrev pub hex_digit : ℕ → ℕ
hex_digit d = if ltb d 10 then b'0' + d else b'A' + (d - 10)

-- `if (neg) *--p = '-'`, and the text that `p` then points to.
abbrev pub with_sign : (neg : Bool) → Option (ℕ × List ℕ) → Option (List ℕ)
with_sign neg none = none
with_sign true (some (zero, p)) = none
with_sign true (some (suc room, p)) = some (b'-' ∷ p)
with_sign false (some (room, p)) = some p

-- The text of `%d`: `val < 0` is the top bit, and `-val` the complement. Of the least int, `-val` is an
-- overflow that C++ leaves undefined; here it wraps, as in the compiled code.
unfoldable pub decimal : (val : ℕ) → Option (List ℕ)
decimal val =
    let neg = leb (2 ^ 31) val in
    with_sign neg (itoa_loop 10 decimal_digit 15 (if neg then sub32 0 val else val) [])

-- The text of `%x`.
unfoldable pub hexadecimal : (val : ℕ) → Option (List ℕ)
hexadecimal val = elim (itoa_loop 16 hex_digit 15 val []) [ none ↦ none | some (room, p) ↦ some p ]

module _ {S : Type 0} (dev : TextOutDriver S) where
  unfoldable pub print : List ℕ → S → S
  print [] s = s
  print (c ∷ str) s = print str (dev.putchar c s)

  -- `puts` of the base class, the same loop.
  unfoldable pub puts : List ℕ → S → S
  puts [] s = s
  puts (c ∷ str) s = puts str (dev.putchar c s)

  unfoldable pub write_byte : (byte : ℕ) → S → S
  write_byte byte s = dev.putchar byte s

  -- The text that is printed in place of a conversion, if it is made.
  print_text : Option (List ℕ) → List Arg → S → Option (List Arg × S)
  print_text none args s = none
  print_text (some t) args s = some (args, print t s)

  -- The cases of the `switch`, and the arguments that are left. `none` is undefined behaviour.
  unfoldable pub convert_str : List Arg → S → Option (List Arg × S)
  unfolding print_text
  convert_str (text t ∷ args) s = print_text (some t) args s
  convert_str _ s = none

  unfoldable pub convert_int : (c : ℕ) → List Arg → S → Option (List Arg × S)
  unfolding print_text
  convert_int c (number val ∷ args) s =
      if c == b'd'
      then print_text (decimal val) args s
      else if c == b'x'
      then print_text (hexadecimal val) args s
      else some (args, dev.putchar (u8 val) s)
  convert_int c _ s = none

  unfoldable pub convert : (c : ℕ) → List Arg → S → Option (List Arg × S)
  unfolding convert_str convert_int
  convert c args s =
      if c == b's'
      then convert_str args s
      else if c == b'd'
      then convert_int c args s
      else if c == b'x'
      then convert_int c args s
      else if c == b'c'
      then convert_int c args s
      else some (args, dev.putchar c (dev.putchar percent s))

  -- The loop of `printf`. A `%` at the end of the format is printed.
  unfoldable pub printf : (fmt : List ℕ) → List Arg → S → Option S
  printf [] args s = some s
  printf (c ∷ []) args s = some (dev.putchar c s)
  printf (c ∷ d ∷ fmt) args s =
      let plain = printf (d ∷ fmt) args (dev.putchar c s) in
      let converted : Option S = elim (convert d args s) [
        | none ↦ none
        | some (args', s') ↦ printf fmt args' s'
      ] in
      if c == percent then converted else plain
