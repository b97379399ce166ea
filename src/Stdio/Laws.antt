-- ===== src/Stdio/Laws.antt =====
-- What `printf` writes for a format, put together from its pieces.
use mathlib.Core.Option
use aidos.Common.{
  ℕ, ◌^◌, ◌<◌, ◌≡◌, ◌≢◌, ◌∙◌, refl, sym, ap, arith, some, List, [], ◌∷◌, ◌++◌, false, ◌==◌, u8,
}
use aidos.Stdio.{
  TextOutDriver, Arg, text, number, percent, decimal, hexadecimal, print, convert, printf,
}
use aidos.Stdio.Digits.{decimal-IsText, hexadecimal-IsText}

-- One piece of a format, with the argument that it takes: a character, a conversion, or `%` before a
-- character that is none.
pub data Piece : Type 0 where
  plain : (c : ℕ) → Piece
  string : (t : List ℕ) → Piece
  signed : (val : ℕ) → Piece
  hex : (val : ℕ) → Piece
  char : (val : ℕ) → Piece
  other : (c : ℕ) → Piece

abbrev pub IsFormed : Piece → Type 0
IsFormed (plain c) = c ≢ percent
IsFormed (string t) = Unit {0}
IsFormed (signed val) = val < 2 ^ 32
IsFormed (hex val) = val < 2 ^ 32
IsFormed (char val) = Unit {0}
IsFormed (other c) = (c ≢ b's') × (c ≢ b'd') × (c ≢ b'x') × (c ≢ b'c')

abbrev pub AllFormed : List Piece → Type 0
AllFormed [] = Unit {0}
AllFormed (p ∷ ps) = IsFormed p × AllFormed ps

-- How a piece is written in the format, its argument, and what it prints.
abbrev pub format_of : Piece → List ℕ → List ℕ
format_of (plain c) fmt = c ∷ fmt
format_of (string t) fmt = percent ∷ b's' ∷ fmt
format_of (signed val) fmt = percent ∷ b'd' ∷ fmt
format_of (hex val) fmt = percent ∷ b'x' ∷ fmt
format_of (char val) fmt = percent ∷ b'c' ∷ fmt
format_of (other c) fmt = percent ∷ c ∷ fmt

abbrev pub args_of : Piece → List Arg → List Arg
args_of (plain c) args = args
args_of (string t) args = text t ∷ args
args_of (signed val) args = number val ∷ args
args_of (hex val) args = number val ∷ args
args_of (char val) args = number val ∷ args
args_of (other c) args = args

abbrev pub text_of : Piece → List ℕ
text_of (plain c) = c ∷ []
text_of (string t) = t
text_of (signed val) = Option.get_or (decimal val) []
text_of (hex val) = Option.get_or (hexadecimal val) []
text_of (char val) = u8 val ∷ []
text_of (other c) = percent ∷ c ∷ []

-- The format, the arguments and the text of several pieces, before what follows.
abbrev pub formats : List Piece → List ℕ → List ℕ
formats [] fmt = fmt
formats (p ∷ ps) fmt = format_of p (formats ps fmt)

abbrev pub arguments : List Piece → List Arg → List Arg
arguments [] args = args
arguments (p ∷ ps) args = args_of p (arguments ps args)

abbrev pub texts : List Piece → List ℕ
texts [] = []
texts (p ∷ ps) = text_of p ++ texts ps

module _ {S : Type 0} (dev : TextOutDriver S) where
  pub print-append : (a b : List ℕ) (s : S) → print dev (a ++ b) s ≡ print dev b (print dev a s)
  unfolding print
  print-append [] b s = refl
  print-append (c ∷ a) b s = print-append a b (dev.putchar c s)

  printf-plain :
      (c : ℕ) (fmt : List ℕ) (args : List Arg) (s : S)
      → c ≢ percent
      → printf dev (c ∷ fmt) args s ≡ printf dev fmt args (dev.putchar c s)
  unfolding printf
  printf-plain c [] args s h = refl
  printf-plain c (d ∷ fmt) args s h = let e : (c == percent) ≡ false = ground arith in rw e refl

  printf-convert :
      (d : ℕ) (fmt : List ℕ) (args : List Arg) (s : S) {args' : List Arg} {s' : S}
      → convert dev d args s ≡ some (args', s')
      → printf dev (percent ∷ d ∷ fmt) args s ≡ printf dev fmt args' s'
  unfolding printf
  printf-convert d fmt args s e = rw e refl

  convert-other :
      (c : ℕ) (args : List Arg) (s : S)
      → IsFormed (other c)
      → convert dev c args s ≡ some (args, dev.putchar c (dev.putchar percent s))
  unfolding convert
  convert-other c args s h = ground arith

  convert-signed :
      (val : ℕ) (args : List Arg) (s : S)
      → val < 2 ^ 32
      → convert dev b'd' (number val ∷ args) s
        ≡ some (args, print dev (Option.get_or (decimal val) []) s)
  unfolding convert
  convert-signed val args s h = let t = decimal-IsText val h in rw t.returns refl

  convert-hex :
      (val : ℕ) (args : List Arg) (s : S)
      → val < 2 ^ 32
      → convert dev b'x' (number val ∷ args) s
        ≡ some (args, print dev (Option.get_or (hexadecimal val) []) s)
  unfolding convert
  convert-hex val args s h = let t = hexadecimal-IsText val h in rw t.returns refl

  printf-piece :
      (p : Piece) (fmt : List ℕ) (args : List Arg) (s : S)
      → IsFormed p
      → printf dev (format_of p fmt) (args_of p args) s
        ≡ printf dev fmt args (print dev (text_of p) s)
  printf-piece (plain c) fmt args s h = unfold print in printf-plain c fmt args s h
  printf-piece (string t) fmt args s h = printf-convert b's' fmt _ s (unfold convert in refl)
  printf-piece (signed val) fmt args s h = printf-convert b'd' fmt _ s (convert-signed val args s h)
  printf-piece (hex val) fmt args s h = printf-convert b'x' fmt _ s (convert-hex val args s h)
  printf-piece (char val) fmt args s h = printf-convert b'c' fmt _ s (unfold convert print in refl)
  printf-piece (other c) fmt args s h =
      unfold print in printf-convert c fmt _ s (convert-other c args s h)

  -- `printf` writes the pieces of its format one after the other, each with the argument that is next,
  -- and goes on with what follows.
  pub printf-texts :
      (ps : List Piece) (fmt : List ℕ) (args : List Arg) (s : S)
      → AllFormed ps
      → printf dev (formats ps fmt) (arguments ps args) s
        ≡ printf dev fmt args (print dev (texts ps) s)
  printf-texts [] fmt args s h = unfold print in refl
  printf-texts (p ∷ ps) fmt args s h =
      printf-piece p (formats ps fmt) (arguments ps args) s h.0
      ∙ printf-texts ps fmt args (print dev (text_of p) s) h.1
      ∙ ap (printf dev fmt args) (sym (print-append (text_of p) (texts ps) s))
