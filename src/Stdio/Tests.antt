-- ===== src/Stdio/Tests.antt =====
-- What is printed for concrete formats, on a device that keeps all characters.
use aidos.Common.{ℕ, ◌^◌, ◌-◌, ◌≡◌, refl, arith, some, List, [], ◌∷◌, ◌++◌}
use aidos.Vga.{Vga}
use aidos.Stdio.{TextOutDriver, text, decimal, hexadecimal, itoa_loop, print, convert, printf}
use aidos.Stdio.Digits.{
  IsText, read_signed, hex_value, value, signed, decimal-IsText, hexadecimal-IsText,
}
use aidos.Stdio.Laws.{Piece, plain, string, other, formats, arguments, texts, printf-texts}
use aidos.Stdio.Console.{console, Shows, printf-Shows}

abbrev recorder : TextOutDriver (List ℕ)
recorder = record { putchar = λ c s. s ++ c ∷ [] }

least_int : decimal (2 ^ 31) ≡ some (45 ∷ 50 ∷ 49 ∷ 52 ∷ 55 ∷ 52 ∷ 56 ∷ 51 ∷ 54 ∷ 52 ∷ 56 ∷ [])
unfolding decimal itoa_loop
least_int = refl

zero_digit : (decimal 0 ≡ some (48 ∷ [])) × (hexadecimal 0 ≡ some (48 ∷ []))
unfolding decimal hexadecimal itoa_loop
zero_digit = (refl, refl)

hex_text : hexadecimal 0xB8000 ≡ some (66 ∷ 56 ∷ 48 ∷ 48 ∷ 48 ∷ [])
unfolding hexadecimal itoa_loop
hex_text = refl

-- "a=%s!" with "hi", and "%u" with no argument: `%u` is printed as it stands.
formatted :
    (printf recorder (97 ∷ 61 ∷ 37 ∷ 115 ∷ 33 ∷ []) (text (104 ∷ 105 ∷ []) ∷ []) []
      ≡ some (97 ∷ 61 ∷ 104 ∷ 105 ∷ 33 ∷ []))
    × (printf recorder (37 ∷ 117 ∷ []) [] [] ≡ some (37 ∷ 117 ∷ []))
unfolding printf convert print
formatted = (refl, refl)

decimal-IsText_example : IsText read_signed (signed (2 ^ 32 - 42)) 11 (decimal (2 ^ 32 - 42))
decimal-IsText_example = decimal-IsText (2 ^ 32 - 42) (omega arith)

hexadecimal-IsText_example : IsText (value 16 hex_value 0) 0xB8000 8 (hexadecimal 0xB8000)
hexadecimal-IsText_example = hexadecimal-IsText 0xB8000 (omega arith)

abbrev pieces : List Piece
pieces = plain 97 ∷ Piece.signed 7 ∷ string (104 ∷ []) ∷ other 117 ∷ Piece.hex 255 ∷ []

printf-texts_example :
    printf recorder (formats pieces (33 ∷ [])) (arguments pieces []) []
    ≡ printf recorder (33 ∷ []) [] (print recorder (texts pieces) [])
printf-texts_example = printf-texts recorder pieces (33 ∷ []) [] [] (omega arith)

abbrev screen : Vga
screen = record { screen = λ _. 0; x = 79; y = 24; ports = [] }

printf-Shows_example :
    Shows screen (printf console (formats pieces []) (arguments pieces []) screen)
printf-Shows_example = printf-Shows pieces screen (omega arith) (omega arith)
