-- ===== src/Stdio/Console.antt =====
-- `printf` on the VGA console.
use aidos.Common.{ℕ, ◌≡◌, refl, Option, some, List, [], ◌∷◌}
use aidos.Vga.{Vga, putchar}
use aidos.Vga.Laws.{IsOnScreen, putchar-IsOnScreen}
use aidos.Stdio.{TextOutDriver, print, printf}
use aidos.Stdio.Laws.{Piece, AllFormed, formats, arguments, texts, printf-texts}

abbrev pub console : TextOutDriver Vga
console = record { putchar = putchar }

print-IsOnScreen : (str : List ℕ) (v : Vga) → IsOnScreen v → IsOnScreen (print console str v)
unfolding print
print-IsOnScreen [] v on = on
print-IsOnScreen (c ∷ str) v on = print-IsOnScreen str (putchar c v) (putchar-IsOnScreen c v on)

pub record Shows (v : Vga) (result : Option Vga) : Type 0 where
  pub v' : Vga
  pub returns : result ≡ some v'
  pub on : IsOnScreen v'

-- From a cursor on the screen, `printf` with a format of well-formed pieces and their arguments returns,
-- and the cursor is on the screen, however much was printed.
pub printf-Shows :
    (ps : List Piece) (v : Vga)
    → AllFormed ps
    → IsOnScreen v
    → Shows v (printf console (formats ps []) (arguments ps []) v)
printf-Shows ps v formed on = rw (printf-texts console ps [] [] v formed) (
    unfold printf in
    record {
      v' = print console (texts ps) v;
      returns = refl;
      on = print-IsOnScreen (texts ps) v on;
    })
