-- ===== src/Vga/Tests.antt =====
-- The console at a concrete screen.
use aidos.Common.{◌≡◌, refl, arith, []}
use aidos.Vga.{Vga, putchar, put_cell, scroll, scroll_rows, scroll_row, blank_row, blank}
use aidos.Vga.Laws.{IsPut, IsOnScreen, IsCursorAt, putchar-IsPut, putchar-IsCursorAt, cell}

-- The cursor stands in the last cell of the screen, whose cells are numbered.
abbrev at_end : Vga
at_end = record { screen = λ a. a; x = 79; y = 24; ports = [] }

at_end-IsOnScreen : IsOnScreen at_end
at_end-IsOnScreen = omega arith

-- "A" in the last cell scrolls the screen.
scrolled :
    (cell (putchar 65 at_end) 0 3 ≡ 83)
    × (cell (putchar 65 at_end) 23 79 ≡ 0x0F41)
    × (cell (putchar 65 at_end) 24 5 ≡ blank)
    × ((putchar 65 at_end).x ≡ 0)
    × ((putchar 65 at_end).y ≡ 24)
unfolding putchar put_cell scroll scroll_rows scroll_row blank_row
scrolled = (refl, refl, refl, refl, refl)

putchar-IsPut_example : IsPut 65 at_end (putchar 65 at_end)
putchar-IsPut_example = putchar-IsPut 65 at_end at_end-IsOnScreen

putchar-IsCursorAt_example :
    IsCursorAt (putchar 65 at_end).x (putchar 65 at_end).y [] (putchar 65 at_end).ports
putchar-IsCursorAt_example = putchar-IsCursorAt 65 at_end at_end-IsOnScreen
