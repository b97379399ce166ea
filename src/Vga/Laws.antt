-- ===== src/Vga/Laws.antt =====
-- `putchar` against a plain terminal: 25 rows of 80 cells, and a cursor.
use aidos.Common.{
  ℕ, ◌+◌, ◌*◌, ◌<◌, ◌≡◌, refl, arith, Bool, true, not, ◌&&◌, ◌||◌, leb, ◌==◌, if◌then◌else◌, ◌∙◌,
  ◌∷◌, u8, u16, ==_iff, bit_and, ◌>>>◌,
}
use aidos.Common.Bits.{bit_and_mask}
use aidos.Common.Table.{all_below, all_below_sound}
use aidos.Io.{byte_out, History}
use aidos.Vga.{Vga, blank, glyph, newline, put_cell, scroll, putchar, update_cursor}
use aidos.Vga.Scroll.{scrolled_lem}

-- The cursor stands on the screen.
pub record IsOnScreen (v : Vga) : Type 0 where
  pub column : v.x < 80
  pub row : v.y < 25

abbrev pub cell : Vga → (row col : ℕ) → ℕ
cell v row col = v.screen (row * 80 + col)

-- Whether the character ends the row, and whether it ends the screen.
abbrev pub ends_row : (c : ℕ) → Vga → Bool
ends_row c v = c == newline || v.x == 79

abbrev pub ends_screen : (c : ℕ) → Vga → Bool
ends_screen c v = ends_row c v && v.y == 24

-- The screen with the character on it and one more, blank, row below.
abbrev pub shown : (c : ℕ) → Vga → (row col : ℕ) → ℕ
shown c v row col =
    if row == 25
    then blank
    else if not (c == newline) && row == v.y && col == v.x
    then glyph c
    else cell v row col

-- What `putchar` must do, in the words of a terminal.
pub record IsPut (c : ℕ) (v v' : Vga) : Type 0 where
  pub column : v'.x ≡ (if ends_row c v then 0 else v.x + 1)
  pub row : v'.y ≡ (if ends_row c v && not (v.y == 24) then v.y + 1 else v.y)
  pub cells :
      (r k : ℕ) → r < 25 → k < 80 → cell v' r k ≡ shown c v (if ends_screen c v then r + 1 else r) k

-- The cell that `put_cell` writes, and no other.
put_cell_lem :
    (c : ℕ) (v : Vga) (r k : ℕ)
    → IsOnScreen v
    → r < 25
    → k < 80
    → cell (put_cell c v) r k
      ≡ (if not (c == newline) && r == v.y && k == v.x then glyph c else cell v r k)
unfolding put_cell
put_cell_lem c v r k on hr hk = ground arith

put_cell_position :
    (c : ℕ) (v : Vga)
    → IsOnScreen v
    → ((put_cell c v).x ≡ (if ends_row c v then 0 else v.x + 1))
      × ((put_cell c v).y ≡ (if ends_row c v then v.y + 1 else v.y))
unfolding put_cell
put_cell_position c v on = ground arith

scroll_lem :
    (v : Vga)
    → v.y < 26
    → ((scroll v).x ≡ v.x)
      × ((scroll v).y ≡ (if v.y == 25 then 24 else v.y))
      × ((r k : ℕ)
          → r < 25
          → k < 80
          → cell (scroll v) r k
            ≡ (if v.y == 25 then (if r == 24 then blank else cell v (r + 1) k) else cell v r k))
unfolding scroll
scroll_lem v h =
    (ground arith, ground arith, λ r k hr hk. ground (arith, scrolled_lem v.screen (r * 80 + k)))

-- The four port writes that move the hardware cursor, low byte first.
abbrev pub cursor_writes : (hi lo : ℕ) → History → History
cursor_writes hi lo h =
    byte_out 0x3D5 hi ∷ byte_out 0x3D4 0x0E ∷ byte_out 0x3D5 lo ∷ byte_out 0x3D4 0x0F ∷ h

-- The hardware cursor is told the cell of the cursor.
pub record IsCursorAt (x y : ℕ) (h h' : History) : Type 0 where
  pub hi : ℕ
  pub lo : ℕ
  pub written : h' ≡ cursor_writes hi lo h
  pub bytes : (hi < 256) × (lo < 256)
  pub position : hi * 256 + lo ≡ y * 80 + x

pub update_cursor-IsCursorAt :
    (x y : ℕ) (h : History) → x < 80 → y < 25 → IsCursorAt x y h (update_cursor x y h)
unfolding update_cursor
update_cursor-IsCursorAt x y h hx hy = record {
  hi = u8 (u8 (bit_and (u16 (u8 y * 80 + u8 x) >>> 8) 0xFF));
  lo = u8 (u8 (bit_and (u16 (u8 y * 80 + u8 x)) 0xFF));
  written = refl;
  bytes = omega arith;
  position = omega (
    arith,
    bit_and_mask 8 (u16 (u8 y * 80 + u8 x) >>> 8),
    bit_and_mask 8 (u16 (u8 y * 80 + u8 x)),
  );
}

module _ (c : ℕ) (v : Vga) (on : IsOnScreen v) where
  landed : (put_cell c v).y < 26
  landed = ground (arith, put_cell_position c v on)

  -- From a cursor on the screen, `putchar` stores the character at the cursor and moves on, past the end of a row or
  -- at a newline to the next row; past the last row every row moves up by one and the last is blank.
  pub putchar-IsPut : IsPut c v (putchar c v)
  unfolding putchar
  putchar-IsPut =
      let at = put_cell_position c v on in
      let after = scroll_lem (put_cell c v) landed in
      record {
        column = after.0 ∙ at.0;
        row = ground (arith, after, at);
        cells = λ r k hr hk.
            ground (arith, after.2 r k, at, put_cell_lem c v r k on, put_cell_lem c v (r + 1) k on);
      }

  ports_kept : (scroll (put_cell c v)).ports ≡ v.ports
  unfolding scroll put_cell
  ports_kept = ground arith

  -- From a cursor on the screen, the cursor is on the screen again after `putchar`.
  pub putchar-IsOnScreen : IsOnScreen (putchar c v)
  putchar-IsOnScreen = record {
    column = ground (arith, putchar-IsPut.column, on);
    row = ground (arith, putchar-IsPut.row, on);
  }

  -- From a cursor on the screen, `putchar` moves the hardware cursor to where the next character goes.
  pub putchar-IsCursorAt : IsCursorAt (putchar c v).x (putchar c v).y v.ports (putchar c v).ports
  unfolding putchar
  putchar-IsCursorAt = rw ports_kept (
      update_cursor-IsCursorAt (scroll (put_cell c v)).x (scroll (put_cell c v)).y v.ports
        putchar-IsOnScreen.column putchar-IsOnScreen.row)

glyph_table : all_below 256 (λ c. glyph c == (if leb 128 c then 0xFF00 + c else 0x0F00 + c)) ≡ true
unfolding all_below
glyph_table = refl

-- ASCII characters are stored in white on black; a `char` from 128 on is sign-extended, so that its
-- sign bits take the place of the attribute.
glyph_lem : (c : ℕ) → c < 256 → glyph c ≡ (if leb 128 c then 0xFF00 + c else 0x0F00 + c)
glyph_lem c h = (==_iff _ _).0 (all_below_sound 256 _ c glyph_table h)
