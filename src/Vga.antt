-- ===== src/Vga.antt =====
-- src/bootloader/stage2/dev/io/text/vga/vga.cpp: the text console. The screen is the memory of 16-bit
-- cells from `SCREEN_ADDRESS` on; a `char` is its byte.
pub mod Scroll
pub mod Laws
mod Tests
use aidos.Common.{
  ℕ, zero, suc, ◌+◌, ◌-◌, ◌*◌, Bool, List, [], ◌∷◌, leb, ◌==◌, if◌then◌else◌, u8, u16, u32, ◌>>>◌,
  bit_and, bit_or,
}
use aidos.Io.{History, Device, outb, inb}
use aidos.Mem.{Memory, write}

abbrev pub screen_width : ℕ
screen_width = 80

abbrev pub screen_height : ℕ
screen_height = 25

abbrev pub default_attr : ℕ
default_attr = 0x0F00

abbrev pub newline : ℕ
newline = 10

-- `DEFAULT_ATTR | ' '`
abbrev pub blank : ℕ
blank = bit_or default_attr 32

pub record Vga : Type 0 where
  pub screen : Memory
  pub x : ℕ
  pub y : ℕ
  pub ports : History

-- A `char`, which is signed, as the low 16 bits of the `int` that it is promoted to.
abbrev pub promoted : ℕ → ℕ
promoted c = if leb 128 c then 0xFF00 + c else c

-- The cell that `putchar` stores for a character.
abbrev pub glyph : ℕ → ℕ
glyph c = u16 (bit_or default_attr (promoted c))

-- The arguments are of type `uint8_t`.
unfoldable pub update_cursor : (x y : ℕ) → History → History
unfolding outb
update_cursor x y h =
    let pos = u16 (u8 y * 80 + u8 x) in
    outb 0x3D5 (u8 (bit_and (pos >>> 8) 0xFF))
      (outb 0x3D4 0x0E (outb 0x3D5 (u8 (bit_and pos 0xFF)) (outb 0x3D4 0x0F h)))

unfoldable pub enable_cursor : Device → (cursor_start cursor_end : ℕ) → History → History
unfolding outb inb
enable_cursor device cursor_start cursor_end h =
    let (start, h1) = inb device 0x3D5 (outb 0x3D4 0x0A h) in
    let h2 = outb 0x3D5 (bit_or (bit_and start 0xC0) cursor_start) h1 in
    let (stop, h3) = inb device 0x3D5 (outb 0x3D4 0x0B h2) in
    outb 0x3D5 (bit_or (bit_and stop 0xE0) cursor_end) h3

clear_loop : (left i : ℕ) → Memory → Memory
clear_loop zero i m = m
clear_loop (suc left) i m = clear_loop left (i + 1) (write m i blank)

unfoldable pub initialize : Device → Vga → Vga × Bool
unfolding clear_loop
initialize device v = (
  record v {
    screen = clear_loop (screen_width * screen_height) 0 v.screen;
    ports = update_cursor 0 0 (enable_cursor device 14 15 v.ports);
  },
  Bool.true,
)

-- The inner loop of the scroll, from column `col` on.
unfoldable pub scroll_row : (row left col : ℕ) → Memory → Memory
scroll_row row zero col m = m
scroll_row row (suc left) col m =
    scroll_row row left (col + 1)
      (write m ((row - 1) * screen_width + col) (m (row * screen_width + col)))

-- The outer loop, from row `row` on.
unfoldable pub scroll_rows : (left row : ℕ) → Memory → Memory
scroll_rows zero row m = m
scroll_rows (suc left) row m = scroll_rows left (row + 1) (scroll_row row screen_width 0 m)

unfoldable pub blank_row : (left col : ℕ) → Memory → Memory
blank_row zero col m = m
blank_row (suc left) col m =
    blank_row left (col + 1) (write m ((screen_height - 1) * screen_width + col) blank)

-- The first half of `putchar`: the character, and where the next one goes.
unfoldable pub put_cell : (c : ℕ) → Vga → Vga
put_cell c v =
    if c == newline
    then record v { x = 0; y = u32 (v.y + 1) }
    else (let screen = write v.screen (v.y * screen_width + v.x) (glyph c) in
        if leb screen_width (u32 (v.x + 1))
        then record v { screen = screen; x = 0; y = u32 (v.y + 1) }
        else record v { screen = screen; x = u32 (v.x + 1) })

unfoldable pub scroll : Vga → Vga
scroll v =
    if leb screen_height v.y
    then record v {
      screen = blank_row screen_width 0 (scroll_rows (screen_height - 1) 1 v.screen);
      y = screen_height - 1;
    }
    else v

unfoldable pub putchar : (c : ℕ) → Vga → Vga
putchar c v =
    let v' = scroll (put_cell c v) in record v' { ports = update_cursor v'.x v'.y v'.ports }
