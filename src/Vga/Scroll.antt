-- ===== src/Vga/Scroll.antt =====
-- The scroll of the screen, row by row.
use aidos.Common.{ℕ, zero, suc, ◌+◌, ◌-◌, ◌*◌, ◌≤◌, ◌<◌, ◌≡◌, arith, ◌&&◌, leb, ltb, if◌then◌else◌}
use aidos.Mem.{Memory, write}
use aidos.Vga.{scroll_row, scroll_rows, blank_row, blank}

-- Copying a row up changes that row above alone.
scroll_row_lem :
    (row left col : ℕ) (m : Memory) (a : ℕ)
    → 0 < row
    → col + left ≤ 80
    → scroll_row row left col m a ≡ (
        if leb ((row - 1) * 80 + col) a && ltb a ((row - 1) * 80 + col + left)
        then m (a + 80)
        else m a)
unfolding scroll_row
scroll_row_lem row zero col m a pos fits = ground arith
scroll_row_lem row (suc left) col m a pos fits = ground (
  arith,
  scroll_row_lem row left (col + 1) (write m ((row - 1) * 80 + col) (m (row * 80 + col))) a,
)

scroll_rows_lem :
    (left row : ℕ) (m : Memory) (a : ℕ)
    → 0 < row
    → scroll_rows left row m a
      ≡ (if leb ((row - 1) * 80) a && ltb a ((row - 1) * 80 + left * 80) then m (a + 80) else m a)
unfolding scroll_rows
scroll_rows_lem zero row m a pos = ground arith
scroll_rows_lem (suc left) row m a pos = ground (
  arith,
  scroll_rows_lem left (row + 1) (scroll_row row 80 0 m) a,
  scroll_row_lem row 80 0 m a,
  scroll_row_lem row 80 0 m (a + 80),
)

blank_row_lem :
    (left col : ℕ) (m : Memory) (a : ℕ)
    → blank_row left col m a
      ≡ (if leb (1920 + col) a && ltb a (1920 + col + left) then blank else m a)
unfolding blank_row
blank_row_lem zero col m a = ground arith
blank_row_lem (suc left) col m a =
    ground (arith, blank_row_lem left (col + 1) (write m (1920 + col) blank) a)

-- The whole scroll: each cell of the first 24 rows takes the cell below it, and the last row is blank.
pub scrolled_lem :
    (m : Memory) (a : ℕ)
    → a < 2000
    → blank_row 80 0 (scroll_rows 24 1 m) a ≡ (if ltb a 1920 then m (a + 80) else blank)
scrolled_lem m a h =
    ground (arith, blank_row_lem 80 0 (scroll_rows 24 1 m) a, scroll_rows_lem 24 1 m a)
