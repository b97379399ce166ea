-- ===== src/Ata.antt =====
-- src/bootloader/stage2/dev/io/disk/ata.cpp: the driver of an ATA disk, by polled port accesses. What
-- the disk answers is a parameter, as in Io. `MAX_WAIT` bounds the polls: a loop recurs on the polls
-- that are left.
pub mod Wait
pub mod Protocol
pub mod Read
pub mod Bounds
pub mod Identify
mod Tests
use aidos.Common.{
  ℕ, zero, suc, ◌+◌, ◌*◌, ◌-◌, ◌/◌, ◌%◌, ◌^◌, Option, none, some, List, [], ◌∷◌, Bool, true, false,
  not, ◌&&◌, ◌||◌, ltb, leb, ◌==◌, if◌then◌else◌, u8, u16, u32, bit_and, bit_or, ◌<<<◌, ◌>>>◌,
}
use aidos.Mem.{Memory, write}
use aidos.Heap.{null}
use aidos.Io.{Device, History, outb, inb, inw}

abbrev pub max_wait : ℕ
max_wait = 100000

abbrev pub sector_size_bytes : ℕ
sector_size_bytes = 512

-- The fields of the driver.
pub record AtaDrive : Type 0 where
  pub io_base : ℕ
  pub is_master : Bool
  pub total_sectors : ℕ

-- A driver that was not initialized.
abbrev pub ata_drive : AtaDrive
ata_drive = record { io_base = 0; is_master = true; total_sectors = 0 }

abbrev pub is_busy : (status : ℕ) → Bool
is_busy status = not (bit_and status 0x80 == 0)

abbrev pub has_error : (status : ℕ) → Bool
has_error status = not (bit_and status 0x01 == 0)

abbrev pub wants_data : (status : ℕ) → Bool
wants_data status = not (bit_and status 0x08 == 0)

-- The writes that ask for a sector.
unfoldable pub send_read : AtaDrive → (cur_lba : ℕ) → History → History
send_read ata cur_lba h =
    let io = ata.io_base in
    let drive_head =
      bit_or (if ata.is_master then 0xE0 else 0xF0) (bit_and (cur_lba >>> 24) 0x0F) in
    let h = outb (io + 2) 1 (outb (io + 6) drive_head h) in
    let h = outb (io + 3) (u8 (bit_and cur_lba 0xFF)) h in
    let h = outb (io + 4) (u8 (bit_and (cur_lba >>> 8) 0xFF)) h in
    let h = outb (io + 5) (u8 (bit_and (cur_lba >>> 16) 0xFF)) h in outb (io + 7) 0x20 h

module _ (device : Device) where
  -- `while (inb(io + 7) & 0x80)`, with `left = MAX_WAIT - wait`.
  unfoldable pub wait_ready : (io left : ℕ) → History → Bool × History
  wait_ready io zero h =
      let (status, h1) = inb device (io + 7) h in if is_busy status then (false, h1) else (true, h1)
  wait_ready io (suc left) h =
      let (status, h1) = inb device (io + 7) h in
      let rest = wait_ready io left h1 in if is_busy status then rest else (true, h1)

  -- The loop of `initialize`, which counts the poll before it tests it.
  unfoldable pub wait_selected : (io left : ℕ) → History → Bool × History
  wait_selected io zero h = let (status, h1) = inb device (io + 7) h in (false, h1)
  wait_selected io (suc left) h =
      let (status, h1) = inb device (io + 7) h in
      let rest = wait_selected io left h1 in if is_busy status then rest else (true, h1)

  -- The loop that waits for DRQ or ERR.
  unfoldable pub wait_data : (io left : ℕ) → History → Bool × History
  wait_data io zero h =
      let (status, h1) = inb device (io + 7) h in
      if has_error status
      then (false, h1)
      else if wants_data status
      then (true, h1)
      else (false, h1)
  wait_data io (suc left) h =
      let (status, h1) = inb device (io + 7) h in
      let rest = wait_data io left h1 in
      if has_error status then (false, h1) else if wants_data status then (true, h1) else rest

  -- `for (int i = 0; i < 4; i++) inb(io + 7);`
  unfoldable pub delay : (io left : ℕ) → History → History
  delay io zero h = h
  delay io (suc left) h = let (status, h1) = inb device (io + 7) h in delay io left h1

  -- The words of IDENTIFY from word `i` on.
  unfoldable pub read_identify : (io left i : ℕ) → Memory → History → Memory × History
  read_identify io zero i identify_data h = (identify_data, h)
  read_identify io (suc left) i identify_data h =
      let (data_word, h1) = inw device (io + 0) h in
      read_identify io left (i + 1) (write identify_data i data_word) h1

  -- The body of the two loops of `initialize`: the sectors of the drive, or `goto next_drive`.
  -- `identify_data` has no content of its own.
  unfoldable pub probe :
      (io drive_select : ℕ) → (identify_data : Memory) → History → Option ℕ × History
  probe io drive_select identify_data h =
      let (ready, h1) = wait_selected io max_wait (delay io 4 (outb (io + 6) drive_select h)) in
      let (answers, h2) = wait_data io max_wait (outb (io + 7) 0xEC h1) in
      let (words, h3) = read_identify io 256 0 identify_data h2 in
      if not ready
      then (none, h1)
      else if not answers
      then (none, h2)
      else (some (u32 (bit_or (words 61 <<< 16) (words 60))), h3)

  -- The drives that are left to try, each by its channel's base, its select value and `drv == 0`.
  unfoldable pub initialize_loop :
      List (ℕ × ℕ × Bool)
      → (identify_data : Memory) → AtaDrive
      → History
      → Bool × AtaDrive × History
  initialize_loop [] identify_data ata h = (false, ata, h)
  initialize_loop ((io, drive_select, master) ∷ drives) identify_data ata h =
      let (answer, h1) = probe io drive_select identify_data h in
      let rest = initialize_loop drives identify_data ata h1 in
      elim answer [
        | none ↦ rest
        | some sectors28 ↦
            (true, record { io_base = io; is_master = master; total_sectors = sectors28 }, h1)
      ]

  -- The words of a sector, from word `i` on, into `buf`.
  unfoldable pub read_words : (io buf sector left i : ℕ) → Memory → History → Memory × History
  read_words io buf sector zero i m h = (m, h)
  read_words io buf sector (suc left) i m h =
      let (data_word, h1) = inw device (io + 0) h in
      let m1 = write m (buf + (sector * 512 + i * 2)) (bit_and data_word 0xFF) in
      let m2 = write m1 (buf + (sector * 512 + i * 2 + 1)) (bit_and (data_word >>> 8) 0xFF) in
      read_words io buf sector left (i + 1) m2 h1

  -- One round of `read_sectors`.
  unfoldable pub read_sector :
      AtaDrive → (lba buf sector : ℕ) → Memory → History → Bool × Memory × History
  read_sector ata lba buf sector m h =
      let cur_lba = u32 (lba + sector) in
      let (ready, h1) = wait_ready ata.io_base max_wait h in
      let (answers, h2) = wait_data ata.io_base max_wait (send_read ata cur_lba h1) in
      let (m3, h3) = read_words ata.io_base buf sector 256 0 m h2 in
      if not ready then (false, m, h1) else if not answers then (false, m, h2) else (true, m3, h3)

  unfoldable pub read_sectors_loop :
      AtaDrive → (lba buf left sector : ℕ) → Memory → History → Bool × Memory × History
  read_sectors_loop ata lba buf zero sector m h = (true, m, h)
  read_sectors_loop ata lba buf (suc left) sector m h =
      let (done, m1, h1) = read_sector ata lba buf sector m h in
      let rest = read_sectors_loop ata lba buf left (sector + 1) m1 h1 in
      if done then rest else (false, m1, h1)

  -- `buffer` is an address of the memory of bytes `m`.
  unfoldable pub read_sectors :
      AtaDrive → (lba count buffer : ℕ) → Memory → History → Bool × Memory × History
  read_sectors ata lba count buffer m h =
      let rest = read_sectors_loop ata lba buffer count 0 m h in
      if (count == 0) || ((buffer == null) || (ata.io_base == 0))
      then (false, m, h)
      else if ltb 0x0FFF_FFFF lba
      then (false, m, h)
      else rest

-- `channels` and `drives`, in the order of the loops.
abbrev pub all_drives : List (ℕ × ℕ × Bool)
all_drives =
    (0x1F0, 0xA0, true) ∷ (0x1F0, 0xB0, false) ∷ (0x170, 0xA0, true) ∷ (0x170, 0xB0, false) ∷ []

unfoldable pub initialize :
    Device → (identify_data : Memory) → AtaDrive → History → Bool × AtaDrive × History
initialize device identify_data ata h = initialize_loop device all_drives identify_data ata h

unfoldable pub write_sectors : AtaDrive → (lba count buffer : ℕ) → Bool
write_sectors ata lba count buffer = false

unfoldable pub sector_size : AtaDrive → ℕ
sector_size ata = sector_size_bytes

unfoldable pub total_sectors : AtaDrive → ℕ
total_sectors ata = ata.total_sectors
