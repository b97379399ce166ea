-- ===== src/Ata/Bounds.antt =====
-- How many port accesses the driver makes.
use aidos.Common.{
  ℕ, zero, suc, ◌+◌, ◌*◌, ◌≤◌, ◌≡◌, ◌∙◌, inl, inr, arith, ◌∷◌, length, Bool, true, false, not, ltb,
  ◌||◌, ◌==◌, if◌then◌else◌, Bool-cases, u16, u32,
}
use aidos.Mem.{Memory, write}
use aidos.Heap.{null}
use aidos.Io.{Device, History, word_in, outb, inw}
use aidos.Ata.{
  AtaDrive, max_wait, wait_ready, wait_data, read_identify, read_words, send_read, read_sector,
  read_sectors_loop, read_sectors,
}
use aidos.Ata.Wait.{wait_ready_bound, wait_data_bound}

-- The most accesses for a sector, or for a drive that is tried.
abbrev pub most_accesses : ℕ
most_accesses = 200264

module _ (device : Device) where
  pub read_identify_bound :
      (io left i : ℕ) (m : Memory) (h : History)
      → length (read_identify device io left i m h).1 ≡ length h + left
  unfolding read_identify inw
  read_identify_bound io zero i m h = omega arith
  read_identify_bound io (suc left) i m h =
      read_identify_bound io left (i + 1) (write m i (u16 (device h (io + 0))))
        (word_in (io + 0) ∷ h)
      ∙ omega arith

  read_words_bound :
      (io buf sector left i : ℕ) (m : Memory) (h : History)
      → length (read_words device io buf sector left i m h).1 ≡ length h + left
  unfolding read_words inw
  read_words_bound io buf sector zero i m h = omega arith
  read_words_bound io buf sector (suc left) i m h =
      read_words_bound io buf sector left (i + 1) _ (word_in (io + 0) ∷ h) ∙ omega arith

  send_read_bound :
      (ata : AtaDrive) (lba : ℕ) (h : History) → length (send_read ata lba h) ≡ length h + 6
  unfolding send_read outb
  send_read_bound ata lba h = omega arith

  -- Two waits, the writes between them and the words, with what each wait says.
  three_ends :
      (ready answers : Bool) (m m' : Memory) (h1 h2 h3 : History) (most : ℕ)
      → length h1 ≤ most
      → length h2 ≤ most
      → length h3 ≤ most
      → (let end : Bool × Memory × History =
            if not ready
            then (false, m, h1)
            else if not answers
            then (false, m, h2)
            else (true, m', h3) in
          length end.2 ≤ most)
  three_ends false answers m m' h1 h2 h3 most a b c = a
  three_ends true false m m' h1 h2 h3 most a b c = b
  three_ends true true m m' h1 h2 h3 most a b c = c

  read_sector_bound :
      (ata : AtaDrive) (lba buf sector : ℕ) (m : Memory) (h : History)
      → length (read_sector device ata lba buf sector m h).2 ≤ length h + most_accesses
  unfolding read_sector
  read_sector_bound ata lba buf sector m h =
      let r = wait_ready device ata.io_base max_wait h in
      let asked = send_read ata (u32 (lba + sector)) r.1 in
      let d = wait_data device ata.io_base max_wait asked in
      let w = read_words device ata.io_base buf sector 256 0 m d.1 in
      let b1 = wait_ready_bound device ata.io_base max_wait h in
      let b2 = send_read_bound ata (u32 (lba + sector)) r.1 in
      let b3 = wait_data_bound device ata.io_base max_wait asked in
      let b4 = read_words_bound ata.io_base buf sector 256 0 m d.1 in
      three_ends r.0 d.0 m w.0 r.1 d.1 w.1 (length h + most_accesses) (omega (arith, b1))
        (omega (arith, b1, b2, b3)) (omega (arith, b1, b2, b3, b4))

  read_sectors_loop_bound :
      (ata : AtaDrive) (lba buf left sector : ℕ) (m : Memory) (h : History)
      → length (read_sectors_loop device ata lba buf left sector m h).2
        ≤ length h + left * most_accesses
  unfolding read_sectors_loop
  read_sectors_loop_bound ata lba buf zero sector m h = omega arith
  read_sectors_loop_bound ata lba buf (suc left) sector m h =
      let r = read_sector device ata lba buf sector m h in
      let first = read_sector_bound ata lba buf sector m h in
      let rest = read_sectors_loop_bound ata lba buf left (sector + 1) r.1 r.2 in
      elim (Bool-cases r.0) [
        | inl done ↦ rw done (omega (arith, first, rest))
        | inr failed ↦ rw failed (omega (arith, first))
      ]

  -- Whatever the device answers, `read_sectors` returns after at most 200264 port accesses for each
  -- sector that it is asked for.
  pub read_sectors_bound :
      (ata : AtaDrive) (lba count buffer : ℕ) (m : Memory) (h : History)
      → length (read_sectors device ata lba count buffer m h).2 ≤ length h + count * most_accesses
  unfolding read_sectors
  read_sectors_bound ata lba count buffer m h =
      let all = read_sectors_loop_bound ata lba buffer count 0 m h in
      elim (Bool-cases ((count == 0) || ((buffer == null) || (ata.io_base == 0)))) [
        | inl bad ↦ rw bad (omega arith)
        | inr good ↦ elim (Bool-cases (ltb 0x0FFF_FFFF lba)) [
          | inl far ↦ rw (good, far) (omega arith)
          | inr near ↦ rw (good, near) all
        ]
      ]
