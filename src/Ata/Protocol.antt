-- ===== src/Ata/Protocol.antt =====
-- The protocol of READ SECTORS: what a disk answers, the command block that is sent, and the words read.
use aidos.Common.{
  ℕ, zero, suc, ◌+◌, ◌*◌, ◌-◌, ◌/◌, ◌%◌, ◌^◌, ◌<◌, ◌≡◌, ◌∙◌, inl, inr, refl, arith, ◌∷◌, ltb, leb,
  ◌&&◌, if◌then◌else◌, Bool-cases, u8, u16, bit_and, bit_or, ◌>>>◌,
}
use aidos.Common.Bits.{bit_and_mask, bit_or_fields}
use aidos.Mem.{Memory, write}
use aidos.Io.{Device, History, byte_out, word_in, outb, inw, byte_in}
use aidos.Ata.{AtaDrive, max_wait, read_words, send_read}
use aidos.Ata.Wait.{polls, Clears, Answers}

-- The history behind `n` more reads of the data port.
abbrev pub words : (io n : ℕ) → History → History
words io zero h = h
words io (suc n) h = words io n (word_in io ∷ h)

-- The command block of READ SECTORS for one sector, by its 28-bit number.
abbrev pub asked : (io head lba : ℕ) → History → History
asked io head lba h =
    byte_out (io + 7) 0x20
    ∷ byte_out (io + 5) (lba / 2 ^ 16 % 2 ^ 8)
    ∷ byte_out (io + 4) (lba / 2 ^ 8 % 2 ^ 8)
    ∷ byte_out (io + 3) (lba % 2 ^ 8)
    ∷ byte_out (io + 2) 1
    ∷ byte_out (io + 6) (head + lba / 2 ^ 24)
    ∷ h

-- The history behind the poll that follows `h`.
abbrev pub polled : (io : ℕ) → History → History
polled io h = byte_in (io + 7) ∷ h

-- A disk of `sectors` sectors with the bytes `image` behind the ports from `io` on: it is ready after some
-- polls, and, asked for one of its sectors right behind a poll that shows it ready, it answers after some
-- polls without an error, and then gives the words of the sector. What it does with a command that it is
-- given while it is busy, or for a sector that it does not have, is left open.
pub record IsDisk (device : Device) (io head sectors : ℕ) (image : ℕ → ℕ) : Type 0 where
  pub bytes : (a : ℕ) → image a < 256
  pub ready : (h : History) → Clears device io max_wait h
  pub delay : (lba : ℕ) → History → ℕ
  pub answers :
      (lba : ℕ) (h : History)
      → lba < sectors
      → device h (io + 7) / 128 % 2 ≡ 0
      → Answers device io max_wait (asked io head lba (polled io h)) (delay lba h)
  pub gives :
      (lba i : ℕ) (h : History)
      → lba < sectors
      → device h (io + 7) / 128 % 2 ≡ 0
      → i < 256
      → device (words io i (polls io (suc (delay lba h)) (asked io head lba (polled io h)))) io
        ≡ image (lba * 512 + i * 2) + image (lba * 512 + (i * 2 + 1)) * 2 ^ 8

select_bits :
    (q x : ℕ)
    → q < 16
    → u8 (bit_or (q * 2 ^ 4) (bit_and (x >>> 24) 0x0F)) ≡ q * 2 ^ 4 + x % 2 ^ 28 / 2 ^ 24
select_bits q x h =
    let low : bit_and (x / 2 ^ 24) 0x0F ≡ x / 2 ^ 24 % 2 ^ 4 = bit_and_mask 4 (x / 2 ^ 24) in
    rw (low, bit_or_fields 4 q (x / 2 ^ 24 % 2 ^ 4) (omega arith)) (omega arith)

byte_bits : (x : ℕ) → u8 (u8 (bit_and x 0xFF)) ≡ x % 2 ^ 8
byte_bits x = rw (bit_and_mask 8 x) (omega arith)

abbrev pub head_of : AtaDrive → ℕ
head_of ata = if ata.is_master then 0xE0 else 0xF0

head_bits :
    (ata : AtaDrive) (x : ℕ)
    → u8 (bit_or (head_of ata) (bit_and (x >>> 24) 0x0F)) ≡ head_of ata + x % 2 ^ 28 / 2 ^ 24
head_bits ata x = elim (Bool-cases ata.is_master) [
  | inl master ↦ rw master (select_bits 14 x (omega arith))
  | inr slave ↦ rw slave (select_bits 15 x (omega arith))
]

pub send_read-asked :
    (ata : AtaDrive) (lba : ℕ) (h : History)
    → send_read ata lba h ≡ asked ata.io_base (head_of ata) (lba % 2 ^ 28) h
unfolding send_read outb
send_read-asked ata lba h =
    let low : lba % 2 ^ 28 % 2 ^ 8 ≡ lba % 2 ^ 8 = omega arith in
    let mid : lba % 2 ^ 28 / 2 ^ 8 % 2 ^ 8 ≡ lba / 2 ^ 8 % 2 ^ 8 = omega arith in
    let high : lba % 2 ^ 28 / 2 ^ 16 % 2 ^ 8 ≡ lba / 2 ^ 16 % 2 ^ 8 = omega arith in
    rw (head_bits ata lba, byte_bits, byte_bits, byte_bits, low, mid, high) refl

two_bytes :
    (b : ℕ → ℕ) (m : Memory) (base buf offset left i a : ℕ)
    → base ≡ buf + offset
    → (if leb (base + (i + 1) * 2) a && ltb a (base + (i + 1 + left) * 2)
        then b (a - base)
        else write
            (write m (buf + (offset + i * 2)) (b (i * 2)))
            (buf + (offset + i * 2 + 1))
            (b (i * 2 + 1))
            a)
      ≡ (if leb (base + i * 2) a && ltb a (base + (i + suc left) * 2) then b (a - base) else m a)
two_bytes b m base buf offset left i a e = ground arith

-- The words of a sector, as its bytes `b`.
pub read_words-bytes :
    (device : Device) (b : ℕ → ℕ) (io buf sector left i : ℕ) (m : Memory) (h : History)
    → ((a : ℕ) → b a < 256)
    → ((k : ℕ)
        → k < left
        → device (words io k h) io ≡ b ((i + k) * 2) + b ((i + k) * 2 + 1) * 2 ^ 8)
    → (a : ℕ)
    → (read_words device io buf sector left i m h).0 a ≡ (
        let base = buf + sector * 512 in
        if leb (base + i * 2) a && ltb a (base + (i + left) * 2) then b (a - base) else m a)
unfolding read_words inw
read_words-bytes device b io buf sector zero i m h small gives a = ground arith
read_words-bytes device b io buf sector (suc left) i m h small gives a =
    let z : io + 0 ≡ io = omega arith in
    let first : device h io ≡ b (i * 2) + b (i * 2 + 1) * 2 ^ 8 =
      let e : i + 0 ≡ i = omega arith in rw e at (gives 0 (omega arith)) in
    let low : bit_and (u16 (device h io)) 0xFF ≡ b (i * 2) =
      bit_and_mask 8 (u16 (device h io)) ∙ omega (arith, first, small (i * 2), small (i * 2 + 1)) in
    let high : bit_and (u16 (device h io) >>> 8) 0xFF ≡ b (i * 2 + 1) =
      bit_and_mask 8 (u16 (device h io) >>> 8)
      ∙ omega (arith, first, small (i * 2), small (i * 2 + 1)) in
    let rest : (k : ℕ)
        → k < left
        → device (words io k (word_in io ∷ h)) io
          ≡ b ((i + 1 + k) * 2) + b ((i + 1 + k) * 2 + 1) * 2 ^ 8 =
      λ k lt. let e : i + 1 + k ≡ i + suc k = omega arith in rw e (gives (suc k) (omega arith)) in
    let m2 =
      write (write m (buf + (sector * 512 + i * 2)) (b (i * 2))) (buf + (sector * 512 + i * 2 + 1))
        (b (i * 2 + 1)) in
    rw (z, low, high, read_words)
      (read_words-bytes device b io buf sector left (i + 1) m2 (word_in io ∷ h) small rest a
        ∙ two_bytes b m (buf + sector * 512) buf (sector * 512) left i a refl)
