-- ===== src/Paging/Clone/Flags.antt =====
-- The bit operations of `setup_paging` on an entry, as arithmetic.
use aidos.Common.{ℕ, ◌+◌, ◌*◌, ◌/◌, ◌%◌, ◌^◌, ◌<◌, ◌≡◌, arith, ◌∙◌, bit_and, bit_or, ◌==◌, ◌&&◌}
use aidos.Common.Bits.{bit_and_step, bit_and_field, bit_or_fields}
use aidos.Paging.Entry.{present_bit, pse_bit}
use aidos.Paging.Clone.{leads_on}

low_bit : (a h : ℕ) → bit_and a (h * 2 + 1) ≡ bit_and (a / 2) h * 2 + a % 2
low_bit a h =
    let half : (h * 2 + 1) / 2 ≡ h = omega arith in
    bit_and_step a (h * 2 + 1) ∙ rw half (ground arith)

low_two : (a h : ℕ) → bit_and a (h * 4 + 3) ≡ bit_and (a / 4) h * 4 + a % 4
low_two a h =
    let mask : h * 4 + 3 ≡ (h * 2 + 1) * 2 + 1 = omega arith in
    let quarter : a / 2 / 2 ≡ a / 4 = omega arith in
    rw (mask, low_bit a (h * 2 + 1), low_bit (a / 2) h, quarter) (omega arith)

low_four : (a h : ℕ) → bit_and a (h * 16 + 15) ≡ bit_and (a / 16) h * 16 + a % 16
low_four a h =
    let mask : h * 16 + 15 ≡ (h * 4 + 3) * 4 + 3 = omega arith in
    let part : a / 4 / 4 ≡ a / 16 = omega arith in
    rw (mask, low_two a (h * 4 + 3), low_two (a / 4) h, part) (omega arith)

low_twelve : (a h : ℕ) → bit_and a (h * 4096 + 4095) ≡ bit_and (a / 4096) h * 4096 + a % 4096
low_twelve a h =
    let mask : h * 4096 + 4095 ≡ ((h * 16 + 15) * 16 + 15) * 16 + 15 = omega arith in
    let part : a / 16 / 16 / 16 ≡ a / 4096 = omega arith in
    rw
      (
        mask,
        low_four a ((h * 16 + 15) * 16 + 15),
        low_four (a / 16) (h * 16 + 15),
        low_four (a / 16 / 16) h,
        part,
      )
      (omega arith)

-- The flags of an entry that names a table below 2 ^ 48.
pub flag_bits : (e : ℕ) → e < 2 ^ 48 → bit_and e 0x8000_0000_0000_0FFF ≡ e % 4096
flag_bits e lt = low_twelve e (2 ^ 51) ∙ rw (bit_and_field 51 1 (e / 4096)) (omega arith)

-- An entry put together from the address of a table and from flags.
pub link_bits : (a f : ℕ) → a % 4096 ≡ 0 → f < 4096 → bit_or a f ≡ a + f
link_bits a f al lt =
    let e : a / 4096 * 2 ^ 12 ≡ a = omega arith in rw e at (bit_or_fields 12 (a / 4096) f lt)

-- `leads_on` looks at bits 0 and 7.
pub leads_on_bits : (e : ℕ) → leads_on e ≡ (e % 2 == 1) && (e / 128 % 2 == 0)
leads_on_bits e =
    let f = bit_and (e / 4096) (2 ^ 51) * 4096 + e % 4096 in
    let split : bit_and e 0x8000_0000_0000_0FFF ≡ f = low_twelve e (2 ^ 51) in
    let bit0 : f % 2 ≡ e % 2 = omega arith in
    let bit7 : f / 128 % 2 ≡ e / 128 % 2 = omega arith in
    rw (split, present_bit f, pse_bit f, bit0, bit7) (ground arith)
