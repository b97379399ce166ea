-- ===== src/Paging/Entry.antt =====
-- The bit tests of the paging code, as arithmetic on the entry.
use aidos.Common.{ℕ, ◌+◌, ◌*◌, ◌/◌, ◌%◌, ◌^◌, ◌≡◌, bit_and, bit_or, arith, ◌∙◌}
use aidos.Common.Bits.{bit_and_mask, bit_and_field, bit_or_fields, bit_or_step}

pub present_bit : (e : ℕ) → bit_and e 1 ≡ e % 2
present_bit e = bit_and_mask 1 e

pub pse_bit : (e : ℕ) → bit_and e 0x80 ≡ e / 128 % 2 * 128
pse_bit e = bit_and_field 7 1 e

pub index_bits : (x : ℕ) → bit_and x 0x1FF ≡ x % 512
index_bits x = bit_and_mask 9 x

pub page_bits : (e : ℕ) → bit_and e 0xFFFF_FFFF_FFFF_F000 ≡ e / 4096 % 2 ^ 52 * 4096
page_bits e = bit_and_field 12 52 e

pub addr_bits : (e : ℕ) → bit_and e 0x0000_FFFF_FFFF_F000 ≡ e / 4096 % 2 ^ 36 * 4096
addr_bits e = bit_and_field 12 36 e

pub or_one : (x : ℕ) → x % 2 ≡ 0 → bit_or x 1 ≡ x + 1
or_one x h =
    let e : x / 2 * 2 ^ 1 ≡ x = omega arith in rw e at (bit_or_fields 1 (x / 2) 1 (omega arith))

-- `x | PAGE_PRESENT | PAGE_RW`, for the address of a page.
pub with_flags : (x : ℕ) → x % 4096 ≡ 0 → bit_or (bit_or x 1) 2 ≡ x + 3
with_flags x h =
    let low : bit_or x 1 ≡ x + 1 = or_one x (omega arith) in
    let high : bit_or (x + 1) 2 ≡ x + 3 =
      let half : (x + 1) / 2 ≡ x / 2 = omega arith in
      bit_or_step (x + 1) 2 ∙ rw (half, or_one (x / 2) (omega arith)) (omega arith) in
    rw low high
