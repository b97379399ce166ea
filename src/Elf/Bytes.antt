-- ===== src/Elf/Bytes.antt =====
-- The bytes that a read stores, and the headers read from them.
use aidos.Common.{
  ℕ, zero, suc, ◌+◌, ◌-◌, ◌≤◌, ◌<◌, ◌≡◌, ◌∙◌, refl, arith, ltb, leb, ◌&&◌, if◌then◌else◌,
}
use aidos.Mem.{Memory, write}
use aidos.Fat.Read.{slice}
use aidos.Elf.{le, ehdr_of, phdr_of, store_bytes}

pub store_bytes-slice :
    (content : Memory) (p n a : ℕ) (m : Memory) (c : ℕ)
    → store_bytes (slice content p n) a m c
      ≡ (if leb a c && ltb c (a + n) then content (p + (c - a)) else m c)
unfolding store_bytes
store_bytes-slice content p zero a m c = ground arith
store_bytes-slice content p (suc n) a m c =
    store_bytes-slice content (p + 1) n (a + 1) (write m a (content p)) c
    ∙ one_more content p n a m c
  where
    one_more :
        (content : Memory) (p n a : ℕ) (m : Memory) (c : ℕ)
        → (if leb (a + 1) c && ltb c (a + 1 + n)
            then content (p + 1 + (c - (a + 1)))
            else write m a (content p) c)
          ≡ (if leb a c && ltb c (a + suc n) then content (p + (c - a)) else m c)
    one_more content p n a m c = ground arith

-- Fields of two memories that agree on their bytes.
module _ (m m' : Memory) (size : ℕ) (same : (c : ℕ) → c < size → m c ≡ m' c) where
  le-same : (at_byte w : ℕ) → at_byte + w ≤ size → le m at_byte w ≡ le m' at_byte w
  le-same at_byte zero h = refl
  le-same at_byte (suc w) h = ground (arith, same at_byte, le-same (at_byte + 1) w)

  slice-same : (at_byte n : ℕ) → at_byte + n ≤ size → slice m at_byte n ≡ slice m' at_byte n
  slice-same at_byte zero h = refl
  slice-same at_byte (suc n) h =
      rw (same at_byte (omega (arith, h)), slice-same (at_byte + 1) n (omega (arith, h))) refl

  pub phdr_of-same : size ≡ 56 → phdr_of m ≡ phdr_of m'
  unfolding phdr_of
  phdr_of-same e =
      rw
        (
          le-same 0 4 (omega arith),
          le-same 4 4 (omega arith),
          le-same 8 8 (omega arith),
          le-same 16 8 (omega arith),
          le-same 24 8 (omega arith),
          le-same 32 8 (omega arith),
          le-same 40 8 (omega arith),
          le-same 48 8 (omega arith),
        )
        refl

  pub ehdr_of-same : size ≡ 64 → ehdr_of m ≡ ehdr_of m'
  unfolding ehdr_of
  ehdr_of-same e =
      rw
        (
          slice-same 0 16 (omega arith),
          le-same 16 2 (omega arith),
          le-same 18 2 (omega arith),
          le-same 20 4 (omega arith),
          le-same 24 8 (omega arith),
          le-same 32 8 (omega arith),
          le-same 40 8 (omega arith),
          le-same 48 4 (omega arith),
          le-same 52 2 (omega arith),
          le-same 54 2 (omega arith),
          le-same 56 2 (omega arith),
          le-same 58 2 (omega arith),
          le-same 60 2 (omega arith),
          le-same 62 2 (omega arith),
        )
        refl
