-- ===== src/Ata/Wait.antt =====
-- How the polls of the driver end.
use aidos.Common.{
  ℕ, zero, suc, ◌+◌, ◌*◌, ◌/◌, ◌%◌, ◌≤◌, ◌<◌, ◌≡◌, ◌∙◌, inl, inr, refl, arith, ◌∷◌, length, Bool,
  sym, true, false, ◌==◌, Bool-cases, u8, bit_and,
}
use aidos.Common.Bits.{bit_and_mask, bit_and_field}
use aidos.Io.{Device, History, byte_in, inb}
use aidos.Ata.{is_busy, has_error, wants_data, wait_ready, wait_selected, wait_data, delay}

-- The history behind `n` more reads of the status.
abbrev pub polls : (io n : ℕ) → History → History
polls io zero h = h
polls io (suc n) h = polls io n (byte_in (io + 7) ∷ h)

busy_bit : (x : ℕ) → is_busy (u8 x) ≡ (x / 128 % 2 == 1)
busy_bit x =
    let e : bit_and (x % 256) 0x80 ≡ x % 256 / 128 % 2 * 128 = bit_and_field 7 1 (x % 256) in
    rw e (ground arith)

error_bit : (x : ℕ) → has_error (u8 x) ≡ (x % 2 == 1)
error_bit x =
    let e : bit_and (x % 256) 1 ≡ x % 256 % 2 = bit_and_mask 1 (x % 256) in rw e (ground arith)

data_bit : (x : ℕ) → wants_data (u8 x) ≡ (x / 8 % 2 == 1)
data_bit x =
    let e : bit_and (x % 256) 8 ≡ x % 256 / 8 % 2 * 8 = bit_and_field 3 1 (x % 256) in
    rw e (ground arith)

module _ (device : Device) (io : ℕ) where
  abbrev pub status : History → ℕ
  status h = device h (io + 7)

  -- The device is not busy at one of the next `most` + 1 polls.
  pub record Clears (most : ℕ) (h : History) : Type 0 where
    pub n : ℕ
    pub soon : n ≤ most
    pub free : status (polls io n h) / 128 % 2 ≡ 0

  -- It asks for data at poll `n`, and no poll before shows an error.
  pub record Answers (most : ℕ) (h : History) (n : ℕ) : Type 0 where
    pub soon : n ≤ most
    pub quiet :
        (m : ℕ) → m < n → (status (polls io m h) % 2 ≡ 0) × (status (polls io m h) / 8 % 2 ≡ 0)
    pub asks : (status (polls io n h) % 2 ≡ 0) × (status (polls io n h) / 8 % 2 ≡ 1)

  -- The poll that shows the device ready is the last.
  pub record Waited (h : History) (result : Bool × History) : Type 0 where
    pub n : ℕ
    pub returns : result ≡ (true, byte_in (io + 7) ∷ polls io n h)
    pub free : status (polls io n h) / 128 % 2 ≡ 0

  ready_now : (h : History) → status h / 128 % 2 ≡ 0 → is_busy (u8 (status h)) ≡ false
  ready_now h free = rw busy_bit (ground arith)

  free_now : (h : History) → is_busy (u8 (status h)) ≡ false → status h / 128 % 2 ≡ 0
  free_now h idle =
      let bit : (status h / 128 % 2 == 1) ≡ false = sym (busy_bit (status h)) ∙ idle in ground arith

  Waited-suc :
      (h : History) {result : Bool × History}
      → Waited (byte_in (io + 7) ∷ h) result
      → Waited h result
  Waited-suc h w = record { n = suc w.n; returns = w.returns; free = w.free }

  wait_ready-within :
      (left n : ℕ) (h : History)
      → n ≤ left
      → status (polls io n h) / 128 % 2 ≡ 0
      → Waited h (wait_ready device io left h)
  unfolding wait_ready inb
  wait_ready-within zero zero h soon free =
      rw (ready_now h free) (record { n = 0; returns = refl; free = free })
  wait_ready-within zero (suc n) h soon free = absurd (omega (arith, soon))
  wait_ready-within (suc left) zero h soon free =
      rw (ready_now h free) (record { n = 0; returns = refl; free = free })
  wait_ready-within (suc left) (suc n) h soon free = elim (Bool-cases (is_busy (u8 (status h)))) [
    | inl busy ↦
        rw busy (
          Waited-suc h (wait_ready-within left n (byte_in (io + 7) ∷ h) (omega (arith, soon)) free))
    | inr idle ↦ rw idle (record { n = 0; returns = refl; free = free_now h idle })
  ]

  pub wait_ready-Waited :
      (left : ℕ) (h : History) → Clears left h → Waited h (wait_ready device io left h)
  wait_ready-Waited left h c = wait_ready-within left c.n h c.soon c.free

  wait_selected-within :
      (left n : ℕ) (h : History)
      → n < left
      → status (polls io n h) / 128 % 2 ≡ 0
      → Waited h (wait_selected device io left h)
  unfolding wait_selected inb
  wait_selected-within zero n h soon free = absurd (omega (arith, soon))
  wait_selected-within (suc left) zero h soon free =
      rw (ready_now h free) (record { n = 0; returns = refl; free = free })
  wait_selected-within (suc left) (suc n) h soon free =
      elim (Bool-cases (is_busy (u8 (status h)))) [
        | inl busy ↦ rw busy (
            Waited-suc h
              (wait_selected-within left n (byte_in (io + 7) ∷ h) (omega (arith, soon)) free))
        | inr idle ↦ rw idle (record { n = 0; returns = refl; free = free_now h idle })
      ]

  pub wait_selected-Waited :
      (left : ℕ) (h : History) → Clears left h → Waited h (wait_selected device io (suc left) h)
  wait_selected-Waited left h c =
      wait_selected-within (suc left) c.n h (omega (arith, c.soon)) c.free

  pub wait_data-Answers :
      (left n : ℕ) (h : History)
      → Answers left h n
      → wait_data device io left h ≡ (true, polls io (suc n) h)
  unfolding wait_data inb
  wait_data-Answers zero zero h a =
      let fine : has_error (u8 (status h)) ≡ false = rw error_bit (ground (arith, a.asks)) in
      let asks : wants_data (u8 (status h)) ≡ true = rw data_bit (ground (arith, a.asks)) in
      rw (fine, asks) refl
  wait_data-Answers zero (suc n) h a = absurd (omega (arith, a.soon))
  wait_data-Answers (suc left) zero h a =
      let fine : has_error (u8 (status h)) ≡ false = rw error_bit (ground (arith, a.asks)) in
      let asks : wants_data (u8 (status h)) ≡ true = rw data_bit (ground (arith, a.asks)) in
      rw (fine, asks) refl
  wait_data-Answers (suc left) (suc n) h a =
      let q = a.quiet 0 (omega arith) in
      let fine : has_error (u8 (status h)) ≡ false = rw error_bit (ground arith) in
      let quiet : wants_data (u8 (status h)) ≡ false = rw data_bit (ground arith) in
      let later : Answers left (byte_in (io + 7) ∷ h) n = record {
        soon = omega (arith, a.soon);
        quiet = λ m lt. a.quiet (suc m) (omega arith);
        asks = a.asks;
      } in
      rw (fine, quiet) (wait_data-Answers left n (byte_in (io + 7) ∷ h) later)

  -- Each loop makes at most one poll more than `left`.
  pub wait_ready_bound :
      (left : ℕ) (h : History) → length (wait_ready device io left h).1 ≤ length h + left + 1
  unfolding wait_ready inb
  wait_ready_bound zero h = ground arith
  wait_ready_bound (suc left) h = ground (arith, wait_ready_bound left (byte_in (io + 7) ∷ h))

  pub wait_selected_bound :
      (left : ℕ) (h : History) → length (wait_selected device io left h).1 ≤ length h + left + 1
  unfolding wait_selected inb
  wait_selected_bound zero h = ground arith
  wait_selected_bound (suc left) h = ground (arith, wait_selected_bound left (byte_in (io + 7) ∷ h))

  pub wait_data_bound :
      (left : ℕ) (h : History) → length (wait_data device io left h).1 ≤ length h + left + 1
  unfolding wait_data inb
  wait_data_bound zero h = ground arith
  wait_data_bound (suc left) h = ground (arith, wait_data_bound left (byte_in (io + 7) ∷ h))

  pub delay_bound : (left : ℕ) (h : History) → length (delay device io left h) ≡ length h + left
  unfolding delay inb
  delay_bound zero h = omega arith
  delay_bound (suc left) h = delay_bound left (byte_in (io + 7) ∷ h) ∙ omega arith
