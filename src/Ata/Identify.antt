-- ===== src/Ata/Identify.antt =====
-- What `initialize` finds.
use aidos.Common.{
  ℕ, zero, suc, ◌+◌, ◌-◌, ◌*◌, ◌/◌, ◌%◌, ◌^◌, ◌≤◌, ◌<◌, ◌≡◌, ◌∙◌, ◌⊎◌, inl, inr, refl, ap, arith,
  Option, none, some, List, [], ◌∷◌, length, Bool, true, false, not, ltb, leb, ◌&&◌, if◌then◌else◌,
  u8, u16, u32, bit_or, ◌<<<◌,
}
use aidos.Common.Bits.{bit_or_fields}
use aidos.Mem.{Memory, write}
use aidos.Io.{Device, History, byte_out, byte_in, word_in, outb, inb, inw}
use aidos.Ata.{
  AtaDrive, max_wait, delay, wait_selected, wait_data, read_identify, probe, initialize_loop,
  initialize, all_drives,
}
use aidos.Ata.Wait.{
  polls, Clears, Answers, wait_selected-Waited, wait_data-Answers, wait_selected_bound,
  wait_data_bound, delay_bound,
}
use aidos.Ata.Protocol.{words, polled}
use aidos.Ata.Bounds.{most_accesses, read_identify_bound}

-- The history behind the selection of a drive, the four polls of the delay, and `n` more.
abbrev pub selected : (io drive_select n : ℕ) → History → History
selected io drive_select n h = polls io n (polls io 4 (byte_out (io + 6) (u8 drive_select) ∷ h))

-- The command IDENTIFY, behind one poll more.
abbrev pub identify : (io drive_select n : ℕ) → History → History
identify io drive_select n h = byte_out (io + 7) 0xEC ∷ polled io (selected io drive_select n h)

module _ (device : Device) where
  delay_polls : (io left : ℕ) (h : History) → delay device io left h ≡ polls io left h
  unfolding delay inb
  delay_polls io zero h = refl
  delay_polls io (suc left) h = delay_polls io left (byte_in (io + 7) ∷ h)

  -- The words of IDENTIFY, by their numbers.
  read_identify-words :
      (w : ℕ → ℕ) (io left i : ℕ) (m : Memory) (h : History)
      → ((k : ℕ) → w k < 2 ^ 16)
      → ((k : ℕ) → k < left → device (words io k h) io ≡ w (i + k))
      → (a : ℕ)
      → (read_identify device io left i m h).0 a
        ≡ (if leb i a && ltb a (i + left) then w a else m a)
  unfolding read_identify inw
  read_identify-words w io zero i m h small gives a = ground arith
  read_identify-words w io (suc left) i m h small gives a =
      let z : io + 0 ≡ io = omega arith in
      let first : u16 (device h io) ≡ w i =
        let e : i + 0 ≡ i = omega arith in
        let g : device h io ≡ w i = rw e at (gives 0 (omega arith)) in omega (arith, g, small i) in
      let rest : (k : ℕ) → k < left → device (words io k (word_in io ∷ h)) io ≡ w (i + 1 + k) =
        λ k lt. let e : i + 1 + k ≡ i + suc k = omega arith in rw e (gives (suc k) (omega arith)) in
      rw (z, first, read_identify)
        (read_identify-words w io left (i + 1) (write m i (w i)) (word_in io ∷ h) small rest a
          ∙ ground arith)

  -- A drive of a channel that answers IDENTIFY with the words `w`: behind its selection by the byte
  -- `drive_select` and four polls, it is ready after some more, and, sent the command right behind a poll
  -- that shows it ready, it answers after some polls and gives the words. What the channel does while
  -- the drive is not selected, or busy, is left open.
  pub record IsIdentified (io drive_select : ℕ) (w : ℕ → ℕ) : Type 0 where
    pub small : (k : ℕ) → w k < 2 ^ 16
    pub ready : (h : History) → Clears device io (max_wait - 1) (selected io drive_select 0 h)
    pub wait : (n : ℕ) → History → ℕ
    pub answers :
        (n : ℕ) (h : History)
        → device (selected io drive_select n h) (io + 7) / 128 % 2 ≡ 0
        → Answers device io max_wait (identify io drive_select n h) (wait n h)
    pub gives :
        (n k : ℕ) (h : History)
        → device (selected io drive_select n h) (io + 7) / 128 % 2 ≡ 0
        → k < 256
        → device (words io k (polls io (suc (wait n h)) (identify io drive_select n h))) io ≡ w k

  sectors_lem :
      (low high : ℕ)
      → low < 2 ^ 16
      → high < 2 ^ 16
      → u32 (bit_or (high <<< 16) low) ≡ high * 2 ^ 16 + low
  sectors_lem low high a b = bit_or_word
    where
      bit_or_word : u32 (bit_or (high * 2 ^ 16) low) ≡ high * 2 ^ 16 + low
      bit_or_word = rw (bit_or_fields 16 high low a) (omega arith)

  probe-answer :
      (io drive_select : ℕ) (w : ℕ → ℕ) (m : Memory) (h : History)
      → IsIdentified io drive_select w
      → (probe device io drive_select m h).0 ≡ some (w 61 * 2 ^ 16 + w 60)
  unfolding probe outb
  probe-answer io drive_select w m h d =
      let q =
        wait_selected-Waited device io (max_wait - 1) (selected io drive_select 0 h) (d.ready h) in
      let delayed = delay_polls io 4 (byte_out (io + 6) (u8 drive_select) ∷ h) in
      let n = d.wait q.n h in
      let asking = identify io drive_select q.n h in
      let answered = wait_data-Answers device io max_wait n asking (d.answers q.n h q.free) in
      let h2 = polls io (suc n) asking in
      let given : (k : ℕ) → k < 256 → device (words io k h2) io ≡ w (0 + k) =
        λ k lt. let e : 0 + k ≡ k = omega arith in rw e (d.gives q.n k h q.free lt) in
      let at_60 : (read_identify device io 256 0 m h2).0 60 ≡ w 60 =
        read_identify-words w io 256 0 m h2 d.small given 60 in
      let at_61 : (read_identify device io 256 0 m h2).0 61 ≡ w 61 =
        read_identify-words w io 256 0 m h2 d.small given 61 in
      rw (delayed, q.returns, answered, at_60, at_61)
        (ap (λ (n : ℕ). some n) (sectors_lem (w 60) (w 61) (d.small 60) (d.small 61)))

  initialize_loop-found :
      (io drive_select : ℕ) (master : Bool) (drives : List (ℕ × ℕ × Bool)) (m : Memory)
      (ata : AtaDrive) (h : History) {n : ℕ}
      → (probe device io drive_select m h).0 ≡ some n
      → initialize_loop device ((io, drive_select, master) ∷ drives) m ata h ≡ (
        true,
        record { io_base = io; is_master = master; total_sectors = n },
        (probe device io drive_select m h).1,
      )
  unfolding initialize_loop
  initialize_loop-found io drive_select master drives m ata h e = rw (e, initialize_loop) refl

  -- If the master of the primary channel, once selected and ready, answers IDENTIFY, `initialize` succeeds with it, and
  -- the number of sectors is that of words 60 and 61.
  pub initialize-primary :
      (w : ℕ → ℕ) (m : Memory) (ata : AtaDrive) (h : History)
      → IsIdentified 0x1F0 0xA0 w
      → initialize device m ata h ≡ (
        true,
        record { io_base = 0x1F0; is_master = true; total_sectors = w 61 * 2 ^ 16 + w 60 },
        (probe device 0x1F0 0xA0 m h).1,
      )
  unfolding initialize
  initialize-primary w m ata h d =
      initialize_loop-found 0x1F0 0xA0 true _ m ata h (probe-answer 0x1F0 0xA0 w m h d)

  three_ends :
      (ready answers : Bool) (n : ℕ) (h1 h2 h3 : History) (most : ℕ)
      → length h1 ≤ most
      → length h2 ≤ most
      → length h3 ≤ most
      → (let end : Option ℕ × History =
            if not ready then (none, h1) else if not answers then (none, h2) else (some n, h3) in
          length end.1 ≤ most)
  three_ends false answers n h1 h2 h3 most a b c = a
  three_ends true false n h1 h2 h3 most a b c = b
  three_ends true true n h1 h2 h3 most a b c = c

  probe_bound :
      (io drive_select : ℕ) (m : Memory) (h : History)
      → length (probe device io drive_select m h).1 ≤ length h + most_accesses
  unfolding probe outb
  probe_bound io drive_select m h =
      let h0 = byte_out (io + 6) (u8 drive_select) ∷ h in
      let hd = delay device io 4 h0 in
      let r = wait_selected device io max_wait hd in
      let d = wait_data device io max_wait (byte_out (io + 7) 0xEC ∷ r.1) in
      let w = read_identify device io 256 0 m d.1 in
      let b0 = delay_bound device io 4 h0 in
      let b1 = wait_selected_bound device io max_wait hd in
      let b2 = wait_data_bound device io max_wait (byte_out (io + 7) 0xEC ∷ r.1) in
      let b3 = read_identify_bound device io 256 0 m d.1 in
      three_ends r.0 d.0 (u32 (bit_or (w.0 61 <<< 16) (w.0 60))) r.1 d.1 w.1
        (length h + most_accesses) (omega (arith, b0, b1)) (omega (arith, b0, b1, b2))
        (omega (arith, b0, b1, b2, b3))

  answered_sectors :
      (ready answers : Bool) (x : ℕ) (h1 h2 h3 : History) {n : ℕ}
      → (let end : Option ℕ × History =
            if not ready
            then (none, h1)
            else if not answers
            then (none, h2)
            else (some (u32 x), h3) in
          end.0 ≡ some n)
      → n < 2 ^ 32
  answered_sectors false answers x h1 h2 h3 e = absurd (cc e)
  answered_sectors true false x h1 h2 h3 e = absurd (cc e)
  answered_sectors true true x h1 h2 h3 {n} e =
      let value : u32 x ≡ n = ap (λ (o : Option ℕ). elim o [ none ↦ 0 | some v ↦ v ]) e in
      omega (arith, value)

  probe_sectors :
      (io drive_select : ℕ) (m : Memory) (h : History) {n : ℕ}
      → (probe device io drive_select m h).0 ≡ some n
      → n < 2 ^ 32
  unfolding probe outb
  probe_sectors io drive_select m h e =
      let hd = delay device io 4 (byte_out (io + 6) (u8 drive_select) ∷ h) in
      let r = wait_selected device io max_wait hd in
      let d = wait_data device io max_wait (byte_out (io + 7) 0xEC ∷ r.1) in
      let w = read_identify device io 256 0 m d.1 in
      answered_sectors r.0 d.0 (bit_or (w.0 61 <<< 16) (w.0 60)) r.1 d.1 w.1 e

-- One of the drives in the list.
abbrev pub IsAmong : List (ℕ × ℕ × Bool) → AtaDrive → Type 0
IsAmong [] ata = ⊥
IsAmong ((io, drive_select, master) ∷ drives) ata =
    ((ata.io_base ≡ io) × (ata.is_master ≡ master)) ⊎ IsAmong drives ata

-- How the search for a drive ends: with nothing changed, or with a drive that was tried.
pub record Outcome (drives : List (ℕ × ℕ × Bool)) (ata : AtaDrive) (h : History)
    (result : Bool × AtaDrive × History) : Type 0 where
  pub either :
      ((result.0 ≡ false) × (result.1 ≡ ata))
      ⊎ ((result.0 ≡ true) × (IsAmong drives result.1 × (result.1.total_sectors < 2 ^ 32)))
  pub accesses : length result.2 ≤ length h + length drives * most_accesses

module _ (device : Device) (m : Memory) (ata : AtaDrive) where
  Outcome-cases :
      (io drive_select : ℕ) (master : Bool) (drives : List (ℕ × ℕ × Bool)) (h : History)
      (answer : Option ℕ)
      → (probe device io drive_select m h).0 ≡ answer
      → Outcome drives ata
          (probe device io drive_select m h).1
          (initialize_loop device drives m ata (probe device io drive_select m h).1)
      → Outcome
          ((io, drive_select, master) ∷ drives)
          ata
          h
          (initialize_loop device ((io, drive_select, master) ∷ drives) m ata h)
  unfolding initialize_loop
  Outcome-cases io drive_select master drives h none e rest =
      let b = probe_bound device io drive_select m h in
      rw (e, initialize_loop)
        (record {
          either = elim rest.either [
            | inl failed ↦ inl failed
            | inr (done, (among, few)) ↦ inr (done, (inr among, few))
          ];
          accesses = omega (arith, b, rest.accesses);
        })
  Outcome-cases io drive_select master drives h (some n) e rest =
      let b = probe_bound device io drive_select m h in
      rw (e, initialize_loop)
        (record {
          either = inr (refl, (inl (refl, refl), probe_sectors device io drive_select m h e));
          accesses = omega (arith, b);
        })

  initialize_loop-Outcome :
      (drives : List (ℕ × ℕ × Bool)) (h : History)
      → Outcome drives ata h (initialize_loop device drives m ata h)
  unfolding initialize_loop
  initialize_loop-Outcome [] h = record { either = inl (refl, refl); accesses = omega arith }
  initialize_loop-Outcome ((io, drive_select, master) ∷ drives) h =
      let p = probe device io drive_select m h in
      Outcome-cases io drive_select master drives h p.0 refl (initialize_loop-Outcome drives p.1)

  -- Whatever the devices answer, `initialize` returns after at most 801056 port accesses: either it
  -- fails and the driver is as before, or the driver has one of the four drives, with fewer than
  -- 2 ^ 32 sectors.
  pub initialize-Outcome : (h : History) → Outcome all_drives ata h (initialize device m ata h)
  unfolding initialize
  initialize-Outcome h = initialize_loop-Outcome all_drives h
