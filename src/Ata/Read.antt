-- ===== src/Ata/Read.antt =====
-- `read_sectors`, on a disk that keeps to the protocol.
use aidos.Common.{
  ℕ, zero, suc, ◌+◌, ◌*◌, ◌-◌, ◌/◌, ◌%◌, ◌^◌, ◌≤◌, ◌<◌, ◌≡◌, ◌∙◌, inl, inr, refl, sym, ap, arith,
  Bool, true, false, ltb, leb, ◌&&◌, ◌||◌, ◌==◌, if◌then◌else◌, Bool-cases, u32,
}
use aidos.Mem.{Memory}
use aidos.Heap.{null}
use aidos.Io.{Device, History}
use aidos.Ata.{AtaDrive, max_wait, read_words, read_sector, read_sectors_loop, read_sectors}
use aidos.Ata.Wait.{polls, wait_ready-Waited, wait_data-Answers}
use aidos.Ata.Protocol.{polled, asked, IsDisk, head_of, send_read-asked, read_words-bytes}

-- The place of byte `a` of the buffer on the disk.
abbrev pub place : (lba buf a : ℕ) → ℕ
place lba buf a = (lba + (a - buf) / 512) % 2 ^ 28 * 512 + (a - buf) % 512

place_here :
    (lba buf sector a : ℕ)
    → buf + sector * 512 ≤ a
    → a < buf + sector * 512 + 512
    → place lba buf a ≡ (lba + sector) % 2 ^ 28 * 512 + (a - (buf + sector * 512))
place_here lba buf sector a le lt =
    let e : (a - buf) / 512 ≡ sector = omega arith in rw e (omega arith)

outside_here :
    (new old buf left sector a : ℕ)
    → (leb (buf + sector * 512) a && ltb a (buf + sector * 512 + 512)) ≡ false
    → (if leb (buf + (sector + 1) * 512) a && ltb a (buf + (sector + 1 + left) * 512)
        then new
        else old)
      ≡ (if leb (buf + sector * 512) a && ltb a (buf + (sector + suc left) * 512) then new else old)
outside_here new old buf left sector a miss = ground arith

next_part :
    (image : ℕ → ℕ) (lba buf left sector a here old : ℕ)
    → here ≡ (
        let base = buf + sector * 512 in
        if leb base a && ltb a (base + 512)
        then image ((lba + sector) % 2 ^ 28 * 512 + (a - base))
        else old)
    → (if leb (buf + (sector + 1) * 512) a && ltb a (buf + (sector + 1 + left) * 512)
        then image (place lba buf a)
        else here)
      ≡ (if leb (buf + sector * 512) a && ltb a (buf + (sector + suc left) * 512)
          then image (place lba buf a)
          else old)
next_part image lba buf left sector a here old e =
    let base = buf + sector * 512 in
    elim (Bool-cases (leb base a && ltb a (base + 512))) [
      | inr miss ↦
          let kept : here ≡ old = rw miss at e in
          rw kept (outside_here (image (place lba buf a)) old buf left sector a miss)
      | inl hit ↦
          let (le, lt) : (base ≤ a) × (a < base + 512) = ground arith in
          let past : leb (buf + (sector + 1) * 512) a ≡ false = ground arith in
          let within : ltb a (buf + (sector + suc left) * 512) ≡ true = ground arith in
          let from : leb base a ≡ true = ground arith in
          rw (past, within, from) (e ∙ rw hit (ap image (sym (place_here lba buf sector a le lt))))
    ]

module _ (device : Device) (ata : AtaDrive) (sectors : ℕ) (image : ℕ → ℕ)
    (disk : IsDisk device ata.io_base (head_of ata) sectors image) where
  -- A round puts a sector into the buffer.
  record Fetched (lba buf sector : ℕ) (m : Memory) (result : Bool × Memory × History) : Type 0 where
    m' : Memory
    h' : History
    returns : result ≡ (true, m', h')
    holds :
        (a : ℕ)
        → m' a ≡ (
            let base = buf + sector * 512 in
            if leb base a && ltb a (base + 512)
            then image ((lba + sector) % 2 ^ 28 * 512 + (a - base))
            else m a)

  read_sector-Fetched :
      (lba buf sector : ℕ) (m : Memory) (h : History)
      → lba + sector < 2 ^ 32
      → (lba + sector) % 2 ^ 28 < sectors
      → Fetched lba buf sector m (read_sector device ata lba buf sector m h)
  unfolding read_sector
  read_sector-Fetched lba buf sector m h fits there =
      let io = ata.io_base in
      let cur = (lba + sector) % 2 ^ 28 in
      let w = wait_ready-Waited device io max_wait h (disk.ready h) in
      let h0 = polls io w.n h in
      let h1 = polled io h0 in
      let word_fits : u32 (lba + sector) ≡ lba + sector = omega arith in
      let sent = send_read-asked ata (lba + sector) h1 in
      let n = disk.delay cur h0 in
      let answered =
        wait_data-Answers device io max_wait n (asked io (head_of ata) cur h1)
          (disk.answers cur h0 there w.free) in
      let h2 = polls io (suc n) (asked io (head_of ata) cur h1) in
      let result = read_words device io buf sector 256 0 m h2 in
      record {
        m' = result.0;
        h' = result.1;
        returns = rw (w.returns, word_fits, sent, answered) refl;
        holds = λ a.
            read_words-bytes device (λ j. image (cur * 512 + j)) io buf sector 256 0 m h2
              (λ j. disk.bytes (cur * 512 + j))
              (λ k lt.
                let e : 0 + k ≡ k = omega arith in rw e (disk.gives cur k h0 there w.free lt))
              a
            ∙ ground arith;
      }

  -- The bytes of the sectors from `sector` on, in the buffer.
  pub record Fetches (lba buf left sector : ℕ) (m : Memory) (result : Bool × Memory × History)
      : Type 0 where
    pub m' : Memory
    pub h' : History
    pub returns : result ≡ (true, m', h')
    pub holds :
        (a : ℕ)
        → m' a ≡ (
            if leb (buf + sector * 512) a && ltb a (buf + (sector + left) * 512)
            then image (place lba buf a)
            else m a)

  read_sectors_loop-suc :
      (lba buf left sector : ℕ) (m m' : Memory) (h h' : History)
      → read_sector device ata lba buf sector m h ≡ (true, m', h')
      → read_sectors_loop device ata lba buf (suc left) sector m h
        ≡ read_sectors_loop device ata lba buf left (sector + 1) m' h'
  unfolding read_sectors_loop
  read_sectors_loop-suc lba buf left sector m m' h h' e = rw e refl

  read_sectors_loop-Fetches :
      (lba buf left sector : ℕ) (m : Memory) (h : History)
      → lba + sector + left ≤ 2 ^ 32
      → ((k : ℕ) → sector ≤ k → k < sector + left → (lba + k) % 2 ^ 28 < sectors)
      → Fetches lba buf left sector m (read_sectors_loop device ata lba buf left sector m h)
  read_sectors_loop-Fetches lba buf zero sector m h fits there = record {
    m' = m;
    h' = h;
    returns = unfold read_sectors_loop in refl;
    holds = λ a. ground arith;
  }
  read_sectors_loop-Fetches lba buf (suc left) sector m h fits there =
      let first =
        read_sector-Fetched lba buf sector m h (omega arith)
          (there sector (omega arith) (omega arith)) in
      let rest =
        read_sectors_loop-Fetches lba buf left (sector + 1) first.m' first.h' (omega arith)
          (λ k from to. there k (omega arith) (omega arith)) in
      record {
        m' = rest.m';
        h' = rest.h';
        returns =
            read_sectors_loop-suc lba buf left sector m first.m' h first.h' first.returns
            ∙ rest.returns;
        holds = λ a.
            rest.holds a ∙ next_part image lba buf left sector a (first.m' a) (m a) (first.holds a);
      }

  -- On a drive that was found, with a buffer, a 28-bit address and at least one sector, and a disk that has
  -- the sectors, becomes ready whenever it is polled, and keeps to the protocol for the commands that it is
  -- given when ready, `read_sectors` succeeds and puts the bytes of the sectors into the buffer, and
  -- nothing elsewhere. Past sector 2 ^ 28 - 1 it goes on with sector 0.
  pub read_sectors-Fetches :
      (lba count buffer : ℕ) (m : Memory) (h : History)
      → lba < 2 ^ 28
      → 0 < count
      → lba + count ≤ 2 ^ 32
      → ((k : ℕ) → k < count → (lba + k) % 2 ^ 28 < sectors)
      → 0 < buffer
      → 0 < ata.io_base
      → Fetches lba buffer count 0 m (read_sectors device ata lba count buffer m h)
  unfolding read_sectors
  read_sectors-Fetches lba count buffer m h low pos fits there real found =
      let go : ((count == 0) || ((buffer == null) || (ata.io_base == 0))) ≡ false = ground arith in
      let small : ltb 0x0FFF_FFFF lba ≡ false = ground arith in
      rw (go, small)
        (read_sectors_loop-Fetches lba buffer count 0 m h (omega arith)
          (λ k from to. there k (omega arith)))
