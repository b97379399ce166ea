-- ===== src/Ata/Tests.antt =====
-- A disk that is busy for a while, and the driver on it.
use aidos.Common.{
  ℕ, zero, suc, ◌+◌, ◌-◌, ◌*◌, ◌/◌, ◌%◌, ◌^◌, ◌<◌, ◌≤◌, ◌≡◌, ◌∙◌, refl, ap, arith, [], ◌∷◌, length,
  Bool, true, false, leb, ◌&&◌, ◌==◌, if◌then◌else◌,
}
use aidos.Io.{Access, byte_out, word_out, byte_in, word_in, History, Device}
use aidos.Ata.{AtaDrive, ata_drive, all_drives, initialize, probe, read_sectors}
use aidos.Ata.Wait.{polls, Answers}
use aidos.Ata.Protocol.{IsDisk, words, asked, polled}
use aidos.Ata.Read.{Fetches, read_sectors-Fetches}
use aidos.Ata.Bounds.{most_accesses, read_sectors_bound}
use aidos.Ata.Identify.{
  selected, identify, IsIdentified, Outcome, initialize-primary, initialize-Outcome,
}

-- The byte that was last written to a port.
abbrev register : (port : ℕ) → History → ℕ
register port [] = 0
register port (byte_out p v ∷ h) = if p == port then v else register port h
register port (word_out p v ∷ h) = register port h
register port (byte_in p ∷ h) = register port h
register port (word_in p ∷ h) = register port h

-- The words that were read since the last write.
abbrev word_index : History → ℕ
word_index [] = 0
word_index (byte_out p v ∷ h) = 0
word_index (word_out p v ∷ h) = 0
word_index (byte_in p ∷ h) = word_index h
word_index (word_in p ∷ h) = suc (word_index h)

abbrev image : ℕ → ℕ
image a = a / 512 % 256

abbrev identify_word : ℕ → ℕ
identify_word k = if k == 60 then 0x1000 else if k == 61 then 1 else 0

abbrev sector_word : (lba i : ℕ) → ℕ
sector_word lba i = image (lba * 512 + i * 2) + image (lba * 512 + (i * 2 + 1)) * 2 ^ 8

abbrev lba_of : History → ℕ
lba_of h =
    register 0x1F3 h
    + register 0x1F4 h * 2 ^ 8
    + register 0x1F5 h * 2 ^ 16
    + (register 0x1F6 h - 0xE0) * 2 ^ 24

-- Right behind a write the disk is busy.
abbrev is_fresh : History → Bool
is_fresh [] = false
is_fresh (byte_out p v ∷ h) = true
is_fresh (word_out p v ∷ h) = true
is_fresh (byte_in p ∷ h) = false
is_fresh (word_in p ∷ h) = false

-- There is no slave, and a sector that the disk does not have is an error.
abbrev settled : History → ℕ
settled h =
    if register 0x1F6 h / 16 % 2 == 1
    then 0
    else if (register 0x1F7 h == 0x20) && leb 0x1_1000 (lba_of h)
    then 1
    else 8

abbrev disk : Device
disk h port =
    if port == 0x1F7
    then (if is_fresh h then 0x80 else settled h)
    else if register 0x1F7 h == 0xEC
    then identify_word (word_index h)
    else sector_word (lba_of h) (word_index h)

settled_free : (h : History) → settled h / 128 % 2 ≡ 0
settled_free h = ground arith

register-words : (port n : ℕ) (h : History) → register port (words 0x1F0 n h) ≡ register port h
register-words port zero h = refl
register-words port (suc n) h = register-words port n (word_in 0x1F0 ∷ h)

word_index-words : (n : ℕ) (h : History) → word_index (words 0x1F0 n h) ≡ word_index h + n
word_index-words zero h = omega arith
word_index-words (suc n) h = word_index-words n (word_in 0x1F0 ∷ h) ∙ omega arith

register-polls : (port n : ℕ) (h : History) → register port (polls 0x1F0 n h) ≡ register port h
register-polls port zero h = refl
register-polls port (suc n) h = register-polls port n (byte_in 0x1F7 ∷ h)

-- Busy at once, and ready with data at the next poll.
at_second :
    (h : History)
    → disk h 0x1F7 ≡ 0x80
    → disk (polls 0x1F0 1 h) 0x1F7 ≡ 8
    → Answers disk 0x1F0 100000 h 1
at_second h busy ready = record {
  soon = omega arith;
  quiet = λ m lt. let e : m ≡ 0 = omega arith in rw (e, busy) (refl, refl);
  asks = rw ready (refl, refl);
}

disk-asked :
    (lba : ℕ) (h : History)
    → lba < 0x1_1000
    → Answers disk 0x1F0 100000 (asked 0x1F0 0xE0 lba (polled 0x1F0 h)) 1
disk-asked lba h lt = at_second (asked 0x1F0 0xE0 lba (polled 0x1F0 h)) refl (ground arith)

disk-gives :
    (lba i : ℕ) (h : History)
    → lba < 0x1_1000
    → disk (words 0x1F0 i (polls 0x1F0 2 (asked 0x1F0 0xE0 lba (polled 0x1F0 h)))) 0x1F0
      ≡ sector_word lba i
disk-gives lba i h lt =
    let h' = polls 0x1F0 2 (asked 0x1F0 0xE0 lba (polled 0x1F0 h)) in
    let index : word_index (words 0x1F0 i h') ≡ i = word_index-words i h' ∙ omega arith in
    let at_lba : lba_of h' ≡ lba = omega arith in
    rw
      (
        index,
        register-words 0x1F7 i h',
        register-words 0x1F3 i h',
        register-words 0x1F4 i h',
        register-words 0x1F5 i h',
        register-words 0x1F6 i h',
      )
      (ap (λ (l : ℕ). sector_word l i) at_lba)

disk-IsDisk : IsDisk disk 0x1F0 0xE0 0x1_1000 image
disk-IsDisk = record {
  bytes = λ a. omega arith;
  ready = λ h. record { n = 1; soon = omega arith; free = settled_free (byte_in 0x1F7 ∷ h) };
  delay = λ lba h. 1;
  answers = λ lba h lt free. disk-asked lba h lt;
  gives = λ lba i h lt free lt'. disk-gives lba i h lt;
}

settled-identify : (n : ℕ) (h : History) → settled (polls 0x1F0 1 (identify 0x1F0 0xA0 n h)) ≡ 8
settled-identify n h =
    let h4 = polls 0x1F0 4 (byte_out 0x1F6 0xA0 ∷ h) in rw (register-polls 0x1F6 n h4) refl

disk-IsIdentified : IsIdentified disk 0x1F0 0xA0 identify_word
disk-IsIdentified = record {
  small = λ k. ground arith;
  ready = λ h. record { n = 0; soon = omega arith; free = settled_free (selected 0x1F0 0xA0 0 h) };
  wait = λ n h. 1;
  answers = λ n h free. at_second (identify 0x1F0 0xA0 n h) refl (settled-identify n h);
  gives = λ n k h free lt.
      let h' = polls 0x1F0 2 (identify 0x1F0 0xA0 n h) in
      let index : word_index (words 0x1F0 k h') ≡ k = word_index-words k h' ∙ omega arith in
      rw (index, register-words 0x1F7 k h') refl;
}

abbrev found : AtaDrive
found = record { io_base = 0x1F0; is_master = true; total_sectors = 0x1_1000 }

initialize-primary_example :
    initialize disk (λ _. 0) ata_drive [] ≡ (true, found, (probe disk 0x1F0 0xA0 (λ _. 0) []).1)
initialize-primary_example =
    initialize-primary disk identify_word (λ _. 0) ata_drive [] disk-IsIdentified

initialize-Outcome_example : Outcome all_drives ata_drive [] (initialize disk (λ _. 0) ata_drive [])
initialize-Outcome_example = initialize-Outcome disk (λ _. 0) ata_drive []

-- The last three sectors of the disk, at 0x9000.
read_sectors-Fetches_example :
    Fetches disk found 0x1_1000 image disk-IsDisk 0x1_0FFD 0x9000 3 0
      (λ _. 0)
      (read_sectors disk found 0x1_0FFD 3 0x9000 (λ _. 0) [])
read_sectors-Fetches_example =
    read_sectors-Fetches disk found 0x1_1000 image disk-IsDisk 0x1_0FFD 3 0x9000 (λ _. 0) []
      (omega arith) (omega arith) (omega arith) (λ k lt. omega arith) (omega arith) (omega arith)

read_sectors_bound_example :
    length (read_sectors disk found 7 2 0x9000 (λ _. 0) []).2
    ≤ length {A = Access} [] + 2 * most_accesses
read_sectors_bound_example = read_sectors_bound disk found 7 2 0x9000 (λ _. 0) []
