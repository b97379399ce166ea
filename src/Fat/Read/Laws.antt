-- ===== src/Fat/Read/Laws.antt =====
-- What `read` gives, against the content of the file along its chain of clusters.
use mathlib.Core.List.{append-nil}
use aidos.Common.{
  ℕ, zero, suc, ◌+◌, ◌-◌, ◌*◌, ◌%◌, ◌≤◌, ◌<◌, ◌≡◌, inl, inr, refl, sym, ap, ◌∙◌, arith, true, false,
  List, [], ltb, ◌==◌, Bool-cases, u32, sub32,
}
use aidos.Fat.{FileData, Fat, file_data}
use aidos.Fat.Read.{min, slice, next_sector, advance, read_loop, read}
use aidos.Fat.Read.Volume.{
  Volume, IsVolume, IsFile, IsAt, IsLeaving, Stands, content_at, file_data-set, set_file_data-IsOn,
  slice-content, zero_behind, content_at-append,
}
use aidos.Fat.Read.Sector.{next_sector-Went}

module _ (v : Volume) (ok : IsVolume v) (clusters : ℕ → ℕ) (size : ℕ) (content : ℕ → ℕ)
    (file : IsFile v clusters size content) where
  slice_lem :
      (p take n j : ℕ) (fd : FileData)
      → IsAt v clusters size p n j fd
      → p % 512 + take ≤ 512
      → slice fd.buffer (p % 512) take ≡ content_at content p take
  slice_lem p take n j fd at fits = slice-content fd.buffer content take (p % 512) p (λ i h.
      let here : (n * v.spc + j) * 512 + (p % 512 + i) ≡ p + i = omega (arith, at.place) in
      let started : n * v.spc * 512 < size = omega (arith, at.place, at.within) in
      at.buffer (p % 512 + i) (omega arith)
      ∙ sym (file.bytes n j (p % 512 + i) at.inside (omega arith) started)
      ∙ ap content here)

  -- What `read_loop` comes to, from position `p` on.
  pub record Reads (handle p count : ℕ) (result : List ℕ × Fat) : Type 0 where
    pub gives : result.0 ≡ content_at content p count
    pub stands : p + count < size → Stands v clusters size handle (p + count) result.1

  read_loop_none : (handle rounds : ℕ) (s : Fat) → read_loop v.disk handle rounds 0 s ≡ ([], s)
  unfolding read_loop
  read_loop_none handle zero s = refl
  read_loop_none handle (suc rounds) s = refl

  advanced :
      (p take n j handle : ℕ) (s : Fat)
      → IsAt v clusters size p n j (file_data handle s)
      → p + take ≤ size
      → (file_data handle (advance handle take s)) ≡ record (file_data handle s) {
        public = record (file_data handle s).public { position = p + take };
      }
  advanced p take n j handle s at h =
      let fd = file_data handle s in
      let up : u32 (fd.public.position + take) ≡ p + take =
        rw at.position (omega (arith, file.small, h)) in
      file_data-set handle _ s
      ∙ ap (λ (q : ℕ). record fd { public = record fd.public { position = q } }) up

  moved_on :
      (p take handle : ℕ) (s : Fat)
      → (w : Stands v clusters size handle p s) → p + take < size
      → p % 512 + take < 512
      → Stands v clusters size handle (p + take) (advance handle take s)
  moved_on p take handle s w h same = record {
    n = w.n;
    j = w.j;
    on = set_file_data-IsOn v handle _ s w.on;
    at = rw (advanced p take w.n w.j handle s w.at (omega arith)) (record {
      opened = w.at.opened;
      plain = w.at.plain;
      bytes = w.at.bytes;
      position = refl;
      cluster = w.at.cluster;
      sector = w.at.sector;
      place = omega (arith, w.at.place);
      inside = w.at.inside;
      within = h;
      buffer = w.at.buffer;
    });
  }

  leaving :
      (p take handle : ℕ) (s : Fat)
      → (w : Stands v clusters size handle p s) → p + take < size
      → p % 512 + take ≡ 512
      → IsLeaving v clusters size (p + take) w.n w.j (file_data handle (advance handle take s))
  leaving p take handle s w h full =
      rw (advanced p take w.n w.j handle s w.at (omega arith)) (record {
        opened = w.at.opened;
        plain = w.at.plain;
        bytes = w.at.bytes;
        position = refl;
        cluster = w.at.cluster;
        sector = w.at.sector;
        place = omega (arith, w.at.place);
        inside = w.at.inside;
        within = h;
      })

  -- A round that does not use up the sector is the last.
  read_loop_last :
      (p count handle rounds : ℕ) (s : Fat)
      → Stands v clusters size handle p s
      → 0 < count
      → p % 512 + count < 512
      → p + count ≤ size
      → Reads handle p count (read_loop v.disk handle (suc rounds) count s)
  unfolding read_loop min
  read_loop_last p count handle rounds s w some_left short h =
      let start : (file_data handle s).public.position % 512 ≡ p % 512 = rw w.at.position refl in
      let none_yet : (count == 0) ≡ false = ground arith in
      let fewer : ltb count (512 - p % 512) ≡ true = ground arith in
      let inside : (512 - p % 512 == count) ≡ false = ground arith in
      let spent : count - count ≡ 0 = omega arith in
      let taken = slice_lem p count w.n w.j (file_data handle s) w.at (omega arith) in
      rw (start, none_yet, fewer, inside, spent)
        (rw (read_loop_none handle rounds (advance handle count s)) (record {
          gives = append-nil _ ∙ taken;
          stands = λ more. moved_on p count handle s w more short;
        }))

  -- A round that uses up the last sector of what is asked for.
  read_loop_end :
      (p count handle rounds : ℕ) (s : Fat)
      → Stands v clusters size handle p s
      → p % 512 + count ≡ 512
      → p + count ≤ size
      → Reads handle p count (read_loop v.disk handle (suc rounds) count s)
  unfolding read_loop min
  read_loop_end p count handle rounds s w full h =
      let start : (file_data handle s).public.position % 512 ≡ p % 512 = rw w.at.position refl in
      let none_yet : (count == 0) ≡ false = ground arith in
      let left : 512 - p % 512 ≡ count = omega (arith, full) in
      let fewer : ltb count count ≡ false = ground arith in
      let all : (count == count) ≡ true = ground arith in
      let spent : count - count ≡ 0 = omega arith in
      let taken = slice_lem p count w.n w.j (file_data handle s) w.at (omega arith) in
      let t = advance handle count s in
      rw (start, none_yet, left, fewer, all, spent)
        (elim (Bool-cases (ltb (p + count) size)) [
          | inl more ↦
              let went =
                next_sector-Went v ok clusters size content file handle (p + count) w.n w.j t
                  (set_file_data-IsOn v handle _ s w.on)
                  (leaving p count handle s w (ground arith) full) in
              rw went.goes (
                rw (read_loop_none handle rounds went.s')
                  (record { gives = append-nil _ ∙ taken; stands = λ _. went.stands }))
          | inr out ↦ elim (Bool-cases (next_sector v.disk handle t).0) [
            | inl more ↦ rw more (
                rw (read_loop_none handle rounds (next_sector v.disk handle t).1) (record {
                  gives = append-nil _ ∙ taken;
                  stands = λ less. absurd (ground (arith, less));
                }))
            | inr stop ↦
                rw stop (record { gives = taken; stands = λ less. absurd (ground (arith, less)) })
          ]
        ])

  -- A round that uses up the sector, with more to come.
  read_loop_on :
      (p count handle rounds : ℕ) (s : Fat)
      → Stands v clusters size handle p s
      → 512 < p % 512 + count
      → p + count ≤ size
      → ((t : Fat)
          → Stands v clusters size handle (p + (512 - p % 512)) t
          → Reads handle
              (p + (512 - p % 512))
              (count - (512 - p % 512))
              (read_loop v.disk handle rounds (count - (512 - p % 512)) t))
      → Reads handle p count (read_loop v.disk handle (suc rounds) count s)
  unfolding read_loop min
  read_loop_on p count handle rounds s w over h rest =
      let start : (file_data handle s).public.position % 512 ≡ p % 512 = rw w.at.position refl in
      let none_yet : (count == 0) ≡ false = ground arith in
      let more : ltb count (512 - p % 512) ≡ false = ground arith in
      let all : (512 - p % 512 == 512 - p % 512) ≡ true = ground arith in
      let take : ℕ = 512 - p % 512 in
      let taken = slice_lem p take w.n w.j (file_data handle s) w.at (omega arith) in
      let t = advance handle take s in
      let left = leaving p take handle s w (omega (arith, h)) (omega arith) in
      let went =
        next_sector-Went v ok clusters size content file handle (p + take) w.n w.j t
          (set_file_data-IsOn v handle _ s w.on) left in
      let whole : take + (count - take) ≡ count = omega (arith, over) in
      let behind : p + take + (count - take) ≡ p + count = omega (arith, over) in
      let tail = rest went.s' went.stands in
      rw (start, none_yet, more, all)
        (rw went.goes (record {
          gives =
              rw (taken, tail.gives)
                (content_at-append content take (count - take) p ∙ ap (content_at content p) whole);
          stands = λ less. rw (← behind) (tail.stands (omega (arith, less)));
        }))

  read_loop-Reads :
      (rounds p count handle : ℕ) (s : Fat)
      → Stands v clusters size handle p s
      → count ≤ rounds
      → p + count ≤ size
      → Reads handle p count (read_loop v.disk handle rounds count s)
  read_loop-Reads rounds p zero handle s w enough h =
      rw (read_loop_none handle rounds s)
        (record { gives = refl; stands = λ less. rw (← zero_behind p) w })
  read_loop-Reads zero p (suc count) handle s w enough h = absurd (omega (arith, enough))
  read_loop-Reads (suc rounds) p (suc count) handle s w enough h =
      elim (Bool-cases (ltb (p % 512 + suc count) 512)) [
        | inl short ↦ read_loop_last p (suc count) handle rounds s w (omega arith) (ground arith) h
        | inr long ↦ elim (Bool-cases (p % 512 + suc count == 512)) [
          | inl full ↦ read_loop_end p (suc count) handle rounds s w (ground arith) h
          | inr over ↦ read_loop_on p (suc count) handle rounds s w (ground arith) h (λ t stands.
              read_loop-Reads rounds _ _ handle t stands (omega (arith, enough)) (omega (arith, h)))
        ]
      ]

  min_fits : (p byte_count : ℕ) → p < size → p + min byte_count (size - p) ≤ size
  unfolding min
  min_fits p byte_count h = ground arith

  -- On a volume whose reads succeed, with the handle at position `p`, before the end, of a file whose
  -- clusters the table links and none of whose table entries reaches over the end of a sector, `read`
  -- gives the bytes of the content from `p` on, as many as are asked for or as the file has left, and,
  -- unless that is the end, leaves the handle at the position behind them.
  pub read-Reads :
      (handle p byte_count : ℕ) (s : Fat)
      → Stands v clusters size handle p s
      → let count = min byte_count (size - p) in
        Reads handle p count (read v.disk handle byte_count s)
  unfolding read
  read-Reads handle p byte_count s w =
      let left : sub32 size p ≡ size - p = omega (arith, w.at.within, file.small) in
      let count : ℕ = min byte_count (size - p) in
      rw (w.at.opened, w.at.plain, w.at.bytes, w.at.position, left)
        (read_loop-Reads count p count handle s w (omega arith) (min_fits p byte_count w.at.within))
