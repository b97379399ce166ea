-- ===== src/Fat/Read/Kept.antt =====
-- What `read` and `seek` leave of a handle: its first cluster.
use aidos.Common.{
  ℕ, zero, suc, ◌+◌, ◌-◌, ◌*◌, ◌%◌, ◌≡◌, ◌∙◌, inl, inr, refl, ap, Bool, true, false, not, ◌&&◌, ltb,
  leb, ◌==◌, if◌then◌else◌, Bool-cases, Option, none, some,
}
use aidos.Fat.{
  BlockDevice, FileData, Fat, file_data, set_file_data, sector_size, sectors_per_cluster,
}
use aidos.Fat.Cluster.{next_cluster}
use aidos.Fat.Read.{
  min, limited, next_place, next_sector, advance, read_loop, read, seek_loop, load_at, seek,
}
use aidos.Fat.Read.Volume.{file_data-set}
use aidos.Fat.Read.Sector.{next_cluster-IsOnlyCache}

abbrev pub first_of : (handle : ℕ) → Fat → ℕ
first_of handle s = (file_data handle s).first_cluster

set-first :
    (handle : ℕ) (fd : FileData) (s s' : Fat)
    → fd.first_cluster ≡ first_of handle s
    → first_of handle (set_file_data handle fd s') ≡ first_of handle s
set-first handle fd s s' e = ap (λ (f : FileData). f.first_cluster) (file_data-set handle fd s') ∙ e

module _ (disk : BlockDevice) (handle : ℕ) where
  next_sector-first : (s : Fat) → first_of handle (next_sector disk handle s).1 ≡ first_of handle s
  unfolding next_sector
  next_sector-first s =
      let place = next_place disk (file_data handle s) s in
      elim (Bool-cases (leb 0xFFFF_FFF8 place.0)) [
        | inl over ↦ rw over (set-first handle _ s place.2 refl)
        | inr on ↦ rw on (set-first handle _ s place.2 refl)
      ]

  read_loop-first :
      (rounds count : ℕ) (s : Fat)
      → first_of handle (read_loop disk handle rounds count s).1 ≡ first_of handle s
  unfolding read_loop
  read_loop-first zero count s = refl
  read_loop-first (suc rounds) count s =
      let start = (file_data handle s).public.position % sector_size in
      let take = min count (sector_size - start) in
      let s1 = advance handle take s in
      let moved : first_of handle s1 ≡ first_of handle s = set-first handle _ s s refl in
      let s2 = (next_sector disk handle s1).1 in
      let crossed : first_of handle s2 ≡ first_of handle s1 = next_sector-first s1 in
      elim (Bool-cases (count == 0)) [
        | inl done ↦ rw done refl
        | inr more ↦ elim (Bool-cases (sector_size - start == take)) [
          | inr same ↦ rw (more, same) (read_loop-first rounds (count - take) s1 ∙ moved)
          | inl over ↦ elim (Bool-cases (next_sector disk handle s1).0) [
            | inl on ↦
                rw (more, over, on) (read_loop-first rounds (count - take) s2 ∙ crossed ∙ moved)
            | inr stop ↦ rw (more, over, stop) (crossed ∙ moved)
          ]
        ]
      ]

  pub read-first :
      (count : ℕ) (s : Fat) → first_of handle (read disk handle count s).1 ≡ first_of handle s
  unfolding read
  read-first count s = elim (Bool-cases (file_data handle s).opened) [
    | inr shut ↦ rw shut refl
    | inl opened ↦
        let n = limited (file_data handle s).public count in rw opened (read_loop-first n n s)
  ]

  seek_loop-files :
      (rounds cluster offset : ℕ) (s : Fat)
      → first_of handle (seek_loop disk rounds cluster offset s).1 ≡ first_of handle s
  unfolding seek_loop
  seek_loop-files zero cluster offset s = refl
  seek_loop-files (suc rounds) cluster offset s =
      let size = sectors_per_cluster s.boot_sector * sector_size in
      let next = next_cluster disk cluster s in
      let kept : first_of handle next.1 ≡ first_of handle s =
        ap (λ (f : FileData). f.first_cluster)
          ((next_cluster-IsOnlyCache disk cluster s).files handle) in
      elim (Bool-cases (ltb offset size)) [
        | inl here ↦ rw here refl
        | inr on ↦ elim (Bool-cases (leb 0xFFFF_FFF8 next.0)) [
          | inl over ↦ rw (on, over) kept
          | inr more ↦ rw (on, more) (seek_loop-files rounds next.0 (offset - size) next.1 ∙ kept)
        ]
      ]

  load_at-first :
      (cluster offset : ℕ) (s : Fat)
      → first_of handle (load_at disk handle cluster offset s).1 ≡ first_of handle s
  unfolding load_at
  load_at-first cluster offset s = set-first handle _ s s refl

  seek_end-first :
      (found : Option (ℕ × ℕ)) (s : Fat)
      → (let end : Bool × Fat = elim found [
        | none ↦ (false, s)
        | some (cluster, offset) ↦ load_at disk handle cluster offset s
      ] in
          first_of handle end.1 ≡ first_of handle s)
  seek_end-first none s = refl
  seek_end-first (some (cluster, offset)) s = load_at-first cluster offset s

  guarded-first :
      (far opened : Bool) (s : Fat) (end : Bool × Fat)
      → first_of handle end.1 ≡ first_of handle s
      → (let result : Bool × Fat =
            if far then (false, s) else if not opened then (false, s) else end in
          first_of handle result.1 ≡ first_of handle s)
  guarded-first true opened s end e = refl
  guarded-first false false s end e = refl
  guarded-first false true s end e = e

  pub seek-first :
      (position : ℕ) (s : Fat) → first_of handle (seek disk handle position s).1 ≡ first_of handle s
  unfolding seek
  seek-first position s =
      let fd = file_data handle s in
      let s1 =
        set_file_data handle (record fd { public = record fd.public { position = position } }) s in
      let walked = seek_loop disk (position + 1) fd.first_cluster position s1 in
      let moved : first_of handle s1 ≡ first_of handle s = set-first handle _ s s refl in
      let kept = seek_loop-files (position + 1) fd.first_cluster position s1 in
      guarded-first (not fd.public.is_directory && ltb fd.public.size position) fd.opened s _
        (seek_end-first walked.0 walked.1 ∙ kept ∙ moved)
