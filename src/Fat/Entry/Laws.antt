-- ===== src/Fat/Entry/Laws.antt =====
-- What `OpenEntry` does on each branch.
use aidos.Common.{
  ℕ, zero, suc, ◌+◌, ◌*◌, ◌≤◌, ◌<◌, ◌≡◌, ◌≢◌, ◌⊎◌, inl, inr, refl, arith, ap, Bool, true, false,
  ◌||◌, Option, none, some, List, ltb, leb, ◌==◌, Bool-cases, ==_iff,
}
use aidos.Fat.{BlockDevice, FileData, Fat, set_file_data, max_file_handles, root_directory_handle}
use aidos.Fat.Cluster.{cluster_to_lba}
use aidos.Fat.Entry.{
  first_cluster_low, first_cluster_high, size, is_directory, first_free, set_up, open_at,
  open_entry,
}

-- The least handle of those from `i` to `i + left` that is not opened, if there is one.
pub data FirstFree (files : ℕ → FileData) (left i : ℕ) : Option ℕ → Type 0 where
  all_opened :
      ((j : ℕ) → i ≤ j → j < i + left → (files j).opened ≡ true) → FirstFree files left i none
  free :
      (h : ℕ)
      → i ≤ h
      → h < i + left
      → (files h).opened ≡ false
      → ((j : ℕ) → i ≤ j → j < h → (files j).opened ≡ true)
      → FirstFree files left i (some h)

still_opened :
    (files : ℕ → FileData) (i h : ℕ)
    → (files i).opened ≡ true
    → ((j : ℕ) → i + 1 ≤ j → j < h → (files j).opened ≡ true)
    → (j : ℕ) → i ≤ j
    → j < h
    → (files j).opened ≡ true
still_opened files i h taken above j p q = elim (Bool-cases (j == i)) [
  | inl same ↦ rw ((==_iff _ _).0 same) taken
  | inr other ↦ above j (ground arith) q
]

past :
    (files : ℕ → FileData) (left i : ℕ) (found : Option ℕ)
    → (files i).opened ≡ true
    → FirstFree files left (i + 1) found
    → FirstFree files (suc left) i found
past files left i none taken (all_opened above) =
    all_opened (still_opened files i (i + suc left) taken (λ j p q. above j p (omega (arith, q))))
past files left i (some _) taken (free h p q idle below) =
    free h (omega (arith, p)) (omega (arith, q)) idle (still_opened files i h taken below)

first_free-FirstFree :
    (files : ℕ → FileData) (left i : ℕ) → FirstFree files left i (first_free left i files)
first_free-FirstFree files zero i = all_opened (λ j p q. absurd (omega (arith, p, q)))
first_free-FirstFree files (suc left) i = elim (Bool-cases (files i).opened) [
  | inl taken ↦ rw taken (past files left i _ taken (first_free-FirstFree files left (i + 1)))
  | inr idle ↦
      rw idle (free i (omega arith) (omega arith) idle (λ j p q. absurd (omega (arith, p, q))))
]

-- The file data has the handle, the entry's size and kind, the position 0 and the first cluster of the
-- entry as its place.
pub record IsSetUp (h : ℕ) (entry : List ℕ) (fd : FileData) : Type 0 where
  pub handle : fd.public.handle ≡ h
  pub kind : fd.public.is_directory ≡ is_directory entry
  pub bytes : fd.public.size ≡ size entry
  pub start : fd.public.position ≡ 0
  pub first : fd.first_cluster ≡ first_cluster_low entry + first_cluster_high entry * 0x1_0000
  pub current : fd.current_cluster ≡ fd.first_cluster
  pub sector : fd.current_sector_in_cluster ≡ 0

-- The file can be read: its cluster is one of a file, and the buffer holds its first sector.
pub record IsLoaded (disk : BlockDevice) (s : Fat) (before fd : FileData) : Type 0 where
  pub opened : fd.opened ≡ true
  pub low : 2 ≤ fd.first_cluster
  pub high : fd.first_cluster < 0xFF8
  pub loaded :
      disk.read_sectors (cluster_to_lba fd.first_cluster s) 1 before.buffer ≡ (true, fd.buffer)

-- The file cannot be read, and its handle stays free.
pub record IsRefused (disk : BlockDevice) (s : Fat) (before fd : FileData) : Type 0 where
  pub opened : fd.opened ≡ before.opened
  pub reason :
      (fd.first_cluster < 2)
      ⊎ ((0xFF8 ≤ fd.first_cluster)
          ⊎ ((disk.read_sectors (cluster_to_lba fd.first_cluster s) 1 before.buffer).0 ≡ false))

-- The file data of `h` is set up, and nothing else is changed.
pub record IsOpening (disk : BlockDevice) (entry : List ℕ) (s : Fat) (h : ℕ)
    (result : Option ℕ × Fat) : Type 0 where
  pub set : IsSetUp h entry (result.1.opened_files h)
  pub others : (j : ℕ) → j ≢ h → result.1.opened_files j ≡ s.opened_files j
  pub root : result.1.root_directory ≡ s.root_directory
  pub boot : result.1.boot_sector ≡ s.boot_sector
  pub layout : result.1.data_section_lba ≡ s.data_section_lba
  pub cache :
      (result.1.fat_cache ≡ s.fat_cache) × (result.1.fat_cache_position ≡ s.fat_cache_position)
  pub outcome :
      ((result.0 ≡ some h) × IsLoaded disk s (s.opened_files h) (result.1.opened_files h))
      ⊎ ((result.0 ≡ none) × IsRefused disk s (s.opened_files h) (result.1.opened_files h))

-- What each outcome of `OpenEntry` leaves in the file data of its handle.
stored-IsOpening :
    (disk : BlockDevice) (entry : List ℕ) (s : Fat) (h : ℕ) (fd : FileData) (result : Option ℕ)
    → h < 10
    → IsSetUp h entry fd
    → ((result ≡ some h) × IsLoaded disk s (s.opened_files h) fd)
      ⊎ ((result ≡ none) × IsRefused disk s (s.opened_files h) fd)
    → IsOpening disk entry s h (result, set_file_data h fd s)
stored-IsOpening disk entry s h fd result lt set outcome =
    let away : (h == root_directory_handle) ≡ false = ground arith in
    let here : (h == h) ≡ true = ground arith in
    rw away (record {
      set = rw here set;
      others = λ j ne. ground arith;
      root = refl;
      boot = refl;
      layout = refl;
      cache = (refl, refl);
      outcome = rw here outcome;
    })

no_cluster : (c : ℕ) {A : Type 0} → (ltb c 2 || leb 0xFF8 c) ≡ true → (c < 2) ⊎ ((0xFF8 ≤ c) ⊎ A)
no_cluster c bad = elim (Bool-cases (ltb c 2)) [
  | inl low ↦ inl (ground arith)
  | inr high ↦ inr (inl (ground arith))
]

open_at-IsOpening :
    (disk : BlockDevice) (entry : List ℕ) (s : Fat) (h : ℕ)
    → h < 10
    → IsOpening disk entry s h (open_at disk h entry s)
unfolding open_at
open_at-IsOpening disk entry s h lt =
    let fd = set_up h entry (s.opened_files h) in
    let c = fd.first_cluster in
    let out = disk.read_sectors (cluster_to_lba c s) 1 fd.buffer in
    let set : IsSetUp h entry fd = record {
      handle = refl;
      kind = refl;
      bytes = refl;
      start = refl;
      first = refl;
      current = refl;
      sector = refl;
    } in
    elim (Bool-cases (ltb c 2 || leb 0xFF8 c)) [
      | inl bad ↦ rw bad (
          stored-IsOpening disk entry s h fd none lt set
            (inr (refl, record { opened = refl; reason = no_cluster c bad })))
      | inr good ↦ elim (Bool-cases out.0) [
        | inl done ↦
            rw (good, done)
              (stored-IsOpening disk entry s h (record fd { buffer = out.1; opened = true })
                (some h) lt
                record {
                  handle = refl;
                  kind = refl;
                  bytes = refl;
                  start = refl;
                  first = refl;
                  current = refl;
                  sector = refl;
                }
                (inl (
                  refl,
                  record {
                    opened = refl;
                    low = ground arith;
                    high = ground arith;
                    loaded = ap (λ (b : Bool). (b, out.1)) done;
                  },
                )))
        | inr failed ↦
            rw (good, failed)
              (stored-IsOpening disk entry s h (record fd { buffer = out.1 }) none lt
                record {
                  handle = refl;
                  kind = refl;
                  bytes = refl;
                  start = refl;
                  first = refl;
                  current = refl;
                  sector = refl;
                }
                (inr (refl, record { opened = refl; reason = inr (inr failed) })))
      ]
    ]

-- What `OpenEntry` does: without a handle that is free it gives null and changes nothing, and
-- otherwise it works on the least one.
pub data Opens (disk : BlockDevice) (entry : List ℕ) (s : Fat) (result : Option ℕ × Fat)
    : Type 0 where
  out_of_handles :
      ((j : ℕ) → j < 10 → (s.opened_files j).opened ≡ true)
      → result ≡ (none, s)
      → Opens disk entry s result
  with_handle :
      (h : ℕ)
      → h < 10
      → (s.opened_files h).opened ≡ false
      → ((j : ℕ) → j < h → (s.opened_files j).opened ≡ true)
      → IsOpening disk entry s h result
      → Opens disk entry s result

found-Opens :
    (disk : BlockDevice) (entry : List ℕ) (s : Fat) (found : Option ℕ)
    → FirstFree s.opened_files 10 0 found
    → Opens disk entry s
        (elim found [ none ↦ (none, s) | some handle ↦ open_at disk handle entry s ])
found-Opens disk entry s none (all_opened taken) =
    out_of_handles (λ j q. taken j (omega arith) (omega (arith, q))) refl
found-Opens disk entry s (some _) (free h p q idle below) =
    with_handle h (omega (arith, q)) idle (λ j k. below j (omega arith) k)
      (open_at-IsOpening disk entry s h (omega (arith, q)))

-- `OpenEntry` gives null and changes nothing if all ten handles are in use. Otherwise it sets up the
-- file data of the least free handle from the entry and changes no other file and no cache. It opens
-- the file, its first sector read, exactly when the entry's cluster is one of a file and the read
-- succeeds; else it gives null, and the handle stays free.
pub open_entry-Opens :
    (disk : BlockDevice) (entry : List ℕ) (s : Fat) → Opens disk entry s (open_entry disk entry s)
unfolding open_entry
open_entry-Opens disk entry s =
    found-Opens disk entry s (first_free max_file_handles 0 s.opened_files)
      (first_free-FirstFree s.opened_files 10 0)
