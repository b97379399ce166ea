-- ===== src/Fat/Entry/Missed.antt =====
-- The search of `FindFile` for a name that the first sector of the root directory does not have.
use aidos.Common.{
  ℕ, zero, suc, ◌+◌, ◌*◌, ◌^◌, ◌≤◌, ◌<◌, ◌≡◌, ◌≢◌, ◌∙◌, refl, arith, true, false, List,
}
use aidos.Mem.{Memory}
use aidos.Fat.{BlockDevice, Fat, root_directory_handle}
use aidos.Fat.Entry.{not_found, same_name, find_loop}
use aidos.Fat.Entry.Find.{
  entry_at, at_entry, IsRootAt, root_at, read_entry-root, advance-root, find_loop-step,
}

-- The directory ends at entry `n`, and none before has the name.
pub record IsUnlisted (dir : Memory) (name : List ℕ) (n : ℕ) : Type 0 where
  pub inside : n < 15
  pub present : (j : ℕ) → j < n → dir (j * 32) ≢ 0
  pub others : (j : ℕ) → j < n → same_name 11 0 name (entry_at dir j) ≡ false
  pub last : dir (n * 32) ≡ 0

-- The round at the end of the directory.
find_loop-last :
    (disk : BlockDevice) (rounds i : ℕ) (name : List ℕ) (s : Fat)
    → IsRootAt i s
    → s.root_directory.buffer (i * 32) ≡ 0
    → find_loop disk (suc rounds) root_directory_handle name s ≡ (not_found, at_entry (i + 1) s)
unfolding find_loop
find_loop-last disk rounds i name s r last =
    rw (read_entry-root disk i s r, advance-root i s r) (rw last refl)

-- The search comes to the end, if it has a round for each entry up to it.
pub find_loop-missed :
    (disk : BlockDevice) (name : List ℕ) (k rounds n i : ℕ) (s : Fat)
    → IsUnlisted s.root_directory.buffer name k
    → s.root_directory.opened ≡ true
    → s.root_directory.public.is_directory ≡ true
    → s.root_directory.public.position ≡ i * 32
    → k * 32 + 32 ≤ s.root_directory.public.size
    → s.root_directory.public.size < 2 ^ 32
    → i + n ≡ k
    → n < rounds
    → find_loop disk rounds root_directory_handle name s ≡ (not_found, at_entry (k + 1) s)
find_loop-missed disk name k zero n i s un opened kind position fits small e enough =
    absurd (omega arith)
find_loop-missed disk name k (suc rounds) zero i s un opened kind position fits small e enough =
    let same : k ≡ i = omega arith in
    let r = root_at i s opened kind position (omega (arith, un.inside)) (omega arith) small in
    rw same (find_loop-last disk rounds i name s r (rw same at un.last))
find_loop-missed disk name k (suc rounds) (suc n) i s un opened kind position fits small e enough =
    let r = root_at i s opened kind position (omega (arith, un.inside)) (omega arith) small in
    find_loop-step disk rounds i name s r (un.present i (omega arith))
    ∙ rw (un.others i (omega arith)) (
        find_loop-missed disk name k rounds n (i + 1) (at_entry (i + 1) s) un opened kind refl fits
          small (omega arith) (omega arith))
