-- ===== src/Fat/Entry/Find.antt =====
-- The search of `FindFile` in the first sector of the root directory.
use mathlib.Core.List.{append-nil}
use aidos.Common.{
  ℕ, zero, suc, ◌+◌, ◌-◌, ◌*◌, ◌%◌, ◌^◌, ◌≤◌, ◌<◌, ◌≡◌, ◌≢◌, ◌∙◌, refl, arith, ap, Bool, true,
  false, not, List, [], ltb, ◌==◌, if◌then◌else◌, u32, sub32,
}
use aidos.Mem.{Memory}
use aidos.Fat.{BlockDevice, File, Fat, file_data, root_directory_handle}
use aidos.Fat.Read.{min, slice, advance, read_loop, limited, read, read_entry}
use aidos.Fat.Entry.{found, same_name, find_loop}

-- The bytes of entry `i` of a directory.
unfoldable pub entry_at : Memory → (i : ℕ) → List ℕ
entry_at dir i = slice dir (i * 32) 32

-- The root directory, read up to its entry `i`, with its first sector in the buffer.
pub record IsRootAt (i : ℕ) (s : Fat) : Type 0 where
  pub opened : s.root_directory.opened ≡ true
  pub kind : s.root_directory.public.is_directory ≡ true
  pub position : s.root_directory.public.position ≡ i * 32
  pub inside : i < 15
  pub more : i * 32 + 32 ≤ s.root_directory.public.size
  pub small : s.root_directory.public.size < 2 ^ 32

read_loop_none :
    (disk : BlockDevice) (handle rounds : ℕ) (s : Fat) → read_loop disk handle rounds 0 s ≡ ([], s)
unfolding read_loop
read_loop_none disk handle zero s = refl
read_loop_none disk handle (suc rounds) s = refl

-- A read that does not use up the sector in the buffer.
read_loop_within :
    (disk : BlockDevice) (handle count p : ℕ) (s : Fat)
    → (file_data handle s).public.position % 512 ≡ p
    → 0 < count
    → p + count < 512
    → read_loop disk handle count count s
      ≡ (slice (file_data handle s).buffer p count, advance handle count s)
unfolding read_loop min
read_loop_within disk handle zero p s start some_left short = absurd (omega arith)
read_loop_within disk handle (suc rounds) p s start some_left short =
    let count = suc rounds in
    let none_yet : (count == 0) ≡ false = ground arith in
    let fewer : ltb count (512 - p) ≡ true = ground arith in
    let inside : (512 - p == count) ≡ false = ground arith in
    let spent : count - count ≡ 0 = omega arith in
    rw (start, none_yet, fewer, inside, spent)
      (rw (read_loop_none disk handle rounds (advance handle count s))
        (ap (λ (l : List ℕ). (l, advance handle count s)) (append-nil _)))

limited_directory :
    (file : File) (count : ℕ)
    → file.is_directory ≡ true
    → 0 < count
    → file.position + count ≤ file.size
    → file.size < 2 ^ 32
    → limited file count ≡ count
unfolding min
limited_directory file count kind some_left fits small =
    let left : sub32 file.size file.position ≡ file.size - file.position = omega arith in
    rw (kind, left) (ground arith)

if_open : {A : Type 0} (opened : Bool) (x y : A) → opened ≡ true → (if not opened then x else y) ≡ y
if_open opened x y e = rw e refl

read_within :
    (disk : BlockDevice) (handle count : ℕ) (s : Fat)
    → let file = (file_data handle s).public in
      (file_data handle s).opened ≡ true
      → file.is_directory ≡ true
      → 0 < count
      → file.position + count ≤ file.size
      → file.size < 2 ^ 32
      → file.position % 512 + count < 512
      → read disk handle count s
        ≡ (slice (file_data handle s).buffer (file.position % 512) count, advance handle count s)
unfolding read
read_within disk handle count s opened kind some_left fits small short =
    let whole = limited_directory (file_data handle s).public count kind some_left fits small in
    rw whole (if_open _ _ _ opened ∙ read_loop_within disk handle count _ s refl some_left short)

-- An entry but the last of the sector is read from the buffer.
pub read_entry-root :
    (disk : BlockDevice) (i : ℕ) (s : Fat)
    → IsRootAt i s
    → let dir = s.root_directory.buffer in
      read_entry disk root_directory_handle s
      ≡ (not (dir (i * 32) == 0), entry_at dir i, advance root_directory_handle 32 s)
unfolding read_entry entry_at
read_entry-root disk i s r =
    let dir = s.root_directory.buffer in
    let at : s.root_directory.public.position % 512 ≡ i * 32 =
      omega (arith, r.position, r.inside) in
    let got : read disk root_directory_handle 32 s
        ≡ (entry_at dir i, advance root_directory_handle 32 s) =
      rw at at (
        read_within disk root_directory_handle 32 s r.opened r.kind (omega arith)
          (omega (arith, r.position, r.more)) r.small (omega (arith, at, r.inside))) in
    rw got refl

-- The root directory read up to its entry `i`.
abbrev pub at_entry : (i : ℕ) → Fat → Fat
at_entry i s =
    let fd = s.root_directory in
    record s { root_directory = record fd { public = record fd.public { position = i * 32 } } }

pub advance-root :
    (i : ℕ) (s : Fat) → IsRootAt i s → advance root_directory_handle 32 s ≡ at_entry (i + 1) s
advance-root i s r =
    let fd = s.root_directory in
    let e : u32 (fd.public.position + 32) ≡ (i + 1) * 32 = omega (arith, r.position, r.inside) in
    ap
      (λ (p : ℕ). record s {
        root_directory = record fd { public = record fd.public { position = p } };
      })
      e

-- Entry `k` is the first with the name, and no entry up to it is the end of the directory.
pub record IsListed (dir : Memory) (name : List ℕ) (k : ℕ) : Type 0 where
  pub inside : k < 15
  pub present : (j : ℕ) → j ≤ k → dir (j * 32) ≢ 0
  pub others : (j : ℕ) → j < k → same_name 11 0 name (entry_at dir j) ≡ false
  pub named : same_name 11 0 name (entry_at dir k) ≡ true

-- A round of the search.
pub find_loop-step :
    (disk : BlockDevice) (rounds i : ℕ) (name : List ℕ) (s : Fat)
    → IsRootAt i s
    → let dir = s.root_directory.buffer in
      dir (i * 32) ≢ 0
      → find_loop disk (suc rounds) root_directory_handle name s ≡ (
          if same_name 11 0 name (entry_at dir i)
          then (found (entry_at dir i), at_entry (i + 1) s)
          else find_loop disk rounds root_directory_handle name (at_entry (i + 1) s))
unfolding find_loop
find_loop-step disk rounds i name s r present =
    let dir = s.root_directory.buffer in
    let there : (dir (i * 32) == 0) ≡ false = ground arith in
    rw (read_entry-root disk i s r, there, advance-root i s r) refl

pub root_at :
    (i : ℕ) (s : Fat)
    → s.root_directory.opened ≡ true
    → s.root_directory.public.is_directory ≡ true
    → s.root_directory.public.position ≡ i * 32
    → i < 15
    → i * 32 + 32 ≤ s.root_directory.public.size
    → s.root_directory.public.size < 2 ^ 32
    → IsRootAt i s
root_at i s opened kind position inside more small = record {
  opened = opened;
  kind = kind;
  position = position;
  inside = inside;
  more = more;
  small = small;
}

-- The search comes to the entry, if it has a round for each entry up to it.
pub find_loop-found :
    (disk : BlockDevice) (name : List ℕ) (k rounds n i : ℕ) (s : Fat)
    → IsListed s.root_directory.buffer name k
    → s.root_directory.opened ≡ true
    → s.root_directory.public.is_directory ≡ true
    → s.root_directory.public.position ≡ i * 32
    → k * 32 + 32 ≤ s.root_directory.public.size
    → s.root_directory.public.size < 2 ^ 32
    → i + n ≡ k
    → n < rounds
    → find_loop disk rounds root_directory_handle name s
      ≡ (found (entry_at s.root_directory.buffer k), at_entry (k + 1) s)
find_loop-found disk name k zero n i s listed opened kind position fits small e enough =
    absurd (omega arith)
find_loop-found disk name k (suc rounds) zero i s listed opened kind position fits small e enough =
    let same : i ≡ k = omega arith in
    let r = root_at i s opened kind position (omega (arith, listed.inside)) (omega arith) small in
    find_loop-step disk rounds i name s r (listed.present i (omega arith))
    ∙ rw (same, listed.named) refl
find_loop-found disk name k (suc rounds) (suc n) i s listed opened kind position fits small e
      enough =
    let r = root_at i s opened kind position (omega (arith, listed.inside)) (omega arith) small in
    find_loop-step disk rounds i name s r (listed.present i (omega arith))
    ∙ rw (listed.others i (omega arith)) (
        find_loop-found disk name k rounds n (i + 1) (at_entry (i + 1) s) listed opened kind refl
          fits small (omega arith) (omega arith))
