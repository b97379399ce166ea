-- ===== src/Fat/Open.antt =====
-- fat12.cpp: `open`, named `open_path` here. A path is the list of its bytes, without the terminator.
pub mod Rounds
pub mod Laws
pub mod Refused
pub mod Recovery
use aidos.Common.{
  ℕ, zero, suc, ◌+◌, Bool, true, false, not, ◌&&◌, Option, none, some, List, [], ◌∷◌, ◌++◌, length,
  take, drop, leb, ◌==◌, if◌then◌else◌,
}
use aidos.Str.{strchr}
use aidos.Fat.{BlockDevice, Fat, max_path_size, root_directory_handle}
use aidos.Fat.Read.{close}
use aidos.Fat.Entry.{found, not_found, unfinished, find_file, open_entry, is_directory}

abbrev pub slash : ℕ
slash = 47

-- What `open` comes to: a handle or null; `name` overflows; the null that `OpenEntry` gave is read
-- through; or the search of a directory does not end in the rounds given.
pub data Opening : Type 0 where
  returned : Option ℕ → Fat → Opening
  name_overflow : Opening
  null_read : Opening
  endless : Opening

-- The first component, whether it is the last, and the path behind it.
unfoldable pub next_component : (path : List ℕ) → List ℕ × Bool × List ℕ
unfolding strchr
next_component path = elim (strchr (path ++ 0 ∷ []) slash) [
  | some (some delim) ↦ (take delim path, false, drop (delim + 1) path)
  | _ ↦ (path, true, [])
]

-- The end of a round: `FindFile` found `entry` in the directory that is closed again.
unfoldable pub enter :
    BlockDevice → (is_last : Bool) → (entry : List ℕ) → Fat → Bool × Option ℕ × Fat
unfolding open_entry
enter disk is_last entry s =
    let (current, s') = open_entry disk entry s in
    if not is_last && not (is_directory entry) then (false, none, s) else (true, current, s')

-- The loop of `open`. A round takes at least one byte of the path, so its length bounds the rounds;
-- `rounds` bounds each search.
unfoldable pub open_loop :
    BlockDevice → (rounds left : ℕ) → (path : List ℕ) → Option ℕ → Fat → Opening
unfolding next_component find_file enter
open_loop disk rounds left [] current s = returned current s
open_loop disk rounds zero (c ∷ path) current s = endless
open_loop disk rounds (suc left) (c ∷ path) none s =
    if leb max_path_size (length (next_component (c ∷ path)).0) then name_overflow else null_read
open_loop disk rounds (suc left) (c ∷ path) (some handle) s =
    let (name, is_last, behind) = next_component (c ∷ path) in
    let (search, s1) = find_file disk rounds handle name s in
    let closed = close handle s1 in
    let entry : List ℕ = elim search [ found entry ↦ entry | _ ↦ [] ] in
    let (on, next, s2) = enter disk is_last entry closed in
    let rest = open_loop disk rounds left behind next s2 in
    if leb max_path_size (length name) then name_overflow else elim search [
      | found _ ↦ if on then rest else returned none s2
      | not_found ↦ returned none closed
      | unfinished ↦ endless
    ]

abbrev pub without_slash : List ℕ → List ℕ
without_slash [] = []
without_slash (c ∷ path) = if c == slash then path else c ∷ path

unfoldable pub open_path : BlockDevice → (rounds : ℕ) → (path : List ℕ) → Fat → Opening
unfolding open_loop
open_path disk rounds path s =
    open_loop disk rounds (length path) (without_slash path) (some root_directory_handle) s
