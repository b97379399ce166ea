-- ===== src/Fat/Open/Refused.antt =====
-- `open` of a path that it refuses.
use mathlib.Core.List.{append-nil, append_assoc}
use aidos.Common.{
  ℕ, suc, ◌+◌, ◌*◌, ◌^◌, ◌≤◌, ◌<◌, ◌≡◌, ◌∙◌, refl, arith, ap, Bool, true, false, none, some, List,
  [], ◌∷◌, ◌++◌, length, take, drop, leb,
}
use aidos.Str.{strchr}
use aidos.Str.Laws.{NoNul, NotIn, strchr-append_found}
use aidos.Fat.{BlockDevice, Fat, root_directory_handle}
use aidos.Fat.Name.{fat_name}
use aidos.Fat.Read.{close}
use aidos.Fat.Entry.{Search, found, not_found, find_file, is_directory}
use aidos.Fat.Entry.Find.{entry_at, at_entry, find_loop-found}
use aidos.Fat.Entry.Missed.{IsUnlisted, find_loop-missed}
use aidos.Fat.Open.{slash, returned, next_component, enter, open_path}
use aidos.Fat.Open.Rounds.{IsInRoot, searched, open_loop-searched, next_component-last}

take-append : (xs ys : List ℕ) → take (length xs) (xs ++ ys) ≡ xs
take-append [] ys = refl
take-append (x ∷ xs) ys = ap (λ (l : List ℕ). x ∷ l) (take-append xs ys)

drop-append : (xs ys : List ℕ) (y : ℕ) → drop (length xs + 1) (xs ++ y ∷ ys) ≡ ys
drop-append [] ys y = refl
drop-append (x ∷ xs) ys y =
    let e : suc (length xs) + 1 ≡ suc (length xs + 1) = omega arith in rw e (drop-append xs ys y)

-- The component before the first slash.
next_component-first :
    (name behind : List ℕ)
    → NoNul name
    → NotIn slash name
    → next_component (name ++ slash ∷ behind) ≡ (name, false, behind)
unfolding next_component
next_component-first name behind no_nul no_slash =
    let match : strchr ((name ++ slash ∷ behind) ++ 0 ∷ []) slash ≡ some (some (length name)) =
      ap (λ (l : List ℕ). strchr l slash) (append_assoc name (slash ∷ behind) (0 ∷ []))
      ∙ strchr-append_found slash name (behind ++ 0 ∷ []) (omega arith) (λ e. omega arith) no_nul
          no_slash in
    rw (match, next_component)
      (rw (take-append name (slash ∷ behind), drop-append name behind slash) refl)

searched-missed :
    (disk : BlockDevice) (rounds left handle : ℕ) (name behind : List ℕ) (last : Bool) (s1 : Fat)
    → length name < 256
    → searched disk rounds left handle (name, last, behind) (not_found, s1)
      ≡ returned none (close handle s1)
unfolding enter
searched-missed disk rounds left handle name behind last s1 short =
    let fits : leb 256 (length name) ≡ false = ground arith in rw fits refl

searched-file :
    (disk : BlockDevice) (rounds left handle : ℕ) (name behind entry : List ℕ) (s1 : Fat)
    → length name < 256
    → is_directory entry ≡ false
    → searched disk rounds left handle (name, false, behind) (found entry, s1)
      ≡ returned none (close handle s1)
unfolding enter
searched-file disk rounds left handle name behind entry s1 short plain =
    let fits : leb 256 (length name) ≡ false = ground arith in rw (fits, plain) refl

-- The root directory stands at its first entry, with its first sector in the buffer, and ends among the
-- first fifteen entries without the name.
pub record IsMissing (name : List ℕ) (n : ℕ) (s : Fat) : Type 0 where
  pub unlisted : IsUnlisted s.root_directory.buffer (fat_name name) n
  pub opened : s.root_directory.opened ≡ true
  pub kind : s.root_directory.public.is_directory ≡ true
  pub position : s.root_directory.public.position ≡ 0
  pub fits : n * 32 + 32 ≤ s.root_directory.public.size
  pub small : s.root_directory.public.size < 2 ^ 32

-- A round of `open`, with its component and the result of its search.
open_path-searched :
    (disk : BlockDevice) (rounds c : ℕ) (path : List ℕ) (component : List ℕ × Bool × List ℕ)
    (search : Search × Fat) (s : Fat)
    → next_component (c ∷ path) ≡ component
    → find_file disk rounds root_directory_handle component.0 s ≡ search
    → open_path disk rounds (slash ∷ c ∷ path) s
      ≡ searched disk rounds (suc (length path)) root_directory_handle component search
unfolding open_path
open_path-searched disk rounds c path component search s comp looked =
    open_loop-searched disk rounds (suc (length path)) root_directory_handle c path s
    ∙ ap
        (λ (n : List ℕ × Bool × List ℕ).
          searched disk rounds (suc (length path)) root_directory_handle n
            (find_file disk rounds root_directory_handle n.0 s))
        comp
    ∙ ap (searched disk rounds (suc (length path)) root_directory_handle component) looked

find_file-missed :
    (disk : BlockDevice) (rounds n : ℕ) (name : List ℕ) (s : Fat)
    → IsMissing name n s
    → n < rounds
    → find_file disk rounds root_directory_handle name s ≡ (not_found, at_entry (n + 1) s)
unfolding find_file
find_file-missed disk rounds n name s m enough =
    find_loop-missed disk (fat_name name) n rounds n 0 s m.unlisted m.opened m.kind m.position
      m.fits m.small (omega arith) enough

find_file-found :
    (disk : BlockDevice) (rounds n : ℕ) (name : List ℕ) (s : Fat)
    → IsInRoot name n s
    → n < rounds
    → find_file disk rounds root_directory_handle name s
      ≡ (found (entry_at s.root_directory.buffer n), at_entry (n + 1) s)
unfolding find_file
find_file-found disk rounds n name s r enough =
    find_loop-found disk (fat_name name) n rounds n 0 s r.listed r.opened r.kind r.position r.fits
      r.small (omega arith) enough

-- Why the path of `name` and `tail` names no file: the root directory has no entry of the name, which
-- is that of the file or of a directory on the way; or it is on the way and that of a file.
pub data Refusal (name tail : List ℕ) (n : ℕ) (s : Fat) : Type 0 where
  no_file : tail ≡ [] → IsMissing name n s → Refusal name tail n s
  no_directory :
      (behind : List ℕ) → tail ≡ slash ∷ behind → IsMissing name n s → Refusal name tail n s
  not_a_directory :
      (behind : List ℕ)
      → tail ≡ slash ∷ behind
      → IsInRoot name n s
      → is_directory (entry_at s.root_directory.buffer n) ≡ false
      → Refusal name tail n s

pub open_path-refused :
    (disk : BlockDevice) (rounds n c : ℕ) (name tail : List ℕ) (s : Fat)
    → NoNul (c ∷ name)
    → NotIn slash (c ∷ name)
    → length (c ∷ name) < 256
    → n < rounds
    → Refusal (c ∷ name) tail n s
    → open_path disk rounds (slash ∷ c ∷ (name ++ tail)) s
      ≡ returned none (close root_directory_handle s)
unfolding close
open_path-refused disk rounds n c name tail s no_nul no_slash short enough (no_file e missing) =
    rw (e, append-nil name)
      (open_path-searched disk rounds c name (c ∷ name, true, []) (not_found, at_entry (n + 1) s) s
          (next_component-last (c ∷ name) no_nul no_slash)
          (find_file-missed disk rounds n (c ∷ name) s missing enough)
        ∙ searched-missed disk rounds (suc (length name)) root_directory_handle (c ∷ name) [] true
            (at_entry (n + 1) s) short)
open_path-refused disk rounds n c name tail s no_nul no_slash short enough
      (no_directory behind e missing) =
    rw e (
      open_path-searched disk rounds c (name ++ slash ∷ behind) (c ∷ name, false, behind)
        (not_found, at_entry (n + 1) s) s (next_component-first (c ∷ name) behind no_nul no_slash)
        (find_file-missed disk rounds n (c ∷ name) s missing enough)
      ∙ searched-missed disk rounds (suc (length (name ++ slash ∷ behind))) root_directory_handle
          (c ∷ name) behind false (at_entry (n + 1) s) short)
open_path-refused disk rounds n c name tail s no_nul no_slash short enough
      (not_a_directory behind e listed plain) =
    rw e (
      open_path-searched disk rounds c (name ++ slash ∷ behind) (c ∷ name, false, behind)
        (found (entry_at s.root_directory.buffer n), at_entry (n + 1) s) s
        (next_component-first (c ∷ name) behind no_nul no_slash)
        (find_file-found disk rounds n (c ∷ name) s listed enough)
      ∙ searched-file disk rounds (suc (length (name ++ slash ∷ behind))) root_directory_handle
          (c ∷ name) behind (entry_at s.root_directory.buffer n) (at_entry (n + 1) s) short plain)
