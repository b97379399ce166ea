-- ===== src/Fat/Open/Rounds.antt =====
-- The rounds of `open`, for a path of one component.
use aidos.Common.{
  ℕ, zero, suc, ◌+◌, ◌*◌, ◌^◌, ◌≤◌, ◌<◌, ◌≡◌, ◌∙◌, refl, arith, ap, Bool, true, false, none, some,
  List, [], ◌∷◌, ◌++◌, length, leb, if◌then◌else◌,
}
use aidos.Str.{strchr}
use aidos.Str.Laws.{NoNul, NotIn, strchr-append_null}
use aidos.Fat.{BlockDevice, Fat, root_directory_handle}
use aidos.Fat.Name.{fat_name}
use aidos.Fat.Read.{close}
use aidos.Fat.Entry.{Search, found, not_found, unfinished, find_file, open_entry}
use aidos.Fat.Entry.Find.{entry_at, at_entry, IsListed, find_loop-found}
use aidos.Fat.Open.{
  slash, Opening, returned, name_overflow, endless, next_component, enter, open_loop, open_path,
}

-- A path without a slash is its only component.
pub next_component-last :
    (name : List ℕ) → NoNul name → NotIn slash name → next_component name ≡ (name, true, [])
unfolding next_component
next_component-last name no_nul no_slash =
    let no_match : strchr (name ++ 0 ∷ []) slash ≡ some none =
      strchr-append_null slash name [] (omega arith) (λ e. omega arith) no_nul no_slash in
    rw (no_match, next_component) refl

-- A round of `open`, behind its search.
abbrev pub searched :
    BlockDevice
    → (rounds left handle : ℕ) → (component : List ℕ × Bool × List ℕ) → Search × Fat
    → Opening
searched disk rounds left handle (name, is_last, behind) (search, s1) =
    let closed = close handle s1 in
    let entry : List ℕ = elim search [ found entry ↦ entry | _ ↦ [] ] in
    let (on, next, s2) = enter disk is_last entry closed in
    if leb 256 (length name) then name_overflow else elim search [
      | found _ ↦ if on then open_loop disk rounds left behind next s2 else returned none s2
      | not_found ↦ returned none closed
      | unfinished ↦ endless
    ]

pub open_loop-searched :
    (disk : BlockDevice) (rounds left handle c : ℕ) (path : List ℕ) (s : Fat)
    → let component = next_component (c ∷ path) in
      open_loop disk rounds (suc left) (c ∷ path) (some handle) s
      ≡ searched disk rounds left handle component (find_file disk rounds handle component.0 s)
unfolding open_loop
open_loop-searched disk rounds left handle c path s = refl

searched-last :
    (disk : BlockDevice) (rounds left handle : ℕ) (name entry : List ℕ) (s1 : Fat)
    → length name < 256
    → let r = open_entry disk entry (close handle s1) in
      searched disk rounds left handle (name, true, []) (found entry, s1) ≡ returned r.0 r.1
unfolding open_loop enter
searched-last disk rounds zero handle name entry s1 short =
    let fits : leb 256 (length name) ≡ false = ground arith in rw fits refl
searched-last disk rounds (suc left) handle name entry s1 short =
    let fits : leb 256 (length name) ≡ false = ground arith in rw fits refl

-- The last round of `open`.
open_loop-last :
    (disk : BlockDevice) (rounds left handle : ℕ) (c : ℕ) (path entry : List ℕ) (s s1 : Fat)
    → next_component (c ∷ path) ≡ (c ∷ path, true, [])
    → length (c ∷ path) < 256
    → find_file disk rounds handle (c ∷ path) s ≡ (found entry, s1)
    → let r = open_entry disk entry (close handle s1) in
      open_loop disk rounds (suc left) (c ∷ path) (some handle) s ≡ returned r.0 r.1
open_loop-last disk rounds left handle c path entry s s1 comp short search =
    open_loop-searched disk rounds left handle c path s
    ∙ ap
        (λ (n : List ℕ × Bool × List ℕ).
          searched disk rounds left handle n (find_file disk rounds handle n.0 s))
        comp
    ∙ ap (searched disk rounds left handle (c ∷ path, true, [])) search
    ∙ searched-last disk rounds left handle (c ∷ path) entry s1 short

-- The root directory stands at its first entry, with its first sector in the buffer, and the file's entry
-- is among the first fifteen.
pub record IsInRoot (name : List ℕ) (k : ℕ) (s : Fat) : Type 0 where
  pub listed : IsListed s.root_directory.buffer (fat_name name) k
  pub opened : s.root_directory.opened ≡ true
  pub kind : s.root_directory.public.is_directory ≡ true
  pub position : s.root_directory.public.position ≡ 0
  pub fits : k * 32 + 32 ≤ s.root_directory.public.size
  pub small : s.root_directory.public.size < 2 ^ 32

pub open_path-found :
    (disk : BlockDevice) (rounds k c : ℕ) (path : List ℕ) (s : Fat)
    → IsInRoot (c ∷ path) k s
    → NoNul (c ∷ path)
    → NotIn slash (c ∷ path)
    → length (c ∷ path) < 256
    → k < rounds
    → let entry = entry_at s.root_directory.buffer k in
      let r = open_entry disk entry (close root_directory_handle s) in
      open_path disk rounds (slash ∷ c ∷ path) s ≡ returned r.0 r.1
unfolding open_path find_file close
open_path-found disk rounds k c path s r no_nul no_slash short enough =
    let search =
      find_loop-found disk (fat_name (c ∷ path)) k rounds k 0 s r.listed r.opened r.kind r.position
        r.fits r.small (omega arith) enough in
    open_loop-last disk rounds (suc (length path)) root_directory_handle c path
      (entry_at s.root_directory.buffer k) s (at_entry (k + 1) s)
      (next_component-last (c ∷ path) no_nul no_slash) short search
