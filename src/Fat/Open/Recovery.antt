-- ===== src/Fat/Open/Recovery.antt =====
-- `open` of a path that it refuses, and what it leaves for the next call.
use aidos.Common.{ℕ, ◌<◌, ◌≡◌, refl, none, List, ◌∷◌, ◌++◌, length}
use aidos.Str.Laws.{NoNul, NotIn}
use aidos.Fat.{BlockDevice, Fat, root_directory_handle}
use aidos.Fat.Read.{close}
use aidos.Fat.Read.Volume.{Volume, IsOn}
use aidos.Fat.Open.{slash, Opening, returned, open_path}
use aidos.Fat.Open.Rounds.{IsInRoot}
use aidos.Fat.Open.Laws.{close-IsOn, close-opened_files}
use aidos.Fat.Open.Refused.{IsMissing, Refusal, open_path-refused}

close-IsInRoot :
    (name : List ℕ) (k : ℕ) (s : Fat)
    → IsInRoot name k s
    → IsInRoot name k (close root_directory_handle s)
unfolding close
close-IsInRoot name k s r = record {
  listed = r.listed;
  opened = r.opened;
  kind = r.kind;
  position = refl;
  fits = r.fits;
  small = r.small;
}

close-IsMissing :
    (name : List ℕ) (k : ℕ) (s : Fat)
    → IsMissing name k s
    → IsMissing name k (close root_directory_handle s)
unfolding close
close-IsMissing name k s r = record {
  unlisted = r.unlisted;
  opened = r.opened;
  kind = r.kind;
  position = refl;
  fits = r.fits;
  small = r.small;
}

-- The call gives null, and the next call finds the volume, the handles and the root directory as this one
-- did.
pub record IsRefused (s : Fat) (result : Opening) : Type 0 where
  pub s' : Fat
  pub returns : result ≡ returned none s'
  pub handles : s'.opened_files ≡ s.opened_files
  pub on : (v : Volume) → IsOn v s → IsOn v s'
  pub listed : (name : List ℕ) (k : ℕ) → IsInRoot name k s → IsInRoot name k s'
  pub missing : (name : List ℕ) (k : ℕ) → IsMissing name k s → IsMissing name k s'

-- With the root directory at its start and its first sector in the buffer, `open` of a slash and a name of
-- at most 255 bytes, alone or with a slash and more behind it, gives null if the directory ends among
-- its first fifteen entries and none before has the name, and, with more behind it, if the first entry
-- with the name among these is not that of a directory, if the search has a round for each entry up to
-- there. All handles are as before, and the volume and the root directory are as the next call wants them.
pub open_path-IsRefused :
    (disk : BlockDevice) (rounds n c : ℕ) (name tail : List ℕ) (s : Fat)
    → NoNul (c ∷ name)
    → NotIn slash (c ∷ name)
    → length (c ∷ name) < 256
    → n < rounds
    → Refusal (c ∷ name) tail n s
    → IsRefused s (open_path disk rounds (slash ∷ c ∷ (name ++ tail)) s)
open_path-IsRefused disk rounds n c name tail s no_nul no_slash short enough why = record {
  s' = close root_directory_handle s;
  returns = open_path-refused disk rounds n c name tail s no_nul no_slash short enough why;
  handles = close-opened_files s;
  on = λ v. close-IsOn v s;
  listed = λ name k. close-IsInRoot name k s;
  missing = λ name k. close-IsMissing name k s;
}
