-- ===== src/Str.antt =====
-- src/bootloader/stage2/string.hpp: `strchr`, `strlen` and `toupper`. A `const char*` is the list of
-- the bytes from there to the end of the object it points into; running off that list is `none`.
pub mod Laws
mod Tests
use mathlib.Core.Option
use aidos.Common.{
  ℕ, ◌-◌, suc, Bool, ◌&&◌, Option, none, some, List, [], ◌∷◌, leb, ◌==◌, if◌then◌else◌, u8,
}

-- `some (some n)` is the pointer `str + n`, and `some none` is `nullptr`.
unfoldable pub strchr : List ℕ → ℕ → Option (Option ℕ)
strchr [] c = none
strchr (x ∷ str) c =
    if x == 0
    then some (if c == 0 then some 0 else none)
    else if x == u8 c
    then some (some 0)
    else Option.map (Option.map suc) (strchr str c)

unfoldable pub strlen : List ℕ → Option ℕ
strlen [] = none
strlen (x ∷ str) = if x == 0 then some 0 else Option.map suc (strlen str)

unfoldable pub toupper : ℕ → ℕ
toupper c = if leb b'a' c && leb c b'z' then c - 32 else c
