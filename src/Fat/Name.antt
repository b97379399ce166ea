-- ===== src/Fat/Name.antt =====
-- fat12.cpp: the 8.3 name that `FindFile` builds from a path component. A component is the list of its
-- bytes, without the terminator.
pub mod Laws
use aidos.Common.{
  ℕ, zero, suc, ◌+◌, Option, none, some, List, [], ◌∷◌, ◌++◌, ltb, ◌==◌, if◌then◌else◌, replicate,
  drop, not, ◌&&◌,
}
use aidos.Str.{strchr, toupper}

abbrev pub dot : ℕ
dot = 46

abbrev pub space : ℕ
space = 32

-- `for (i; i < 8 && name[i] && name + i < ext; i++) fatName[i] = toupper(name[i])`, with the cells that
-- it leaves as `memset` filled them. `left` cells are left, and `name` is the rest of the component.
unfoldable pub fill_base : (left i ext : ℕ) → (name : List ℕ) → List ℕ
fill_base zero i ext name = []
fill_base (suc left) i ext [] = replicate (suc left) space
fill_base (suc left) i ext (c ∷ name) =
    let rest = fill_base left (i + 1) ext name in
    if not (c == 0) && ltb i ext then toupper c ∷ rest else replicate (suc left) space

-- `for (i = 0; i < 3 && ext[i + 1]; i++) fatName[i + 8] = toupper(ext[i + 1])`, where `name` is what
-- stands behind the dot.
unfoldable pub fill_extension : (left : ℕ) → (name : List ℕ) → List ℕ
fill_extension zero name = []
fill_extension (suc left) [] = replicate (suc left) space
fill_extension (suc left) (c ∷ name) =
    let rest = fill_extension left name in
    if not (c == 0) then toupper c ∷ rest else replicate (suc left) space

-- The offset `ext - name`: 11 stands for a component without a dot.
unfoldable pub extension_offset : (name : List ℕ) → ℕ
unfolding strchr
extension_offset name = elim (strchr (name ++ 0 ∷ []) dot) [ some (some offset) ↦ offset | _ ↦ 11 ]

-- `fatName`, its eleven bytes.
unfoldable pub fat_name : (name : List ℕ) → List ℕ
unfolding fill_base fill_extension extension_offset
fat_name name =
    let ext = extension_offset name in
    fill_base 8 0 ext name
    ++ (if ext == 11 then replicate 3 space else fill_extension 3 (drop (suc ext) name))
