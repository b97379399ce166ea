-- ===== src/Fat/Name/Laws.antt =====
-- What an ordinary file name becomes.
use mathlib.Core.List.{append_assoc}
use native.Mathlib.Numerals.{unary_clauses}
use aidos.Common.{
  ℕ, zero, suc, ◌+◌, ◌-◌, ◌≤◌, ◌≡◌, refl, arith, false, List, [], ◌∷◌, ◌++◌, map, length, replicate,
  drop, ◌==◌,
}
use aidos.Str.{toupper}
use aidos.Str.Laws.{NoNul, NotIn, strchr-append_found, strchr-append_null}
use aidos.Fat.Name.{dot, space, fill_base, fill_extension, extension_offset, fat_name}

-- In upper case, filled up with spaces.
abbrev pub padded : ℕ → List ℕ → List ℕ
padded width s = map toupper s ++ replicate (width - length s) space

fill_base-padded :
    (left i ext : ℕ) (base rest : List ℕ)
    → NoNul base
    → length base ≤ left
    → i + length base ≡ ext
    → fill_base left i ext (base ++ rest) ≡ padded left base
unfolding fill_base
fill_base-padded zero i ext [] rest h le e = refl
fill_base-padded zero i ext (c ∷ base) rest h le e = absurd (omega arith)
fill_base-padded (suc left) i ext [] [] h le e = simp unary_clauses
fill_base-padded (suc left) i ext [] (x ∷ rest) h le e = ground arith
fill_base-padded (suc left) i ext (c ∷ base) rest h le e =
    ground (arith, fill_base-padded left (i + 1) ext base rest h.1)

fill_extension-padded :
    (left : ℕ) (s : List ℕ) → NoNul s → length s ≤ left → fill_extension left s ≡ padded left s
unfolding fill_extension
fill_extension-padded zero [] h le = refl
fill_extension-padded zero (c ∷ s) h le = absurd (omega arith)
fill_extension-padded (suc left) [] h le = simp unary_clauses
fill_extension-padded (suc left) (c ∷ s) h le = ground (arith, fill_extension-padded left s h.1)

drop-length : (xs ys : List ℕ) (y : ℕ) → drop (suc (length xs)) (xs ++ y ∷ ys) ≡ ys
drop-length [] ys y = refl
drop-length (x ∷ xs) ys y = drop-length xs ys y

fill_base_plain :
    (left i ext : ℕ) (base : List ℕ)
    → NoNul base
    → length base ≤ left
    → i + length base ≤ ext
    → fill_base left i ext base ≡ padded left base
unfolding fill_base
fill_base_plain zero i ext [] h le e = refl
fill_base_plain zero i ext (c ∷ base) h le e = absurd (omega arith)
fill_base_plain (suc left) i ext [] h le e = simp unary_clauses
fill_base_plain (suc left) i ext (c ∷ base) h le e =
    ground (arith, fill_base_plain left (i + 1) ext base h.1)

extension_offset-dotted :
    (base extension : List ℕ)
    → NoNul base
    → NotIn dot base
    → extension_offset (base ++ dot ∷ extension) ≡ length base
unfolding extension_offset
extension_offset-dotted base extension h n =
    rw
      (
        extension_offset,
        append_assoc base (dot ∷ extension) (0 ∷ []),
        strchr-append_found dot base (extension ++ 0 ∷ []) (omega arith) (omega arith) h n,
      )
      refl

extension_offset_plain : (base : List ℕ) → NoNul base → NotIn dot base → extension_offset base ≡ 11
unfolding extension_offset
extension_offset_plain base h n =
    rw (extension_offset, strchr-append_null dot base [] (omega arith) (omega arith) h n) refl

-- A name of at most eight characters without a dot, a dot and at most three more becomes the two parts in upper case
-- in their eleven places.
pub fat_name-dotted :
    (base extension : List ℕ)
    → NoNul base
    → NotIn dot base
    → length base ≤ 8
    → NoNul extension
    → length extension ≤ 3
    → fat_name (base ++ dot ∷ extension) ≡ padded 8 base ++ padded 3 extension
unfolding fat_name
fat_name-dotted base extension hb nb lb he le =
    let short : (length base == 11) ≡ false = ground arith in
    rw (extension_offset-dotted base extension hb nb) (
      rw
        (
          short,
          drop-length base extension dot,
          fill_extension-padded 3 extension he le,
          fill_base-padded 8 0 (length base) base (dot ∷ extension) hb lb (omega arith),
        )
        refl)

-- A name of at most eight characters without a dot gets an extension of three spaces.
fat_name_plain :
    (base : List ℕ)
    → NoNul base
    → NotIn dot base
    → length base ≤ 8
    → fat_name base ≡ padded 8 base ++ replicate 3 space
unfolding fat_name
fat_name_plain base hb nb lb =
    rw (extension_offset_plain base hb nb)
      (rw (fill_base_plain 8 0 11 base hb lb (omega arith)) refl)
