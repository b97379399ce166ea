-- ===== src/Str/Laws.antt =====
-- What the string helpers compute.
use aidos.Common.{ℕ, ◌<◌, ◌≡◌, ◌≢◌, ◌⊎◌, refl, arith, none, some, List, [], ◌∷◌, ◌++◌, length}
use aidos.Str.{strchr, strlen, toupper}

-- No byte of the list is the terminator.
abbrev pub NoNul : List ℕ → Type 0
NoNul [] = Unit {0}
NoNul (x ∷ xs) = (x ≢ 0) × NoNul xs

abbrev pub NotIn : ℕ → List ℕ → Type 0
NotIn c [] = Unit {0}
NotIn c (x ∷ xs) = (x ≢ c) × NotIn c xs

-- The bytes before the first 0 are counted.
pub strlen-append : (s rest : List ℕ) → NoNul s → strlen (s ++ 0 ∷ rest) ≡ some (length s)
unfolding strlen
strlen-append [] rest h = refl
strlen-append (x ∷ s) rest h = ground (arith, strlen-append s rest h.1)

pub strchr-append_found :
    (c : ℕ) (s rest : List ℕ)
    → c < 256
    → c ≢ 0
    → NoNul s
    → NotIn c s
    → strchr (s ++ c ∷ rest) c ≡ some (some (length s))
unfolding strchr
strchr-append_found c [] rest lt ne h k = ground arith
strchr-append_found c (x ∷ s) rest lt ne h k =
    ground (arith, strchr-append_found c s rest lt ne h.1 k.1)

pub strchr-append_null :
    (c : ℕ) (s rest : List ℕ)
    → c < 256
    → c ≢ 0
    → NoNul s
    → NotIn c s
    → strchr (s ++ 0 ∷ rest) c ≡ some none
unfolding strchr
strchr-append_null c [] rest lt ne h k = ground arith
strchr-append_null c (x ∷ s) rest lt ne h k =
    ground (arith, strchr-append_null c s rest lt ne h.1 k.1)

-- A byte is never lower case afterwards, and folding twice is folding once.
pub toupper_lem :
    (c : ℕ) → ((toupper c < b'a') ⊎ (b'z' < toupper c)) × (toupper (toupper c) ≡ toupper c)
unfolding toupper
toupper_lem c = ground arith
