-- ===== src/Str/Tests.antt =====
-- The string helpers at concrete strings.
use aidos.Common.{ℕ, ◌≡◌, refl, some, none, List, [], ◌∷◌}
use aidos.Str.{strchr, strlen}

-- "kernel.elf" and the terminator.
abbrev kernel_elf : List ℕ
kernel_elf = 107 ∷ 101 ∷ 114 ∷ 110 ∷ 101 ∷ 108 ∷ 46 ∷ 101 ∷ 108 ∷ 102 ∷ 0 ∷ []

scanned :
    (strlen kernel_elf ≡ some 10)
    × (strchr kernel_elf 46 ≡ some (some 6))
    × (strchr kernel_elf 47 ≡ some none)
    × (strchr kernel_elf 0 ≡ some (some 10))
unfolding strlen strchr
scanned = (refl, refl, refl, refl)
