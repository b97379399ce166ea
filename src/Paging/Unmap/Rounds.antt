-- ===== src/Paging/Unmap/Rounds.antt =====
-- The list of the addresses flushed, one more at its end.
use aidos.Common.{ℕ, zero, suc, ◌≡◌, refl, ap, List, ◌∷◌, ◌++◌, replicate}

pub replicate-append_suc :
    (k a : ℕ) (xs : List ℕ) → replicate k a ++ a ∷ xs ≡ replicate (suc k) a ++ xs
replicate-append_suc zero a xs = refl
replicate-append_suc (suc k) a xs = ap (λ (l : List ℕ). a ∷ l) (replicate-append_suc k a xs)
