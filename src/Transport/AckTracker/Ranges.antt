-- ===== src/Transport/AckTracker/Ranges.antt =====
-- Lists of acknowledgement ranges.
use zetta_transport.Common.{ℕ, suc, ◌≤◌, ◌<◌, ◌≡◌, arith, List, [], ◌∷◌, ◌++◌, All, All-append}
use zetta_transport.Common.{Bool, false, ◌&&◌, ◌||◌, leb}

-- Whether a range of the list holds the number.
abbrev pub covers : List (ℕ × ℕ) → ℕ → Bool
covers [] q = false
covers (r ∷ rs) q = (leb r.0 q && leb q r.1) || covers rs q

pub covers-append :
    (rs : List (ℕ × ℕ)) (a b q : ℕ)
    → covers (rs ++ ((a, b) ∷ [])) q ≡ (covers rs q || (leb a q && leb q b))
covers-append [] a b q = ground arith
covers-append (r ∷ rs) a b q = ground (arith, covers-append rs a b q)

-- Each range in order, and below the one before it with a number between them.
abbrev pub Descending : List (ℕ × ℕ) → Type 0
Descending [] = Unit
Descending (r ∷ rs) = (r.0 ≤ r.1) × All (λ s. suc s.1 < r.0) rs × Descending rs

pub Descending-append :
    (rs : List (ℕ × ℕ)) (a b : ℕ)
    → Descending rs
    → All (λ r. suc b < r.0) rs
    → a ≤ b
    → Descending (rs ++ ((a, b) ∷ []))
Descending-append [] a b d h le = (le, tt, tt)
Descending-append (r ∷ rs) a b d h le = (
  d.0,
  All-append (λ s. suc s.1 < r.0) rs ((a, b) ∷ []) d.1 (h.0, tt),
  Descending-append rs a b d.2 h.1 le,
)
