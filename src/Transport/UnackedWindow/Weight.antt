-- ===== src/Transport/UnackedWindow/Weight.antt =====
-- A sum over the packets of an `UnackedWindow` (src/transport/state/unacked_window.rs).
use zetta_transport.Common.{
  ℕ, zero, suc, ◌+◌, ◌-◌, ◌≡◌, refl, arith, List, [], ◌∷◌, Option, none, some, ltb, if_holds, set,
  get_or, length, length-set, get_or_beyond, ◌≤◌, ◌<◌, ◌⊎◌,
}
use zetta_transport.Transport.UnackedWindow.{UnackedWindow, pop_free, remove, get_mut}

module _ {A : Type 0} (size : A → ℕ) where
  abbrev pub bytes_of : Option A → ℕ
  bytes_of none = 0
  bytes_of (some a) = size a

  -- The sum of the sizes of the packets in the queue.
  abbrev pub weight : List (Option A) → ℕ
  weight [] = 0
  weight (o ∷ os) = bytes_of o + weight os

  weight-set-none :
      (os : List (Option A)) (i : ℕ)
      → weight (set os i none) + bytes_of (get_or os i none) ≡ weight os
  weight-set-none [] i = refl
  weight-set-none (o ∷ os) zero = omega arith
  weight-set-none (o ∷ os) (suc i) = omega (arith, weight-set-none os i)

  weight-pop_free : (b : ℕ) (os : List (Option A)) → weight (pop_free b os).1 ≡ weight os
  unfolding pop_free
  weight-pop_free b [] = refl
  weight-pop_free b (none ∷ os) = omega (arith, weight-pop_free (b + 1) os)
  weight-pop_free b (some a ∷ os) = refl

  pub weight-remove :
      (w : UnackedWindow A) (pn : ℕ)
      → weight ((remove w pn).1).deque + bytes_of (remove w pn).0 ≡ weight w.deque
  unfolding remove
  weight-remove w pn =
      if_holds P (ltb pn w.base_pn) (λ low. omega arith)
        (λ high.
          if_holds P (ltb (pn - w.base_pn) (length w.deque))
            (λ inside. omega (
              arith,
              weight-pop_free w.base_pn (set w.deque (pn - w.base_pn) none),
              weight-set-none w.deque (pn - w.base_pn),
            ))
            (λ outside. omega arith))
    where
      P : Option A × UnackedWindow A → Type 0
      P r = weight (r.1).deque + bytes_of r.0 ≡ weight w.deque

module _ {A : Type 0} where
  end-pop_free :
      (b : ℕ) (os : List (Option A)) → (pop_free b os).0 + length (pop_free b os).1 ≡ b + length os
  unfolding pop_free
  end-pop_free b [] = refl
  end-pop_free b (none ∷ os) = omega (arith, end-pop_free (b + 1) os)
  end-pop_free b (some a ∷ os) = refl

  -- The number behind the queue is the same after a removal.
  pub end-remove :
      (w : UnackedWindow A) (pn : ℕ)
      → ((remove w pn).1).base_pn + length ((remove w pn).1).deque ≡ w.base_pn + length w.deque
  unfolding remove
  end-remove w pn =
      if_holds P (ltb pn w.base_pn) (λ low. refl)
        (λ high.
          if_holds P (ltb (pn - w.base_pn) (length w.deque))
            (λ inside. omega (
              arith,
              end-pop_free w.base_pn (set w.deque (pn - w.base_pn) none),
              length-set w.deque (pn - w.base_pn) none,
            ))
            (λ outside. refl))
    where
      P : Option A × UnackedWindow A → Type 0
      P r = (r.1).base_pn + length (r.1).deque ≡ w.base_pn + length w.deque

  -- A number that the window tracks lies between its base and its end.
  pub get_mut-inside :
      (w : UnackedWindow A) (q : ℕ)
      → (get_mut w q ≡ none) ⊎ ((w.base_pn ≤ q) × (q < w.base_pn + length w.deque))
  unfolding get_mut
  get_mut-inside w q = ground (arith, get_or_beyond w.deque (q - w.base_pn) none)
