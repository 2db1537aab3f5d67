-- ===== src/Transport/UnackedWindow/Append.antt =====
-- `UnackedWindow::insert` (src/transport/state/unacked_window.rs) of a number behind the window, as the
-- connection uses it: the numbers it sends under are fresh.
use mathlib.Core.Path.{subst}
use zetta_transport.Common.{
  ℕ, zero, suc, ◌+◌, ◌-◌, ◌≡◌, refl, ap, ◌∙◌, arith, List, [], ◌∷◌, ◌++◌, Option, none, some, ltb,
  leb, ◌==◌, ◌&&◌, if_holds, set, get_or, length, length-set, length-append, length-replicate,
  get_or_beyond, ◌≤◌, ◌<◌, replicate, if◌then◌else◌,
}
use zetta_transport.Transport.UnackedWindow.{UnackedWindow, resize, insert_at, insert, is_nil}
use zetta_transport.Transport.UnackedWindow.Slots.{slot-replicate}
use zetta_transport.Transport.UnackedWindow.Map.{WellFormed, empty_deque}
use zetta_transport.Transport.UnackedWindow.Weight.{bytes_of, weight}

module _ {A : Type 0} (size : A → ℕ) where
  weight-replicate :
      (os : List (Option A)) (n : ℕ) → weight size (os ++ replicate n none) ≡ weight size os
  weight-replicate [] zero = refl
  weight-replicate [] (suc n) = omega (arith, weight-replicate [] n)
  weight-replicate (o ∷ os) n = omega (arith, weight-replicate os n)

  weight-set-some :
      (os : List (Option A)) (i : ℕ) (a : A)
      → i < length os
      → weight size (set os i (some a)) + bytes_of size (get_or os i none) ≡ weight size os + size a
  weight-set-some [] i a h = absurd (omega arith)
  weight-set-some (o ∷ os) zero a h = omega arith
  weight-set-some (o ∷ os) (suc i) a h = omega (arith, weight-set-some os i a (omega arith))

  -- The packet is added behind the queue `slots`, whose base is `b`, under the number `pn`.
  abbrev pub Appended : (slots : List (Option A)) (pn : ℕ) → A → UnackedWindow A → Type 0
  Appended slots pn a w =
      (weight size w.deque ≡ weight size slots + size a) × (w.base_pn + length w.deque ≡ pn + 1)

  insert_at-Appended :
      (w : UnackedWindow A) (idx : ℕ) (a : A)
      → length w.deque ≤ idx
      → Appended w.deque (w.base_pn + idx) a (insert_at w idx a)
  unfolding insert_at
  insert_at-Appended w idx a h =
      if_holds
        (λ (slots : List (Option A)).
          (weight size (set slots idx (some a)) ≡ weight size w.deque + size a)
          × (w.base_pn + length (set slots idx (some a)) ≡ w.base_pn + idx + 1))
        (leb (length w.deque) idx) (λ e. appended) (λ no. absurd (ground arith))
    where
      room : ℕ
      room = idx + 1 - length w.deque

      long : length (resize w.deque (idx + 1)) ≡ idx + 1
      long = omega (
        arith,
        length-append w.deque (replicate room none),
        length-replicate {A = Option A} room none,
      )

      empty : get_or (resize w.deque (idx + 1)) idx none ≡ none
      empty = slot-replicate w.deque room idx ∙ get_or_beyond w.deque idx none h

      appended :
          (weight size (set (resize w.deque (idx + 1)) idx (some a)) ≡ weight size w.deque + size a)
          × (w.base_pn + length (set (resize w.deque (idx + 1)) idx (some a)) ≡ w.base_pn + idx + 1)
      appended = (
        omega (
          arith,
          weight-set-some (resize w.deque (idx + 1)) idx a (omega (arith, long)),
          ap (bytes_of size) empty,
          weight-replicate w.deque room,
        ),
        omega (arith, long, length-set (resize w.deque (idx + 1)) idx (some a)),
      )

  back : (b n : ℕ) → b ≤ n → b + (n - b) ≡ n
  back b n h = omega arith

  pub insert-Appended :
      (w : UnackedWindow A) (pn : ℕ) (a : A)
      → WellFormed w
      → w.base_pn + length w.deque ≤ pn
      → Appended w.deque pn a (insert w pn a)
  unfolding insert
  insert-Appended w pn a v h =
      if_holds
        (λ (b : UnackedWindow A).
          Appended w.deque pn a (if ltb pn b.base_pn then b else insert_at b (pn - b.base_pn) a))
        (w.len == 0 && is_nil w.deque)
        (λ e.
          if_holds (Appended w.deque pn a) (ltb pn pn) (λ no. absurd (ground arith))
            (λ ok.
              subst (λ n. Appended w.deque n a (insert_at (record w { base_pn = pn }) (pn - pn) a))
                (back pn pn (omega arith))
                (insert_at-Appended (record w { base_pn = pn }) (pn - pn) a
                  (omega (arith, ap length (empty_deque w v (ground arith)))))))
        (λ e.
          if_holds (Appended w.deque pn a) (ltb pn w.base_pn) (λ low. absurd (ground arith))
            (λ high.
              subst (λ n. Appended w.deque n a (insert_at w (pn - w.base_pn) a))
                (back w.base_pn pn (omega arith))
                (insert_at-Appended w (pn - w.base_pn) a (omega arith))))
