-- ===== src/Transport/UnackedWindow/Order.antt =====
-- The window refines a map for a sender that numbers its packets in order.
use zetta_transport.Common.{ℕ, suc, ◌≤◌, ◌≡◌, arith, List, [], ◌∷◌}
use zetta_transport.Common.{Option, none, some, ◌==◌, if◌then◌else◌}
use zetta_transport.Transport.UnackedWindow.{UnackedWindow, new, insert, remove, get_mut}
use zetta_transport.Transport.UnackedWindow.Map.{
  WellFormed, new-WellFormed, insert-WellFormed, remove-WellFormed, get_mut-insert, get_mut-remove,
  get_mut-new, takes-above,
}

-- A packet is sent, or a number is acknowledged or given up.
pub data Step (A : Type 0) : Type 0 where
  sent : ℕ → A → Step A
  settled : ℕ → Step A

module _ {A : Type 0} where
  abbrev pub run : UnackedWindow A → List (Step A) → UnackedWindow A
  run w [] = w
  run w (sent pn a ∷ steps) = run (insert w pn a) steps
  run w (settled pn ∷ steps) = run (remove w pn).1 steps

  -- The same steps on a partial map.
  abbrev pub run_map : (ℕ → Option A) → List (Step A) → ℕ → Option A
  run_map m [] q = m q
  run_map m (sent pn a ∷ steps) q = run_map (λ k. if k == pn then some a else m k) steps q
  run_map m (settled pn ∷ steps) q = run_map (λ k. if k == pn then none else m k) steps q

  -- Numbers are sent from `n` on, each above the one before.
  abbrev pub InOrder : ℕ → List (Step A) → Type 0
  InOrder n [] = Unit
  InOrder n (sent pn a ∷ steps) = (n ≤ pn) × InOrder (suc pn) steps
  InOrder n (settled pn ∷ steps) = InOrder n steps

  abbrev Below : UnackedWindow A → ℕ → Type 0
  Below w n = (q : ℕ) → n ≤ q → get_mut w q ≡ none

  insert-Below :
      (w : UnackedWindow A) (n pn : ℕ) (a : A)
      → WellFormed w
      → Below w n
      → n ≤ pn
      → Below (insert w pn a) (suc pn)
  insert-Below w n pn a v b le q h = ground (arith, get_mut-insert w pn q a v, b q (omega arith))

  remove-Below : (w : UnackedWindow A) (n pn : ℕ) → Below w n → Below (remove w pn).1 n
  remove-Below w n pn b q h = ground (arith, (get_mut-remove w pn q).1, b q h)

  get_mut-run_from :
      (steps : List (Step A)) (n q : ℕ) (w : UnackedWindow A) (m : ℕ → Option A)
      → WellFormed w
      → Below w n
      → InOrder n steps
      → ((k : ℕ) → get_mut w k ≡ m k)
      → get_mut (run w steps) q ≡ run_map m steps q
  get_mut-run_from [] n q w m v b o e = e q
  get_mut-run_from (sent pn a ∷ steps) n q w m v b o e =
      get_mut-run_from steps (suc pn) q (insert w pn a) (λ k. if k == pn then some a else m k)
        (insert-WellFormed w pn a v) (insert-Below w n pn a v b o.0) o.1
        (λ k.
          ground
            (arith, get_mut-insert w pn k a v, e k, takes-above w pn v (λ j h. b j (omega arith))))
  get_mut-run_from (settled pn ∷ steps) n q w m v b o e =
      get_mut-run_from steps n q (remove w pn).1 (λ k. if k == pn then none else m k)
        (remove-WellFormed w pn v) (remove-Below w n pn b) o
        (λ k. ground (arith, (get_mut-remove w pn k).1, e k))

  -- For any steps whose sent numbers increase, the window holds what a partial map would: no packet
  -- sent is refused or lost before it is settled.
  pub get_mut-run :
      (steps : List (Step A)) (q : ℕ)
      → InOrder 0 steps
      → get_mut (run new steps) q ≡ run_map (λ k. none) steps q
  get_mut-run steps q o =
      get_mut-run_from steps 0 q new (λ k. none) new-WellFormed (λ k h. get_mut-new k) o
        (λ k. get_mut-new k)
