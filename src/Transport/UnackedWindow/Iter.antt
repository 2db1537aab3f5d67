-- ===== src/Transport/UnackedWindow/Iter.antt =====
-- What `iter` and `keys` list.
use zetta_transport.Common.{
  ℕ, suc, ◌+◌, ◌-◌, ◌≤◌, ◌<◌, ◌≡◌, refl, sym, ap, ◌∙◌, arith, List, [], ◌∷◌, map, All, All-imp,
}
use zetta_transport.Common.{Option, none, some, ◌==◌, if◌then◌else◌, length}
use zetta_transport.Transport.UnackedWindow.{UnackedWindow, get_mut, iter_from, iter, keys}
use zetta_transport.Transport.UnackedWindow.Slots.{count, held, held-free, slot-cons}
use zetta_transport.Transport.UnackedWindow.Map.{WellFormed}

-- Each number below the next.
abbrev pub Ascending : List ℕ → Type 0
Ascending [] = Unit
Ascending (k ∷ ks) = All (λ j. k < j) ks × Ascending ks

module _ {A : Type 0} where
  -- The packet listed for a number.
  abbrev pub listed : List (ℕ × A) → ℕ → Option A
  listed [] q = none
  listed (e ∷ es) q = if q == e.0 then some e.1 else listed es q

  listed-iter_from :
      (b : ℕ) (slots : List (Option A)) (q : ℕ) → listed (iter_from b slots) q ≡ held b slots q
  unfolding iter_from
  listed-iter_from b [] q = ground arith
  listed-iter_from b (none ∷ slots) q = listed-iter_from (b + 1) slots q ∙ held-free b slots q
  listed-iter_from b (some a ∷ slots) q =
      ground (arith, listed-iter_from (b + 1) slots q, slot-cons (some a) slots (q - b))

  length-iter_from : (b : ℕ) (slots : List (Option A)) → length (iter_from b slots) ≡ count slots
  unfolding iter_from
  length-iter_from b [] = refl
  length-iter_from b (none ∷ slots) = length-iter_from (b + 1) slots
  length-iter_from b (some a ∷ slots) = ap suc (length-iter_from (b + 1) slots)

  keys_from : ℕ → List (Option A) → List ℕ
  unfolding iter_from
  keys_from b slots = map (λ e. e.0) (iter_from b slots)

  keys_from-above : (b : ℕ) (slots : List (Option A)) → All (λ k. b ≤ k) (keys_from b slots)
  unfolding keys_from iter_from
  keys_from-above b [] = tt
  keys_from-above b (none ∷ slots) =
      All-imp (λ k. b + 1 ≤ k) (λ k. b ≤ k) (keys_from (b + 1) slots) (λ k h. omega arith)
        (keys_from-above (b + 1) slots)
  keys_from-above b (some a ∷ slots) = (
    omega arith,
    All-imp (λ k. b + 1 ≤ k) (λ k. b ≤ k) (keys_from (b + 1) slots) (λ k h. omega arith)
        (keys_from-above (b + 1) slots),
  )

  keys_from-Ascending : (b : ℕ) (slots : List (Option A)) → Ascending (keys_from b slots)
  unfolding keys_from iter_from
  keys_from-Ascending b [] = tt
  keys_from-Ascending b (none ∷ slots) = keys_from-Ascending (b + 1) slots
  keys_from-Ascending b (some a ∷ slots) = (
    All-imp (λ k. b + 1 ≤ k) (λ k. b < k) (keys_from (b + 1) slots) (λ k h. omega arith)
        (keys_from-above (b + 1) slots),
    keys_from-Ascending (b + 1) slots,
  )

  -- `iter` lists the tracked packets and no other, `len` of them, in the order of their numbers.
  pub iter-listed :
      (w : UnackedWindow A) (q : ℕ)
      → WellFormed w
      → (listed (iter w) q ≡ get_mut w q) × (length (iter w) ≡ w.len) × Ascending (keys w)
  unfolding iter get_mut keys keys_from
  iter-listed w q v = (
    listed-iter_from w.base_pn w.deque q,
    length-iter_from w.base_pn w.deque ∙ sym v.counted,
    keys_from-Ascending w.base_pn w.deque,
  )
