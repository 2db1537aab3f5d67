-- ===== src/Transport/UnackedWindow/Slots.antt =====
-- The slots of the queue under the operations of `UnackedWindow`.
use zetta_transport.Common.{
  ℕ, zero, suc, ◌+◌, ◌-◌, ◌≤◌, ◌<◌, ◌≡◌, refl, ap, ◌∙◌, arith, true, List, [], ◌∷◌, ◌++◌,
}
use zetta_transport.Common.{
  Option, none, some, ltb, ◌==◌, if◌then◌else◌, length, get_or, set, replicate,
}
use zetta_transport.Transport.UnackedWindow.{is_some, pop_free}

module _ {A : Type 0} where
  -- The slot at a place; there is none beyond the end.
  abbrev pub slot : List (Option A) → ℕ → Option A
  slot slots i = get_or slots i none

  abbrev pub count : List (Option A) → ℕ
  count [] = 0
  count (none ∷ slots) = count slots
  count (some a ∷ slots) = suc (count slots)

  -- The queue is empty or its first slot is taken.
  abbrev pub Fronted : List (Option A) → Type 0
  Fronted [] = Unit
  Fronted (none ∷ slots) = ⊥
  Fronted (some a ∷ slots) = Unit

  pub slot-replicate :
      (xs : List (Option A)) (n i : ℕ) → slot (xs ++ replicate n none) i ≡ slot xs i
  slot-replicate [] zero i = refl
  slot-replicate [] (suc n) zero = refl
  slot-replicate [] (suc n) (suc i) = slot-replicate [] n i
  slot-replicate (x ∷ xs) n zero = refl
  slot-replicate (x ∷ xs) n (suc i) = slot-replicate xs n i

  pub count-replicate : (xs : List (Option A)) (n : ℕ) → count (xs ++ replicate n none) ≡ count xs
  count-replicate [] zero = refl
  count-replicate [] (suc n) = count-replicate [] n
  count-replicate (none ∷ xs) n = count-replicate xs n
  count-replicate (some a ∷ xs) n = ap suc (count-replicate xs n)

  pub count-set-some :
      (xs : List (Option A)) (i : ℕ) (a : A)
      → i < length xs
      → count (set xs i (some a)) ≡ (if is_some (slot xs i) then count xs else count xs + 1)
  count-set-some [] i a h = absurd (omega arith)
  count-set-some (none ∷ xs) zero a h = omega arith
  count-set-some (some x ∷ xs) zero a h = refl
  count-set-some (none ∷ xs) (suc i) a h = count-set-some xs i a (omega arith)
  count-set-some (some x ∷ xs) (suc i) a h = ground (arith, count-set-some xs i a)

  pub count-set-none :
      (xs : List (Option A)) (i : ℕ)
      → count (set xs i none) ≡ (if is_some (slot xs i) then count xs - 1 else count xs)
  count-set-none [] i = refl
  count-set-none (none ∷ xs) zero = refl
  count-set-none (some x ∷ xs) zero = omega arith
  count-set-none (none ∷ xs) (suc i) = count-set-none xs i
  count-set-none (some x ∷ xs) (suc i) = ground (arith, count-set-none xs i, count-slot xs i)
    where
      count-slot : (xs : List (Option A)) (i : ℕ) → is_some (slot xs i) ≡ true → 0 < count xs
      count-slot [] i h = absurd (ground arith)
      count-slot (none ∷ xs) zero h = absurd (ground arith)
      count-slot (some a ∷ xs) i h = omega arith
      count-slot (none ∷ xs) (suc i) h = count-slot xs i h

  pub pop_free-Fronted : (b : ℕ) (xs : List (Option A)) → Fronted (pop_free b xs).1
  unfolding pop_free
  pop_free-Fronted b [] = tt
  pop_free-Fronted b (none ∷ xs) = pop_free-Fronted (b + 1) xs
  pop_free-Fronted b (some a ∷ xs) = tt

  pub pop_free-base : (b : ℕ) (xs : List (Option A)) → b ≤ (pop_free b xs).0
  unfolding pop_free
  pop_free-base b [] = omega arith
  pop_free-base b (none ∷ xs) = omega (arith, pop_free-base (b + 1) xs)
  pop_free-base b (some a ∷ xs) = omega arith

  pub count-pop_free : (b : ℕ) (xs : List (Option A)) → count (pop_free b xs).1 ≡ count xs
  unfolding pop_free
  count-pop_free b [] = refl
  count-pop_free b (none ∷ xs) = count-pop_free (b + 1) xs
  count-pop_free b (some a ∷ xs) = refl

  -- What a queue that starts at `b` holds for the number `q`.
  abbrev pub held : ℕ → List (Option A) → ℕ → Option A
  held b slots q = if ltb q b then none else slot slots (q - b)

  pub slot-cons :
      (x : Option A) (xs : List (Option A)) (k : ℕ)
      → slot (x ∷ xs) k ≡ (if k == 0 then x else slot xs (k - 1))
  slot-cons x xs zero = refl
  slot-cons x xs (suc k) = ground arith

  pub held-free : (b : ℕ) (xs : List (Option A)) (q : ℕ) → held (b + 1) xs q ≡ held b (none ∷ xs) q
  held-free b xs q = ground (arith, slot-cons none xs (q - b))

  -- The free slots that are popped held no packet.
  pub held-pop_free :
      (b : ℕ) (xs : List (Option A)) (q : ℕ)
      → held (pop_free b xs).0 (pop_free b xs).1 q ≡ held b xs q
  unfolding pop_free
  held-pop_free b [] q = refl
  held-pop_free b (none ∷ xs) q = held-pop_free (b + 1) xs q ∙ held-free b xs q
  held-pop_free b (some a ∷ xs) q = refl

  pub slot-Fronted : (xs : List (Option A)) → Fronted xs → count xs ≡ 0 → xs ≡ []
  slot-Fronted [] f c = refl
  slot-Fronted (none ∷ xs) f c = absurd f
  slot-Fronted (some a ∷ xs) f c = absurd (omega arith)

  pub set-Fronted :
      (xs : List (Option A)) (i : ℕ) (a : A) → Fronted xs → Fronted (set xs i (some a))
  set-Fronted [] i a f = tt
  set-Fronted (none ∷ xs) i a f = absurd f
  set-Fronted (some x ∷ xs) zero a f = tt
  set-Fronted (some x ∷ xs) (suc i) a f = tt

  pub append-Fronted : (xs ys : List (Option A)) → 0 < count xs → Fronted xs → Fronted (xs ++ ys)
  append-Fronted [] ys c f = absurd (omega arith)
  append-Fronted (none ∷ xs) ys c f = absurd f
  append-Fronted (some x ∷ xs) ys c f = tt

  pub front-Fronted :
      (xs : List (Option A)) → Fronted xs → 0 < count xs → is_some (slot xs 0) ≡ true
  front-Fronted [] f c = absurd (omega arith)
  front-Fronted (none ∷ xs) f c = absurd f
  front-Fronted (some a ∷ xs) f c = refl
