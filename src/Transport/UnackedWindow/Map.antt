-- ===== src/Transport/UnackedWindow/Map.antt =====
-- `UnackedWindow` as a partial map from packet numbers to packets.
use zetta_transport.Common.{
  ℕ, ◌+◌, ◌-◌, ◌≤◌, ◌<◌, ◌≡◌, refl, sym, ap, ◌∙◌, arith, Bool, true, ◌&&◌, ◌||◌, List, [],
}
use zetta_transport.Common.{
  Option, none, some, ltb, leb, ◌==◌, if◌then◌else◌, if_holds, length, get_or, set, replicate,
  get_or-set_self, get_or-set_ne, length-append, length-replicate, get_or_beyond, ◌⊎◌, inl, inr,
}
use zetta_transport.Transport.UnackedWindow.{
  UnackedWindow, new, is_some, is_nil, resize, insert_at, insert, remove, get_mut,
}
use zetta_transport.Transport.UnackedWindow.Slots.{
  slot, count, Fronted, held, slot-replicate, count-replicate, count-set-some, count-set-none,
  pop_free-Fronted, count-pop_free, held-pop_free, slot-Fronted, set-Fronted, append-Fronted,
  front-Fronted,
}

module _ {A : Type 0} where
  -- The counter counts the packets, and the queue starts at one.
  pub record WellFormed (w : UnackedWindow A) : Type 0 where
    pub counted : w.len ≡ count w.deque
    pub fronted : Fronted w.deque

  -- Whether the window takes a number: it is empty, or the number is not below its base.
  abbrev pub takes : UnackedWindow A → ℕ → Bool
  takes w pn = w.len == 0 || leb w.base_pn pn

  abbrev tracked : UnackedWindow A → ℕ → Option A
  tracked w q = held w.base_pn w.deque q

  tracked-remove :
      (w : UnackedWindow A) (pn q : ℕ)
      → tracked (remove w pn).1 q ≡ (if q == pn then none else tracked w q)
  unfolding remove
  tracked-remove w pn q =
      if_holds P (ltb pn w.base_pn) (λ low. ground arith)
        (λ high.
          if_holds P (ltb (pn - w.base_pn) (length w.deque))
            (λ inside.
              held-pop_free w.base_pn (set w.deque (pn - w.base_pn) none) q
              ∙ ground (
                arith,
                get_or-set_self w.deque (pn - w.base_pn) none none,
                get_or-set_ne w.deque (pn - w.base_pn) (q - w.base_pn) none none,
              ))
            (λ outside. ground (arith, get_or_beyond w.deque (pn - w.base_pn) none)))
    where
      P : Option A × UnackedWindow A → Type 0
      P r = tracked r.1 q ≡ (if q == pn then none else tracked w q)

  fst-remove : (w : UnackedWindow A) (pn : ℕ) → (remove w pn).0 ≡ tracked w pn
  unfolding remove
  fst-remove w pn =
      if_holds P (ltb pn w.base_pn) (λ low. ground arith)
        (λ high.
          if_holds P (ltb (pn - w.base_pn) (length w.deque)) (λ inside. ground arith)
            (λ outside. ground (arith, get_or_beyond w.deque (pn - w.base_pn) none)))
    where
      P : Option A × UnackedWindow A → Type 0
      P r = r.0 ≡ tracked w pn

  -- `remove` gives the packet of the number, if it is tracked, and forgets that one alone.
  pub get_mut-remove :
      (w : UnackedWindow A) (pn q : ℕ)
      → ((remove w pn).0 ≡ get_mut w pn)
        × (get_mut (remove w pn).1 q ≡ (if q == pn then none else get_mut w q))
  unfolding get_mut
  get_mut-remove w pn q = (fst-remove w pn, tracked-remove w pn q)

  pub remove-WellFormed : (w : UnackedWindow A) (pn : ℕ) → WellFormed w → WellFormed (remove w pn).1
  unfolding remove
  remove-WellFormed w pn v =
      if_holds (λ (r : Option A × UnackedWindow A). WellFormed r.1) (ltb pn w.base_pn) (λ low. v)
        (λ high.
          if_holds (λ (r : Option A × UnackedWindow A). WellFormed r.1)
            (ltb (pn - w.base_pn) (length w.deque))
            (λ inside. record {
              counted = ground (
                arith,
                v.counted,
                count-pop_free w.base_pn (set w.deque (pn - w.base_pn) none),
                count-set-none w.deque (pn - w.base_pn),
              );
              fronted = pop_free-Fronted w.base_pn (set w.deque (pn - w.base_pn) none);
            })
            (λ outside. v))

  tracked-insert_at :
      (w : UnackedWindow A) (idx q : ℕ) (a : A)
      → tracked (insert_at w idx a) q ≡ (if q == w.base_pn + idx then some a else tracked w q)
  unfolding insert_at
  tracked-insert_at w idx q a =
      if_holds
        (λ (slots : List (Option A)).
          held w.base_pn (set slots idx (some a)) q
          ≡ (if q == w.base_pn + idx then some a else tracked w q))
        (leb (length w.deque) idx)
        (λ long. ground (
          arith,
          get_or-set_self (resize w.deque (idx + 1)) idx (some a) none,
          get_or-set_ne (resize w.deque (idx + 1)) idx (q - w.base_pn) (some a) none,
          length-append w.deque (replicate (idx + 1 - length w.deque) none),
          length-replicate {A = Option A} (idx + 1 - length w.deque) none,
          slot-replicate w.deque (idx + 1 - length w.deque) (q - w.base_pn),
        ))
        (λ short. ground (
          arith,
          get_or-set_self w.deque idx (some a) none,
          get_or-set_ne w.deque idx (q - w.base_pn) (some a) none,
        ))

  -- Writing a packet keeps the invariant where the queue has a packet or the place is the first.
  insert_at-WellFormed :
      (w : UnackedWindow A) (idx : ℕ) (a : A)
      → WellFormed w
      → (0 < count w.deque) ⊎ ((idx ≡ 0) × (w.deque ≡ []))
      → WellFormed (insert_at w idx a)
  unfolding insert_at
  insert_at-WellFormed w idx a v c =
      if_holds
        (λ (slots : List (Option A)). WellFormed (record {
          base_pn = w.base_pn;
          deque = set slots idx (some a);
          len = if is_some (get_or slots idx none) then w.len else w.len + 1;
        }))
        (leb (length w.deque) idx)
        (λ long. record {
          counted = ground (
            arith,
            v.counted,
            count-set-some (resize w.deque (idx + 1)) idx a,
            count-replicate w.deque (idx + 1 - length w.deque),
            length-append w.deque (replicate (idx + 1 - length w.deque) none),
            length-replicate {A = Option A} (idx + 1 - length w.deque) none,
          );
          fronted = elim c [
            | inl some_ ↦
                set-Fronted (resize w.deque (idx + 1)) idx a (
                  append-Fronted w.deque (replicate (idx + 1 - length w.deque) none) some_
                    v.fronted)
            | inr first ↦ rw (first.0, first.1) tt
          ];
        })
        (λ short. record {
          counted = ground (arith, v.counted, count-set-some w.deque idx a);
          fronted = set-Fronted w.deque idx a v.fronted;
        })

  pub empty_deque : (w : UnackedWindow A) → WellFormed w → w.len ≡ 0 → w.deque ≡ []
  empty_deque w v e = slot-Fronted w.deque v.fronted (sym v.counted ∙ e)

  length-empty : (w : UnackedWindow A) → WellFormed w → (w.len ≡ 0) → is_nil w.deque ≡ true
  length-empty w v e = ap is_nil (empty_deque w v e)

  pub insert-WellFormed :
      (w : UnackedWindow A) (pn : ℕ) (a : A) → WellFormed w → WellFormed (insert w pn a)
  unfolding insert
  insert-WellFormed w pn a v =
      if_holds
        (λ (b : UnackedWindow A).
          WellFormed (if ltb pn b.base_pn then b else insert_at b (pn - b.base_pn) a))
        (w.len == 0 && is_nil w.deque)
        (λ empty.
          if_holds (λ (b : UnackedWindow A). WellFormed b) (ltb pn pn) (λ no. absurd (ground arith))
            (λ ok.
              insert_at-WellFormed (record w { base_pn = pn }) (pn - pn) a
                (record { counted = v.counted; fronted = v.fronted })
                (inr (omega arith, empty_deque w v (ground arith)))))
        (λ full.
          if_holds (λ (b : UnackedWindow A). WellFormed b) (ltb pn w.base_pn) (λ low. v)
            (λ high.
              insert_at-WellFormed w (pn - w.base_pn) a v
                (inl (ground (arith, v.counted, length-empty w v)))))

  tracked-insert :
      (w : UnackedWindow A) (pn q : ℕ) (a : A)
      → WellFormed w
      → tracked (insert w pn a) q ≡ (if q == pn && takes w pn then some a else tracked w q)
  unfolding insert
  tracked-insert w pn q a v =
      if_holds
        (λ (b : UnackedWindow A).
          P (if ltb pn b.base_pn then b else insert_at b (pn - b.base_pn) a))
        (w.len == 0 && is_nil w.deque)
        (λ empty.
          if_holds P (ltb pn pn) (λ no. absurd (ground arith))
            (λ ok.
              tracked-insert_at (record w { base_pn = pn }) (pn - pn) q a
              ∙ ground (
                arith,
                ap (λ d. slot d (q - pn)) (empty_deque w v (ground arith)),
                ap (λ d. slot d (q - w.base_pn)) (empty_deque w v (ground arith)),
              )))
        (λ full.
          if_holds P (ltb pn w.base_pn) (λ low. ground (arith, v.counted, length-empty w v))
            (λ high.
              tracked-insert_at w (pn - w.base_pn) q a
              ∙ ground (arith, v.counted, length-empty w v)))
    where
      P : UnackedWindow A → Type 0
      P b = tracked b q ≡ (if q == pn && takes w pn then some a else tracked w q)

  -- `insert` binds the number to the packet where the window takes the number, and changes no other.
  pub get_mut-insert :
      (w : UnackedWindow A) (pn q : ℕ) (a : A)
      → WellFormed w
      → get_mut (insert w pn a) q ≡ (if q == pn && takes w pn then some a else get_mut w q)
  unfolding get_mut
  get_mut-insert w pn q a v = tracked-insert w pn q a v

  pub new-WellFormed : WellFormed new
  unfolding new
  new-WellFormed = record { counted = refl; fronted = tt }

  pub get_mut-new : (q : ℕ) → get_mut (new {A = A}) q ≡ none
  unfolding get_mut new
  get_mut-new q = ground arith

  -- A window with a packet tracks its base.
  pub takes-above :
      (w : UnackedWindow A) (pn : ℕ)
      → WellFormed w
      → ((q : ℕ) → pn ≤ q → get_mut w q ≡ none)
      → takes w pn ≡ true
  unfolding get_mut
  takes-above w pn v none_above = ground (
    arith,
    v.counted,
    front-Fronted w.deque v.fronted,
    λ (h : pn ≤ w.base_pn). ap is_some (none_above w.base_pn h),
    λ (z : w.base_pn - w.base_pn ≡ 0). ap (λ i. is_some (slot w.deque i)) z,
  )
