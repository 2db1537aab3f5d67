-- ===== src/Protocol/PacketNumber/RoundTrip.antt =====
-- What a sender cuts off, a receiver restores.
use zetta_transport.Common.{
  ℕ, zero, suc, ◌+◌, ◌-◌, ◌*◌, ◌/◌, ◌%◌, ◌^◌, ◌≤◌, ◌<◌, ◌≡◌, ◌⊎◌, inl, inr, Bool-cases, refl, sym,
  ap, ◌∙◌, arith,
}
use zetta_transport.Common.{bit_and, bit_or, Option, some, ltb, ◌==◌, if◌then◌else◌}
use zetta_transport.Common.Bits.{two_pow-suc}
use zetta_transport.Common.Bits.Fields.{bit_and-mask, bit_and-high, bit_or-field, bit_or_comm}
use native.Mathlib.Nat.{le_trans, pow-le-pow_right, mod-eq_of_lt, mul_comm}
use zetta_transport.Protocol.PacketNumber.{
  significant_bits, pn_len_for, mask_pn, truncate_pn, expand_pn,
}

lt-significant_bits : (f x : ℕ) → x < 2 ^ f → x < 2 ^ significant_bits f x
unfolding significant_bits
lt-significant_bits zero x h = h
lt-significant_bits (suc f) x h =
    ground (
      arith,
      two_pow-suc f,
      lt-significant_bits f (x / 2),
      two_pow-suc (significant_bits f (x / 2)),
    )

significant_bits-le : (f x k : ℕ) → x < 2 ^ k → significant_bits f x ≤ k
unfolding significant_bits
significant_bits-le zero x k h = omega arith
significant_bits-le (suc f) x zero h = ground arith
significant_bits-le (suc f) x (suc k) h =
    ground (arith, two_pow-suc k, significant_bits-le f (x / 2) k)

bytes_of_bits : ℕ → ℕ
bytes_of_bits s = let n = (s + 7) / 8 in if n == 0 then 1 else if ltb 4 n then 4 else n

bytes_of_bits_room :
    (s : ℕ) → s ≤ 32 → (1 ≤ bytes_of_bits s) × (bytes_of_bits s ≤ 4) × (s ≤ bytes_of_bits s * 8)
unfolding bytes_of_bits
bytes_of_bits_room s h = ground arith

pn_len_for-bytes : (u : ℕ) → pn_len_for u ≡ bytes_of_bits (significant_bits 64 (u * 2 % 2 ^ 64))
unfolding pn_len_for bytes_of_bits
pn_len_for-bytes u = ground (arith, significant_bits-le 64 (u * 2 % 2 ^ 64) 64 (omega arith))

-- The length chosen has room for twice the distance from the largest acknowledged number.
pn_len_for_room :
    (unacked : ℕ)
    → unacked < 2 ^ 31
    → (1 ≤ pn_len_for unacked)
      × (pn_len_for unacked ≤ 4)
      × (unacked * 2 < 2 ^ (pn_len_for unacked * 8))
pn_len_for_room u h =
    let s = significant_bits 64 (u * 2) in
    let small : s ≤ 32 = significant_bits-le 64 (u * 2) 32 (omega arith) in
    let same : u * 2 % 2 ^ 64 ≡ u * 2 = omega arith in
    let (lo, hi, room) = bytes_of_bits_room s small in
    rw (pn_len_for-bytes u, same)
      (
        lo,
        hi,
        le_trans (lt-significant_bits 64 (u * 2) (omega arith))
            (pow-le-pow_right {n = 2} (omega arith) room),
      )

-- Clearing the low bits of the expected number and putting the received ones in.
candidate_lem :
    (j k e t c : ℕ)
    → c ≡ (2 ^ j - 1) * 2 ^ k
    → e / 2 ^ k < 2 ^ j
    → t < 2 ^ k
    → bit_or (bit_and e c) t ≡ e / 2 ^ k * 2 ^ k + t
candidate_lem j k e t c hc he ht =
    rw (hc, bit_and-high k e (2 ^ j - 1), bit_and-mask j (e / 2 ^ k), mod-eq_of_lt he)
      (bit_or_comm (e / 2 ^ k * 2 ^ k) t ∙ bit_or-field k t (e / 2 ^ k) ht)

-- A number in the half window around the expected one is restored from its low bits.
abbrev Restores : ℕ → Type 0
Restores n =
    (pn largest : ℕ)
    → largest + 1 < 2 ^ 64
    → pn < 2 ^ 64
    → pn < largest + 1 + 2 ^ (8 * n - 1)
    → largest + 1 < pn + 2 ^ (8 * n - 1)
    → expand_pn (pn % 2 ^ (8 * n)) n largest ≡ pn

expand_one : Restores 1
unfolding expand_pn
expand_one pn largest hl hp above below = ground (
  arith,
  candidate_lem 56 8 (largest + 1) (pn % 2 ^ 8) (2 ^ 64 - 2 ^ 8) refl (omega arith) (omega arith),
)

expand_two : Restores 2
unfolding expand_pn
expand_two pn largest hl hp above below = ground (
  arith,
  candidate_lem 48 16 (largest + 1) (pn % 2 ^ 16) (2 ^ 64 - 2 ^ 16) refl (omega arith)
      (omega arith),
)

expand_three : Restores 3
unfolding expand_pn
expand_three pn largest hl hp above below = ground (
  arith,
  candidate_lem 40 24 (largest + 1) (pn % 2 ^ 24) (2 ^ 64 - 2 ^ 24) refl (omega arith)
      (omega arith),
)

expand_four : Restores 4
unfolding expand_pn
expand_four pn largest hl hp above below = ground (
  arith,
  candidate_lem 32 32 (largest + 1) (pn % 2 ^ 32) (2 ^ 64 - 2 ^ 32) refl (omega arith)
      (omega arith),
)

mask_pn-eq : (pn n : ℕ) → 1 ≤ n → n ≤ 4 → mask_pn pn n ≡ some (pn % 2 ^ (8 * n), n)
unfolding mask_pn
mask_pn-eq pn zero lo hi = absurd (omega arith)
mask_pn-eq pn (suc zero) lo hi = ground (arith, bit_and-mask 8 pn)
mask_pn-eq pn (suc (suc zero)) lo hi = ground (arith, bit_and-mask 16 pn)
mask_pn-eq pn (suc (suc (suc zero))) lo hi = ground (arith, bit_and-mask 24 pn)
mask_pn-eq pn (suc (suc (suc (suc zero)))) lo hi = ground (arith, bit_and-mask 32 pn)
mask_pn-eq pn (suc (suc (suc (suc (suc n))))) lo hi = absurd (omega arith)

truncate_pn-eq :
    (pn la : ℕ)
    → pn < la + 2 ^ 31
    → truncate_pn pn la ≡ some (pn % 2 ^ (8 * pn_len_for (pn - la)), pn_len_for (pn - la))
truncate_pn-eq pn la h =
    let (lo, hi, _) = pn_len_for_room (pn - la) (omega arith) in
    unfold truncate_pn in mask_pn-eq pn (pn_len_for (pn - la)) lo hi

pn_len_for-bounds : (u : ℕ) → (1 ≤ pn_len_for u) × (pn_len_for u ≤ 4)
unfolding bytes_of_bits
pn_len_for-bounds u = rw (pn_len_for-bytes u) (ground arith)

-- Every number is truncated without a panic to 1 to 4 bytes, whatever number was acknowledged, in a
-- release build, where the doubling of the distance wraps around. What is kept is the number modulo the width, and 2^31 numbers or more are unacknowledged, or the width has
-- room for twice as many as are.
pub truncate_pn_total :
    (pn largest_acked : ℕ)
    → (len : ℕ) × (truncate_pn pn largest_acked ≡ some (pn % 2 ^ (8 * len), len))
      × (1 ≤ len)
      × (len ≤ 4)
      × ((2 ^ 31 ≤ pn - largest_acked) ⊎ ((pn - largest_acked) * 2 < 2 ^ (8 * len)))
truncate_pn_total pn la =
    let u = pn - la in
    let n = pn_len_for u in
    let b = pn_len_for-bounds u in
    (
      n,
      unfold truncate_pn in mask_pn-eq pn n b.0 b.1,
      b.0,
      b.1,
      elim (Bool-cases (ltb u (2 ^ 31))) [
        | inl small ↦ inr (rw (mul_comm 8 n) (pn_len_for_room u (ground arith)).2)
        | inr large ↦ inl (ground arith)
      ],
    )

expand_pn-Restores : (n : ℕ) → 1 ≤ n → n ≤ 4 → Restores n
expand_pn-Restores zero lo hi = absurd (omega arith)
expand_pn-Restores (suc zero) lo hi = expand_one
expand_pn-Restores (suc (suc zero)) lo hi = expand_two
expand_pn-Restores (suc (suc (suc zero))) lo hi = expand_three
expand_pn-Restores (suc (suc (suc (suc zero)))) lo hi = expand_four
expand_pn-Restores (suc (suc (suc (suc (suc n))))) lo hi = absurd (omega arith)

some_pair-injective :
    {a b c d : ℕ} → ◌≡◌ {A = Option (ℕ × ℕ)} (some (a, b)) (some (c, d)) → (a ≡ c) × (b ≡ d)
some_pair-injective h = (cc, cc)

half_window : (u n : ℕ) → 1 ≤ n → u * 2 < 2 ^ (8 * n) → u < 2 ^ (8 * n - 1)
half_window u n lo h =
    let e : 8 * n ≡ suc (8 * n - 1) = omega arith in
    omega (arith, two_pow-suc (8 * n - 1), ap (λ t. 2 ^ t) e)

-- The receiver restores the number that the sender truncated, when fewer than 2^31 numbers were
-- unacknowledged, the receiver's largest number is at least the largest that the sender knows to
-- be acknowledged, and the packet is late by less than half the window of its length.
pub expand_pn-truncate_pn :
    (pn largest_acked largest_pn t len : ℕ)
    → pn < 2 ^ 64
    → largest_pn + 1 < 2 ^ 64
    → pn < largest_acked + 2 ^ 31
    → largest_acked ≤ largest_pn
    → truncate_pn pn largest_acked ≡ some (t, len)
    → largest_pn + 1 < pn + 2 ^ (8 * len - 1)
    → expand_pn t len largest_pn ≡ pn
expand_pn-truncate_pn pn la largest t len hp hl h acked e late =
    let n = pn_len_for (pn - la) in
    let (lo, hi, room) = pn_len_for_room (pn - la) (omega arith) in
    let (t_eq, len_eq) = some_pair-injective (sym (truncate_pn-eq pn la h) ∙ e) in
    rw (← t_eq, ← len_eq)
      (expand_pn-Restores n lo hi pn largest hl hp
        (omega (arith, half_window (pn - la) n lo (rw (mul_comm 8 n) room))) (rw len_eq late))
