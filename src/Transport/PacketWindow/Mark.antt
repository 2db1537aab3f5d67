-- ===== src/Transport/PacketWindow/Mark.antt =====
-- The bits of the window after `mark_processed`.
use zetta_transport.Common.{ℕ, ◌-◌, ◌/◌, ◌%◌, ◌^◌, ◌<◌, ◌≡◌, refl, sym, ap, ◌∙◌, arith}
use zetta_transport.Common.{
  List, Option, none, some, length, ltb, leb, ◌==◌, if◌then◌else◌, if_holds, bit_or, Bool, false,
  option_holds, ltb→lt,
}
use zetta_transport.Common.{set, replicate, length-set, get_or-set_self, get_or-set_ne}
use zetta_transport.Common.Bits.{
  bit_at, bit_at-bit_or, bit_at-two_pow, two_pow-lt, bit_or-lt, bit_at-le,
}
use zetta_transport.Transport.PacketWindow.{
  PacketWindow, new, word, shift_left, set_bit, mark_above, mark_processed,
}
use zetta_transport.Transport.PacketWindow.Words.{IsBitmask, bit, set-AreWords, word-lt}
use zetta_transport.Transport.PacketWindow.Shift.{
  zeros-IsBitmask, bit-zeros, shift_left-IsBitmask, bit-shift_left,
}
use native.Mathlib.Decide.{ℕ_discrete}

set-IsBitmask : (m : List ℕ) (i v : ℕ) → IsBitmask m → v < 2 ^ 64 → IsBitmask (set m i v)
set-IsBitmask m i v b h = record {
  size = length-set m i v ∙ b.size;
  words = set-AreWords m i v b.words h;
}

bit-set_ne : (m : List ℕ) (i v p : ℕ) → ¬ (i ≡ p / 64) → bit (set m i v) p ≡ bit m p
bit-set_ne m i v p h = ap (λ w. bit_at w (p % 64)) (get_or-set_ne {A = ℕ} m i (p / 64) v 0 h)

bit-set_self :
    (m : List ℕ) (i v p : ℕ) → i ≡ p / 64 → i < length m → bit (set m i v) p ≡ bit_at v (p % 64)
bit-set_self m i v p e h =
    ap (λ w. bit_at w (p % 64))
      (ap (λ j. word (set m i v) j) (sym e) ∙ get_or-set_self {A = ℕ} m i v 0 h)

pub set_bit-IsBitmask : (d : ℕ) (m : List ℕ) → IsBitmask m → IsBitmask (set_bit d m)
unfolding set_bit
set_bit-IsBitmask d m b = set-IsBitmask m (d / 64) (bit_or (word m (d / 64)) (2 ^ (d % 64))) b (
    bit_or-lt 64 (word m (d / 64)) (2 ^ (d % 64)) (word-lt m (d / 64) b.words)
      (two_pow-lt (d % 64) 64 (omega arith)))

pub bit-set_bit :
    (d : ℕ) (m : List ℕ) (p : ℕ)
    → IsBitmask m
    → d < 2048
    → p < 2048
    → bit (set_bit d m) p ≡ (if p == d then 1 else bit m p)
unfolding set_bit
bit-set_bit d m p b hd hp = elim (ℕ_discrete (d / 64) (p / 64)) [
  | yes e ↦
      bit-set_self m (d / 64) v p e (omega arith)
      ∙ bit_at-bit_or (word m (d / 64)) (2 ^ (d % 64)) (p % 64)
      ∙ ground (
        arith,
        bit_at-two_pow (d % 64) (p % 64),
        ap (λ i. bit_at (word m i) (p % 64)) e,
        bit_at-le (word m (d / 64)) (p % 64),
      )
  | no e ↦ bit-set_ne m (d / 64) v p e ∙ ground arith
]
  where
    v : ℕ
    v = bit_or (word m (d / 64)) (2 ^ (d % 64))

-- `bitmask[0] |= 1`
bit-set_one :
    (m : List ℕ) (p : ℕ)
    → IsBitmask m
    → bit (set m 0 (bit_or (word m 0) 1)) p ≡ (if p == 0 then 1 else bit m p)
bit-set_one m p b = elim (ℕ_discrete 0 (p / 64)) [
  | yes e ↦
      bit-set_self m 0 v p e (omega arith)
      ∙ bit_at-bit_or (word m 0) 1 (p % 64)
      ∙ ground (
        arith,
        bit_at-two_pow 0 (p % 64),
        ap (λ i. bit_at (word m i) (p % 64)) e,
        bit_at-le (word m 0) (p % 64),
      )
  | no e ↦ bit-set_ne m 0 v p e ∙ ground arith
]
  where
    v : ℕ
    v = bit_or (word m 0) 1

set_one-IsBitmask : (m : List ℕ) → IsBitmask m → IsBitmask (set m 0 (bit_or (word m 0) 1))
set_one-IsBitmask m b =
    set-IsBitmask m 0 (bit_or (word m 0) 1) b
      (bit_or-lt 64 (word m 0) 1 (word-lt m 0 b.words) (omega arith))

-- `bitmask[0] = 1` where no bit is set.
pub bit-set_only :
    (m : List ℕ) (p : ℕ) → IsBitmask m → bit m p ≡ 0 → bit (set m 0 1) p ≡ (if p == 0 then 1 else 0)
bit-set_only m p b z = elim (ℕ_discrete 0 (p / 64)) [
  | yes e ↦ bit-set_self m 0 1 p e (omega arith) ∙ ground (arith, bit_at-two_pow 0 (p % 64))
  | no e ↦ bit-set_ne m 0 1 p e ∙ ground arith
]

pub mark_above-IsBitmask :
    (w : PacketWindow) (h pn : ℕ) → IsBitmask w.bitmask → IsBitmask (mark_above w h pn)
unfolding mark_above
mark_above-IsBitmask w h pn b =
    if_holds IsBitmask (leb 2048 (pn - h))
      (λ _. set-IsBitmask (replicate 32 0) 0 1 zeros-IsBitmask (omega arith))
      (λ _.
        set_one-IsBitmask (shift_left (pn - h) w.bitmask)
          (shift_left-IsBitmask (pn - h) w.bitmask b))

pub bit-mark_above :
    (w : PacketWindow) (h pn p : ℕ)
    → IsBitmask w.bitmask
    → h < pn
    → p < 2048
    → bit (mark_above w h pn) p
      ≡ (if p == 0 then 1 else if ltb p (pn - h) then 0 else bit w.bitmask (p - (pn - h)))
unfolding mark_above
bit-mark_above w h pn p b lt hp =
    if_holds
      (λ m.
        bit m p
        ≡ (if p == 0 then 1 else if ltb p (pn - h) then 0 else bit w.bitmask (p - (pn - h))))
      (leb 2048 (pn - h))
      (λ e. bit-set_only (replicate 32 0) p zeros-IsBitmask (bit-zeros p) ∙ ground arith)
      (λ e.
        bit-set_one (shift_left (pn - h) w.bitmask) p (shift_left-IsBitmask (pn - h) w.bitmask b)
        ∙ ground (arith, bit-shift_left (pn - h) w.bitmask p b hp))

-- Whether a packet number at this distance from the highest exists.
abbrev pub reaches : Option ℕ → ℕ → Bool
reaches none p = false
reaches (some h) p = leb p h

-- The word array has its size, and no bit stands for a number below zero or before the first packet.
pub record WellFormed (w : PacketWindow) : Type 0 where
  pub shape : IsBitmask w.bitmask
  pub bounded : (p : ℕ) → p < 2048 → reaches w.highest_processed p ≡ false → bit w.bitmask p ≡ 0

pub new-WellFormed : WellFormed new
unfolding new
new-WellFormed = record { shape = zeros-IsBitmask; bounded = λ p h e. bit-zeros p }

marked-WellFormed :
    (h : ℕ) (m : List ℕ)
    → IsBitmask m
    → ((p : ℕ) → p < 2048 → h < p → bit m p ≡ 0)
    → WellFormed (record { highest_processed = some h; bitmask = m })
marked-WellFormed h m b z = record { shape = b; bounded = λ p lt e. z p lt (ground arith) }

mark_first-WellFormed :
    (w : PacketWindow) (pn : ℕ)
    → WellFormed w
    → w.highest_processed ≡ none
    → WellFormed (record { highest_processed = some pn; bitmask = set w.bitmask 0 1 })
mark_first-WellFormed w pn v e =
    marked-WellFormed pn (set w.bitmask 0 1) (set-IsBitmask w.bitmask 0 1 v.shape (omega arith))
      (λ p lt h. bit-set_only w.bitmask p v.shape (v.bounded p lt (rw e refl)) ∙ ground arith)

mark_next-WellFormed :
    (w : PacketWindow) (h pn : ℕ)
    → WellFormed w
    → w.highest_processed ≡ some h
    → h < pn
    → WellFormed (record { highest_processed = some pn; bitmask = mark_above w h pn })
mark_next-WellFormed w h pn v e above =
    marked-WellFormed pn (mark_above w h pn) (mark_above-IsBitmask w h pn v.shape) (λ p lt far.
      bit-mark_above w h pn p v.shape above lt
      ∙ ground (arith, v.bounded (p - (pn - h)) (omega arith) (rw e (ground arith))))

mark_within-WellFormed :
    (w : PacketWindow) (h pn : ℕ)
    → WellFormed w
    → w.highest_processed ≡ some h
    → h - pn < 2048
    → WellFormed (record w { bitmask = set_bit (h - pn) w.bitmask })
mark_within-WellFormed w h pn v e near = record {
  shape = set_bit-IsBitmask (h - pn) w.bitmask v.shape;
  bounded = λ p lt far.
      bit-set_bit (h - pn) w.bitmask p v.shape near lt
      ∙ ground (arith, v.bounded p lt far, ap (λ o. reaches o p) e);
}

pub mark_processed-WellFormed :
    (w : PacketWindow) (pn : ℕ) → WellFormed w → WellFormed (mark_processed w pn)
unfolding mark_processed
mark_processed-WellFormed w pn v =
    option_holds WellFormed w.highest_processed (λ e. mark_first-WellFormed w pn v e)
      (λ h e.
        if_holds WellFormed (ltb h pn)
          (λ above. mark_next-WellFormed w h pn v e (ltb→lt h pn above))
          (λ _.
            if_holds WellFormed (ltb (h - pn) 2048)
              (λ near. mark_within-WellFormed w h pn v e (ltb→lt (h - pn) 2048 near)) (λ _. v)))
