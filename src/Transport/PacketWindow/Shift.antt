-- ===== src/Transport/PacketWindow/Shift.antt =====
-- `shift_left` moves every bit of the window by the given distance.
use zetta_transport.Common.{
  ℕ, zero, suc, ◌+◌, ◌-◌, ◌*◌, ◌/◌, ◌%◌, ◌^◌, ◌<◌, ◌≡◌, refl, ap, ◌∙◌, arith,
}
use zetta_transport.Common.{
  List, ltb, leb, ◌==◌, if◌then◌else◌, Bool-cases, inl, inr, replicate, All-replicate,
  get_or-replicate,
}
use zetta_transport.Common.Bits.{bit_at, bit_at-zero}
use zetta_transport.Transport.PacketWindow.{word, shift_by_words, shift_by_bits, shift_left}
use zetta_transport.Transport.PacketWindow.Words.{
  IsBitmask, bit, shift_by_words-IsBitmask, word-shift_by_words, shift_by_bits-IsBitmask,
  word-shift_by_bits_zero, word-shift_by_bits-suc, bit_at-low, bit_at-shifted_word,
}

bit-at_word : (m : List ℕ) (p i j : ℕ) → p / 64 ≡ i → p % 64 ≡ j → bit m p ≡ bit_at (word m i) j
bit-at_word m p i j e f = rw (e, f) refl

bit-shift_by_bits-word :
    (b : ℕ) (m : List ℕ) (p i : ℕ)
    → IsBitmask m
    → 0 < b
    → b < 64
    → i < 32
    → p / 64 ≡ i
    → bit_at (word (shift_by_bits b m) i) (p % 64) ≡ (if ltb p b then 0 else bit m (p - b))
bit-shift_by_bits-word b m p zero v pos hb hi e = ground (
  arith,
  word-shift_by_bits_zero b m v pos,
  ap (λ w. bit_at w (p % 64)) (word-shift_by_bits_zero b m v pos),
  bit_at-low (word m 0) b (p % 64),
  bit-at_word m (p - b) 0 (p % 64 - b),
)
bit-shift_by_bits-word b m p (suc i) v pos hb hi e = ground (
  arith,
  ap (λ w. bit_at w (p % 64)) (word-shift_by_bits-suc b m i v pos (omega arith)),
  bit_at-shifted_word b m i (p % 64) v.words pos hb,
  bit-at_word m (p - b) i (p % 64 + (64 - b)),
  bit-at_word m (p - b) (suc i) (p % 64 - b),
)

bit-shift_by_bits :
    (b : ℕ) (m : List ℕ) (p : ℕ)
    → IsBitmask m
    → b < 64
    → p < 2048
    → bit (shift_by_bits b m) p ≡ (if ltb p b then 0 else bit m (p - b))
bit-shift_by_bits zero m p v hb hp = unfold shift_by_bits in ground arith
bit-shift_by_bits (suc b) m p v hb hp =
    bit-shift_by_bits-word (suc b) m p (p / 64) v (omega arith) hb (omega arith) refl

bit-shift_by_words :
    (ws : ℕ) (m : List ℕ) (p : ℕ)
    → IsBitmask m
    → ws < 32
    → p < 2048
    → bit (shift_by_words ws m) p ≡ (if ltb p (64 * ws) then 0 else bit m (p - 64 * ws))
bit-shift_by_words ws m p v h hp = ground (
  arith,
  ap (λ w. bit_at w (p % 64)) (word-shift_by_words ws m (p / 64) v.size h (omega arith)),
  bit_at-zero (p % 64),
  bit-at_word m (p - 64 * ws) (p / 64 - ws) (p % 64),
)

pub zeros-IsBitmask : IsBitmask (replicate 32 0)
zeros-IsBitmask = record { size = refl; words = All-replicate (λ w. w < 2 ^ 64) 32 0 (omega arith) }

pub bit-zeros : (p : ℕ) → bit (replicate 32 0) p ≡ 0
bit-zeros p =
    ap (λ w. bit_at w (p % 64)) (get_or-replicate {A = ℕ} 32 (p / 64) 0) ∙ bit_at-zero (p % 64)

pub shift_left-IsBitmask : (s : ℕ) (m : List ℕ) → IsBitmask m → IsBitmask (shift_left s m)
unfolding shift_left
shift_left-IsBitmask s m v = elim (Bool-cases (s == 0)) [
  | inl e ↦ rw e v
  | inr e ↦ elim (Bool-cases (leb 2048 s)) [
    | inl f ↦ rw (e, f) zeros-IsBitmask
    | inr f ↦
        rw (e, f)
          (shift_by_bits-IsBitmask (s % 64) (shift_by_words (s / 64) m)
            (shift_by_words-IsBitmask (s / 64) m v))
  ]
]

-- The bit at a place is the one that stood `s` places below it; the lowest `s` bits are clear.
pub bit-shift_left :
    (s : ℕ) (m : List ℕ) (p : ℕ)
    → IsBitmask m
    → p < 2048
    → bit (shift_left s m) p ≡ (if ltb p s then 0 else bit m (p - s))
unfolding shift_left
bit-shift_left s m p v hp = elim (Bool-cases (s == 0)) [
  | inl e ↦ rw e (ground arith)
  | inr e ↦ elim (Bool-cases (leb 2048 s)) [
    | inl f ↦ rw (e, f) (bit-zeros p ∙ ground arith)
    | inr f ↦
        rw (e, f)
          (bit-shift_by_bits (s % 64) (shift_by_words (s / 64) m) p
              (shift_by_words-IsBitmask (s / 64) m v) (omega arith) hp
            ∙ ground (arith, bit-shift_by_words (s / 64) m (p - s % 64) v))
  ]
]
