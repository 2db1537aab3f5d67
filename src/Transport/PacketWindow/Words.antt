-- ===== src/Transport/PacketWindow/Words.antt =====
-- The loops of `shift_left`, word by word.
use zetta_transport.Common.{ℕ, zero, suc, ◌+◌, ◌-◌, ◌*◌, ◌/◌, ◌%◌, ◌^◌, ◌≤◌, ◌<◌, ◌≡◌, refl, arith}
use zetta_transport.Common.{List, set, length, All, length-set, get_or-set_self, get_or-set_ne}
use zetta_transport.Common.{ltb, leb, if◌then◌else◌, ◌&&◌, bit_or, All-set, All-get_or}
use zetta_transport.Common.{◌∙◌}
use native.Mathlib.Decide.{dec_lt}
use native.Mathlib.Nat.{le_trans, div-le_self}
use Prim.Native.Nat.{suc-le-suc}
use zetta_transport.Common.{Bool-cases, inl, inr}
use zetta_transport.Common.Bits.{
  bit_at, bit_at-bit_or, bit_at-shift_left, bit_at-shift_right, bit_at-mod, bit_at_high, bit_or-lt,
}
use zetta_transport.Transport.PacketWindow.{
  word, move_words, clear_words, shift_words, shift_by_words, shift_by_bits,
}

-- 32 words of 64 bits.
pub record IsBitmask (m : List ℕ) : Type 0 where
  pub size : length m ≡ 32
  pub words : All (λ w. w < 2 ^ 64) m

-- The bit for the packet number at a distance from the highest.
abbrev pub bit : List ℕ → ℕ → ℕ
bit m p = bit_at (word m (p / 64)) (p % 64)

length-move_words : (n ws : ℕ) (m : List ℕ) → length (move_words n ws m) ≡ length m
unfolding move_words
length-move_words zero ws m = refl
length-move_words (suc n) ws m =
    omega
      (arith, length-move_words n ws (set m (n + ws) (word m n)), length-set m (n + ws) (word m n))

word-move_words :
    (n ws : ℕ) (m : List ℕ) (i : ℕ)
    → n + ws ≤ length m
    → 0 < ws
    → word (move_words n ws m) i
      ≡ (if leb ws i && ltb i (n + ws) then word m (i - ws) else word m i)
unfolding move_words
word-move_words zero ws m i h pos = ground arith
word-move_words (suc n) ws m i h pos = ground (
  arith,
  word-move_words n ws (set m (n + ws) (word m n)) i,
  length-set m (n + ws) (word m n),
  get_or-set_self m (n + ws) (word m n) 0,
  get_or-set_ne m (n + ws) i (word m n) 0,
  get_or-set_ne m (n + ws) (i - ws) (word m n) 0,
)

length-clear_words : (n : ℕ) (m : List ℕ) → length (clear_words n m) ≡ length m
unfolding clear_words
length-clear_words zero m = refl
length-clear_words (suc n) m =
    omega (arith, length-set (clear_words n m) n 0, length-clear_words n m)

word-clear_words :
    (n : ℕ) (m : List ℕ) (i : ℕ)
    → n ≤ length m
    → word (clear_words n m) i ≡ (if ltb i n then 0 else word m i)
unfolding clear_words
word-clear_words zero m i h = ground arith
word-clear_words (suc n) m i h = ground (
  arith,
  word-clear_words n m i,
  length-clear_words n m,
  get_or-set_self (clear_words n m) n 0 0,
  get_or-set_ne (clear_words n m) n i 0 0,
)

-- One word of the bit loop.
abbrev pub shifted_word : ℕ → List ℕ → ℕ → ℕ
shifted_word b m n = bit_or (word m (suc n) * 2 ^ b % 2 ^ 64) (word m n / 2 ^ (64 - b))

length-shift_words : (n b : ℕ) (m : List ℕ) → length (shift_words n b m) ≡ length m
unfolding shift_words
length-shift_words zero b m = refl
length-shift_words (suc n) b m = omega (
  arith,
  length-shift_words n b (set m (suc n) (shifted_word b m n)),
  length-set m (suc n) (shifted_word b m n),
)

word-shift_words_low :
    (n b : ℕ) (m : List ℕ) (i : ℕ) → n < i → word (shift_words n b m) i ≡ word m i
unfolding shift_words
word-shift_words_low zero b m i h = refl
word-shift_words_low (suc n) b m i h = ground (
  arith,
  word-shift_words_low n b (set m (suc n) (shifted_word b m n)) i,
  get_or-set_ne m (suc n) i (shifted_word b m n) 0,
)

word-shift_words_zero : (n b : ℕ) (m : List ℕ) → word (shift_words n b m) 0 ≡ word m 0
unfolding shift_words
word-shift_words_zero zero b m = refl
word-shift_words_zero (suc n) b m = ground (
  arith,
  word-shift_words_zero n b (set m (suc n) (shifted_word b m n)),
  get_or-set_ne m (suc n) 0 (shifted_word b m n) 0,
)

word-shift_words :
    (n b : ℕ) (m : List ℕ) (i : ℕ)
    → n < length m
    → i < n
    → word (shift_words n b m) (suc i) ≡ shifted_word b m i
unfolding shift_words
word-shift_words zero b m i h lt = absurd (omega arith)
word-shift_words (suc n) b m i h lt = elim (dec_lt i n) [
  | yes below ↦
      word-shift_words n b m' i (omega (arith, length-set m (suc n) v)) below
      ∙ rw
          (
            get_or-set_ne m (suc n) (suc i) v 0 (omega arith),
            get_or-set_ne m (suc n) i v 0 (omega arith),
          )
          refl
  | no last ↦
      let e : i ≡ n = omega arith in
      rw e (word-shift_words_low n b m' (suc n) (omega arith) ∙ get_or-set_self m (suc n) v 0 h)
]
  where
    v : ℕ
    v = shifted_word b m n

    m' : List ℕ
    m' = set m (suc n) v

abbrev pub AreWords : List ℕ → Type 0
AreWords = All (λ w. w < 2 ^ 64)

pub word-lt : (m : List ℕ) (i : ℕ) → AreWords m → word m i < 2 ^ 64
word-lt m i h = All-get_or (λ w. w < 2 ^ 64) m i 0 h (omega arith)

pub set-AreWords : (m : List ℕ) (i v : ℕ) → AreWords m → v < 2 ^ 64 → AreWords (set m i v)
set-AreWords m i v h hv = All-set (λ w. w < 2 ^ 64) m i v h hv

move_words-AreWords : (n ws : ℕ) (m : List ℕ) → AreWords m → AreWords (move_words n ws m)
unfolding move_words
move_words-AreWords zero ws m h = h
move_words-AreWords (suc n) ws m h =
    move_words-AreWords n ws (set m (n + ws) (word m n))
      (set-AreWords m (n + ws) (word m n) h (word-lt m n h))

clear_words-AreWords : (n : ℕ) (m : List ℕ) → AreWords m → AreWords (clear_words n m)
unfolding clear_words
clear_words-AreWords zero m h = h
clear_words-AreWords (suc n) m h =
    set-AreWords (clear_words n m) n 0 (clear_words-AreWords n m h) (omega arith)

shifted_word-lt : (b : ℕ) (m : List ℕ) (n : ℕ) → AreWords m → shifted_word b m n < 2 ^ 64
shifted_word-lt b m n h =
    bit_or-lt 64 (word m (suc n) * 2 ^ b % 2 ^ 64) (word m n / 2 ^ (64 - b)) (omega arith)
      (le_trans (suc-le-suc (div-le_self (word m n) (2 ^ (64 - b)))) (word-lt m n h))

shift_words-AreWords : (n b : ℕ) (m : List ℕ) → AreWords m → AreWords (shift_words n b m)
unfolding shift_words
shift_words-AreWords zero b m h = h
shift_words-AreWords (suc n) b m h =
    shift_words-AreWords n b (set m (suc n) (shifted_word b m n))
      (set-AreWords m (suc n) (shifted_word b m n) h (shifted_word-lt b m n h))

pub shift_by_words-IsBitmask : (ws : ℕ) (m : List ℕ) → IsBitmask m → IsBitmask (shift_by_words ws m)
unfolding shift_by_words
shift_by_words-IsBitmask ws m v = elim (Bool-cases (ltb 0 ws)) [
  | inl e ↦ rw e (record {
    size = length-clear_words ws moved ∙ length-move_words (32 - ws) ws m ∙ v.size;
    words = clear_words-AreWords ws moved (move_words-AreWords (32 - ws) ws m v.words);
  })
  | inr e ↦ rw e v
]
  where
    moved : List ℕ
    moved = move_words (32 - ws) ws m

pub word-shift_by_words :
    (ws : ℕ) (m : List ℕ) (i : ℕ)
    → length m ≡ 32
    → ws < 32
    → i < 32
    → word (shift_by_words ws m) i ≡ (if ltb i ws then 0 else word m (i - ws))
unfolding shift_by_words
word-shift_by_words ws m i l h hi = ground (
  arith,
  word-clear_words ws (move_words (32 - ws) ws m) i,
  length-move_words (32 - ws) ws m,
  word-move_words (32 - ws) ws m i,
)

pub shift_by_bits-IsBitmask : (b : ℕ) (m : List ℕ) → IsBitmask m → IsBitmask (shift_by_bits b m)
unfolding shift_by_bits
shift_by_bits-IsBitmask b m v = elim (Bool-cases (ltb 0 b)) [
  | inl e ↦ rw e (record {
    size = length-set shifted 0 low ∙ length-shift_words 31 b m ∙ v.size;
    words = set-AreWords shifted 0 low (shift_words-AreWords 31 b m v.words) (omega arith);
  })
  | inr e ↦ rw e v
]
  where
    shifted : List ℕ
    shifted = shift_words 31 b m

    low : ℕ
    low = word shifted 0 * 2 ^ b % 2 ^ 64

-- The words after the bit loop: the lowest, and the others.
pub word-shift_by_bits_zero :
    (b : ℕ) (m : List ℕ)
    → IsBitmask m
    → 0 < b
    → word (shift_by_bits b m) 0 ≡ word m 0 * 2 ^ b % 2 ^ 64
unfolding shift_by_bits
word-shift_by_bits_zero b m v h = ground (
  arith,
  word-shift_words_zero 31 b m,
  length-shift_words 31 b m,
  get_or-set_self (shift_words 31 b m) 0 (word (shift_words 31 b m) 0 * 2 ^ b % 2 ^ 64) 0,
)

pub word-shift_by_bits-suc :
    (b : ℕ) (m : List ℕ) (i : ℕ)
    → IsBitmask m
    → 0 < b
    → i < 31
    → word (shift_by_bits b m) (suc i) ≡ shifted_word b m i
unfolding shift_by_bits
word-shift_by_bits-suc b m i v h hi = ground (
  arith,
  word-shift_words 31 b m i,
  get_or-set_ne (shift_words 31 b m) 0 (suc i) (word (shift_words 31 b m) 0 * 2 ^ b % 2 ^ 64) 0,
)

pub bit_at-low :
    (a b j : ℕ) → j < 64 → bit_at (a * 2 ^ b % 2 ^ 64) j ≡ (if ltb j b then 0 else bit_at a (j - b))
bit_at-low a b j h = bit_at-mod 64 (a * 2 ^ b) j h ∙ bit_at-shift_left b a j

-- A bit of a word that was joined from two.
pub bit_at-shifted_word :
    (b : ℕ) (m : List ℕ) (n j : ℕ)
    → AreWords m
    → 0 < b
    → b < 64
    → j < 64
    → bit_at (shifted_word b m n) j
      ≡ (if ltb j b then bit_at (word m n) (j + (64 - b)) else bit_at (word m (suc n)) (j - b))
bit_at-shifted_word b m n j h pos hb hj = ground (
  arith,
  bit_at-bit_or (word m (suc n) * 2 ^ b % 2 ^ 64) (word m n / 2 ^ (64 - b)) j,
  bit_at-low (word m (suc n)) b j hj,
  bit_at-shift_right (64 - b) (word m n) j,
  bit_at_high 64 (word m n) (j + (64 - b)) (word-lt m n h),
)
