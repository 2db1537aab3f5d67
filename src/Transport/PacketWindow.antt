-- ===== src/Transport/PacketWindow.antt =====
-- The state and the update that `ReplayWindow` (src/transport/state/replay_window.rs) and
-- `AckTracker` (src/transport/state/ack_tracker.rs) share: the source has this code in both files.
-- A word array `[u64; 32]` is a list of 32 numbers below 2^64.
pub mod Words
pub mod Shift
pub mod Mark
pub mod Seen
use zetta_transport.Common.{ℕ, zero, suc, ◌+◌, ◌-◌, ◌*◌, ◌/◌, ◌%◌, ◌^◌, bit_or, List}
use zetta_transport.Common.{Option, none, some, ltb, leb, ◌==◌, if◌then◌else◌}
use zetta_transport.Common.{get_or, set, replicate, length}

pub record PacketWindow : Type 0 where
  pub highest_processed : Option ℕ
  pub bitmask : List ℕ

unfoldable pub new : PacketWindow
new = record { highest_processed = none; bitmask = replicate 32 0 }

-- `self.bitmask[i]`
abbrev pub word : List ℕ → ℕ → ℕ
word bitmask i = get_or bitmask i 0

-- `for i in (word_shift..32).rev() { bitmask[i] = bitmask[i - word_shift]; }`, `n` rounds left:
-- `i` is `n - 1 + word_shift`.
unfoldable pub move_words : ℕ → ℕ → List ℕ → List ℕ
move_words zero word_shift bitmask = bitmask
move_words (suc n) word_shift bitmask =
    move_words n word_shift (set bitmask (n + word_shift) (word bitmask n))

-- `for i in 0..n { bitmask[i] = 0; }`
unfoldable pub clear_words : ℕ → List ℕ → List ℕ
clear_words zero bitmask = bitmask
clear_words (suc n) bitmask = set (clear_words n bitmask) n 0

-- `for i in (1..32).rev() { .. }`, `n` rounds left: `i` is `n`.
unfoldable pub shift_words : ℕ → ℕ → List ℕ → List ℕ
shift_words zero bit_shift bitmask = bitmask
shift_words (suc n) bit_shift bitmask = shift_words n bit_shift (
    set bitmask (suc n) (
      bit_or (word bitmask (suc n) * 2 ^ bit_shift % 2 ^ 64)
        (word bitmask n / 2 ^ (64 - bit_shift))))

unfoldable pub shift_by_words : ℕ → List ℕ → List ℕ
unfolding move_words clear_words
shift_by_words word_shift bitmask =
    if ltb 0 word_shift
    then clear_words word_shift (move_words (32 - word_shift) word_shift bitmask)
    else bitmask

unfoldable pub shift_by_bits : ℕ → List ℕ → List ℕ
unfolding shift_words
shift_by_bits bit_shift bitmask =
    if ltb 0 bit_shift
    then (let shifted = shift_words 31 bit_shift bitmask in
        set shifted 0 (word shifted 0 * 2 ^ bit_shift % 2 ^ 64))
    else bitmask

unfoldable pub shift_left : ℕ → List ℕ → List ℕ
unfolding shift_by_words shift_by_bits
shift_left shift bitmask =
    if shift == 0
    then bitmask
    else if leb 2048 shift
    then replicate 32 0
    else shift_by_bits (shift % 64) (shift_by_words (shift / 64) bitmask)

-- `bitmask[diff / 64] |= 1 << (diff % 64)`
unfoldable pub set_bit : ℕ → List ℕ → List ℕ
set_bit diff bitmask = set bitmask (diff / 64) (bit_or (word bitmask (diff / 64)) (2 ^ (diff % 64)))

unfoldable pub mark_above : PacketWindow → ℕ → ℕ → List ℕ
unfolding shift_left
mark_above w highest pn =
    let diff = pn - highest in
    if leb 2048 diff
    then set (replicate 32 0) 0 1
    else (let shifted = shift_left diff w.bitmask in set shifted 0 (bit_or (word shifted 0) 1))

unfoldable pub mark_processed : PacketWindow → ℕ → PacketWindow
unfolding mark_above set_bit
mark_processed w pn = elim w.highest_processed [
  | none ↦ record { highest_processed = some pn; bitmask = set w.bitmask 0 1 }
  | some highest ↦
      if ltb highest pn
      then record { highest_processed = some pn; bitmask = mark_above w highest pn }
      else (let diff = highest - pn in
          if ltb diff 2048 then record w { bitmask = set_bit diff w.bitmask } else w)
]

-- `highest_processed.unwrap_or(0)`
abbrev pub highest_or_zero : Option ℕ → ℕ
highest_or_zero none = 0
highest_or_zero (some h) = h
