-- ===== src/Protocol/PacketNumber.antt =====
-- src/protocol/packet_number.rs: packet numbers cut to 1 to 4 bytes, and restored.
pub mod RoundTrip
mod Tests
use zetta_transport.Common.{ℕ, zero, suc, ◌+◌, ◌-◌, ◌*◌, ◌/◌, ◌%◌, ◌^◌, bit_and, bit_or}
use zetta_transport.Common.{ltb, leb, ◌==◌, if◌then◌else◌, ◌&&◌, Bool, true, false}
use zetta_transport.Common.{Option, none, some, saturating_add, checked_add, u64_max}

-- The number of binary digits of `x`, at most `fuel`: `fuel - x.leading_zeros()`.
significant_bits : ℕ → ℕ → ℕ
significant_bits zero x = 0
significant_bits (suc fuel) x =
    let rest = suc (significant_bits fuel (x / 2)) in if x == 0 then 0 else rest

-- `u64::leading_zeros`
leading_zeros : ℕ → ℕ
unfolding significant_bits
leading_zeros x = 64 - significant_bits 64 x

-- The mask of `pn_len` bytes; `none` is `unreachable!()`.
abbrev pn_mask : ℕ → Option ℕ
pn_mask n =
    if n == 1
    then some 0xff
    else if n == 2
    then some 0xffff
    else if n == 3
    then some 0xffffff
    else if n == 4
    then some 0xffffffff
    else none

pn_len_for : ℕ → ℕ
unfolding leading_zeros
pn_len_for unacked =
    let num_bits = 64 - leading_zeros (unacked * 2 % 2 ^ 64) in
    let pn_len = (num_bits + 7) / 8 in if pn_len == 0 then 1 else if ltb 4 pn_len then 4 else pn_len

-- `((pn & mask) as u32, pn_len)`
mask_pn : ℕ → ℕ → Option (ℕ × ℕ)
mask_pn pn pn_len = elim (pn_mask pn_len) [
  | none ↦ none
  | some mask ↦ some (bit_and pn mask % 2 ^ 32, pn_len)
]

-- The truncated number and its length in bytes; `none` is a panic.
unfoldable pub truncate_pn : ℕ → ℕ → Option (ℕ × ℕ)
unfolding pn_len_for mask_pn
truncate_pn pn largest_acked = mask_pn pn (pn_len_for (pn - largest_acked))

-- `!mask` on a u64.
abbrev complement : ℕ → ℕ
complement mask = u64_max - mask

abbrev exceeds : ℕ → Option ℕ → Bool
exceeds candidate none = false
exceeds candidate (some limit) = ltb limit candidate

pub expand_pn : ℕ → ℕ → ℕ → ℕ
expand_pn pn_truncated pn_len largest_pn =
    let expected_pn = saturating_add largest_pn 1 in
    let pn_win = 2 ^ (pn_len * 8 % 64) in
    let pn_hwin = pn_win / 2 in
    let pn_mask = pn_win - 1 in
    let candidate_pn = bit_or (bit_and expected_pn (complement pn_mask)) pn_truncated in
    if leb pn_hwin expected_pn && leb candidate_pn (expected_pn - pn_hwin)
    then saturating_add candidate_pn pn_win
    else if exceeds candidate_pn (checked_add expected_pn pn_hwin) && leb pn_win candidate_pn
    then candidate_pn - pn_win
    else candidate_pn
