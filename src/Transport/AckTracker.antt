-- ===== src/Transport/AckTracker.antt =====
-- `AckTracker` (src/transport/state/ack_tracker.rs): the state and its update are those of
-- PacketWindow; here is the scan that turns the bits into acknowledgement ranges.
pub mod Scan
pub mod Ranges
pub mod History
pub mod Frames
pub mod Tests
use zetta_transport.Common.{
  ℕ, zero, suc, ◌+◌, ◌-◌, ◌*◌, ◌/◌, ◌%◌, ◌^◌, ◌<◌, Option, none, some, Bool, true, false, not, ◌&&◌,
}
use zetta_transport.Common.{
  List, [], ◌∷◌, ◌++◌, length, ltb, leb, ◌==◌, if◌then◌else◌, bit_and, u64_max,
}
use zetta_transport.Transport.PacketWindow.{PacketWindow, highest_or_zero}
use zetta_transport.Protocol.Frame.{Frame, ack}

abbrev max_ack_ranges : ℕ
max_ack_ranges = 128

-- The variables of the loops.
pub record ScanState : Type 0 where
  pub in_range : Bool
  pub current_end : ℕ
  pub diff : ℕ
  pub ranges : List (ℕ × ℕ)

-- A loop goes on with its variables, or the function returns.
pub data Flow : Type 0 where
  continue : ScanState → Flow
  returned : List (ℕ × ℕ) → Flow

abbrev pub and_then : Flow → (ScanState → Flow) → Flow
and_then (continue s) k = k s
and_then (returned r) k = returned r

-- One round of `for _ in 0..64`, after its `break`.
pub scan_bit : ℕ → ℕ → ScanState → Flow
scan_bit highest w s =
    let pn = highest - s.diff in
    if not (bit_and w 1 == 0)
    then continue (record {
      in_range = true;
      current_end = if s.in_range then s.current_end else pn;
      diff = s.diff + 1;
      ranges = s.ranges;
    })
    else if s.in_range
    then (let ranges = s.ranges ++ ((pn + 1, s.current_end) ∷ []) in
        if leb max_ack_ranges (length ranges)
        then returned ranges
        else continue (record {
          in_range = false;
          current_end = s.current_end;
          diff = s.diff + 1;
          ranges = ranges;
        }))
    else continue (record s { diff = s.diff + 1 })

-- `n` rounds left; `w >>= 1` after each.
pub scan_bits : ℕ → ℕ → ℕ → ScanState → Flow
unfolding scan_bit
scan_bits zero highest w s = continue s
scan_bits (suc n) highest w s =
    if ltb highest s.diff
    then continue s
    else and_then (scan_bit highest w s) (λ t. scan_bits n highest (w / 2) t)

pub scan_word : ℕ → ℕ → ScanState → Flow
unfolding scan_bits
scan_word highest word s =
    if not s.in_range && word == 0
    then continue (record s { diff = s.diff + 64 })
    else if s.in_range && word == u64_max
    then continue (record s { diff = s.diff + 64 })
    else scan_bits 64 highest word s

pub scan_words : List ℕ → ℕ → ScanState → Flow
unfolding scan_word
scan_words [] highest s = continue s
scan_words (word ∷ words) highest s =
    if ltb highest s.diff
    then continue s
    else and_then (scan_word highest word s) (λ t. scan_words words highest t)

pub close : ℕ → Flow → List (ℕ × ℕ)
close highest (returned ranges) = ranges
close highest (continue s) =
    if s.in_range
    then (let lowest = highest - (s.diff - 1) in
        if ltb (length s.ranges) max_ack_ranges
        then s.ranges ++ ((lowest, s.current_end) ∷ [])
        else s.ranges)
    else s.ranges

pub start : ScanState
start = record { in_range = false; current_end = 0; diff = 0; ranges = [] }

pub get_ack_ranges : PacketWindow → List (ℕ × ℕ)
unfolding scan_words close start
get_ack_ranges t = elim t.highest_processed [
  | none ↦ []
  | some highest ↦ close highest (scan_words t.bitmask highest start)
]

-- The frame of `flush_acks` (src/transport/actor/packet_sender.rs).
pub ack_frame : PacketWindow → ℕ → ℕ → Frame
unfolding get_ack_ranges
ack_frame tracker local_window ack_delay =
    ack (highest_or_zero tracker.highest_processed) (local_window % 2 ^ 32) ack_delay
      (get_ack_ranges tracker)
