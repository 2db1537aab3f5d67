-- ===== src/Transport/ReplayWindow.antt =====
-- `ReplayWindow` (src/transport/state/replay_window.rs): the state and its update are those of
-- PacketWindow.
pub mod History
pub mod Tests
use zetta_transport.Common.{ℕ, ◌-◌, ◌/◌, ◌%◌, ◌^◌, Option, none, some, Bool, true, false, not}
use zetta_transport.Common.{leb, ◌==◌, if◌then◌else◌, bit_and}
use zetta_transport.Transport.PacketWindow.{PacketWindow, word}

pub is_replay : PacketWindow → ℕ → Bool
is_replay w pn = elim w.highest_processed [
  | none ↦ false
  | some highest ↦
      if leb pn highest
      then (let diff = highest - pn in
          if leb 2048 diff
          then true
          else not (bit_and (word w.bitmask (diff / 64)) (2 ^ (diff % 64)) == 0))
      else false
]
