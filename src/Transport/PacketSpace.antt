-- ===== src/Transport/PacketSpace.antt =====
-- The packet number counter of `PacketSpace` (src/transport/state/space.rs), with the window of
-- unacknowledged packets. The crypto engine is a trait object and is left out.
use zetta_transport.Common.{ℕ, none, some, checked_add}
use zetta_transport.Error.{Result, ok, err, packet_number_overflow}
use zetta_transport.Transport.PacketWindow.{PacketWindow}
use zetta_transport.Transport.Unacked.{UnackedPacket}
use zetta_transport.Transport.UnackedWindow.{UnackedWindow}

pub record PacketSpace : Type 0 where
  pub next_packet_number : ℕ
  pub unacked_packets : UnackedWindow UnackedPacket
  pub replay_window : PacketWindow

-- The number to send under, and the space after it.
pub get_next_packet_number : PacketSpace → Result (ℕ × PacketSpace)
get_next_packet_number s = elim (checked_add s.next_packet_number 1) [
  | none ↦ err packet_number_overflow
  | some next ↦ ok (s.next_packet_number, record s { next_packet_number = next })
]
