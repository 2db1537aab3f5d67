-- ===== src/Transport/Congestion/Reno.antt =====
-- `RenoController` (src/transport/congestion.rs) keeps the laws of a controller.
use zetta_transport.Common.{ℕ, ◌*◌, ◌≤◌, arith, ◌/◌, max}
use native.Mathlib.Nat.{div-le_of_le-mul, mul-le-mul_right}
use zetta_transport.Transport.Congestion.{
  RenoController, reno_packet_acked, reno_congestion_event, reno_controller,
}
use zetta_transport.Transport.Congestion.Laws.{IsLawful}

-- The share `m / d` of `b` is at most `b` where `m` is at most `d`.
pub share_le : (m b d : ℕ) → m ≤ d → m * b / d ≤ b
share_le m b d h = div-le_of_le-mul d (mul-le-mul_right b h)

pub reno-IsLawful :
    IsLawful RenoController reno_controller (λ c. c.mtu) (λ c. c.last_congestion_time)
unfolding reno_packet_acked reno_congestion_event
reno-IsLawful c = record {
  acked_grows = λ b rtt now p q. ground (arith, share_le c.mtu b (max c.cwnd c.mtu));
  acked_keeps = λ b rtt now. ground arith;
  lost_suppressed = λ rtt now e. ground arith;
  lost_reduces = λ rtt now p e. ground arith;
}
