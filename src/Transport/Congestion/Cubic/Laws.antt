-- ===== src/Transport/Congestion/Cubic/Laws.antt =====
-- `CubicController` (src/transport/congestion.rs) keeps the laws of a controller, where the share of the
-- window that floating point computes is no larger than the window.
use zetta_transport.Common.{ℕ, ◌+◌, ◌*◌, ◌^◌, ◌≤◌, ◌<◌, ◌≡◌, refl, arith, max, ltb, if_holds}
use zetta_transport.Transport.Congestion.Laws.{IsLawful}
use zetta_transport.Transport.Congestion.Reno.{share_le}
use zetta_transport.Transport.Congestion.Cubic.{
  Floats, CubicController, beta_share, due, retarget, grow, cubic_packet_acked,
  cubic_congestion_event, cubic_controller,
}

module _ {F : Type 0} (f : Floats F) where
  -- What retargeting and growing keep, besides the window.
  abbrev Keeps : CubicController F → CubicController F → Type 0
  Keeps c d = (d.mtu ≡ c.mtu) × (d.last_congestion_time ≡ c.last_congestion_time)

  retarget-Keeps :
      (c : CubicController F) (rtt now : ℕ)
      → Keeps c (retarget f c rtt now) × ((retarget f c rtt now).cwnd ≡ c.cwnd)
  unfolding retarget
  retarget-Keeps c rtt now =
      if_holds (λ (d : CubicController F). Keeps c d × (d.cwnd ≡ c.cwnd))
        (due c.last_cubic_update rtt now) (λ e. ((refl, refl), refl)) (λ e. ((refl, refl), refl))

  grow_bounds :
      (c : CubicController F) (b : ℕ)
      → c.mtu * b < 2 ^ 64
      → c.cwnd + b + 1 < 2 ^ 64
      → (c.cwnd ≤ (grow f c b).cwnd) × ((grow f c b).cwnd ≤ c.cwnd + max b 1)
  unfolding grow
  grow_bounds c b p q = ground (arith, share_le c.mtu b (max c.cwnd c.mtu))

  grow-Keeps : (c : CubicController F) (b : ℕ) → Keeps c (grow f c b)
  unfolding grow
  grow-Keeps c b =
      if_holds (Keeps c) (ltb c.cwnd c.target_cwnd) (λ e. (refl, refl)) (λ e. (refl, refl))

  pub cubic-IsLawful :
      ((cwnd : ℕ) → beta_share f cwnd ≤ cwnd)
      → IsLawful (CubicController F) (cubic_controller f) (λ c. c.mtu) (λ c. c.last_congestion_time)
  unfolding cubic_packet_acked cubic_congestion_event
  cubic-IsLawful small c = record {
    acked_grows = λ b rtt now p q.
        ground (arith, retarget-Keeps c rtt now, grow_bounds (retarget f c rtt now) b);
    acked_keeps = λ b rtt now.
        if_holds (Keeps c) (ltb c.cwnd c.ssthresh) (λ e. (refl, refl))
          (λ e. ground (arith, grow-Keeps (retarget f c rtt now) b, retarget-Keeps c rtt now));
    lost_suppressed = λ rtt now e. ground arith;
    lost_reduces = λ rtt now p e. ground (arith, small c.cwnd);
  }
