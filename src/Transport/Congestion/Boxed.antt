-- ===== src/Transport/Congestion/Boxed.antt =====
-- `Box<dyn CongestionController>`: the two controllers of src/transport/congestion.rs behind the trait, chosen as
-- `new_with_config` (src/transport/connection.rs) does.
use zetta_transport.Common.{ℕ, ap, ◌+◌, ◌*◌, ◌^◌, ◌≤◌, ◌<◌, ◌≡◌, false, Option, List}
use zetta_transport.Config.{CongestionControlAlgorithm, cubic, reno}
use zetta_transport.Transport.Congestion.{
  CongestionController, RenoController, new_reno, reno_controller, recently, Event, run,
}
use zetta_transport.Transport.Congestion.Reno.{reno-IsLawful}
use zetta_transport.Transport.Congestion.Cubic.{
  Floats, CubicController, new_cubic, cubic_controller, beta_share,
}
use zetta_transport.Transport.Congestion.Cubic.Laws.{cubic-IsLawful}
use zetta_transport.Transport.Congestion.Laws.{
  IsLawful, growth, Sized, Within, lawful_bounds, lawful_reduces_once,
}

pub data Boxed (F : Type 0) : Type 0 where
  boxed_reno : RenoController → Boxed F
  boxed_cubic : CubicController F → Boxed F

module _ {F : Type 0} (f : Floats F) where
  unfoldable pub new_boxed : CongestionControlAlgorithm → (initial_cwnd mtu : ℕ) → Boxed F
  new_boxed cubic initial_cwnd mtu = boxed_cubic (new_cubic f initial_cwnd mtu)
  new_boxed reno initial_cwnd mtu = boxed_reno (new_reno initial_cwnd mtu)

  -- Which of the two methods a call on the box runs.
  abbrev pub boxed_acked : Boxed F → (bytes_acked rtt now : ℕ) → Boxed F
  boxed_acked (boxed_reno c) b rtt now = boxed_reno (reno_controller.on_packet_acked c b rtt now)
  boxed_acked (boxed_cubic c) b rtt now =
      boxed_cubic ((cubic_controller f).on_packet_acked c b rtt now)

  abbrev pub boxed_event : Boxed F → (rtt now : ℕ) → Boxed F
  boxed_event (boxed_reno c) rtt now = boxed_reno (reno_controller.on_congestion_event c rtt now)
  boxed_event (boxed_cubic c) rtt now =
      boxed_cubic ((cubic_controller f).on_congestion_event c rtt now)

module _ {F : Type 0} where
  -- The fields of the controller in the box.
  abbrev pub boxed_cwnd : Boxed F → ℕ
  boxed_cwnd (boxed_reno c) = c.cwnd
  boxed_cwnd (boxed_cubic c) = c.cwnd

  abbrev pub boxed_ssthresh : Boxed F → ℕ
  boxed_ssthresh (boxed_reno c) = c.ssthresh
  boxed_ssthresh (boxed_cubic c) = c.ssthresh

  abbrev pub boxed_mtu : Boxed F → ℕ
  boxed_mtu (boxed_reno c) = c.mtu
  boxed_mtu (boxed_cubic c) = c.mtu

  abbrev pub boxed_last_loss : Boxed F → Option ℕ
  boxed_last_loss (boxed_reno c) = c.last_congestion_time
  boxed_last_loss (boxed_cubic c) = c.last_congestion_time

  abbrev set_boxed_cwnd : Boxed F → ℕ → Boxed F
  set_boxed_cwnd (boxed_reno c) n = boxed_reno (record c { cwnd = n })
  set_boxed_cwnd (boxed_cubic c) n = boxed_cubic (record c { cwnd = n })

  abbrev set_boxed_ssthresh : Boxed F → ℕ → Boxed F
  set_boxed_ssthresh (boxed_reno c) n = boxed_reno (record c { ssthresh = n })
  set_boxed_ssthresh (boxed_cubic c) n = boxed_cubic (record c { ssthresh = n })

  abbrev set_boxed_mtu : Boxed F → ℕ → Boxed F
  set_boxed_mtu (boxed_reno c) n = boxed_reno (record c { mtu = n })
  set_boxed_mtu (boxed_cubic c) n = boxed_cubic (record c { mtu = n })

module _ {F : Type 0} (f : Floats F) where
  abbrev pub boxed_controller : CongestionController (Boxed F)
  boxed_controller = record {
    on_packet_sent = λ c pn bytes sent_at. c;
    on_packet_acked = boxed_acked f;
    on_congestion_event = boxed_event f;
    cwnd = boxed_cwnd;
    ssthresh = boxed_ssthresh;
    set_cwnd = set_boxed_cwnd;
    set_ssthresh = set_boxed_ssthresh;
    set_mtu = set_boxed_mtu;
  }

  -- Acknowledgements and losses, one after the other.
  abbrev pub run_boxed : Boxed F → List Event → Boxed F
  run_boxed = run ⦃cc = boxed_controller⦄

  -- The box keeps the laws, since what it holds does.
  boxed-IsLawful :
      ((cwnd : ℕ) → beta_share f cwnd ≤ cwnd)
      → IsLawful (Boxed F) boxed_controller boxed_mtu boxed_last_loss
  boxed-IsLawful small (boxed_reno c) =
      let l = reno-IsLawful c in
      record {
        acked_grows = l.acked_grows;
        acked_keeps = l.acked_keeps;
        lost_suppressed = λ rtt now e. ap boxed_reno (l.lost_suppressed rtt now e);
        lost_reduces = l.lost_reduces;
      }
  boxed-IsLawful small (boxed_cubic c) =
      let l = cubic-IsLawful f small c in
      record {
        acked_grows = l.acked_grows;
        acked_keeps = l.acked_keeps;
        lost_suppressed = λ rtt now e. ap boxed_cubic (l.lost_suppressed rtt now e);
        lost_reduces = l.lost_reduces;
      }

  -- For Reno, and for Cubic where the floating point share of a window is at most the window: while the
  -- MTU stands, a window of two segments or more keeps two segments, and exceeds its start by no
  -- more than the bytes acknowledged and one byte for each acknowledgement, whatever the losses and
  -- whenever they come. Neither that sum nor the MTU times an acknowledgement may overflow a word.
  pub run-bounds :
      ((cwnd : ℕ) → beta_share f cwnd ≤ cwnd)
      → (c : Boxed F) (es : List Event) → boxed_mtu c * 2 ≤ boxed_cwnd c
      → boxed_cwnd c + growth es < 2 ^ 64
      → Sized (boxed_mtu c) es
      → (boxed_mtu c * 2 ≤ boxed_cwnd (run_boxed c es))
        × (boxed_cwnd (run_boxed c es) ≤ boxed_cwnd c + growth es)
  run-bounds small c es = lawful_bounds ⦃cc = boxed_controller⦄ (boxed-IsLawful small) c es

  -- For Reno, and for Cubic where the floating point share of a window is at most the window: a loss at
  -- `t`, a round trip or more after the last reduction, sets the window to the slow start threshold,
  -- and no further loss within a round trip of `t` reduces it again, so that it only grows until then. The
  -- window has two segments or more, and neither its growth nor the MTU times an acknowledgement
  -- overflows a word.
  pub reduce_once :
      ((cwnd : ℕ) → beta_share f cwnd ≤ cwnd)
      → (c : Boxed F) (rtt t : ℕ) (es : List Event) → recently (boxed_last_loss c) rtt t ≡ false
      → Within t es
      → (boxed_mtu c * 2 ≤ boxed_cwnd c)
        × (boxed_cwnd c + growth es < 2 ^ 64)
        × Sized (boxed_mtu c) es
      → let d = boxed_event f c rtt t in
        (boxed_cwnd d ≡ boxed_ssthresh d) × (boxed_cwnd d ≤ boxed_cwnd (run_boxed d es))
  reduce_once small c rtt t es =
      lawful_reduces_once ⦃cc = boxed_controller⦄ (boxed-IsLawful small) c rtt t es
