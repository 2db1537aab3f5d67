-- ===== src/Transport/Connection/Ack/Tracked.antt =====
-- The packets that the acknowledging steps of `handle_ack` (src/transport/congestion.rs) go on tracking.

use zetta_transport.Common.{
  ℕ, zero, suc, ◌+◌, ◌-◌, ◌≤◌, ◌<◌, ◌≡◌, ◌≢◌, ◌⊎◌, refl, ap, ◌∙◌, arith, List, [], ◌∷◌, some, ltb,
  if_holds, option_holds, length, All, max, min,
}
use zetta_transport.Transport.Congestion.{CongestionController, wrap}
use zetta_transport.Transport.UnackedWindow.{UnackedWindow, remove, get_mut}
use zetta_transport.Transport.UnackedWindow
use zetta_transport.Transport.UnackedWindow.Map.{get_mut-remove}
use zetta_transport.Transport.Unacked.{UnackedPacket}
use zetta_transport.Transport.Connection.{ZtConnection}
use zetta_transport.Transport.Connection.Tally.{Tally, none_acked, credit, numbers_below}
use zetta_transport.Transport.Connection.Ack.{
  ack_one, ack_numbers, ack_range, ack_ranges, ack_cumulative, acknowledge,
}
use zetta_transport.Transport.Connection.Ack.Frame.{confirm_probe_frame}
use zetta_transport.Transport.Connection.Ack.InFlight.{without}

-- The number is in none of the ranges.
abbrev pub Outside : ℕ → List (ℕ × ℕ) → Type 0
Outside q = All (λ e. (q < e.0) ⊎ (e.1 < q))

numbers_below-All :
    (n q : ℕ) (es : List (ℕ × UnackedPacket)) → n ≤ q → All (λ pn. pn < q) (numbers_below n es)
unfolding numbers_below
numbers_below-All n q [] h = tt
numbers_below-All n q (e ∷ es) h =
    if_holds (All (λ (pn : ℕ). pn < q)) (ltb e.0 n)
      (λ low. (ground arith, numbers_below-All n q es h)) (λ high. tt)

module _ {C K F : Type 0} ⦃controller : CongestionController C⦄ where
  -- The connection tracks the packet under the number.
  abbrev pub Tracks : ℕ → UnackedPacket → ZtConnection C K F → Type 0
  Tracks q up c = get_mut c.unacked_packets q ≡ some up

  pub without-Tracks :
      (pn q : ℕ) (up : UnackedPacket) (c : ZtConnection C K F)
      → q ≢ pn
      → Tracks q up c
      → Tracks q up (without pn c)
  without-Tracks pn q up c ne h = ground (arith, get_mut-remove c.unacked_packets pn q)

  pub ack_one-unacked :
      (now pn : ℕ) (c : ZtConnection C K F) (t : Tally)
      → ((ack_one now pn c t).0).unacked_packets ≡ (without pn c).unacked_packets
  unfolding ack_one
  ack_one-unacked now pn c t =
      option_holds
        (λ (r : ZtConnection C K F × Tally). (r.0).unacked_packets ≡ (without pn c).unacked_packets)
        (remove c.unacked_packets pn).0 (λ e. refl)
        (λ up e. (confirm_probe_frame (without pn c) pn up).0)

  ack_numbers-Tracks :
      (now n pn q : ℕ) (up : UnackedPacket) (c : ZtConnection C K F) (t : Tally)
      → (q < pn) ⊎ (pn + n ≤ q)
      → Tracks q up c
      → Tracks q up (ack_numbers now n pn c t).0
  unfolding ack_numbers
  ack_numbers-Tracks now zero pn q up c t o h = h
  ack_numbers-Tracks now (suc n) pn q up c t o h =
      ack_numbers-Tracks now n (pn + 1) q up (ack_one now pn c t).0 (ack_one now pn c t).1
        (omega arith)
        (ap (λ (w : UnackedWindow UnackedPacket). get_mut w q) (ack_one-unacked now pn c t)
          ∙ without-Tracks pn q up c (omega arith) h)

  ack_range-Tracks :
      (now : ℕ) (e : ℕ × ℕ) (q : ℕ) (up : UnackedPacket) (c : ZtConnection C K F) (t : Tally)
      → (q < e.0) ⊎ (e.1 < q)
      → Tracks q up c
      → Tracks q up (ack_range now e c t).0
  unfolding ack_range
  ack_range-Tracks now e q up c t o h =
      let lower = max e.0 (c.unacked_packets).base_pn in
      let upper = min e.1 (wrap ((c.unacked_packets).base_pn + length (c.unacked_packets).deque)) in
      ack_numbers-Tracks now (upper + 1 - lower) lower q up c t (omega arith) h

  pub ack_ranges-Tracks :
      (now : ℕ) (es : List (ℕ × ℕ)) (q : ℕ) (up : UnackedPacket) (c : ZtConnection C K F)
      (t : Tally)
      → Outside q es
      → Tracks q up c
      → Tracks q up (ack_ranges now es c t).0
  unfolding ack_ranges
  ack_ranges-Tracks now [] q up c t o h = h
  ack_ranges-Tracks now (e ∷ es) q up c t o h =
      ack_ranges-Tracks now es q up (ack_range now e c t).0 (ack_range now e c t).1 o.1
        (ack_range-Tracks now e q up c t o.0 h)

  pub ack_cumulative-Tracks :
      (now : ℕ) (pns : List ℕ) (q : ℕ) (up : UnackedPacket) (c : ZtConnection C K F) (t : Tally)
      → All (λ pn. pn < q) pns
      → Tracks q up c
      → Tracks q up (ack_cumulative now pns c t).0
  unfolding ack_cumulative
  ack_cumulative-Tracks now [] q up c t o h = h
  ack_cumulative-Tracks now (pn ∷ pns) q up c t o h =
      option_holds (λ (r : ZtConnection C K F × Tally). Tracks q up r.0)
        (remove c.unacked_packets pn).0
        (λ e.
          ack_cumulative-Tracks now pns q up (without pn c) t o.1
            (without-Tracks pn q up c (omega arith) h))
        (λ old e.
          ack_cumulative-Tracks now pns q up (without pn c) (credit now old t) o.1
            (without-Tracks pn q up c (omega arith) h))

  -- Neither loop over acknowledged numbers drops a packet outside of the ranges that is not too old.
  pub acknowledge-Tracks :
      (now largest : ℕ) (ranges : List (ℕ × ℕ)) (q : ℕ) (up : UnackedPacket)
      (c : ZtConnection C K F)
      → Outside q ranges
      → largest ≤ q + 2047
      → Tracks q up c
      → Tracks q up (acknowledge now largest ranges c).0
  unfolding acknowledge
  acknowledge-Tracks now largest ranges q up c o near h =
      let r = ack_ranges now ranges c none_acked in
      ack_cumulative-Tracks now
        (numbers_below (largest - 2047) (UnackedWindow.iter (r.0).unacked_packets)) q up r.0 r.1
        (numbers_below-All (largest - 2047) q (UnackedWindow.iter (r.0).unacked_packets)
          (omega arith))
        (ack_ranges-Tracks now ranges q up c none_acked o h)
