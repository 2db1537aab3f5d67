-- ===== src/Transport/Connection/Ack/InFlight.antt =====
-- The accounting of the bytes in flight in `handle_ack` (src/transport/congestion.rs).
use zetta_transport.Common.{
  ℕ, zero, suc, ◌+◌, ◌-◌, ◌<◌, ◌^◌, ◌≡◌, ap, sym, ◌∙◌, arith, Bool, false, List, [], ◌∷◌, Option,
  none, some, option_holds, length,
}
use zetta_transport.Common.{max, min, saturating_add}
use zetta_transport.Transport.Congestion.{CongestionController, wrap}
use zetta_transport.Transport.UnackedWindow.{UnackedWindow, remove}
use zetta_transport.Transport.UnackedWindow
use zetta_transport.Transport.UnackedWindow.Weight.{bytes_of, weight, weight-remove}
use zetta_transport.Transport.Unacked.{UnackedPacket}
use zetta_transport.Transport.Connection.{ZtConnection}
use zetta_transport.Transport.Connection.Tally.{
  Tally, none_acked, credit, Losses, numbers_below, lost_numbers,
}
use zetta_transport.Transport.Connection.Ack.{
  confirm_probe, ack_one, ack_numbers, ack_range, ack_ranges, acknowledge, detect_losses,
  ack_cumulative, lose_one, lose, settle, handle_ack,
}
use zetta_transport.Transport.Connection.Ack.Frame.{
  SameFlight, confirm_probe_frame, lose_one_frame, settle_frame,
}

-- The bytes that a packet was sent in.
abbrev pub sent : UnackedPacket → ℕ
sent up = up.sent_bytes

module _ {C K F : Type 0} ⦃controller : CongestionController C⦄ where
  -- The counter is the bytes of the packets in flight, and `acked` bytes that are still to be taken off.
  pub record Balanced (acked : ℕ) (c : ZtConnection C K F) : Type 0 where
    pub balance : c.bytes_in_flight ≡ weight sent (c.unacked_packets).deque + acked
    pub in_range : c.bytes_in_flight < 2 ^ 64

  abbrev pub without : ℕ → ZtConnection C K F → ZtConnection C K F
  without pn c = record c { unacked_packets = (remove c.unacked_packets pn).1 }

  same-Balanced : (n : ℕ) (c d : ZtConnection C K F) → SameFlight c d → Balanced n c → Balanced n d
  same-Balanced n c d s b = record {
    balance =
        s.1
        ∙ b.balance
        ∙ ap (λ (w : UnackedWindow UnackedPacket). weight sent w.deque + n) (sym s.0);
    in_range = omega (arith, s.1, b.in_range);
  }

  -- Taking one packet out of the queue moves its bytes from the queue to the account.
  moved :
      (pn n : ℕ) (c : ZtConnection C K F) (o : Option UnackedPacket)
      → Balanced n c
      → (remove c.unacked_packets pn).0 ≡ o
      → c.bytes_in_flight
        ≡ weight sent ((without pn c).unacked_packets).deque + (n + bytes_of sent o)
  moved pn n c o b e =
      omega (arith, b.balance, weight-remove sent c.unacked_packets pn, ap (bytes_of sent) e)

  credited :
      (now pn : ℕ) (c : ZtConnection C K F) (t : Tally) (up : UnackedPacket)
      → Balanced t.bytes_in_flight_acked c
      → (remove c.unacked_packets pn).0 ≡ some up
      → Balanced (credit now up t).bytes_in_flight_acked (without pn c)
  credited now pn c t up b e = record {
    balance = omega (arith, b.in_range, moved pn t.bytes_in_flight_acked c (some up) b e);
    in_range = b.in_range;
  }

  ack_one-Balanced :
      (now pn : ℕ) (c : ZtConnection C K F) (t : Tally)
      → Balanced t.bytes_in_flight_acked c
      → Balanced ((ack_one now pn c t).1).bytes_in_flight_acked (ack_one now pn c t).0
  unfolding ack_one
  ack_one-Balanced now pn c t b =
      option_holds (λ (r : ZtConnection C K F × Tally). Balanced (r.1).bytes_in_flight_acked r.0)
        (remove c.unacked_packets pn).0
        (λ e. record {
          balance = omega (arith, moved pn t.bytes_in_flight_acked c none b e);
          in_range = b.in_range;
        })
        (λ up e.
          same-Balanced (credit now up t).bytes_in_flight_acked (without pn c)
            (confirm_probe (without pn c) pn up) (confirm_probe_frame (without pn c) pn up)
            (credited now pn c t up b e))

  ack_numbers-Balanced :
      (now n pn : ℕ) (c : ZtConnection C K F) (t : Tally)
      → Balanced t.bytes_in_flight_acked c
      → Balanced ((ack_numbers now n pn c t).1).bytes_in_flight_acked (ack_numbers now n pn c t).0
  unfolding ack_numbers
  ack_numbers-Balanced now zero pn c t b = b
  ack_numbers-Balanced now (suc n) pn c t b =
      ack_numbers-Balanced now n (pn + 1) (ack_one now pn c t).0 (ack_one now pn c t).1
        (ack_one-Balanced now pn c t b)

  ack_range-Balanced :
      (now : ℕ) (e : ℕ × ℕ) (c : ZtConnection C K F) (t : Tally)
      → Balanced t.bytes_in_flight_acked c
      → Balanced ((ack_range now e c t).1).bytes_in_flight_acked (ack_range now e c t).0
  unfolding ack_range
  ack_range-Balanced now e c t b =
      let lower = max e.0 (c.unacked_packets).base_pn in
      let upper = min e.1 (wrap ((c.unacked_packets).base_pn + length (c.unacked_packets).deque)) in
      ack_numbers-Balanced now (upper + 1 - lower) lower c t b

  ack_ranges-Balanced :
      (now : ℕ) (es : List (ℕ × ℕ)) (c : ZtConnection C K F) (t : Tally)
      → Balanced t.bytes_in_flight_acked c
      → Balanced ((ack_ranges now es c t).1).bytes_in_flight_acked (ack_ranges now es c t).0
  unfolding ack_ranges
  ack_ranges-Balanced now [] c t b = b
  ack_ranges-Balanced now (e ∷ es) c t b =
      ack_ranges-Balanced now es (ack_range now e c t).0 (ack_range now e c t).1
        (ack_range-Balanced now e c t b)

  ack_cumulative-Balanced :
      (now : ℕ) (pns : List ℕ) (c : ZtConnection C K F) (t : Tally)
      → Balanced t.bytes_in_flight_acked c
      → Balanced
          ((ack_cumulative now pns c t).1).bytes_in_flight_acked
          (ack_cumulative now pns c t).0
  unfolding ack_cumulative
  ack_cumulative-Balanced now [] c t b = b
  ack_cumulative-Balanced now (pn ∷ pns) c t b =
      option_holds (λ (r : ZtConnection C K F × Tally). Balanced (r.1).bytes_in_flight_acked r.0)
        (remove c.unacked_packets pn).0
        (λ e. ack_cumulative-Balanced now pns (without pn c) t (record {
          balance = omega (arith, moved pn t.bytes_in_flight_acked c none b e);
          in_range = b.in_range;
        }))
        (λ up e.
          ack_cumulative-Balanced now pns (without pn c) (credit now up t)
            (credited now pn c t up b e))

  -- A packet taken for lost leaves the counter at once.
  landed :
      (pn n : ℕ) (c : ZtConnection C K F) (up : UnackedPacket)
      → Balanced n c
      → (remove c.unacked_packets pn).0 ≡ some up
      → Balanced n (record (without pn c) { bytes_in_flight = c.bytes_in_flight - up.sent_bytes })
  landed pn n c up b e = record {
    balance = omega (arith, moved pn n c (some up) b e);
    in_range = omega (arith, b.in_range);
  }

  lose-Balanced :
      (pns : List ℕ) (n : ℕ) (c : ZtConnection C K F) (l : Losses)
      → Balanced n c
      → Balanced n (lose pns c l).0
  unfolding lose
  lose-Balanced [] n c l b = b
  lose-Balanced (pn ∷ pns) n c l b =
      option_holds (λ (r : ZtConnection C K F × Losses). Balanced n r.0)
        (remove c.unacked_packets pn).0
        (λ e.
          lose-Balanced pns n (without pn c) l
            (record { balance = omega (arith, moved pn n c none b e); in_range = b.in_range }))
        (λ up e.
          lose-Balanced pns n (lose_one pn up (without pn c) l).0
            (lose_one pn up (without pn c) l).1
            (same-Balanced n
              (record (without pn c) { bytes_in_flight = c.bytes_in_flight - up.sent_bytes })
              (lose_one pn up (without pn c) l).0 (lose_one_frame pn up (without pn c) l)
              (landed pn n c up b e)))

  settle-Balanced :
      (now window_size delay : ℕ) (t : Tally) (d : Bool) (c : ZtConnection C K F)
      → Balanced t.bytes_in_flight_acked c
      → Balanced 0 (settle now window_size delay t d c)
  settle-Balanced now window_size delay t d c b =
      same-Balanced 0 (record c { bytes_in_flight = c.bytes_in_flight - t.bytes_in_flight_acked })
        (settle now window_size delay t d c) (settle_frame now window_size delay t d c)
        (record { balance = omega (arith, b.balance); in_range = omega (arith, b.in_range) })

  acknowledge-Balanced :
      (now largest : ℕ) (ranges : List (ℕ × ℕ)) (c : ZtConnection C K F)
      → Balanced 0 c
      → Balanced
          ((acknowledge now largest ranges c).1).bytes_in_flight_acked
          (acknowledge now largest ranges c).0
  unfolding acknowledge
  acknowledge-Balanced now largest ranges c b =
      let r = ack_ranges now ranges c none_acked in
      ack_cumulative-Balanced now
        (numbers_below (largest - 2047) (UnackedWindow.iter (r.0).unacked_packets)) r.0 r.1
        (ack_ranges-Balanced now ranges c none_acked b)

  detect_losses-Balanced :
      (scaled : ℕ → ℕ) (now largest n : ℕ) (c : ZtConnection C K F)
      → Balanced n c
      → Balanced n (detect_losses scaled now largest c).0
  unfolding detect_losses
  detect_losses-Balanced scaled now largest n c b =
      let pns =
        lost_numbers largest now (max (scaled c.rtt) 15000000)
          (UnackedWindow.iter c.unacked_packets) in
      lose-Balanced pns n (record c { packets_lost = saturating_add c.packets_lost (length pns) })
        (record { fast_retransmits = []; loss_detected = false })
        (record { balance = b.balance; in_range = b.in_range })

  -- If the counter of the bytes in flight is the sum of the sizes of the tracked packets, it is so again
  -- after any acknowledgement frame, whatever its ranges: every packet that the frame acknowledges or
  -- that is taken for lost is taken off once.
  pub handle_ack-Balanced :
      (scaled : ℕ → ℕ) (now largest_acked_pn window_size delay : ℕ) (ranges : List (ℕ × ℕ))
      (c : ZtConnection C K F)
      → Balanced 0 c
      → Balanced 0 (handle_ack scaled now largest_acked_pn window_size delay ranges c).0
  unfolding handle_ack
  handle_ack-Balanced scaled now largest_acked_pn window_size delay ranges c b =
      let a = acknowledge now largest_acked_pn ranges c in
      let l = detect_losses scaled now largest_acked_pn a.0 in
      settle-Balanced now window_size delay a.1 (l.1).loss_detected l.0 (
        detect_losses-Balanced scaled now largest_acked_pn (a.1).bytes_in_flight_acked a.0
          (acknowledge-Balanced now largest_acked_pn ranges c b))
