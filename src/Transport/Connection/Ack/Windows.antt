-- ===== src/Transport/Connection/Ack/Windows.antt =====
-- What holds of the window of packets and the next number, and is kept by removals, is kept by `handle_ack`
-- (src/transport/congestion.rs).
use mathlib.Core.Path.{subst⁻¹}
use zetta_transport.Common.{
  ℕ, zero, suc, ◌+◌, ◌-◌, List, [], ◌∷◌, option_holds, length, max, min, saturating_add, false,
}
use zetta_transport.Transport.Congestion.{CongestionController, wrap}
use zetta_transport.Transport.UnackedWindow.{UnackedWindow, remove}
use zetta_transport.Transport.UnackedWindow
use zetta_transport.Transport.Unacked.{UnackedPacket}
use zetta_transport.Transport.Connection.{ZtConnection}
use zetta_transport.Transport.Connection.Tally.{
  Tally, none_acked, credit, Losses, numbers_below, lost_numbers,
}
use zetta_transport.Transport.Connection.Ack.{
  confirm_probe, ack_one, ack_numbers, ack_range, ack_ranges, ack_cumulative, acknowledge, lose_one,
  lose, detect_losses, settle, handle_ack,
}
use zetta_transport.Transport.Connection.Ack.Frame.{
  SameFlight, confirm_probe_frame, lose_one_frame, settle_frame,
}
use zetta_transport.Transport.Connection.Ack.InFlight.{without}

module _ {C K F : Type 0} ⦃controller : CongestionController C⦄
    (P : UnackedWindow UnackedPacket → ℕ → Type 0)
    (keep : (w : UnackedWindow UnackedPacket) (pn n : ℕ) → P w n → P (remove w pn).1 n) where
  abbrev Holds : ZtConnection C K F → Type 0
  Holds c = P c.unacked_packets c.next_packet_number

  frame-Holds : (c d : ZtConnection C K F) → SameFlight c d → Holds c → Holds d
  frame-Holds c d s h =
      subst⁻¹ (λ w. P w d.next_packet_number) s.0 (subst⁻¹ (P c.unacked_packets) s.2 h)

  without-Holds : (pn : ℕ) (c : ZtConnection C K F) → Holds c → Holds (without pn c)
  without-Holds pn c h = keep c.unacked_packets pn c.next_packet_number h

  ack_one-Holds :
      (now pn : ℕ) (c : ZtConnection C K F) (t : Tally) → Holds c → Holds (ack_one now pn c t).0
  unfolding ack_one
  ack_one-Holds now pn c t h =
      option_holds (λ (r : ZtConnection C K F × Tally). Holds r.0) (remove c.unacked_packets pn).0
        (λ e. without-Holds pn c h)
        (λ up e.
          frame-Holds (without pn c) (confirm_probe (without pn c) pn up)
            (confirm_probe_frame (without pn c) pn up) (without-Holds pn c h))

  ack_numbers-Holds :
      (now n pn : ℕ) (c : ZtConnection C K F) (t : Tally)
      → Holds c
      → Holds (ack_numbers now n pn c t).0
  unfolding ack_numbers
  ack_numbers-Holds now zero pn c t h = h
  ack_numbers-Holds now (suc n) pn c t h =
      ack_numbers-Holds now n (pn + 1) (ack_one now pn c t).0 (ack_one now pn c t).1
        (ack_one-Holds now pn c t h)

  ack_range-Holds :
      (now : ℕ) (e : ℕ × ℕ) (c : ZtConnection C K F) (t : Tally)
      → Holds c
      → Holds (ack_range now e c t).0
  unfolding ack_range
  ack_range-Holds now e c t h =
      let lower = max e.0 (c.unacked_packets).base_pn in
      let upper = min e.1 (wrap ((c.unacked_packets).base_pn + length (c.unacked_packets).deque)) in
      ack_numbers-Holds now (upper + 1 - lower) lower c t h

  ack_ranges-Holds :
      (now : ℕ) (es : List (ℕ × ℕ)) (c : ZtConnection C K F) (t : Tally)
      → Holds c
      → Holds (ack_ranges now es c t).0
  unfolding ack_ranges
  ack_ranges-Holds now [] c t h = h
  ack_ranges-Holds now (e ∷ es) c t h =
      ack_ranges-Holds now es (ack_range now e c t).0 (ack_range now e c t).1
        (ack_range-Holds now e c t h)

  ack_cumulative-Holds :
      (now : ℕ) (pns : List ℕ) (c : ZtConnection C K F) (t : Tally)
      → Holds c
      → Holds (ack_cumulative now pns c t).0
  unfolding ack_cumulative
  ack_cumulative-Holds now [] c t h = h
  ack_cumulative-Holds now (pn ∷ pns) c t h =
      option_holds (λ (r : ZtConnection C K F × Tally). Holds r.0) (remove c.unacked_packets pn).0
        (λ e. ack_cumulative-Holds now pns (without pn c) t (without-Holds pn c h))
        (λ up e.
          ack_cumulative-Holds now pns (without pn c) (credit now up t) (without-Holds pn c h))

  lose-Holds :
      (pns : List ℕ) (c : ZtConnection C K F) (l : Losses) → Holds c → Holds (lose pns c l).0
  unfolding lose
  lose-Holds [] c l h = h
  lose-Holds (pn ∷ pns) c l h =
      option_holds (λ (r : ZtConnection C K F × Losses). Holds r.0) (remove c.unacked_packets pn).0
        (λ e. lose-Holds pns (without pn c) l (without-Holds pn c h))
        (λ up e.
          lose-Holds pns (lose_one pn up (without pn c) l).0 (lose_one pn up (without pn c) l).1 (
            frame-Holds
              (record (without pn c) { bytes_in_flight = c.bytes_in_flight - up.sent_bytes })
              (lose_one pn up (without pn c) l).0 (lose_one_frame pn up (without pn c) l)
              (without-Holds pn c h)))

  pub handle_ack-Holds :
      (scaled : ℕ → ℕ) (now largest window_size delay : ℕ) (ranges : List (ℕ × ℕ))
      (c : ZtConnection C K F)
      → P c.unacked_packets c.next_packet_number
      → let d = (handle_ack scaled now largest window_size delay ranges c).0 in
        P d.unacked_packets d.next_packet_number
  unfolding handle_ack acknowledge detect_losses
  handle_ack-Holds scaled now largest window_size delay ranges c h =
      let r = ack_ranges now ranges c none_acked in
      let a = acknowledge now largest ranges c in
      let l = detect_losses scaled now largest a.0 in
      let pns =
        lost_numbers largest now (max (scaled (a.0).rtt) 15000000)
          (UnackedWindow.iter (a.0).unacked_packets) in
      frame-Holds
        (record l.0 { bytes_in_flight = (l.0).bytes_in_flight - (a.1).bytes_in_flight_acked })
        (settle now window_size delay a.1 (l.1).loss_detected l.0)
        (settle_frame now window_size delay a.1 (l.1).loss_detected l.0)
        (lose-Holds pns
          (record a.0 { packets_lost = saturating_add (a.0).packets_lost (length pns) })
          (record { fast_retransmits = []; loss_detected = false })
          (ack_cumulative-Holds now
            (numbers_below (largest - 2047) (UnackedWindow.iter (r.0).unacked_packets)) r.0 r.1
            (ack_ranges-Holds now ranges c none_acked h)))
