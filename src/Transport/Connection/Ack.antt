-- ===== src/Transport/Connection/Ack.antt =====
-- `handle_ack`, `is_replay` and `mark_processed` of src/transport/congestion.rs. The clock is read once, as
-- `now`; `rtt.mul_f64(1.25)` is the parameter `scaled`.
pub mod Frame
pub mod InFlight
pub mod Windows
pub mod Tracked
pub mod Reliable
pub mod RoundTrip
pub mod Forgotten
pub mod Tests
use zetta_transport.Common.{
  ℕ, zero, suc, ◌+◌, ◌-◌, ◌*◌, ◌/◌, max, min, Bool, true, false, ◌&&◌, ◌||◌, not, List, [], ◌∷◌,
  ◌++◌, Option, none, some, ltb, leb, ◌==◌, if◌then◌else◌, saturating_add, length,
}
use zetta_transport.Transport.Congestion.{CongestionController, wrap}
use zetta_transport.Transport.PacketWindow
use zetta_transport.Transport.ReplayWindow
use zetta_transport.Transport.UnackedWindow.{UnackedWindow, is_some}
use zetta_transport.Transport.UnackedWindow
use zetta_transport.Transport.Unacked.{
  UnackedPayload, UnackedPacket, payload_len, initial, stream, mtu_probe, stream_close,
  max_stream_data, reset_stream, close, connection_close_v2, datagram,
}
use zetta_transport.Transport.StreamState.{signal_all}
use zetta_transport.Transport.Connection.{
  ZtConnection, record_mtu_probe_success, record_mtu_probe_failure,
}
use zetta_transport.Transport.Connection.Tally.{
  Tally, none_acked, credit, has_probe, remove_probe, numbers_below, lost_numbers, is_datagram,
  without_delay, abs_diff, Losses,
}

module _ {C K F : Type 0} ⦃controller : CongestionController C⦄ where
  -- A probe that arrived raises the MTU.
  pub confirm_probe : ZtConnection C K F → ℕ → UnackedPacket → ZtConnection C K F
  unfolding record_mtu_probe_success
  confirm_probe c pn up =
      let removed = record c { mtu_probes = remove_probe c.mtu_probes pn } in
      if up.is_mtu_probe
      then (if has_probe c.mtu_probes pn && ltb c.mtu (payload_len up.payload)
          then record_mtu_probe_success removed (payload_len up.payload)
          else removed)
      else c

  -- One round of the loop over a selective range.
  pub ack_one : (now pn : ℕ) → ZtConnection C K F → Tally → ZtConnection C K F × Tally
  unfolding confirm_probe
  ack_one now pn c t =
      let r = UnackedWindow.remove c.unacked_packets pn in
      let removed = record c { unacked_packets = r.1 } in
      elim r.0 [ none ↦ (removed, t) | some up ↦ (confirm_probe removed pn up, credit now up t) ]

  -- `n` rounds, from the number `pn` on.
  pub ack_numbers : (now n pn : ℕ) → ZtConnection C K F → Tally → ZtConnection C K F × Tally
  unfolding ack_one
  ack_numbers now zero pn c t = (c, t)
  ack_numbers now (suc n) pn c t = let r = ack_one now pn c t in ack_numbers now n (pn + 1) r.0 r.1

  -- One selective range, cut to the numbers that the window covers.
  pub ack_range : (now : ℕ) → ℕ × ℕ → ZtConnection C K F → Tally → ZtConnection C K F × Tally
  unfolding ack_numbers
  ack_range now e c t =
      let lower = max e.0 (c.unacked_packets).base_pn in
      let upper = min e.1 (wrap ((c.unacked_packets).base_pn + length (c.unacked_packets).deque)) in
      ack_numbers now (upper + 1 - lower) lower c t

  pub ack_ranges :
      (now : ℕ) → List (ℕ × ℕ) → ZtConnection C K F → Tally → ZtConnection C K F × Tally
  unfolding ack_range
  ack_ranges now [] c t = (c, t)
  ack_ranges now (e ∷ es) c t = let r = ack_range now e c t in ack_ranges now es r.0 r.1

  -- The loop over `cumulative_acked`
  pub ack_cumulative : (now : ℕ) → List ℕ → ZtConnection C K F → Tally → ZtConnection C K F × Tally
  ack_cumulative now [] c t = (c, t)
  ack_cumulative now (pn ∷ pns) c t =
      let r = UnackedWindow.remove c.unacked_packets pn in
      let removed = record c { unacked_packets = r.1 } in
      elim r.0 [
        | none ↦ ack_cumulative now pns removed t
        | some up ↦ ack_cumulative now pns removed (credit now up t)
      ]

  pub fail_probe : ZtConnection C K F → ℕ → UnackedPayload → ZtConnection C K F
  unfolding record_mtu_probe_failure
  fail_probe c pn (mtu_probe target_size) =
      record_mtu_probe_failure (record c { mtu_probes = remove_probe c.mtu_probes pn }) target_size
  fail_probe c pn _ = record c { mtu_probes = remove_probe c.mtu_probes pn }

  pub lose_one : ℕ → UnackedPacket → ZtConnection C K F → Losses → ZtConnection C K F × Losses
  unfolding fail_probe
  lose_one pn up c l =
      let landed = record c { bytes_in_flight = c.bytes_in_flight - up.sent_bytes } in
      if up.is_mtu_probe
      then (fail_probe landed pn up.payload, l)
      else if is_datagram up.payload
      then (landed, record l { loss_detected = true })
      else (
        landed,
        record {
          fast_retransmits = l.fast_retransmits ++ ((up.payload, up.retries) ∷ []);
          loss_detected = true;
        },
      )

  pub lose : List ℕ → ZtConnection C K F → Losses → ZtConnection C K F × Losses
  unfolding lose_one
  lose [] c l = (c, l)
  lose (pn ∷ pns) c l =
      let r = UnackedWindow.remove c.unacked_packets pn in
      let removed = record c { unacked_packets = r.1 } in
      elim r.0 [
        | none ↦ lose pns removed l
        | some up ↦ (let next = lose_one pn up removed l in lose pns next.0 next.1)
      ]

  -- The smoothed round trip time after a sample.
  pub update_rtt : ZtConnection C K F → (sample ack_delay_us : ℕ) → ZtConnection C K F
  update_rtt c sample ack_delay_us =
      let rtt = without_delay sample (ack_delay_us * 1000) in
      if c.rtt_initialized
      then (let error = abs_diff c.rtt rtt in
          record c { rttvar = (c.rttvar * 3 + error) / 4; rtt = (c.rtt * 7 + rtt) / 8 })
      else record c { rtt = rtt; rttvar = rtt / 2; rtt_initialized = true }

  -- `if loss_detected { cc.on_congestion_event(rtt, now) }`
  pub reduce_on_loss : (now : ℕ) → (loss_detected : Bool) → ZtConnection C K F → ZtConnection C K F
  reduce_on_loss now loss_detected c =
      if loss_detected then record c { cc = controller.on_congestion_event c.cc c.rtt now } else c

  pub take_sample : (ack_delay_us : ℕ) → Option ℕ → ZtConnection C K F → ZtConnection C K F
  unfolding update_rtt
  take_sample ack_delay_us none c = c
  take_sample ack_delay_us (some sample) c = update_rtt c sample ack_delay_us

  -- `if bytes_acked > 0 { cc.on_packet_acked(bytes_acked, rtt, now) }`
  pub grow_window : (now bytes_acked : ℕ) → ZtConnection C K F → ZtConnection C K F
  grow_window now bytes_acked c =
      if ltb 0 bytes_acked
      then record c { cc = controller.on_packet_acked c.cc bytes_acked c.rtt now }
      else c

  -- What follows the loops.
  pub settle :
      (now window_size ack_delay_us : ℕ)
      → Tally
      → (loss_detected : Bool) → ZtConnection C K F
      → ZtConnection C K F
  unfolding reduce_on_loss take_sample grow_window
  settle now window_size ack_delay_us t loss_detected c =
      let reduced = reduce_on_loss now loss_detected c in
      let landed = record reduced {
        bytes_in_flight = reduced.bytes_in_flight - t.bytes_in_flight_acked;
      } in
      let timed = take_sample ack_delay_us t.sample_rtt landed in
      let grown = grow_window now t.bytes_acked timed in
      record grown {
        remote_window = window_size;
        streams =
            if ltb grown.remote_window window_size || ltb 0 t.bytes_acked
            then signal_all grown.streams
            else grown.streams;
      }

  -- The first two steps: the selective ranges, then the packets older than the window of the ranges.
  pub acknowledge :
      (now largest_acked_pn : ℕ)
      → (sack_ranges : List (ℕ × ℕ)) → ZtConnection C K F
      → ZtConnection C K F × Tally
  unfolding ack_ranges numbers_below ack_cumulative
  acknowledge now largest_acked_pn sack_ranges c =
      let r = ack_ranges now sack_ranges c none_acked in
      ack_cumulative now
        (numbers_below (largest_acked_pn - 2047) (UnackedWindow.iter (r.0).unacked_packets)) r.0 r.1

  -- The third step: the packets that are taken for lost.
  pub detect_losses :
      (scaled : ℕ → ℕ)
      → (now largest_acked_pn : ℕ) → ZtConnection C K F
      → ZtConnection C K F × Losses
  unfolding lost_numbers lose
  detect_losses scaled now largest_acked_pn c =
      let lost_pns =
        lost_numbers largest_acked_pn now (max (scaled c.rtt) 15000000)
          (UnackedWindow.iter c.unacked_packets) in
      lose lost_pns (record c { packets_lost = saturating_add c.packets_lost (length lost_pns) })
        (record { fast_retransmits = []; loss_detected = false })

  -- The connection after the frame, and the payloads to send again.
  pub handle_ack :
      (scaled : ℕ → ℕ)
      → (now largest_acked_pn window_size ack_delay_us : ℕ) → (sack_ranges : List (ℕ × ℕ))
      → ZtConnection C K F
      → ZtConnection C K F × List (UnackedPayload × ℕ)
  unfolding acknowledge detect_losses settle
  handle_ack scaled now largest_acked_pn window_size ack_delay_us sack_ranges c =
      let acked = acknowledge now largest_acked_pn sack_ranges c in
      let lost = detect_losses scaled now largest_acked_pn acked.0 in
      (
        settle now window_size ack_delay_us acked.1 (lost.1).loss_detected lost.0,
        (lost.1).fast_retransmits,
      )

  pub is_replayed : ZtConnection C K F → ℕ → Bool
  is_replayed c pn = ReplayWindow.is_replay c.replay_window pn

  -- The connection's `mark_processed`, at the instant `now`.
  pub mark_received : (now pn : ℕ) → ZtConnection C K F → ZtConnection C K F
  mark_received now pn c =
      let is_new_highest : Bool = elim (c.ack_tracker).highest_processed [
        | none ↦ true
        | some h ↦ leb h pn
      ] in
      record c {
        largest_acked_received_at =
            if is_new_highest then some now else c.largest_acked_received_at;
        replay_window = PacketWindow.mark_processed c.replay_window pn;
        ack_tracker = PacketWindow.mark_processed c.ack_tracker pn;
      }
