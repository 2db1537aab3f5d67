-- ===== src/Transport/Connection/Ack/Frame.antt =====
-- What the steps of `handle_ack` (src/transport/congestion.rs) leave alone: the packets in flight and
-- their bytes, but for the packet that a step is about.
use zetta_transport.Common.{
  ℕ, ◌-◌, ◌≡◌, refl, ap, ◌∙◌, Bool, true, false, ◌&&◌, Option, none, some, ltb, if_holds,
}
use zetta_transport.Transport.Congestion.{CongestionController}
use zetta_transport.Transport.Unacked.{
  UnackedPayload, UnackedPacket, payload_len, initial, stream, mtu_probe, stream_close,
  max_stream_data, reset_stream, close, connection_close_v2, datagram,
}
use zetta_transport.Transport.Connection.{
  ZtConnection, record_mtu_probe_success, record_mtu_probe_failure,
}
use zetta_transport.Transport.Connection.Tally.{Tally, has_probe, is_datagram, Losses}
use zetta_transport.Transport.Connection.Ack.{
  confirm_probe, fail_probe, lose_one, update_rtt, settle, reduce_on_loss, take_sample, grow_window,
}

module _ {C K F : Type 0} ⦃controller : CongestionController C⦄ where
  -- The same packets in flight, as many bytes, and the same next number.
  abbrev pub SameFlight : ZtConnection C K F → ZtConnection C K F → Type 0
  SameFlight c d =
      (d.unacked_packets ≡ c.unacked_packets)
      × (d.bytes_in_flight ≡ c.bytes_in_flight)
      × (d.next_packet_number ≡ c.next_packet_number)

  success_frame : (c : ZtConnection C K F) (n : ℕ) → SameFlight c (record_mtu_probe_success c n)
  unfolding record_mtu_probe_success
  success_frame c n =
      if_holds (SameFlight c) (ltb c.mtu n) (λ e. (refl, refl, refl)) (λ e. (refl, refl, refl))

  pub confirm_probe_frame :
      (c : ZtConnection C K F) (pn : ℕ) (up : UnackedPacket) → SameFlight c (confirm_probe c pn up)
  unfolding confirm_probe
  confirm_probe_frame c pn up =
      if_holds (SameFlight c) up.is_mtu_probe
        (λ probe.
          if_holds (SameFlight c) (has_probe c.mtu_probes pn && ltb c.mtu (payload_len up.payload))
            (λ e. success_frame _ (payload_len up.payload)) (λ e. (refl, refl, refl)))
        (λ e. (refl, refl, refl))

  pub fail_probe_frame :
      (c : ZtConnection C K F) (pn : ℕ) (p : UnackedPayload) → SameFlight c (fail_probe c pn p)
  unfolding fail_probe record_mtu_probe_failure
  fail_probe_frame c pn (initial cookie) = (refl, refl, refl)
  fail_probe_frame c pn (stream stream_id stream_type offset bytes) = (refl, refl, refl)
  fail_probe_frame c pn (mtu_probe target_size) = (refl, refl, refl)
  fail_probe_frame c pn (stream_close stream_id final_size) = (refl, refl, refl)
  fail_probe_frame c pn (max_stream_data stream_id max_data) = (refl, refl, refl)
  fail_probe_frame c pn (reset_stream stream_id error_code final_size) = (refl, refl, refl)
  fail_probe_frame c pn close = (refl, refl, refl)
  fail_probe_frame c pn (connection_close_v2 error_code reason) = (refl, refl, refl)
  fail_probe_frame c pn (datagram bytes) = (refl, refl, refl)

  pub lose_one_frame :
      (pn : ℕ) (up : UnackedPacket) (c : ZtConnection C K F) (l : Losses)
      → SameFlight
          (record c { bytes_in_flight = c.bytes_in_flight - up.sent_bytes })
          (lose_one pn up c l).0
  unfolding lose_one
  lose_one_frame pn up c l =
      if_holds (λ (r : ZtConnection C K F × Losses). SameFlight landed r.0) up.is_mtu_probe
        (λ probe. fail_probe_frame landed pn up.payload)
        (λ e.
          if_holds (λ (r : ZtConnection C K F × Losses). SameFlight landed r.0)
            (is_datagram up.payload) (λ e. (refl, refl, refl)) (λ e. (refl, refl, refl)))
    where
      landed : ZtConnection C K F
      landed = record c { bytes_in_flight = c.bytes_in_flight - up.sent_bytes }

  update_rtt_frame :
      (c : ZtConnection C K F) (sample delay : ℕ) → SameFlight c (update_rtt c sample delay)
  unfolding update_rtt
  update_rtt_frame c sample delay =
      if_holds (SameFlight c) c.rtt_initialized (λ e. (refl, refl, refl)) (λ e. (refl, refl, refl))

  reduce_frame :
      (now : ℕ) (b : Bool) (c : ZtConnection C K F) → SameFlight c (reduce_on_loss now b c)
  unfolding reduce_on_loss
  reduce_frame now true c = (refl, refl, refl)
  reduce_frame now false c = (refl, refl, refl)

  take_sample_frame :
      (delay : ℕ) (o : Option ℕ) (c : ZtConnection C K F) → SameFlight c (take_sample delay o c)
  unfolding take_sample
  take_sample_frame delay none c = (refl, refl, refl)
  take_sample_frame delay (some sample) c = update_rtt_frame c sample delay

  grow_frame : (now b : ℕ) (c : ZtConnection C K F) → SameFlight c (grow_window now b c)
  unfolding grow_window
  grow_frame now b c =
      if_holds (SameFlight c) (ltb 0 b) (λ e. (refl, refl, refl)) (λ e. (refl, refl, refl))

  pub settle_frame :
      (now window_size delay : ℕ) (t : Tally) (b : Bool) (c : ZtConnection C K F)
      → SameFlight
          (record c { bytes_in_flight = c.bytes_in_flight - t.bytes_in_flight_acked })
          (settle now window_size delay t b c)
  unfolding settle
  settle_frame now window_size delay t b c = (
    (grow_frame now t.bytes_acked timed).0
        ∙ (take_sample_frame delay t.sample_rtt landed).0
        ∙ (reduce_frame now b c).0,
    (grow_frame now t.bytes_acked timed).1
        ∙ (take_sample_frame delay t.sample_rtt landed).1
        ∙ ap (λ n. n - t.bytes_in_flight_acked) (reduce_frame now b c).1,
    (grow_frame now t.bytes_acked timed).2
        ∙ (take_sample_frame delay t.sample_rtt landed).2
        ∙ (reduce_frame now b c).2,
  )
    where
      landed : ZtConnection C K F
      landed = record (reduce_on_loss now b c) {
        bytes_in_flight = (reduce_on_loss now b c).bytes_in_flight - t.bytes_in_flight_acked;
      }

      timed : ZtConnection C K F
      timed = take_sample delay t.sample_rtt landed
