-- ===== src/Transport/Connection/Ack/Tests.antt =====
-- Runs of `handle_ack`.
use zetta_transport.Common.{
  ℕ, ◌*◌, ◌/◌, ◌≡◌, ◌⊎◌, inl, refl, arith, true, false, List, [], ◌∷◌, none, some,
}
use zetta_transport.Transport.Congestion.{reno_controller}
use zetta_transport.Transport.UnackedWindow.{get_mut, pop_free, remove, iter_from, iter}
use zetta_transport.Transport.Unacked.{UnackedPayload, UnackedPacket, payload_len, stream}
use zetta_transport.Transport.StreamType.{bidirectional}
use zetta_transport.Transport.Connection.{new_with_config}
use zetta_transport.Transport.Connection.Tests.{Plain, fresh}
use zetta_transport.Transport.Connection.Tally.{numbers_below, lost_numbers}
use zetta_transport.Transport.Connection.Ack.{
  handle_ack, acknowledge, ack_ranges, ack_range, ack_numbers, ack_one, confirm_probe,
  ack_cumulative, detect_losses, lose, lose_one, fail_probe, settle, reduce_on_loss, take_sample,
  grow_window, update_rtt,
}
use zetta_transport.Transport.Connection.Ack.InFlight.{Balanced, handle_ack-Balanced}
use zetta_transport.Transport.Connection.Ack.Reliable.{Resent, handle_ack_loses_nothing}
use zetta_transport.Transport.Connection.Ack.Tracked.{Tracks}
use zetta_transport.Transport.Connection.Ack.Forgotten.{handle_ack_forgets}

abbrev packet : (offset : ℕ) → UnackedPacket
packet offset = record {
  payload = stream 0 bidirectional offset (7 ∷ 8 ∷ []);
  sent_at = 100;
  retries = 0;
  is_mtu_probe = false;
  sent_bytes = 40;
}

-- Five packets under the numbers 3 to 7.
abbrev busy : Plain
busy = record fresh {
  next_packet_number = 8;
  bytes_in_flight = 200;
  unacked_packets = record {
    base_pn = 3;
    deque =
        some (packet 0)
        ∷ some (packet 2)
        ∷ some (packet 4)
        ∷ some (packet 6)
        ∷ some (packet 8)
        ∷ [];
    len = 5;
  };
}

abbrev scaled : ℕ → ℕ
scaled n = n * 5 / 4

-- The numbers 6 and 7 are acknowledged, so that 3 and 4 are taken for lost and 5 is not.
abbrev answered : Plain × List (UnackedPayload × ℕ)
answered = handle_ack scaled 1000 7 65536 0 ((6, 7) ∷ []) busy

handle_ack-Balanced_example : Balanced 0 answered.0
unfolding new_with_config
handle_ack-Balanced_example =
    handle_ack-Balanced scaled 1000 7 65536 0 ((6, 7) ∷ []) busy
      (record { balance = refl; in_range = omega arith })

handle_ack_loses_nothing_example : Tracks 3 (packet 0) answered.0 ⊎ Resent (packet 0) answered.1
unfolding get_mut
handle_ack_loses_nothing_example =
    handle_ack_loses_nothing scaled 1000 7 65536 0 ((6, 7) ∷ []) 3 (packet 0) busy (refl, refl)
      (inl (omega arith), tt) (omega arith) refl

handle_ack_forgets_example : get_mut (answered.0).unacked_packets 6 ≡ none
handle_ack_forgets_example =
    handle_ack_forgets scaled 1000 7 65536 0 ((6, 7) ∷ []) 6 busy (inl (omega arith, omega arith))
      (omega arith)

-- A peer that reports 200 of the 900 microseconds.
abbrev measured : Plain
measured = record busy { rtt = 100000; rttvar = 5000000; rtt_initialized = true }

landed_bytes : (answered.0).bytes_in_flight ≡ 40
unfolding handle_ack acknowledge ack_ranges ack_range ack_numbers ack_one confirm_probe
    ack_cumulative detect_losses lose lose_one fail_probe settle reduce_on_loss take_sample
    grow_window update_rtt numbers_below lost_numbers pop_free remove iter_from iter new_with_config
    payload_len
landed_bytes = refl
