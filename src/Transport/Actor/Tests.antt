-- ===== src/Transport/Actor/Tests.antt =====
-- Runs of the actor's operations.
use mathlib.Core.List.{Mem}
use zetta_transport.Common.{
  ℕ, ◌^◌, ◌<◌, ◌≡◌, ◌↔◌, ◌⊎◌, refl, arith, Bool, true, false, [], ◌∷◌, none, some, replicate,
}
use zetta_transport.Error.{ok}
use zetta_transport.Config.{default}
use zetta_transport.Crypto.{CryptoEngine}
use zetta_transport.Protocol.Wire.NetworkOrder.{network_order}
use zetta_transport.Transport.StreamType.{bidirectional}
use zetta_transport.Transport.StreamState.{StreamState, new_stream}
use zetta_transport.Transport.Congestion.{RenoController, reno_controller}
use zetta_transport.Transport.UnackedWindow.{insert, keys, get_mut, iter, iter_from}
use zetta_transport.Transport.Unacked.{UnackedPacket, payload_len, stream, close}
use zetta_transport.Transport.Connection.{active, next_number, new_with_config}
use zetta_transport.Transport.Connection.Tests.{Plain, fresh}
use zetta_transport.Transport.Connection.Ack.Tracked.{Tracks}
use zetta_transport.Transport.Actor.{Actor, Answer, new_actor}
use zetta_transport.Transport.Actor.Payloads.{
  Primitives, track, count_retransmit, send_tracked, send_payload_with_retries,
}
use zetta_transport.Transport.Actor.Payloads.Booking.{tracked_bytes, Booked}
use zetta_transport.Transport.Actor.Books.Steps.{sending, perform, start, later, reach-Booked}
use zetta_transport.Transport.Actor.Send.{
  send_packet, with_number, transmit, booked, build, seal, sendmsg_vectored, try_send, answered,
  note_packet_sent,
}
use zetta_transport.Protocol.Frame.{encode}
use zetta_transport.Protocol.PacketHeader.{encode_header, get_pn_offset}
use zetta_transport.Protocol.PacketNumber.{truncate_pn}
use zetta_transport.Transport.Actor.Send.Amplification.{Unproven, send_all, amplification_limited}
use zetta_transport.Transport.Congestion.Tests.{tenths}
use zetta_transport.Transport.Actor.Pacing.{flush_pacing_queue}
use zetta_transport.Transport.Actor.Pacing.Order.{Paced, flush_pacing_queue-Paced}
use zetta_transport.Transport.Actor.Timeouts.{
  min_deadline, handle_retransmits, rto_of, is_expired, scan, get_next_rto_deadline, expire,
}
use zetta_transport.Transport.Actor.Timeouts.Deadline.{
  is_past, any_expired, get_next_rto_deadline-exact, handle_retransmits_early,
}
use zetta_transport.Transport.Actor.Timeouts.Resending.{scanned_by, expire_loses_nothing}
use zetta_transport.Transport.Actor.Outgoing.{open_stream}
use zetta_transport.Transport.Actor.Outgoing.Opening.{Opened, open_stream-Opened}

abbrev packet : (sent_at : ℕ) → UnackedPacket
packet sent_at = record {
  payload = stream 0 bidirectional 0 (7 ∷ 8 ∷ []);
  sent_at = sent_at;
  retries = 0;
  is_mtu_probe = false;
  sent_bytes = 40;
}

-- Two packets under the numbers 3 and 4, sent long ago and just now.
abbrev waiting : Plain
waiting = record fresh {
  next_packet_number = 5;
  bytes_in_flight = 80;
  unacked_packets = record {
    base_pn = 3;
    deque = some (packet 100) ∷ some (packet 20000000000) ∷ [];
    len = 2;
  };
}

get_next_rto_deadline-exact_example :
    (is_past (get_next_rto_deadline waiting) 20000000100
      ≡ any_expired 20000000100 (rto_of waiting.rtt waiting.rttvar) (iter waiting.unacked_packets))
    × ((get_next_rto_deadline waiting ≡ none) ↔ (iter waiting.unacked_packets ≡ []))
get_next_rto_deadline-exact_example = get_next_rto_deadline-exact 20000000100 waiting

expire_loses_nothing_example :
    let rto = rto_of waiting.rtt waiting.rttvar in
    let s = scan 20000000100 rto 3 (waiting.unacked_packets).deque in
    let r = expire 20000000100 s (scanned_by s waiting) in
    ((is_expired 20000000100 rto (packet 100) ≡ false) × Tracks 3 (packet 100) r.0)
    ⊎ ((is_expired 20000000100 rto (packet 100) ≡ true)
        × Mem (stream 0 bidirectional 0 (7 ∷ 8 ∷ []), 1) r.1)
unfolding scan get_mut new_with_config default
expire_loses_nothing_example =
    expire_loses_nothing 20000000100 3 (packet 100) waiting refl (refl, refl) refl

abbrev streaming : Plain
streaming = record fresh {
  streams = (0, new_stream 0 bidirectional 1000 1000) ∷ [];
  remote_window = 5000;
  cc = record { cwnd = 14000; ssthresh = 100000; mtu = 1200; last_congestion_time = none };
}

-- An engine that leaves the bytes as they are, and appends a tag of zeros.
instance abbrev clear : CryptoEngine Bool
clear = record {
  encrypt_in_place = λ k pn aad payload. ok (payload, replicate 16 0);
  decrypt_in_place = λ k pn aad payload tag use_prev_key. ok payload;
  trial_decrypt_and_rotate = λ k pn aad payload tag. ok (payload, k);
  apply_header_protection = λ k packet pn_offset. ok packet;
  remove_header_protection = λ k packet pn_offset. ok packet;
  rotate_keys = λ k. k;
  epoch = λ k. 0;
}

abbrev plain_primitives : Primitives Bool
plain_primitives = record {
  sha256 = λ bytes. bytes;
  sign = λ bytes. some bytes;
  public_key = [];
  ed_public_key = [];
  alpn = [];
  initial_engine = λ dcid is_client. is_client;
}

abbrev early : Actor RenoController Bool ℕ
early = new_actor default waiting true []

handle_retransmits_early_example : handle_retransmits plain_primitives 1000 early ≡ (ok tt, early)
unfolding new_actor get_next_rto_deadline min_deadline iter iter_from new_with_config default
handle_retransmits_early_example = handle_retransmits_early plain_primitives 1000 early refl

abbrev client : Actor RenoController Bool ℕ
client = new_actor default streaming true []

open_stream-Opened_example : Opened client (open_stream 5 bidirectional client)
unfolding new_actor
open_stream-Opened_example =
    open_stream-Opened 5 bidirectional client
      (record { own = omega arith; below = (λ e. omega arith, tt) })

-- A client that tracks two packets, with keys and with a socket that takes one packet.
abbrev keyed : Actor RenoController Bool ℕ
keyed =
    new_actor default
      (record waiting { crypto = some true; state = active; next_packet_number = 5 }) true
      (Answer.sent ∷ [])

-- The close of the connection is sent.
abbrev one_sent : Actor RenoController Bool ℕ
one_sent = perform plain_primitives (λ n. n) (sending 7 close 0) keyed

one_sent_bytes : tracked_bytes one_sent.state ≡ 102
unfolding perform send_payload_with_retries send_tracked send_packet with_number transmit booked
    build seal sendmsg_vectored try_send answered track count_retransmit note_packet_sent
    next_number new_actor new_with_config default encode encode_header truncate_pn insert iter
    iter_from get_pn_offset keys
one_sent_bytes = refl

reach-Booked_example : Booked one_sent.state × (tracked_bytes one_sent.state < 2 ^ 64)
unfolding new_actor new_with_config default
reach-Booked_example =
    reach-Booked plain_primitives (λ n. n) keyed one_sent
      (record {
        balance = refl;
        formed = record { counted = refl; fronted = tt };
        fresh = omega arith;
      })
      (omega arith) (later (sending 7 close 0) start (omega (arith, one_sent_bytes)))

-- A server that received 100 bytes, with a socket that takes two packets.
abbrev server : Actor RenoController Bool ℕ
server =
    new_actor default (record fresh { bytes_received = 100 }) false (Answer.sent ∷ Answer.sent ∷ [])

amplification_limited_example :
    Unproven 100 (send_all (replicate 200 1 ∷ replicate 200 2 ∷ []) server)
unfolding new_actor new_with_config default
amplification_limited_example =
    amplification_limited 100 (replicate 200 1 ∷ replicate 200 2 ∷ []) server
      (omega arith, (omega arith, tt))
      (record {
        is_server = refl;
        is_early = refl;
        received_bytes = refl;
        counted = refl;
        limited = omega arith;
      })

-- Two payloads wait, and the socket takes one packet.
abbrev pacing : Actor RenoController Bool ℕ
pacing = record keyed {
  state = record keyed.state {
    unpaced_queue =
        (stream 0 bidirectional 2 (9 ∷ []), 0) ∷ (stream 0 bidirectional 3 (9 ∷ []), 0) ∷ [];
    queued_bytes = 2;
  };
}

flush_pacing_queue-Paced_example :
    Paced tenths plain_primitives 30
      (pacing.state).unpaced_queue
      pacing
      (flush_pacing_queue tenths plain_primitives 30 pacing)
unfolding payload_len
flush_pacing_queue-Paced_example = flush_pacing_queue-Paced tenths plain_primitives 30 pacing refl
