-- ===== src/Transport/Actor/Books/Steps.antt =====
-- The books of a connection over every sequence of its actor's operations (src/transport/actor/packet_sender.rs,
-- src/transport/actor/event_loop.rs and `handle_ack` of src/transport/congestion.rs).
use zetta_transport.Common.{
  ℕ, ◌+◌, ◌-◌, ◌<◌, ◌≤◌, ◌^◌, arith, List, ltb, leb, length, if◌then◌else◌, if_holds, option_holds,
}
use zetta_transport.Error.{Result}
use zetta_transport.Crypto.{CryptoEngine}
use zetta_transport.Protocol.Wire.{Buf}
use zetta_transport.Protocol.Frame.{Frame}
use zetta_transport.Transport.StreamType.{StreamType}
use zetta_transport.Transport.StreamState.{StreamState, get_stream}
use zetta_transport.Transport.Congestion.{CongestionController, wrap}
use zetta_transport.Transport.Unacked.{UnackedPayload}
use zetta_transport.Transport.UnackedWindow.Map.{WellFormed, remove-WellFormed}
use zetta_transport.Transport.UnackedWindow.Weight.{end-remove}
use zetta_transport.Transport.Connection.{ZtConnection}
use zetta_transport.Transport.Connection.Ack.{handle_ack}
use zetta_transport.Transport.Connection.Ack.InFlight.{handle_ack-Balanced}
use zetta_transport.Transport.Connection.Ack.Windows.{handle_ack-Holds}
use zetta_transport.Transport.Actor.{Actor}
use zetta_transport.Transport.Actor.Payloads.{
  Primitives, send_payload_with_retries, retransmit_payload,
}
use zetta_transport.Transport.Actor.Payloads.Booking.{tracked_bytes, Booked, BookedIfSmall}
use zetta_transport.Transport.Actor.Control.{flush_acks, send_mtu_probe, send_frame_immediate}
use zetta_transport.Transport.Actor.Outgoing.{
  is_receive_only, stream_refusal, admit, enqueue, process_outgoing_data, opened_count, open_stream,
}
use zetta_transport.Transport.Actor.Books.Senders.{
  send_payload-BookedIfSmall, retransmit-BookedIfSmall, flush_acks-BookedIfSmall,
  send_mtu_probe-BookedIfSmall, send_frame-BookedIfSmall,
}

-- The operations of the actor, with their arguments and the time.
pub data Op : Type 0 where
  sending resending : (now : ℕ) → UnackedPayload → (retries : ℕ) → Op
  flushing probing : (now : ℕ) → Op
  framing : Frame → (to_addr : ℕ) → Op
  acknowledged : (now largest window_size delay : ℕ) → List (ℕ × ℕ) → Op
  admitting : (stream_id : ℕ) → List ℕ → Op
  opening : (now : ℕ) → StreamType → Op

module _ {C K F : Type 0} ⦃controller : CongestionController C⦄ ⦃engine : CryptoEngine K⦄
    ⦃buf : Buf⦄ (prim : Primitives K) (scaled : ℕ → ℕ) where
  -- The actor after an operation, whatever the operation answers.
  unfoldable pub perform : Op → Actor C K F → Actor C K F
  perform (sending now payload retries) a = (send_payload_with_retries prim now payload retries a).1
  perform (resending now payload retries) a = (retransmit_payload prim now payload retries a).1
  perform (flushing now) a = (flush_acks now a).1
  perform (probing now) a = (send_mtu_probe now a).1
  perform (framing frame to_addr) a = (send_frame_immediate frame to_addr a).1
  perform (acknowledged now largest window_size delay ranges) a = record a {
    state = (handle_ack scaled now largest window_size delay ranges a.state).0;
  }
  perform (admitting stream_id bytes) a = record a {
    state = (process_outgoing_data stream_id bytes a.state).1;
  }
  perform (opening now stream_type) a = (open_stream now stream_type a).1

  -- What operations lead to from an actor, while the bytes that are tracked fit a word.
  pub data Reach (a : Actor C K F) : Actor C K F → Type 0 where
    start : Reach a a
    later :
        {b : Actor C K F} (op : Op)
        → Reach a b
        → tracked_bytes (perform op b).state < 2 ^ 64
        → Reach a (perform op b)

  enqueue-Booked :
      (id : ℕ) (s : StreamState) (bytes : List ℕ) (c : ZtConnection C K F)
      → Booked c
      → Booked (enqueue id s bytes c)
  unfolding enqueue
  enqueue-Booked id s bytes c b = record { balance = b.balance; formed = b.formed; fresh = b.fresh }

  admit-Booked :
      (id : ℕ) (s : StreamState) (bytes : List ℕ) (c : ZtConnection C K F)
      → Booked c
      → Booked (admit id s bytes c).1
  unfolding admit
  admit-Booked id s bytes c b =
      if_holds (λ (r : Result (Unit {0}) × ZtConnection C K F). Booked r.1)
        (ltb (controller.cwnd c.cc) (wrap (c.bytes_in_flight + length bytes + c.queued_bytes)))
        (λ e. b) (λ e. enqueue-Booked id s bytes c b)

  admitted-Booked :
      (id : ℕ) (bytes : List ℕ) (c : ZtConnection C K F)
      → Booked c
      → Booked (process_outgoing_data id bytes c).1
  unfolding process_outgoing_data
  admitted-Booked id bytes c b =
      if_holds P (ltb c.remote_window (length bytes)) (λ e. b)
        (λ e.
          option_holds P (get_stream c.streams id) (λ e. b)
            (λ s e.
              option_holds P (stream_refusal id s (length bytes)) (λ e. admit-Booked id s bytes c b)
                (λ x e. b)))
    where
      P : Result (Unit {0}) × ZtConnection C K F → Type 0
      P r = Booked r.1

  opened-BookedIfSmall :
      (now : ℕ) (stream_type : StreamType) (a : Actor C K F)
      → Booked a.state
      → BookedIfSmall ((open_stream now stream_type a).1).state
  unfolding open_stream
  opened-BookedIfSmall now stream_type a b =
      let limit = (a.state).peer_max_streams in
      if_holds P (is_receive_only stream_type) (λ e small. b)
        (λ e.
          if_holds P (leb limit (opened_count (if a.is_client then 0 else 1) (a.state).streams))
            (λ e. send_frame-BookedIfSmall (Frame.streams_blocked limit) (a.state).addr a b)
            (λ e.
              if_holds P (ltb (2 ^ 32 - 1) (a.next_stream_id + 2)) (λ e small. b)
                (λ e small. record { balance = b.balance; formed = b.formed; fresh = b.fresh })))
    where
      P : Result ℕ × Actor C K F → Type 0
      P r = BookedIfSmall (r.1).state

  acknowledged-Booked :
      (now largest window_size delay : ℕ) (ranges : List (ℕ × ℕ)) (c : ZtConnection C K F)
      → tracked_bytes c < 2 ^ 64
      → Booked c
      → Booked (handle_ack scaled now largest window_size delay ranges c).0
  acknowledged-Booked now largest window_size delay ranges c small b =
      let k = handle_ack-Balanced scaled now largest window_size delay ranges c (record {
        balance = omega (arith, b.balance);
        in_range = omega (arith, b.balance, small);
      }) in
      let w =
        handle_ack-Holds (λ w n. WellFormed w × (w.base_pn + length w.deque ≤ n))
          (λ w pn n h. (remove-WellFormed w pn h.0, omega (arith, end-remove w pn, h.1))) scaled now
          largest window_size delay ranges c (b.formed, b.fresh) in
      record { balance = omega (arith, k.balance); formed = w.0; fresh = w.1 }

  perform-BookedIfSmall :
      (op : Op) (a : Actor C K F)
      → tracked_bytes a.state < 2 ^ 64
      → Booked a.state
      → BookedIfSmall (perform op a).state
  unfolding perform
  perform-BookedIfSmall (sending now payload retries) a small b =
      send_payload-BookedIfSmall prim now payload retries a b
  perform-BookedIfSmall (resending now payload retries) a small b =
      retransmit-BookedIfSmall prim now payload retries a b
  perform-BookedIfSmall (flushing now) a small b = flush_acks-BookedIfSmall now a b
  perform-BookedIfSmall (probing now) a small b = send_mtu_probe-BookedIfSmall now a b
  perform-BookedIfSmall (framing frame to_addr) a small b =
      send_frame-BookedIfSmall frame to_addr a b
  perform-BookedIfSmall (acknowledged now largest window_size delay ranges) a small b =
      λ after. acknowledged-Booked now largest window_size delay ranges a.state small b
  perform-BookedIfSmall (admitting id bytes) a small b = λ after. admitted-Booked id bytes a.state b
  perform-BookedIfSmall (opening now stream_type) a small b =
      opened-BookedIfSmall now stream_type a b

  -- Through every sequence of sending, retransmitting, acknowledging, probing, admitting data and opening
  -- streams, each of which may fail at any point, the books stay right as long as the tracked bytes
  -- fit a word: the counter of the bytes in flight is the sum over the tracked packets, the count of
  -- the window is right, and every tracked number is below the next one.
  pub reach-Booked :
      (a b : Actor C K F)
      → Booked a.state
      → tracked_bytes a.state < 2 ^ 64
      → Reach a b
      → Booked b.state × (tracked_bytes b.state < 2 ^ 64)
  reach-Booked a _ h small start = (h, small)
  reach-Booked a _ h small (later op r after) =
      let i = reach-Booked a _ h small r in (perform-BookedIfSmall op _ i.1 i.0 after, after)
