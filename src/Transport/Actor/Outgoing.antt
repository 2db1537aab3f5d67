-- ===== src/Transport/Actor/Outgoing.antt =====
-- Admitting what the application sends: `process_outgoing_data` of src/transport/actor/packet_sender.rs,
-- and the arms for datagrams and new streams of src/transport/actor/event_loop.rs.
pub mod Credit
pub mod Keeping
pub mod Opening
use Prim.Native.String.{String}
use zetta_transport.Common.{
  ℕ, ◌+◌, ◌-◌, ◌%◌, ◌*◌, ◌^◌, min, Bool, true, false, List, [], ◌∷◌, ◌++◌, Option, none, some, ltb,
  leb, ◌==◌, if◌then◌else◌, length, saturating_add, checked_add,
}
use zetta_transport.Error.{
  Result, ok, err, ZtError, flow_control_blocked, actor_failed, stream_reset, invalid_packet,
  Message, text, congestion_window_full, too_many_streams, connection_id_exhausted,
}
use zetta_transport.Transport.Congestion.{CongestionController, wrap}
use zetta_transport.Transport.StreamType.{
  StreamType, bidirectional, unidirectional_out, unidirectional_in,
}
use zetta_transport.Transport.Unacked.{UnackedPayload, stream, payload_len}
use zetta_transport.Transport.StreamState.{
  StreamState, Streams, get_stream, set_stream, add_stream, new_stream,
}
use zetta_transport.Transport.Connection.{ZtConnection}
use zetta_transport.Transport.Actor.{Actor}
use zetta_transport.Transport.Actor.Control.{send_frame_immediate}
use zetta_transport.Crypto.{CryptoEngine}
use zetta_transport.Protocol.Wire.{Buf}
use zetta_transport.Protocol.Frame.{Frame}
use zetta_transport.Protocol.Frame

abbrev pub is_receive_only : StreamType → Bool
is_receive_only bidirectional = false
is_receive_only unidirectional_out = false
is_receive_only unidirectional_in = true

-- Why a stream does not take data.
unfoldable pub stream_refusal : (stream_id : ℕ) → StreamState → (to_send_len : ℕ) → Option ZtError
stream_refusal stream_id s to_send_len = elim s.send_stopped_error [
  | some error_code ↦ some (stream_reset stream_id error_code)
  | none ↦
      if is_receive_only s.stream_type
      then some (invalid_packet (text "cannot send on a receive-only stream"))
      else if ltb s.tx_window to_send_len
      then some flow_control_blocked
      else none
]

module _ {C K F : Type 0} ⦃controller : CongestionController C⦄ where
  -- The data goes to the back of the pacing queue, and its length off both windows.
  unfoldable pub enqueue :
      (stream_id : ℕ) → StreamState → (bytes : List ℕ) → ZtConnection C K F → ZtConnection C K F
  enqueue stream_id s bytes c = record c {
    streams = set_stream c.streams stream_id (record s {
      next_tx_offset = wrap (s.next_tx_offset + length bytes);
      tx_window = s.tx_window - length bytes;
    });
    conn_tx_offset = saturating_add c.conn_tx_offset (length bytes);
    remote_window = c.remote_window - length bytes;
    unpaced_queue =
        c.unpaced_queue ++ ((stream stream_id s.stream_type s.next_tx_offset bytes, 0) ∷ []);
    queued_bytes = wrap (c.queued_bytes + length bytes);
  }

  -- On a stream that takes the data, behind the congestion window.
  unfoldable pub admit :
      (stream_id : ℕ)
      → StreamState
      → (bytes : List ℕ) → ZtConnection C K F
      → Result (Unit {0}) × ZtConnection C K F
  unfolding enqueue
  admit stream_id s bytes c =
      if ltb (controller.cwnd c.cc) (wrap (c.bytes_in_flight + length bytes + c.queued_bytes))
      then (err congestion_window_full, c)
      else (ok tt, enqueue stream_id s bytes c)

  unfoldable pub process_outgoing_data :
      (stream_id : ℕ)
      → (bytes : List ℕ) → ZtConnection C K F
      → Result (Unit {0}) × ZtConnection C K F
  unfolding stream_refusal admit
  process_outgoing_data stream_id bytes c =
      if ltb c.remote_window (length bytes)
      then (err flow_control_blocked, c)
      else elim (get_stream c.streams stream_id) [
        | none ↦ (err actor_failed, c)
        | some s ↦ elim (stream_refusal stream_id s (length bytes)) [
          | some e ↦ (err e, c)
          | none ↦ admit stream_id s bytes c
        ]
      ]

  -- The arm of `SendDatagram`, up to the sending: the error, or none if the datagram is sent.
  unfoldable pub datagram_refusal : (data_len : ℕ) → ZtConnection C K F → Option ZtError
  datagram_refusal data_len c =
      let max_datagram_payload = min (c.mtu - 64) c.peer_max_datagram_size in
      if ltb max_datagram_payload data_len
      then some (invalid_packet (text "Datagram payload exceeds current path limit"))
      else if ltb (controller.cwnd c.cc) (saturating_add c.bytes_in_flight data_len)
      then some congestion_window_full
      else none

-- The streams that the local side opened: those of its parity.
abbrev pub opened_count : (parity : ℕ) → Streams → ℕ
opened_count parity [] = 0
opened_count parity (s ∷ streams) =
    let rest = opened_count parity streams in if s.0 % 2 == parity then rest + 1 else rest

module _ {C K F : Type 0} ⦃engine : CryptoEngine K⦄ ⦃buf : Buf⦄ where
  -- The arm of `OpenStream`: the identifier of the new stream. The peer is told where its limit is
  -- reached, and a failure to tell it is only logged. The handle for the application is left out.
  unfoldable pub open_stream : (now : ℕ) → StreamType → Actor C K F → Result ℕ × Actor C K F
  open_stream now stream_type a =
      let limit = (a.state).peer_max_streams in
      if is_receive_only stream_type
      then (err (invalid_packet (text "receive-only streams are created by the peer")), a)
      else if leb limit (opened_count (if a.is_client then 0 else 1) (a.state).streams)
      then (
        err (too_many_streams limit),
        (send_frame_immediate (Frame.streams_blocked limit) (a.state).addr a).1,
      )
      else if ltb (2 ^ 32 - 1) (a.next_stream_id + 2)
      then (err connection_id_exhausted, a)
      else (
        ok a.next_stream_id,
        record a {
          next_stream_id = a.next_stream_id + 2;
          state = record a.state {
            streams = add_stream (a.state).streams a.next_stream_id (
                new_stream now stream_type (a.config).initial_stream_window
                  (a.state).peer_initial_stream_window);
          };
        },
      )
