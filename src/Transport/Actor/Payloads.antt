-- ===== src/Transport/Actor/Payloads.antt =====
-- Sending payloads that are tracked until they are acknowledged, and the frames that are not
-- (src/transport/actor/packet_sender.rs). SHA-256, the signature and the keys of the first packet are the
-- parameter `Primitives`.
pub mod Booking
use zetta_transport.Common.{
  ℕ, ◌+◌, ◌-◌, ◌*◌, ◌/◌, max, min, Bool, true, false, List, [], ◌∷◌, ◌++◌, Option, none, some, ltb,
  ◌==◌, if◌then◌else◌, length, saturating_add,
}
use zetta_transport.Error.{Result, ok, err, panic, ZtError}
use zetta_transport.Crypto.{CryptoEngine}
use zetta_transport.Protocol.Wire.{Buf, be_bytes}
use zetta_transport.Protocol.Frame.{Frame, encode}
use zetta_transport.Protocol.Frame
use zetta_transport.Protocol.TransportParameters.{from_config, transcript_bytes}
use zetta_transport.Protocol.PacketNumber.{truncate_pn}
use zetta_transport.Protocol.PacketHeader.{PacketHeader, PacketType, encode_header}
use zetta_transport.Protocol.PacketHeader
use zetta_transport.Transport.Congestion.{wrap}
use zetta_transport.Transport.UnackedWindow.{insert, keys}
use zetta_transport.Transport.UnackedWindow
use zetta_transport.Transport.Unacked.{
  UnackedPayload, UnackedPacket, initial, stream, mtu_probe, stream_close, max_stream_data,
  reset_stream, close, connection_close_v2, datagram,
}
use zetta_transport.Transport.StreamState.{get_stream, total_buffered}
use zetta_transport.Transport.AckTracker.{ack_frame}
use zetta_transport.Transport.Connection.{ZtConnection, next_number, probe_target, closing}
use zetta_transport.Transport.Actor.{Actor, Outcome, is_active}
use zetta_transport.Transport.Actor.Send.{
  first_or, payload_frame, padded, build, seal, note_packet_sent, sendmsg_vectored, with_number,
  send_packet,
}

abbrev protocol_version : ℕ
protocol_version = 2

-- What the first packet of a client needs of third-party crates: the hash, the signature (`none` without
-- a signing key), the public keys, the configured protocol name, and the engine that
-- `CryptoContext::initial` derives from a connection identifier.
pub record Primitives (K : Type 0) : Type 0 where
  pub sha256 : List ℕ → List ℕ
  pub sign : List ℕ → Option (List ℕ)
  pub public_key : List ℕ
  pub ed_public_key : List ℕ
  pub alpn : List ℕ
  pub initial_engine : (dcid : List ℕ) → (is_client : Bool) → K

abbrev pub is_probe : UnackedPayload → Bool
is_probe (mtu_probe target_size) = true
is_probe _ = false

abbrev pub or_empty : Option (List ℕ) → List ℕ
or_empty none = []
or_empty (some bytes) = bytes

module _ {C K F : Type 0} where
  -- What is kept of a packet that was sent.
  unfoldable pub track :
      (now : ℕ) → UnackedPayload → (retries : ℕ) → (pn sent_bytes : ℕ) → Actor C K F → Actor C K F
  track now payload retries pn sent_bytes a =
      let s = a.state in
      record a {
        state = record s {
          unacked_packets = insert s.unacked_packets pn (record {
            payload = payload;
            sent_at = now;
            retries = retries;
            is_mtu_probe = is_probe payload;
            sent_bytes = sent_bytes;
          });
          bytes_in_flight = wrap (s.bytes_in_flight + sent_bytes);
        };
      }

  unfoldable pub count_retransmit : (retries : ℕ) → Actor C K F → Actor C K F
  count_retransmit retries a =
      if ltb 0 retries
      then record a {
        state = record a.state {
          packets_retransmitted = saturating_add (a.state).packets_retransmitted 1;
        };
      }
      else a

  -- `state.cookie = Some(c)` for the cookie of a retry.
  abbrev pub keep_cookie : Option (List ℕ) → ZtConnection C K F → ZtConnection C K F
  keep_cookie none s = s
  keep_cookie (some bytes) s = record s { cookie = some bytes }

  unfoldable pub requeue : UnackedPayload → (retries : ℕ) → Outcome C K F → Outcome C K F
  requeue payload retries (ok u, a) = (ok tt, a)
  requeue payload retries (err e, a) = (
    ok tt,
    record a {
      state = record a.state { unpaced_queue = (payload, retries) ∷ (a.state).unpaced_queue };
    },
  )
  requeue payload retries (panic, a) = (panic, a)

module _ {C K F : Type 0} ⦃engine : CryptoEngine K⦄ ⦃buf : Buf⦄ (prim : Primitives K) where
  -- The payload of the first packet, up to 1200 bytes with its header and tag.
  unfoldable pub initial_payload :
      Actor C K F → (cookie : Option (List ℕ)) → (h_len : ℕ) → Option (List ℕ)
  initial_payload a cookie h_len =
      let s = a.state in
      let parameters = from_config a.config in
      let transcript_hash = prim.sha256 (
        be_bytes 4 protocol_version
        ++ (s.scid
            ++ (s.dcid
                ++ (prim.public_key ++ (or_empty cookie ++ transcript_bytes parameters))))) in
      elim (prim.sign transcript_hash) [
        | none ↦ none
        | some signature ↦
            (let frames =
                encode (
                  Frame.handshake prim.public_key prim.ed_public_key transcript_hash signature
                    prim.alpn)
                ++ (encode (Frame.transport_parameters parameters)
                    ++ elim cookie [ none ↦ [] | some bytes ↦ encode (Frame.cookie bytes) ]) in
              let pad_len = 1200 - (h_len + length frames + 16) in
              some (frames ++ (if ltb 0 pad_len then encode (Frame.padding pad_len) else [])))
      ]

  abbrev pub initial_header : (pn pn_len : ℕ) → ZtConnection C K F → PacketHeader
  initial_header pn pn_len s = record {
    p_type = PacketHeader.initial;
    is_long = true;
    version = protocol_version;
    dcid = s.dcid;
    scid = s.scid;
    packet_number = pn;
    key_phase = false;
    pn_len = pn_len;
  }

  unfoldable pub build_initial : Option (List ℕ) → (pn : ℕ) → Actor C K F → Result (List ℕ)
  unfolding initial_payload
  build_initial cookie pn a =
      let s = a.state in
      elim (truncate_pn pn (first_or (keys s.unacked_packets) pn - 1)) [
        | none ↦ panic
        | some truncated ↦
            (let header = encode_header (initial_header pn truncated.1 s) in
              elim (initial_payload a cookie (length header)) [
                | none ↦ panic
                | some payload ↦ seal (prim.initial_engine s.dcid true) pn header payload
              ])
      ]

  -- The first packet is kept, and tracked whether the socket takes it or not.
  unfoldable pub transmit_initial :
      (now : ℕ)
      → (cookie : Option (List ℕ)) → (retries pn : ℕ) → Result (List ℕ)
      → Actor C K F
      → Outcome C K F
  unfolding track
  transmit_initial now cookie retries pn (ok packet) a =
      let kept = record a { state = record a.state { handshake_packet = some packet } } in
      (
        ok tt,
        note_packet_sent (
            track now (initial cookie) retries pn (length packet) (sendmsg_vectored kept packet).1),
      )
  transmit_initial now cookie retries pn (err e) a = (err e, a)
  transmit_initial now cookie retries pn panic a = (panic, a)

  unfoldable pub send_initial_packet_internal :
      (now : ℕ) → (cookie : Option (List ℕ)) → (retries : ℕ) → Actor C K F → Outcome C K F
  unfolding build_initial transmit_initial
  send_initial_packet_internal now cookie retries a =
      with_number
        (λ pn b.
          let kept = record b { state = keep_cookie cookie b.state } in
          transmit_initial now cookie retries pn (build_initial cookie pn kept) kept)
        (next_number a.state) a

  unfoldable pub send_tracked :
      (now : ℕ) → UnackedPayload → (retries : ℕ) → Actor C K F → Outcome C K F
  unfolding track count_retransmit
  send_tracked now payload retries a =
      send_packet PacketHeader.«data»
        (λ h_len pn_len. padded pn_len (encode (payload_frame h_len payload)))
        (λ pn sent_bytes b.
          note_packet_sent (track now payload retries pn sent_bytes (count_retransmit retries b)))
        a

  unfoldable pub send_payload_with_retries :
      (now : ℕ) → UnackedPayload → (retries : ℕ) → Actor C K F → Outcome C K F
  unfolding send_initial_packet_internal send_tracked
  send_payload_with_retries now (initial cookie) retries a =
      send_initial_packet_internal now cookie retries a
  send_payload_with_retries now payload retries a = send_tracked now payload retries a

  -- A payload that cannot be sent goes to the front of the pacing queue. (`send_payload` is the same
  -- without retries.)
  unfoldable pub retransmit_payload :
      (now : ℕ) → UnackedPayload → (retries : ℕ) → Actor C K F → Outcome C K F
  unfolding send_payload_with_retries requeue
  retransmit_payload now payload retries a =
      requeue payload retries (send_payload_with_retries now payload retries a)

  unfoldable pub send_payload : (now : ℕ) → UnackedPayload → Actor C K F → Outcome C K F
  unfolding retransmit_payload
  send_payload now payload a = retransmit_payload now payload 0 a

  unfoldable pub send_datagram_payload : (now : ℕ) → List ℕ → Actor C K F → Outcome C K F
  unfolding send_payload
  send_datagram_payload now bytes a = send_payload now (datagram bytes) a

  -- How much was sent on a stream; nothing on one that is not there.
  abbrev sent_on : Actor C K F → (stream_id : ℕ) → ℕ
  sent_on a stream_id = elim (get_stream (a.state).streams stream_id) [
    | none ↦ 0
    | some state ↦ state.next_tx_offset
  ]

  unfoldable pub send_stream_close : (now stream_id : ℕ) → Actor C K F → Outcome C K F
  unfolding send_payload
  send_stream_close now stream_id a =
      send_payload now (stream_close stream_id (sent_on a stream_id)) a

  unfoldable pub initiate_close : (now : ℕ) → Actor C K F → Outcome C K F
  unfolding send_payload
  initiate_close now a =
      send_payload now close (record a { state = record a.state { state = closing } })

  unfoldable pub send_reset : (now stream_id error_code : ℕ) → Actor C K F → Outcome C K F
  unfolding send_payload
  send_reset now stream_id error_code a =
      send_payload now (reset_stream stream_id error_code (sent_on a stream_id)) a

  unfoldable pub initiate_close_with_error :
      (now error_code : ℕ) → (reason : List ℕ) → Actor C K F → Outcome C K F
  unfolding send_payload
  initiate_close_with_error now error_code reason a =
      send_payload now (connection_close_v2 error_code reason)
        (record a { state = record a.state { state = closing } })
