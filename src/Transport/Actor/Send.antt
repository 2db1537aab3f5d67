-- ===== src/Transport/Actor/Send.antt =====
-- Building and sending packets (src/transport/actor/packet_sender.rs). The branches of
-- `sendmsg_vectored` that exist in test builds only are left out.
pub mod Amplification
pub mod Tracking
use zetta_transport.Common.{
  ℕ, ◌+◌, ◌-◌, ◌*◌, max, min, Bool, true, false, not, ◌&&◌, List, [], ◌∷◌, ◌++◌, Option, none, some,
  ltb, leb, if◌then◌else◌, length, replicate, saturating_add,
}
use zetta_transport.Error.{Result, ok, err, panic, ZtError, io, unauthorized}
use zetta_transport.Crypto.{CryptoEngine}
use zetta_transport.Protocol.Wire.{Buf}
use zetta_transport.Protocol.Frame.{Frame, encode}
use zetta_transport.Protocol.Frame
use zetta_transport.Protocol.PacketNumber.{truncate_pn}
use zetta_transport.Protocol.PacketHeader.{PacketHeader, PacketType, encode_header, get_pn_offset}
use zetta_transport.Protocol.PacketHeader
use zetta_transport.Transport.Congestion.{wrap}
use zetta_transport.Transport.UnackedWindow.{keys}
use zetta_transport.Transport.UnackedWindow
use zetta_transport.Transport.Unacked.{
  UnackedPayload, UnackedPacket, initial, stream, mtu_probe, stream_close, max_stream_data,
  reset_stream, close, connection_close_v2, datagram,
}
use zetta_transport.Transport.Connection.{ZtConnection, next_number}
use zetta_transport.Transport.Actor.{
  Actor, Outcome, Answer, sent, would_block, failed, is_handshaking, is_active, key_phase_of,
}

-- `keys().next().unwrap_or(pn)`
abbrev pub first_or : List ℕ → ℕ → ℕ
first_or [] d = d
first_or (x ∷ xs) d = x

-- The frame that carries a payload behind a header of `h_len` bytes.
abbrev pub payload_frame : (h_len : ℕ) → UnackedPayload → Frame
payload_frame h_len (initial cookie) = Frame.padding 0
payload_frame h_len (stream stream_id stream_type offset bytes) =
    Frame.stream stream_id stream_type offset bytes
payload_frame h_len (mtu_probe target_size) = Frame.padding (target_size - (h_len + 16))
payload_frame h_len (stream_close stream_id final_size) = Frame.stream_close stream_id final_size
payload_frame h_len (max_stream_data stream_id max_data) = Frame.max_stream_data stream_id max_data
payload_frame h_len (reset_stream stream_id error_code final_size) =
    Frame.reset_stream stream_id error_code final_size
payload_frame h_len close = Frame.connection_close
payload_frame h_len (connection_close_v2 error_code reason) =
    Frame.connection_close_v2 error_code reason
payload_frame h_len (datagram bytes) = Frame.datagram bytes

module _ ⦃buf : Buf⦄ where
  -- Zeros up to the bytes that header protection samples.
  abbrev pub padded : (pn_len : ℕ) → List ℕ → List ℕ
  padded pn_len payload =
      let min_payload = 4 - pn_len in
      if ltb (length payload) min_payload
      then payload ++ encode (Frame.padding (min_payload - length payload))
      else payload

module _ {K : Type 0} ⦃engine : CryptoEngine K⦄ where
  -- The encrypted payload and its tag behind the header, with the header protected.
  unfoldable pub seal : K → (pn : ℕ) → (header payload : List ℕ) → Result (List ℕ)
  seal crypto pn header payload = elim (engine.encrypt_in_place crypto pn header payload) [
    | ok (cipher, tag) ↦
        (let packet = header ++ (cipher ++ tag) in
          elim (get_pn_offset packet) [
            | none ↦ ok packet
            | some offset ↦ engine.apply_header_protection crypto packet offset
          ])
    | err e ↦ err e
    | panic ↦ panic
  ]

module _ {C K F : Type 0} ⦃engine : CryptoEngine K⦄ where
  unfoldable pub note_packet_sent : Actor C K F → Actor C K F
  note_packet_sent a =
      let s = a.state in
      if is_active s.state
      then elim s.crypto [
        | none ↦ a
        | some crypto ↦
            (let sent = saturating_add s.packets_since_key_update 1 in
              if leb (a.config).key_update_packet_interval sent
              then record a {
                state = record s {
                  crypto = some (engine.rotate_keys crypto);
                  current_key_epoch = saturating_add s.current_key_epoch 1;
                  packets_since_key_update = 0;
                };
              }
              else record a { state = record s { packets_since_key_update = sent } })
      ]
      else a

module _ {C K F : Type 0} where
  -- What the answer of the socket to `try_send_to` leads to.
  unfoldable pub answered : Answer → List ℕ → Actor C K F → Outcome C K F
  answered sent bytes a = (
    ok tt,
    record a {
      wire = a.wire ++ (((a.state).addr, bytes) ∷ []);
      state = record a.state { bytes_sent = wrap ((a.state).bytes_sent + length bytes) };
    },
  )
  answered would_block bytes a = (err (io "WouldBlock"), record a { socket_blocked = true })
  answered failed bytes a = (err (io "send failed"), a)

  unfoldable pub try_send : Actor C K F → List ℕ → Outcome C K F
  unfolding answered
  try_send a bytes = elim a.answers [
    | [] ↦ answered would_block bytes a
    | answer ∷ answers ↦ answered answer bytes (record a { answers = answers })
  ]

  -- A server that does not know its peer's address yet answers with three times the bytes received.
  unfoldable pub sendmsg_vectored : Actor C K F → List ℕ → Outcome C K F
  unfolding try_send
  sendmsg_vectored a bytes =
      let s = a.state in
      if not a.is_client
        && (is_handshaking s.state
            && ltb (wrap (3 * max s.bytes_received 1)) (wrap (s.bytes_sent + length bytes)))
      then (ok tt, a)
      else try_send a bytes

module _ {C K F : Type 0} ⦃engine : CryptoEngine K⦄ ⦃buf : Buf⦄ where
  abbrev pub short_header : PacketType → (pn pn_len : ℕ) → Actor C K F → PacketHeader
  short_header p_type pn pn_len a = record {
    p_type = p_type;
    is_long = false;
    version = 0;
    dcid = (a.state).dcid;
    scid = [];
    packet_number = pn;
    key_phase = key_phase_of (a.state).current_key_epoch;
    pn_len = pn_len;
  }

  -- The packet with the number `pn`, whose payload may depend on the lengths of the header and of
  -- its packet number.
  unfoldable pub build :
      PacketType
      → (payload : (h_len pn_len : ℕ) → List ℕ) → (pn : ℕ) → Actor C K F
      → Result (List ℕ)
  unfolding seal
  build p_type payload pn a =
      let s = a.state in
      let lowest_unacked = first_or (keys s.unacked_packets) pn in
      elim (truncate_pn pn (lowest_unacked - 1)) [
        | none ↦ panic
        | some truncated ↦
            (let header = encode_header (short_header p_type pn truncated.1 a) in
              elim s.crypto [
                | none ↦ err unauthorized
                | some crypto ↦ seal crypto pn header (payload (length header) truncated.1)
              ])
      ]

  -- The packet is handed to the socket, and booked if it was taken.
  unfoldable pub booked :
      (book : (sent_bytes : ℕ) → Actor C K F → Actor C K F)
      → (sent_bytes : ℕ) → Outcome C K F
      → Outcome C K F
  booked book sent_bytes (ok u, a) = (ok tt, book sent_bytes a)
  booked book sent_bytes (err e, a) = (err e, a)
  booked book sent_bytes (panic, a) = (panic, a)

  unfoldable pub transmit :
      (book : (sent_bytes : ℕ) → Actor C K F → Actor C K F)
      → Result (List ℕ)
      → Actor C K F
      → Outcome C K F
  unfolding booked sendmsg_vectored
  transmit book (ok packet) a = booked book (length packet) (sendmsg_vectored a packet)
  transmit book (err e) a = (err e, a)
  transmit book panic a = (panic, a)

  -- The rest of a function that begins with `get_next_packet_number()?`
  unfoldable pub with_number :
      ((pn : ℕ) → Actor C K F → Outcome C K F)
      → Result (ℕ × ZtConnection C K F)
      → Actor C K F
      → Outcome C K F
  with_number rest (ok r) a = rest r.0 (record a { state = r.1 })
  with_number rest (err e) a = (err e, a)
  with_number rest panic a = (panic, a)

  -- Takes a number, builds the packet and hands it to the socket; `book` then books it, given its
  -- number and its length.
  unfoldable pub send_packet :
      PacketType
      → (payload : (h_len pn_len : ℕ) → List ℕ)
      → (book : (pn sent_bytes : ℕ) → Actor C K F → Actor C K F) → Actor C K F
      → Outcome C K F
  unfolding build transmit with_number
  send_packet p_type payload book a =
      with_number (λ pn b. transmit (book pn) (build p_type payload pn b) b) (next_number a.state) a
