-- ===== src/Protocol/Decode.antt =====
-- `Frame::decode` of src/protocol/frame.rs, with a function for each of its longer branches.
pub mod Reads
pub mod RoundTrip
pub mod Untrusted
mod Tests
use Prim.Native.String.{String}
use zetta_transport.Common.{ℕ, zero, suc, ◌+◌, ◌*◌, List, [], ◌∷◌, ◌++◌, Option, none, some}
use zetta_transport.Common.{ltb, ◌==◌, if◌then◌else◌}
use zetta_transport.Error.{ok, err, invalid_packet, text, unknown_frame_type}
use zetta_transport.Transport.StreamType.{StreamType, from_wire}
use zetta_transport.Protocol.Wire.{Buf, Parser, ◌>>=◌, ◌>>◌, return, fail, need, get_u8}
use zetta_transport.Protocol.Wire.{copy_to_bytes, get_u16, get_u32, get_u64}
use zetta_transport.Protocol.Varint.{get_varint}
use zetta_transport.Protocol.TransportParameters.{TransportParameters}
use zetta_transport.Protocol.Frame.{
  Frame, padding, stream, ack, connection_close, handshake, cookie, stream_close, max_stream_data,
  max_data, datagram, path_challenge, path_response, crypto, max_streams, streams_blocked, ping,
  reset_stream, stop_sending, data_blocked, stream_data_blocked, connection_close_v2,
  transport_parameters,
}

-- `opt.ok_or_else(|| Err(..))?`
abbrev ok_or {ℓ} : {A : Type ℓ} → Option A → String → Parser A
ok_or none message = fail message
ok_or (some a) message = return a

-- The zero bytes behind the first one.
pub skip_padding : ℕ → Parser Frame
skip_padding padding_len [] = ok (padding padding_len, [])
skip_padding padding_len (b ∷ bs) =
    let more = skip_padding (padding_len + 1) bs in
    if b == 0x00 then more else ok (padding padding_len, b ∷ bs)

module _ ⦃buf : Buf⦄ where
  -- A length, and as many bytes.
  pub parse_sized : ℕ → String → (List ℕ → Frame) → Parser Frame
  parse_sized len message frame = do
    need len message
    bytes ← copy_to_bytes len
    return (frame bytes)

  pub parse_stream : Parser Frame
  unfolding parse_sized
  parse_stream = do
    need 14 "Stream frame too short"
    id ← get_u32
    wire ← get_u8
    stream_type ← ok_or (from_wire wire) "Invalid stream type"
    offset ← get_u64
    len ← get_varint
    parse_sized len "Stream frame truncated" (stream id stream_type offset)

  pub parse_ranges : ℕ → List (ℕ × ℕ) → Parser (List (ℕ × ℕ))
  parse_ranges zero ack_ranges = return ack_ranges
  parse_ranges (suc n) ack_ranges = get_u64 >>= λ start. get_u64 >>= λ end.
      if ltb end start
      then fail "Ack range start > end"
      else parse_ranges n (ack_ranges ++ ((start, end) ∷ []))

  -- The ranges of an ACK frame, behind their count.
  pub parse_counted : ℕ → (List (ℕ × ℕ) → Frame) → Parser Frame
  parse_counted range_count frame = if ltb 128 range_count then fail "Too many ACK ranges" else (do
    need (range_count * 16) "Ack frame ranges truncated"
    ack_ranges ← parse_ranges range_count []
    return (frame ack_ranges))

  pub parse_ack : Parser Frame
  unfolding parse_counted
  parse_ack = do
    need 13 "Ack frame too short"
    largest_acked ← get_u64
    window_size ← get_u32
    ack_delay ← get_varint
    need 1 "Ack frame range count missing"
    range_count ← get_u8
    parse_counted range_count (ack largest_acked window_size ack_delay)

  pub parse_handshake : Parser Frame
  parse_handshake = do
    need 130 "Handshake frame too short"
    public_key ← copy_to_bytes 32
    ed_public_key ← copy_to_bytes 32
    th_len ← get_u16
    need (th_len + 64) "Handshake frame truncated"
    transcript_hash ← copy_to_bytes th_len
    signature ← copy_to_bytes 64
    need 1 "Handshake frame ALPN length missing"
    alpn_len ← get_u8
    need alpn_len "Handshake frame ALPN truncated"
    alpn ← copy_to_bytes alpn_len
    return (handshake public_key ed_public_key transcript_hash signature alpn)

  pub parse_cookie : Parser Frame
  unfolding parse_sized
  parse_cookie = do
    need 2 "Cookie frame too short"
    len ← get_u16
    parse_sized len "Cookie frame truncated" cookie

  -- A stream id and a u64.
  pub parse_id_u64 : String → (ℕ → ℕ → Frame) → Parser Frame
  parse_id_u64 message frame = do
    need 12 message
    id ← get_u32
    value ← get_u64
    return (frame id value)

  pub parse_u64 : String → (ℕ → Frame) → Parser Frame
  parse_u64 message frame = do need 8 message; value ← get_u64; return (frame value)

  pub parse_token : String → (List ℕ → Frame) → Parser Frame
  parse_token message frame = do need 8 message; token ← copy_to_bytes 8; return (frame token)

  pub parse_datagram : Parser Frame
  unfolding parse_sized
  parse_datagram = do len ← get_varint; parse_sized len "Datagram frame truncated" datagram

  pub parse_crypto : Parser Frame
  unfolding parse_sized
  parse_crypto = do
    need 9 "Crypto frame too short"
    offset ← get_u64
    len ← get_varint
    parse_sized len "Crypto frame truncated" (crypto offset)

  pub parse_reset_stream : Parser Frame
  parse_reset_stream = do
    need 4 "ResetStream frame too short"
    stream_id ← get_u32
    error_code ← get_varint
    final_size ← get_varint
    return (reset_stream stream_id error_code final_size)

  -- A stream id and a varint.
  pub parse_id_varint : String → (ℕ → ℕ → Frame) → Parser Frame
  parse_id_varint message frame = do
    need 4 message
    stream_id ← get_u32
    value ← get_varint
    return (frame stream_id value)

  pub parse_data_blocked : Parser Frame
  parse_data_blocked = do limit ← get_varint; return (data_blocked limit)

  pub parse_connection_close_v2 : Parser Frame
  unfolding parse_sized
  parse_connection_close_v2 = do
    error_code ← get_varint
    reason_len ← get_varint
    parse_sized reason_len "ConnectionCloseV2 reason truncated" (connection_close_v2 error_code)

  pub parse_transport_parameters : Parser Frame
  parse_transport_parameters = do
    need 36 "TransportParameters frame too short"
    streams ← get_u64
    initial_stream_window ← get_u64
    initial_max_data ← get_u64
    max_datagram_size ← get_u32
    idle_timeout_ms ← get_u64
    return (
        transport_parameters (record {
          max_streams = streams;
          initial_stream_window = initial_stream_window;
          initial_max_data = initial_max_data;
          max_datagram_size = max_datagram_size;
          idle_timeout_ms = idle_timeout_ms;
        }))

  -- `match frame_type { .. }`
  pub parse_type : ℕ → Parser Frame
  parse_type frame_type =
      if frame_type == 0x00
      then skip_padding 1
      else if frame_type == 0x01
      then parse_stream
      else if frame_type == 0x02
      then parse_ack
      else if frame_type == 0x03
      then return connection_close
      else if frame_type == 0x04
      then parse_handshake
      else if frame_type == 0x05
      then parse_cookie
      else if frame_type == 0x06
      then parse_id_u64 "StreamClose frame too short" stream_close
      else if frame_type == 0x07
      then parse_id_u64 "MaxStreamData frame too short" max_stream_data
      else if frame_type == 0x08
      then parse_u64 "MaxData frame too short" max_data
      else if frame_type == 0x09
      then parse_datagram
      else if frame_type == 0x0A
      then parse_token "PathChallenge frame too short" path_challenge
      else if frame_type == 0x0B
      then parse_token "PathResponse frame too short" path_response
      else if frame_type == 0x0C
      then parse_crypto
      else if frame_type == 0x12
      then parse_u64 "MaxStreams frame too short" max_streams
      else if frame_type == 0x13
      then parse_u64 "StreamsBlocked frame too short" streams_blocked
      else if frame_type == 0x0D
      then return ping
      else if frame_type == 0x0E
      then parse_reset_stream
      else if frame_type == 0x0F
      then parse_id_varint "StopSending frame too short" stop_sending
      else if frame_type == 0x10
      then parse_data_blocked
      else if frame_type == 0x11
      then parse_id_varint "StreamDataBlocked frame too short" stream_data_blocked
      else if frame_type == 0x14
      then parse_connection_close_v2
      else if frame_type == 0x15
      then parse_transport_parameters
      else (λ src. err (invalid_packet (unknown_frame_type frame_type)))

  pub decode : Parser Frame
  unfolding parse_type
  decode = do need 1 "Empty frame"; frame_type ← get_u8; parse_type frame_type
