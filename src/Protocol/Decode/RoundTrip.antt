-- ===== src/Protocol/Decode/RoundTrip.antt =====
-- `Frame::decode` returns the frame that `Frame::encode` wrote.
use zetta_transport.Common.{ℕ, zero, suc, ◌+◌, ◌^◌, ◌≤◌, ◌<◌, ◌≡◌, ◌≢◌, refl, ap, arith}
use zetta_transport.Common.{List, [], ◌∷◌, ◌++◌, length, replicate, some}
use mathlib.Core.List.{head?}
use zetta_transport.Error.{ok}
use zetta_transport.Protocol.Wire.{Buf, ◌>>=◌, get_u8}
use zetta_transport.Protocol.Wire.Reads.{Reads, need-ok}
use zetta_transport.Protocol.Frame.{
  Frame, padding, stream, ack, connection_close, handshake, cookie, stream_close, max_stream_data,
  max_data, datagram, path_challenge, path_response, crypto, max_streams, streams_blocked, ping,
  reset_stream, stop_sending, data_blocked, stream_data_blocked, connection_close_v2,
  transport_parameters, encode,
}
use zetta_transport.Protocol.Decode.{skip_padding, parse_type, decode}
use zetta_transport.Protocol.Decode.Reads.{
  AreRanges, Reads-parse_stream, Reads-parse_datagram, Reads-parse_crypto,
  Reads-parse_connection_close_v2, Reads-parse_cookie, Reads-id_u64, Reads-u64, Reads-token,
  Reads-parse_reset_stream, Reads-id_varint, Reads-parse_data_blocked,
  Reads-parse_transport_parameters, Reads-parse_handshake, Reads-parse_ack, encode-ack,
}

-- The bounds of a frame's fields: the Rust types, 2^62 for a varint, and the lengths that their
-- prefixes can hold.
abbrev pub Encodable : Frame → Type 0
Encodable (padding len) = 1 ≤ len
Encodable (stream id t offset bytes) = (id < 2 ^ 32) × (offset < 2 ^ 64) × (length bytes < 2 ^ 62)
Encodable (ack largest_acked window_size ack_delay ack_ranges) =
    (largest_acked < 2 ^ 64)
    × (window_size < 2 ^ 32)
    × (ack_delay < 2 ^ 62)
    × (length ack_ranges ≤ 128)
    × AreRanges ack_ranges
Encodable connection_close = Unit {0}
Encodable (handshake public_key ed_public_key transcript_hash signature alpn) =
    (length public_key ≡ 32)
    × (length ed_public_key ≡ 32)
    × (length transcript_hash < 2 ^ 16)
    × (length signature ≡ 64)
    × (length alpn < 2 ^ 8)
Encodable (cookie bytes) = length bytes < 2 ^ 16
Encodable (stream_close id final_size) = (id < 2 ^ 32) × (final_size < 2 ^ 64)
Encodable (max_stream_data id limit) = (id < 2 ^ 32) × (limit < 2 ^ 64)
Encodable (max_data limit) = limit < 2 ^ 64
Encodable (datagram bytes) = length bytes < 2 ^ 62
Encodable (path_challenge bytes) = length bytes ≡ 8
Encodable (path_response bytes) = length bytes ≡ 8
Encodable (crypto offset bytes) = (offset < 2 ^ 64) × (length bytes < 2 ^ 62)
Encodable (max_streams limit) = limit < 2 ^ 64
Encodable (streams_blocked limit) = limit < 2 ^ 64
Encodable ping = Unit {0}
Encodable (reset_stream id error_code final_size) =
    (id < 2 ^ 32) × (error_code < 2 ^ 62) × (final_size < 2 ^ 62)
Encodable (stop_sending id error_code) = (id < 2 ^ 32) × (error_code < 2 ^ 62)
Encodable (data_blocked limit) = limit < 2 ^ 62
Encodable (stream_data_blocked id limit) = (id < 2 ^ 32) × (limit < 2 ^ 62)
Encodable (connection_close_v2 error_code reason) = (error_code < 2 ^ 62) × (length reason < 2 ^ 62)
Encodable (transport_parameters p) =
    (p.max_streams < 2 ^ 64)
    × (p.initial_stream_window < 2 ^ 64)
    × (p.initial_max_data < 2 ^ 64)
    × (p.max_datagram_size < 2 ^ 32)
    × (p.idle_timeout_ms < 2 ^ 64)

-- Zero bytes behind a padding frame would be read as part of it.
abbrev pub MayFollow : Frame → List ℕ → Type 0
MayFollow (padding len) rest = head? rest ≢ some 0
MayFollow _ rest = Unit {0}

skip_padding-replicate :
    (n k : ℕ) (rest : List ℕ)
    → head? rest ≢ some 0
    → skip_padding k (replicate n 0 ++ rest) ≡ ok (padding (k + n), rest)
unfolding skip_padding
skip_padding-replicate zero k [] h = ground arith
skip_padding-replicate zero k (b ∷ rest) h = ground (arith, λ (e : b ≡ 0). h (ap some e))
skip_padding-replicate (suc n) k rest h =
    let next : k + 1 + n ≡ k + suc n = omega arith in
    rw (← next) (skip_padding-replicate n (k + 1) rest h)

module _ ⦃buf : Buf⦄ where
  open buf use {put_u16, put_u32, put_u64}

  Reads-type :
      (frame_type : ℕ) (bytes : List ℕ) (f : Frame)
      → Reads (parse_type frame_type) bytes f
      → Reads decode (frame_type ∷ bytes) f
  unfolding decode get_u8
  Reads-type t bytes f h rest =
      rw (need-ok 1 "Empty frame" (t ∷ (bytes ++ rest)) (omega arith), ◌>>=◌) (h rest)

  decode_padding :
      (n : ℕ) (rest : List ℕ)
      → head? rest ≢ some 0
      → decode (0x00 ∷ (replicate n 0 ++ rest)) ≡ ok (padding (suc n), rest)
  unfolding decode get_u8 parse_type
  decode_padding n rest m =
      let count : 1 + n ≡ suc n = omega arith in
      rw (need-ok 1 "Empty frame" (0x00 ∷ (replicate n 0 ++ rest)) (omega arith), ◌>>=◌, ← count)
        (skip_padding-replicate n 1 rest m)

  decode-encode_ack :
      (l w d : ℕ) (ranges : List (ℕ × ℕ)) (rest : List ℕ)
      → Encodable (ack l w d ranges)
      → decode (encode (ack l w d ranges) ++ rest) ≡ ok (ack l w d ranges, rest)
  unfolding parse_type
  decode-encode_ack l w d ranges rest h =
      rw (encode-ack l w d ranges h.3)
        (Reads-type 0x02 _ _ (Reads-parse_ack l w d ranges h.0 h.1 h.2 h.3 h.4) rest)

  -- `decode` reads back every encodable frame, and leaves what follows it: anything, but no zero
  -- byte behind padding.
  pub decode-encode :
      (f : Frame) (rest : List ℕ)
      → Encodable f
      → MayFollow f rest
      → decode (encode f ++ rest) ≡ ok (f, rest)
  unfolding encode parse_type
  decode-encode (padding zero) rest h m = absurd (omega arith)
  decode-encode (padding (suc n)) rest h m = decode_padding n rest m
  decode-encode (stream id t offset bytes) rest h m =
      Reads-type 0x01 _ _ (Reads-parse_stream id t offset bytes h.0 h.1 h.2) rest
  decode-encode (ack l w d ranges) rest h m = decode-encode_ack l w d ranges rest h
  decode-encode connection_close rest h m = Reads-type 0x03 [] connection_close (λ _. refl) rest
  decode-encode (handshake pk ed th sig alpn) rest h m =
      Reads-type 0x04 _ _ (Reads-parse_handshake pk ed th sig alpn h.0 h.1 h.2 h.3 h.4) rest
  decode-encode (cookie bytes) rest h m = Reads-type 0x05 _ _ (Reads-parse_cookie bytes h) rest
  decode-encode (stream_close id v) rest h m =
      Reads-type 0x06 _ _ (Reads-id_u64 "StreamClose frame too short" stream_close id v h.0 h.1)
        rest
  decode-encode (max_stream_data id v) rest h m =
      Reads-type 0x07 _ _
        (Reads-id_u64 "MaxStreamData frame too short" max_stream_data id v h.0 h.1) rest
  decode-encode (max_data v) rest h m =
      Reads-type 0x08 _ _ (Reads-u64 "MaxData frame too short" max_data v h) rest
  decode-encode (datagram bytes) rest h m = Reads-type 0x09 _ _ (Reads-parse_datagram bytes h) rest
  decode-encode (path_challenge bytes) rest h m =
      Reads-type 0x0A _ _ (Reads-token "PathChallenge frame too short" path_challenge bytes h) rest
  decode-encode (path_response bytes) rest h m =
      Reads-type 0x0B _ _ (Reads-token "PathResponse frame too short" path_response bytes h) rest
  decode-encode (crypto offset bytes) rest h m =
      Reads-type 0x0C _ _ (Reads-parse_crypto offset bytes h.0 h.1) rest
  decode-encode (max_streams v) rest h m =
      Reads-type 0x12 _ _ (Reads-u64 "MaxStreams frame too short" max_streams v h) rest
  decode-encode (streams_blocked v) rest h m =
      Reads-type 0x13 _ _ (Reads-u64 "StreamsBlocked frame too short" streams_blocked v h) rest
  decode-encode ping rest h m = Reads-type 0x0D [] ping (λ _. refl) rest
  decode-encode (reset_stream id e v) rest h m =
      Reads-type 0x0E _ _ (Reads-parse_reset_stream id e v h.0 h.1 h.2) rest
  decode-encode (stop_sending id e) rest h m =
      Reads-type 0x0F _ _ (Reads-id_varint "StopSending frame too short" stop_sending id e h.0 h.1)
        rest
  decode-encode (data_blocked v) rest h m = Reads-type 0x10 _ _ (Reads-parse_data_blocked v h) rest
  decode-encode (stream_data_blocked id v) rest h m =
      Reads-type 0x11 _ _
        (Reads-id_varint "StreamDataBlocked frame too short" stream_data_blocked id v h.0 h.1) rest
  decode-encode (connection_close_v2 e reason) rest h m =
      Reads-type 0x14 _ _ (Reads-parse_connection_close_v2 e reason h.0 h.1) rest
  decode-encode (transport_parameters p) rest h m =
      Reads-type 0x15 _ _ (Reads-parse_transport_parameters p h.0 h.1 h.2 h.3 h.4) rest
