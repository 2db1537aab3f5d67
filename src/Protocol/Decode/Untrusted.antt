-- ===== src/Protocol/Decode/Untrusted.antt =====
-- `Frame::decode` on bytes of any origin.
use Prim.Native.String.{String}
use zetta_transport.Common.{ℕ, zero, suc, ◌+◌, ◌-◌, ◌*◌, ◌≤◌, ◌≡◌, arith}
use zetta_transport.Common.{
  List, [], ◌∷◌, ◌++◌, length, Option, none, some, Bool-cases, inl, inr, ltb, ◌==◌,
}
use zetta_transport.Transport.StreamType.{from_wire}
use zetta_transport.Protocol.Wire.{
  Buf, Parser, ◌>>=◌, return, fail, need, get_u8, copy_to_bytes, get_u16, get_u32, get_u64,
}
use zetta_transport.Protocol.Wire.Reads.{need-ok}
use zetta_transport.Protocol.Wire.Tame.{
  AreBytes, Ends, Ends-mono, Tame, Tame-bind, Tame-Takes, Tame-need, Tame-if,
}
use zetta_transport.Protocol.Wire.Tame.{
  Takes-get_u8, Takes-copy_to_bytes, Takes-get_u16, Takes-get_u32, Takes-get_u64,
}
use zetta_transport.Protocol.Varint.{get_varint}
use zetta_transport.Protocol.Varint.Untrusted.{Tame-get_varint}
use zetta_transport.Protocol.Frame.{
  Frame, stream, ack, connection_close, cookie, stream_close, max_stream_data, max_data, datagram,
  path_challenge, path_response, crypto, max_streams, streams_blocked, ping, stop_sending,
  data_blocked, stream_data_blocked, connection_close_v2,
}
use zetta_transport.Protocol.Decode.{
  ok_or, skip_padding, parse_sized, parse_stream, parse_ranges, parse_counted, parse_ack,
  parse_handshake, parse_cookie, parse_id_u64, parse_u64, parse_token, parse_datagram, parse_crypto,
  parse_reset_stream, parse_id_varint, parse_data_blocked, parse_connection_close_v2,
  parse_transport_parameters, parse_type, decode,
}

Tame-skip_padding : (k : ℕ) → Tame 0 (skip_padding k)
unfolding skip_padding
Tame-skip_padding k [] bytes h = (omega arith, tt)
Tame-skip_padding k (b ∷ bs) bytes h = elim (Bool-cases (b == 0x00)) [
  | inl zeros ↦ rw zeros (
      Ends-mono (length bs) (suc (length bs)) (skip_padding (k + 1) bs) (omega arith)
        (Tame-skip_padding (k + 1) bs bytes.1 (omega arith)))
  | inr other ↦ rw other (omega arith, bytes)
]

Tame-ok_or {ℓ κ} :
    {A : Type ℓ} {B : Type κ} (n : ℕ) (o : Option A) (m : String) (f : A → Parser B)
    → ((a : A) → Tame n (f a))
    → Tame n (ok_or o m >>= f)
Tame-ok_or n none m f next src bytes h = tt
Tame-ok_or n (some a) m f next src bytes h = next a src bytes h

module _ ⦃buf : Buf⦄ where
  Tame-parse_sized :
      (len : ℕ) (m : String) (frame : List ℕ → Frame) → Tame 0 (parse_sized len m frame)
  unfolding parse_sized
  Tame-parse_sized len m frame = Tame-need 0 len m _ (
      Tame-Takes len (copy_to_bytes len) _ len (Takes-copy_to_bytes len) (omega arith)
        (λ v src bytes l. (omega arith, bytes)))

  Tame-varint_sized :
      (m : String) (frame : List ℕ → Frame) → Tame 0 (get_varint >>= λ len. parse_sized len m frame)
  Tame-varint_sized m frame =
      Tame-bind 0 get_varint _ Tame-get_varint (λ len. Tame-parse_sized len m frame)

  Tame-parse_stream : Tame 0 parse_stream
  unfolding parse_stream
  Tame-parse_stream = Tame-need 0 14 "Stream frame too short" _ (
      Tame-Takes 14 get_u32 _ 4 Takes-get_u32 (omega arith) λ id.
        Tame-Takes 10 get_u8 _ 1 Takes-get_u8 (omega arith) λ wire.
          Tame-ok_or 9 (from_wire wire) "Invalid stream type" _ λ stream_type.
            Tame-Takes 9 get_u64 _ 8 Takes-get_u64 (omega arith) λ offset src bytes h.
              Tame-varint_sized "Stream frame truncated" (stream id stream_type offset) src bytes
                (omega arith))

  Tame-parse_ranges : (n : ℕ) (before : List (ℕ × ℕ)) → Tame (n * 16) (parse_ranges n before)
  unfolding parse_ranges
  Tame-parse_ranges zero before = λ src bytes h. (omega arith, bytes)
  Tame-parse_ranges (suc n) before =
      Tame-Takes (suc n * 16) get_u64 _ 8 Takes-get_u64 (omega arith) λ start.
        Tame-Takes (suc n * 16 - 8) get_u64 _ 8 Takes-get_u64 (omega arith) λ end.
          let rest : Tame (suc n * 16 - 8 - 8) (parse_ranges n (before ++ ((start, end) ∷ []))) =
            λ src bytes h.
              Tame-parse_ranges n (before ++ ((start, end) ∷ [])) src bytes (omega arith) in
          Tame-if _ (ltb end start) (fail "Ack range start > end") _ (λ src bytes h. tt) rest

  Tame-parse_counted : (n : ℕ) (frame : List (ℕ × ℕ) → Frame) → Tame 0 (parse_counted n frame)
  unfolding parse_counted
  Tame-parse_counted n frame =
      Tame-if 0 (ltb 128 n) (fail "Too many ACK ranges") _ (λ src bytes h. tt)
        (Tame-need 0 (n * 16) "Ack frame ranges truncated" _ (
          Tame-bind (n * 16) (parse_ranges n []) _ (Tame-parse_ranges n [])
            (λ v src bytes l. (omega arith, bytes))))

  Tame-parse_ack : Tame 0 parse_ack
  unfolding parse_ack
  Tame-parse_ack = Tame-need 0 13 "Ack frame too short" _ (
      Tame-Takes 13 get_u64 _ 8 Takes-get_u64 (omega arith) λ largest_acked.
        Tame-Takes 5 get_u32 _ 4 Takes-get_u32 (omega arith) λ window_size src bytes h.
          Tame-bind 0 get_varint _ Tame-get_varint
            (λ ack_delay. Tame-need 0 1 "Ack frame range count missing" _ (
              Tame-Takes 1 get_u8 _ 1 Takes-get_u8 (omega arith) λ range_count.
                Tame-parse_counted range_count (ack largest_acked window_size ack_delay)))
            src bytes (omega arith))

  Tame-copied :
      (n len : ℕ) (frame : List ℕ → Frame)
      → len ≤ n
      → Tame n (copy_to_bytes len >>= λ bytes. return (frame bytes))
  Tame-copied n len frame le =
      Tame-Takes n (copy_to_bytes len) _ len (Takes-copy_to_bytes len) le
        (λ v src bytes l. (omega arith, bytes))

  Tame-parse_handshake : Tame 0 parse_handshake
  unfolding parse_handshake
  Tame-parse_handshake = Tame-need 0 130 "Handshake frame too short" _ (
      Tame-Takes 130 (copy_to_bytes 32) _ 32 (Takes-copy_to_bytes 32) (omega arith) λ pk.
        Tame-Takes 98 (copy_to_bytes 32) _ 32 (Takes-copy_to_bytes 32) (omega arith) λ ed.
          Tame-Takes 66 get_u16 _ 2 Takes-get_u16 (omega arith) λ th_len.
            Tame-need 64 (th_len + 64) "Handshake frame truncated" _ (
              Tame-Takes (th_len + 64) (copy_to_bytes th_len) _ th_len (Takes-copy_to_bytes th_len)
                (omega arith)
                λ th.
                  Tame-Takes (th_len + 64 - th_len) (copy_to_bytes 64) _ 64 (Takes-copy_to_bytes 64)
                    (omega arith)
                    λ sig. Tame-need _ 1 "Handshake frame ALPN length missing" _ (
                      Tame-Takes 1 get_u8 _ 1 Takes-get_u8 (omega arith) λ alpn_len.
                        Tame-need 0 alpn_len "Handshake frame ALPN truncated" _
                          (Tame-copied alpn_len alpn_len _ (omega arith)))))

  Tame-parse_cookie : Tame 0 parse_cookie
  unfolding parse_cookie
  Tame-parse_cookie = Tame-need 0 2 "Cookie frame too short" _ (
      Tame-Takes 2 get_u16 _ 2 Takes-get_u16 (omega arith)
        λ len. Tame-parse_sized len "Cookie frame truncated" cookie)

  Tame-id_u64 : (m : String) (frame : ℕ → ℕ → Frame) → Tame 0 (parse_id_u64 m frame)
  unfolding parse_id_u64
  Tame-id_u64 m frame = Tame-need 0 12 m _ (
      Tame-Takes 12 get_u32 _ 4 Takes-get_u32 (omega arith) λ id.
        Tame-Takes 8 get_u64 _ 8 Takes-get_u64 (omega arith) λ v src bytes l. (omega arith, bytes))

  Tame-u64 : (m : String) (frame : ℕ → Frame) → Tame 0 (parse_u64 m frame)
  unfolding parse_u64
  Tame-u64 m frame =
      Tame-need 0 8 m _
        (Tame-Takes 8 get_u64 _ 8 Takes-get_u64 (omega arith) λ v src bytes l. (omega arith, bytes))

  Tame-token : (m : String) (frame : List ℕ → Frame) → Tame 0 (parse_token m frame)
  unfolding parse_token
  Tame-token m frame = Tame-need 0 8 m _ (Tame-copied 8 8 frame (omega arith))

  Tame-parse_crypto : Tame 0 parse_crypto
  unfolding parse_crypto
  Tame-parse_crypto = Tame-need 0 9 "Crypto frame too short" _ (
      Tame-Takes 9 get_u64 _ 8 Takes-get_u64 (omega arith) λ offset src bytes h.
        Tame-varint_sized "Crypto frame truncated" (crypto offset) src bytes (omega arith))

  Tame-varint_last : (frame : ℕ → Frame) → Tame 0 (get_varint >>= λ v. return (frame v))
  Tame-varint_last frame =
      Tame-bind 0 get_varint _ Tame-get_varint (λ v src bytes l. (omega arith, bytes))

  Tame-parse_reset_stream : Tame 0 parse_reset_stream
  unfolding parse_reset_stream
  Tame-parse_reset_stream = Tame-need 0 4 "ResetStream frame too short" _ (
      Tame-Takes 4 get_u32 _ 4 Takes-get_u32 (omega arith)
        λ id. Tame-bind 0 get_varint _ Tame-get_varint (λ code. Tame-varint_last _))

  Tame-id_varint : (m : String) (frame : ℕ → ℕ → Frame) → Tame 0 (parse_id_varint m frame)
  unfolding parse_id_varint
  Tame-id_varint m frame =
      Tame-need 0 4 m _
        (Tame-Takes 4 get_u32 _ 4 Takes-get_u32 (omega arith) λ id. Tame-varint_last (frame id))

  Tame-parse_connection_close_v2 : Tame 0 parse_connection_close_v2
  unfolding parse_connection_close_v2
  Tame-parse_connection_close_v2 =
      Tame-bind 0 get_varint _ Tame-get_varint
        λ code. Tame-varint_sized "ConnectionCloseV2 reason truncated" (connection_close_v2 code)

  Tame-parse_transport_parameters : Tame 0 parse_transport_parameters
  unfolding parse_transport_parameters
  Tame-parse_transport_parameters = Tame-need 0 36 "TransportParameters frame too short" _ (
      Tame-Takes 36 get_u64 _ 8 Takes-get_u64 (omega arith) λ a.
        Tame-Takes 28 get_u64 _ 8 Takes-get_u64 (omega arith) λ b.
          Tame-Takes 20 get_u64 _ 8 Takes-get_u64 (omega arith) λ c.
            Tame-Takes 12 get_u32 _ 4 Takes-get_u32 (omega arith) λ d.
              Tame-Takes 8 get_u64 _ 8 Takes-get_u64 (omega arith)
                λ e src bytes l. (omega arith, bytes))

  Tame-unit : (f : Frame) → Tame 0 (return f)
  Tame-unit f src bytes h = (omega arith, bytes)

  Tame-parse_type : (t : ℕ) → Tame 0 (parse_type t)
  unfolding parse_type parse_datagram parse_data_blocked
  Tame-parse_type t = Tame-if 0 (t == 0x00) _ _ (Tame-skip_padding 1) (
      Tame-if 0 (t == 0x01) _ _ Tame-parse_stream (
        Tame-if 0 (t == 0x02) _ _ Tame-parse_ack (
          Tame-if 0 (t == 0x03) _ _ (Tame-unit connection_close) (
            Tame-if 0 (t == 0x04) _ _ Tame-parse_handshake (
              Tame-if 0 (t == 0x05) _ _ Tame-parse_cookie (
                Tame-if 0 (t == 0x06) _ _ (Tame-id_u64 "StreamClose frame too short" stream_close) (
                  Tame-if 0 (t == 0x07) _ _
                    (Tame-id_u64 "MaxStreamData frame too short" max_stream_data)
                    (Tame-if 0 (t == 0x08) _ _ (Tame-u64 "MaxData frame too short" max_data) (
                      Tame-if 0 (t == 0x09) _ _
                        (Tame-varint_sized "Datagram frame truncated" datagram)
                        (Tame-if 0 (t == 0x0A) _ _
                          (Tame-token "PathChallenge frame too short" path_challenge)
                          (Tame-if 0 (t == 0x0B) _ _
                            (Tame-token "PathResponse frame too short" path_response)
                            (Tame-if 0 (t == 0x0C) _ _ Tame-parse_crypto (
                              Tame-if 0 (t == 0x12) _ _
                                (Tame-u64 "MaxStreams frame too short" max_streams)
                                (Tame-if 0 (t == 0x13) _ _
                                  (Tame-u64 "StreamsBlocked frame too short" streams_blocked)
                                  (Tame-if 0 (t == 0x0D) _ _ (Tame-unit ping) (
                                    Tame-if 0 (t == 0x0E) _ _ Tame-parse_reset_stream (
                                      Tame-if 0 (t == 0x0F) _ _
                                        (Tame-id_varint "StopSending frame too short" stop_sending)
                                        (Tame-if 0 (t == 0x10) _ _ (Tame-varint_last data_blocked) (
                                          Tame-if 0 (t == 0x11) _ _
                                            (Tame-id_varint "StreamDataBlocked frame too short"
                                              stream_data_blocked)
                                            (Tame-if 0 (t == 0x14) _ _
                                              Tame-parse_connection_close_v2
                                              (Tame-if 0 (t == 0x15) _ _
                                                Tame-parse_transport_parameters
                                                ((λ src bytes h. tt)))))))))))))))))))))))

  -- On any bytes `decode` ends with a frame or an error: no read runs past the end. A frame takes
  -- one byte at least, so that a loop of `decode` over a payload ends.
  pub decode-Ends : (src : List ℕ) → AreBytes src → Ends (length src - 1) (decode src)
  unfolding decode get_u8 need
  decode-Ends [] bytes = tt
  decode-Ends (b ∷ bs) bytes =
      let left : suc (length bs) - 1 ≡ length bs = omega arith in
      rw (need-ok 1 "Empty frame" (b ∷ bs) (omega arith), left, ◌>>=◌)
        (Tame-parse_type b bs bytes.1 (omega arith))
