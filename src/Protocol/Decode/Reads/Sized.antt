-- ===== src/Protocol/Decode/Reads/Sized.antt =====
-- Frames that end in bytes of an announced length.
use Prim.Native.String.{String}
use zetta_transport.Common.{ℕ, ◌%◌, ◌^◌, ◌<◌, ◌≡◌, refl, arith}
use zetta_transport.Common.{List, [], ◌∷◌, ◌++◌, length, some}
use zetta_transport.Common.{length-append}
use zetta_transport.Transport.StreamType.{
  StreamType, bidirectional, unidirectional_out, unidirectional_in, to_wire, from_wire,
}
use zetta_transport.Protocol.Wire.{Buf, get_u8, copy_to_bytes}
use zetta_transport.Protocol.Wire.{get_u16, get_u32, get_u64}
use zetta_transport.Protocol.Wire.Reads.{Reads, Reads-bind, Reads-map, Reads-need}
use zetta_transport.Protocol.Wire.Reads.{Reads-get_u8, Reads-get_u16, Reads-get_u32, Reads-get_u64}
use zetta_transport.Protocol.Wire.Reads.{
  Reads-copy_to_bytes, length-put_u16, length-put_u32, length-put_u64,
}
use zetta_transport.Protocol.Varint.{put_varint, get_varint}
use zetta_transport.Protocol.Varint.RoundTrip.{Reads-get_varint, length-put_varint}
use zetta_transport.Protocol.Frame.{Frame, stream, cookie, datagram, crypto, connection_close_v2}
use zetta_transport.Protocol.Decode.{
  parse_sized, parse_stream, parse_cookie, parse_datagram, parse_crypto, parse_connection_close_v2,
}

from_wire-to_wire : (t : StreamType) → from_wire (to_wire t) ≡ some t
unfolding from_wire to_wire
from_wire-to_wire bidirectional = refl
from_wire-to_wire unidirectional_out = refl
from_wire-to_wire unidirectional_in = refl

module _ ⦃buf : Buf⦄ where
  open buf use {put_u16, put_u32, put_u64}

  pub Reads-parse_sized :
      (m : String) (frame : List ℕ → Frame) (bytes : List ℕ)
      → Reads (parse_sized (length bytes) m frame) bytes (frame bytes)
  unfolding parse_sized
  Reads-parse_sized m frame bytes =
      Reads-need (length bytes) m _ bytes (frame bytes) (omega arith) (
        Reads-map (copy_to_bytes (length bytes)) frame bytes bytes (frame bytes)
          (Reads-copy_to_bytes bytes) refl)

  pub Reads-parse_stream :
      (id : ℕ) (t : StreamType) (offset : ℕ) (bytes : List ℕ)
      → id < 2 ^ 32
      → offset < 2 ^ 64
      → length bytes < 2 ^ 62
      → Reads parse_stream
          (put_u32 id ++ (to_wire t ∷ (put_u64 offset ++ (put_varint (length bytes) ++ bytes))))
          (stream id t offset bytes)
  unfolding parse_stream
  Reads-parse_stream id t offset bytes hi ho hl =
      Reads-need 14 "Stream frame too short" _ _ _
        (omega (arith, length-append {0}, length-put_u32, length-put_u64, length-put_varint))
        (Reads-bind get_u32 _ _ _ id _ (Reads-get_u32 id hi) (
          Reads-bind get_u8 _ (to_wire t ∷ []) _ (to_wire t) _ (Reads-get_u8 (to_wire t)) (
            rw (from_wire-to_wire t) (
              Reads-bind get_u64 _ _ _ offset _ (Reads-get_u64 offset ho) (
                Reads-bind get_varint _ _ _ (length bytes) _ (Reads-get_varint (length bytes) hl)
                  (Reads-parse_sized "Stream frame truncated" (stream id t offset) bytes))))))

  pub Reads-parse_datagram :
      (bytes : List ℕ)
      → length bytes < 2 ^ 62
      → Reads parse_datagram (put_varint (length bytes) ++ bytes) (datagram bytes)
  unfolding parse_datagram
  Reads-parse_datagram bytes hl =
      Reads-bind get_varint _ _ _ (length bytes) _ (Reads-get_varint (length bytes) hl)
        (Reads-parse_sized "Datagram frame truncated" datagram bytes)

  pub Reads-parse_crypto :
      (offset : ℕ) (bytes : List ℕ)
      → offset < 2 ^ 64
      → length bytes < 2 ^ 62
      → Reads parse_crypto
          (put_u64 offset ++ (put_varint (length bytes) ++ bytes))
          (crypto offset bytes)
  unfolding parse_crypto
  Reads-parse_crypto offset bytes ho hl =
      Reads-need 9 "Crypto frame too short" _ _ _
        (omega (arith, length-append {0}, length-put_u64, length-put_varint))
        (Reads-bind get_u64 _ _ _ offset _ (Reads-get_u64 offset ho) (
          Reads-bind get_varint _ _ _ (length bytes) _ (Reads-get_varint (length bytes) hl)
            (Reads-parse_sized "Crypto frame truncated" (crypto offset) bytes)))

  pub Reads-parse_connection_close_v2 :
      (error_code : ℕ) (reason : List ℕ)
      → error_code < 2 ^ 62
      → length reason < 2 ^ 62
      → Reads parse_connection_close_v2
          (put_varint error_code ++ (put_varint (length reason) ++ reason))
          (connection_close_v2 error_code reason)
  unfolding parse_connection_close_v2
  Reads-parse_connection_close_v2 error_code reason he hl =
      Reads-bind get_varint _ _ _ error_code _ (Reads-get_varint error_code he) (
        Reads-bind get_varint _ _ _ (length reason) _ (Reads-get_varint (length reason) hl) (
          Reads-parse_sized "ConnectionCloseV2 reason truncated" (connection_close_v2 error_code)
            reason))

  pub Reads-parse_cookie :
      (bytes : List ℕ)
      → length bytes < 2 ^ 16
      → Reads parse_cookie (put_u16 (length bytes % 2 ^ 16) ++ bytes) (cookie bytes)
  unfolding parse_cookie
  Reads-parse_cookie bytes hl =
      let e : length bytes % 2 ^ 16 ≡ length bytes = omega arith in
      rw e (
        Reads-need 2 "Cookie frame too short" _ _ _
          (omega (arith, length-append {0}, length-put_u16))
          (Reads-bind get_u16 _ _ _ (length bytes) _ (Reads-get_u16 (length bytes) hl)
            (Reads-parse_sized "Cookie frame truncated" cookie bytes)))
