-- ===== src/Protocol/Decode/Reads/Control.antt =====
-- Frames of a stream id and numbers, of one number, or of a token.
use Prim.Native.String.{String}
use zetta_transport.Common.{ℕ, ◌^◌, ◌<◌, ◌≡◌, refl, arith}
use zetta_transport.Common.{List, ◌++◌, length}
use zetta_transport.Common.{length-append}
use zetta_transport.Protocol.Wire.{Buf, copy_to_bytes}
use zetta_transport.Protocol.Wire.{get_u32, get_u64}
use zetta_transport.Protocol.Wire.Reads.{Reads, Reads-bind, Reads-map, Reads-need}
use zetta_transport.Protocol.Wire.Reads.{Reads-get_u32, Reads-get_u64}
use zetta_transport.Protocol.Wire.Reads.{Reads-copy_to_bytes, length-put_u32, length-put_u64}
use zetta_transport.Protocol.Varint.{put_varint, get_varint}
use zetta_transport.Protocol.Varint.RoundTrip.{Reads-get_varint}
use zetta_transport.Protocol.Frame.{Frame, reset_stream, data_blocked}
use zetta_transport.Protocol.Decode.{
  parse_id_u64, parse_u64, parse_token, parse_reset_stream, parse_id_varint, parse_data_blocked,
}

module _ ⦃buf : Buf⦄ where
  open buf use {put_u16, put_u32, put_u64}

  pub Reads-id_u64 :
      (m : String) (frame : ℕ → ℕ → Frame) (id value : ℕ)
      → id < 2 ^ 32
      → value < 2 ^ 64
      → Reads (parse_id_u64 m frame) (put_u32 id ++ put_u64 value) (frame id value)
  unfolding parse_id_u64
  Reads-id_u64 m frame id value hi hv =
      Reads-need 12 m _ _ _ (omega (arith, length-append {0}, length-put_u32, length-put_u64)) (
        Reads-bind get_u32 _ _ _ id _ (Reads-get_u32 id hi)
          (Reads-map get_u64 _ _ value _ (Reads-get_u64 value hv) refl))

  pub Reads-u64 :
      (m : String) (frame : ℕ → Frame) (value : ℕ)
      → value < 2 ^ 64
      → Reads (parse_u64 m frame) (put_u64 value) (frame value)
  unfolding parse_u64
  Reads-u64 m frame value hv =
      Reads-need 8 m _ _ _ (omega (arith, length-put_u64))
        (Reads-map get_u64 _ _ value _ (Reads-get_u64 value hv) refl)

  pub Reads-bytes : (n : ℕ) (xs : List ℕ) → length xs ≡ n → Reads (copy_to_bytes n) xs xs
  Reads-bytes n xs e = rw (← e) (Reads-copy_to_bytes xs)

  pub Reads-token :
      (m : String) (frame : List ℕ → Frame) (token : List ℕ)
      → length token ≡ 8
      → Reads (parse_token m frame) token (frame token)
  unfolding parse_token
  Reads-token m frame token e =
      Reads-need 8 m _ _ _ (omega arith)
        (Reads-map (copy_to_bytes 8) _ _ token _ (Reads-bytes 8 token e) refl)

  pub Reads-parse_reset_stream :
      (id error_code final_size : ℕ)
      → id < 2 ^ 32
      → error_code < 2 ^ 62
      → final_size < 2 ^ 62
      → Reads parse_reset_stream
          (put_u32 id ++ (put_varint error_code ++ put_varint final_size))
          (reset_stream id error_code final_size)
  unfolding parse_reset_stream
  Reads-parse_reset_stream id error_code final_size hi he hf =
      Reads-need 4 "ResetStream frame too short" _ _ _
        (omega (arith, length-append {0}, length-put_u32))
        (Reads-bind get_u32 _ _ _ id _ (Reads-get_u32 id hi) (
          Reads-bind get_varint _ _ _ error_code _ (Reads-get_varint error_code he)
            (Reads-map get_varint _ _ final_size _ (Reads-get_varint final_size hf) refl)))

  pub Reads-id_varint :
      (m : String) (frame : ℕ → ℕ → Frame) (id value : ℕ)
      → id < 2 ^ 32
      → value < 2 ^ 62
      → Reads (parse_id_varint m frame) (put_u32 id ++ put_varint value) (frame id value)
  unfolding parse_id_varint
  Reads-id_varint m frame id value hi hv =
      Reads-need 4 m _ _ _ (omega (arith, length-append {0}, length-put_u32)) (
        Reads-bind get_u32 _ _ _ id _ (Reads-get_u32 id hi)
          (Reads-map get_varint _ _ value _ (Reads-get_varint value hv) refl))

  pub Reads-parse_data_blocked :
      (limit : ℕ)
      → limit < 2 ^ 62
      → Reads parse_data_blocked (put_varint limit) (data_blocked limit)
  unfolding parse_data_blocked
  Reads-parse_data_blocked limit h =
      Reads-map get_varint _ _ limit _ (Reads-get_varint limit h) refl
