-- ===== src/Protocol/Varint.antt =====
-- `put_varint` and `get_varint` of src/protocol/frame.rs: integers in 1, 2, 4 or 8 bytes, the
-- length in the two top bits.
pub mod RoundTrip
pub mod Untrusted
mod Tests
use zetta_transport.Common.{ℕ, ◌/◌, ◌%◌, ◌^◌, List, [], ◌∷◌, bit_and, bit_or}
use zetta_transport.Common.{ltb, ◌==◌, if◌then◌else◌}
use zetta_transport.Error.{panic}
use zetta_transport.Protocol.Wire.{Buf, Parser, ◌>>=◌, ◌>>◌, return, need, peek_u8, get_u8}
use zetta_transport.Protocol.Wire.{get_u16, get_u32, get_u64}

-- `unreachable!()`
abbrev unreachable : Parser ℕ
unreachable src = panic

module _ ⦃buf : Buf⦄ where
  pub put_varint : ℕ → List ℕ
  put_varint val =
      if ltb val 64
      then (val % 2 ^ 8) ∷ []
      else if ltb val 16384
      then buf.put_u16 (bit_or (val % 2 ^ 16) 0x4000)
      else if ltb val 1073741824
      then buf.put_u32 (bit_or (val % 2 ^ 32) 0x80000000)
      else buf.put_u64 (bit_or val 0xC000000000000000)

  -- The rest of `get_varint`, behind its first look at the tag.
  varint_body : ℕ → Parser ℕ
  varint_body tag =
      if tag == 0
      then get_u8
      else if tag == 1
      then (do need 2 "Truncated varint 2"; v ← get_u16; return (bit_and v 0x3FFF))
      else if tag == 2
      then (do need 4 "Truncated varint 4"; v ← get_u32; return (bit_and v 0x3FFFFFFF))
      else if tag == 3
      then (do need 8 "Truncated varint 8"; v ← get_u64; return (bit_and v 0x3FFFFFFFFFFFFFFF))
      else unreachable

  pub get_varint : Parser ℕ
  unfolding varint_body
  get_varint = do need 1 "Truncated varint"; first ← peek_u8; varint_body (first / 2 ^ 6)
