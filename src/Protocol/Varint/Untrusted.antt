-- ===== src/Protocol/Varint/Untrusted.antt =====
-- `get_varint` on any input.
use zetta_transport.Common.{ℕ, zero, suc, ◌/◌, ◌^◌, ◌<◌, arith, [], ◌∷◌}
use zetta_transport.Protocol.Wire.{Buf, ◌>>=◌, peek_u8, get_u8, get_u16, get_u32, get_u64}
use zetta_transport.Protocol.Wire.Tame.{Tame, Tame-Takes, Tame-need, Takes-Tame}
use zetta_transport.Protocol.Wire.Tame.{Takes-get_u8, Takes-get_u16, Takes-get_u32, Takes-get_u64}
use zetta_transport.Protocol.Varint.{get_varint, varint_body}

module _ ⦃buf : Buf⦄ where
  -- Only four tags are possible in a byte.
  Tame-varint_body : (tag : ℕ) → tag < 4 → Tame 1 (varint_body tag)
  unfolding varint_body
  Tame-varint_body zero h = Takes-Tame 1 1 get_u8 Takes-get_u8 (omega arith)
  Tame-varint_body (suc zero) h =
      Tame-need 1 2 "Truncated varint 2" _ (
        Tame-Takes 2 get_u16 _ 2 Takes-get_u16 (omega arith)
          (λ v src bytes l. (omega arith, bytes)))
  Tame-varint_body (suc (suc zero)) h =
      Tame-need 1 4 "Truncated varint 4" _ (
        Tame-Takes 4 get_u32 _ 4 Takes-get_u32 (omega arith)
          (λ v src bytes l. (omega arith, bytes)))
  Tame-varint_body (suc (suc (suc zero))) h =
      Tame-need 1 8 "Truncated varint 8" _ (
        Tame-Takes 8 get_u64 _ 8 Takes-get_u64 (omega arith)
          (λ v src bytes l. (omega arith, bytes)))
  Tame-varint_body (suc (suc (suc (suc n)))) h = absurd (omega arith)

  Tame-varint_peek : Tame 1 (peek_u8 >>= λ first. varint_body (first / 2 ^ 6))
  unfolding peek_u8
  Tame-varint_peek [] bytes h = absurd (omega arith)
  Tame-varint_peek (b ∷ bs) bytes h = Tame-varint_body (b / 2 ^ 6) (omega arith) (b ∷ bs) bytes h

  pub Tame-get_varint : Tame 0 get_varint
  unfolding get_varint
  Tame-get_varint = Tame-need 0 1 "Truncated varint" _ Tame-varint_peek
