-- ===== src/Protocol/Varint/RoundTrip.antt =====
-- `get_varint` reads back what `put_varint` wrote.
use zetta_transport.Common.{ℕ, zero, suc, ◌+◌, ◌*◌, ◌/◌, ◌%◌, ◌^◌, ◌≤◌, ◌<◌, ◌≡◌, refl, ap, arith}
use native.Mathlib.Decide.{dec_lt}
use zetta_transport.Common.{List, [], ◌∷◌, ◌++◌, length, bit_and, bit_or}
use zetta_transport.Common.Bits.Fields.{bit_and-mask, bit_or-field, bit_or-high}
use zetta_transport.Protocol.Wire.{Buf, ◌>>=◌, peek_u8, get_u8}
use zetta_transport.Protocol.Wire.{get_u16, get_u32, get_u64}
use zetta_transport.Protocol.Wire.Reads.{
  Reads, Reads-get_u16, Reads-get_u32, Reads-get_u64, Reads-need, need-ok, Reads-map,
  length-put_u16, length-put_u32, length-put_u64,
}
use zetta_transport.Protocol.Varint.{put_varint, get_varint, varint_body}

or_three : (x : ℕ) → x < 4 → bit_or x 3 ≡ 3
or_three zero h = refl
or_three (suc zero) h = refl
or_three (suc (suc zero)) h = refl
or_three (suc (suc (suc zero))) h = refl
or_three (suc (suc (suc (suc x)))) h = absurd (omega arith)

module _ ⦃buf : Buf⦄ where
  -- The tag is in the first byte.
  get_varint-tag :
      (b : ℕ) (bs : List ℕ) (tag : ℕ)
      → b / 2 ^ 6 ≡ tag
      → get_varint (b ∷ bs) ≡ varint_body tag (b ∷ bs)
  unfolding get_varint peek_u8
  get_varint-tag b bs tag e =
      rw (need-ok 1 "Truncated varint" (b ∷ bs) (omega arith), ◌>>=◌, e) refl

  Reads-tag :
      (tag : ℕ) (bytes : List ℕ) (b : ℕ) (bs : List ℕ) (v : ℕ)
      → bytes ≡ b ∷ bs
      → b / 2 ^ 6 ≡ tag
      → Reads (varint_body tag) bytes v
      → Reads get_varint bytes v
  Reads-tag tag bytes b bs v e h body rest =
      rw (e, get_varint-tag b (bs ++ rest) tag h) (rw e at (body rest))

  Reads-one : (v : ℕ) → v < 64 → Reads get_varint (v ∷ []) v
  unfolding varint_body get_u8
  Reads-one v h = Reads-tag 0 (v ∷ []) v [] v refl (omega arith) (λ rest. refl)

  Reads-two : (v : ℕ) → v < 16384 → Reads get_varint (buf.put_u16 (bit_or v 0x4000)) v
  unfolding varint_body
  Reads-two v h =
      let w = bit_or v 0x4000 in
      let e : w ≡ 1 * 2 ^ 14 + v = bit_or-field 14 v 1 h in
      let low : bit_and w 0x3FFF ≡ v = omega (arith, bit_and-mask 14 w) in
      Reads-tag 1 (buf.put_u16 w) _ _ v (buf.put_u16_lem w) (omega arith) (
        Reads-need 2 "Truncated varint 2" _ _ v (omega (arith, length-put_u16 w))
          (Reads-map get_u16 _ _ w v (Reads-get_u16 w (omega arith)) low))

  Reads-four : (v : ℕ) → v < 1073741824 → Reads get_varint (buf.put_u32 (bit_or v 0x80000000)) v
  unfolding varint_body
  Reads-four v h =
      let w = bit_or v 0x80000000 in
      let e : w ≡ 2 * 2 ^ 30 + v = bit_or-field 30 v 2 h in
      let low : bit_and w 0x3FFFFFFF ≡ v = omega (arith, bit_and-mask 30 w) in
      Reads-tag 2 (buf.put_u32 w) _ _ v (buf.put_u32_lem w) (omega arith) (
        Reads-need 4 "Truncated varint 4" _ _ v (omega (arith, length-put_u32 w))
          (Reads-map get_u32 _ _ w v (Reads-get_u32 w (omega arith)) low))

  top_bits : (v : ℕ) → v < 2 ^ 64 → bit_or v (3 * 2 ^ 62) ≡ 3 * 2 ^ 62 + v % 2 ^ 62
  top_bits v h = rw (bit_or-high 62 v 3, or_three (v / 2 ^ 62) (omega arith)) refl

  Reads-eight :
      (v : ℕ)
      → v < 2 ^ 64
      → Reads get_varint (buf.put_u64 (bit_or v 0xC000000000000000)) (v % 2 ^ 62)
  unfolding varint_body
  Reads-eight v h =
      let w = bit_or v 0xC000000000000000 in
      let e : w ≡ 3 * 2 ^ 62 + v % 2 ^ 62 = top_bits v h in
      let low : bit_and w 0x3FFFFFFFFFFFFFFF ≡ v % 2 ^ 62 = omega (arith, bit_and-mask 62 w) in
      Reads-tag 3 (buf.put_u64 w) _ _ (v % 2 ^ 62) (buf.put_u64_lem w) (omega arith) (
        Reads-need 8 "Truncated varint 8" _ _ (v % 2 ^ 62) (omega (arith, length-put_u64 w))
          (Reads-map get_u64 _ _ w (v % 2 ^ 62) (Reads-get_u64 w (omega arith)) low))

  put_varint_one : (v : ℕ) → v < 64 → put_varint v ≡ v ∷ []
  unfolding put_varint
  put_varint_one v h = ground arith

  put_varint_two : (v : ℕ) → 64 ≤ v → v < 16384 → put_varint v ≡ buf.put_u16 (bit_or v 0x4000)
  unfolding put_varint
  put_varint_two v l h =
      let e : v % 2 ^ 16 ≡ v = omega arith in ground (arith, ap (λ t. bit_or t 0x4000) e)

  put_varint_four :
      (v : ℕ) → 16384 ≤ v → v < 1073741824 → put_varint v ≡ buf.put_u32 (bit_or v 0x80000000)
  unfolding put_varint
  put_varint_four v l h =
      let e : v % 2 ^ 32 ≡ v = omega arith in ground (arith, ap (λ t. bit_or t 0x80000000) e)

  put_varint_eight :
      (v : ℕ) → 1073741824 ≤ v → put_varint v ≡ buf.put_u64 (bit_or v 0xC000000000000000)
  unfolding put_varint
  put_varint_eight v l = ground arith

  small : (v : ℕ) → v < 2 ^ 62 → v % 2 ^ 62 ≡ v
  small v h = omega arith

  -- `get_varint` reads back every u64 that `put_varint` writes, modulo 2^62, whatever follows: a
  -- value from 2^62 on loses its two top bits.
  pub get_varint-put_varint : (v : ℕ) → v < 2 ^ 64 → Reads get_varint (put_varint v) (v % 2 ^ 62)
  get_varint-put_varint v h = elim (dec_lt v 64) [
    | yes p ↦ rw (put_varint_one v p, small v (omega arith)) (Reads-one v p)
    | no p ↦ elim (dec_lt v 16384) [
      | yes q ↦ rw (put_varint_two v (omega arith) q, small v (omega arith)) (Reads-two v q)
      | no q ↦ elim (dec_lt v 1073741824) [
        | yes r ↦ rw (put_varint_four v (omega arith) r, small v (omega arith)) (Reads-four v r)
        | no r ↦ rw (put_varint_eight v (omega arith)) (Reads-eight v h)
      ]
    ]
  ]

  -- Below 2^62 it is the value itself.
  pub Reads-get_varint : (v : ℕ) → v < 2 ^ 62 → Reads get_varint (put_varint v) v
  Reads-get_varint v h = rw (small v h) at (get_varint-put_varint v (omega arith))

  -- A varint takes 1 to 8 bytes.
  pub length-put_varint : (v : ℕ) → (1 ≤ length (put_varint v)) × (length (put_varint v) ≤ 8)
  unfolding put_varint
  length-put_varint v = ground (
    arith,
    length-put_u16 (bit_or (v % 2 ^ 16) 0x4000),
    length-put_u32 (bit_or (v % 2 ^ 32) 0x80000000),
    length-put_u64 (bit_or v 0xC000000000000000),
  )
