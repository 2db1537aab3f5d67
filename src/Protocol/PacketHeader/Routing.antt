-- ===== src/Protocol/PacketHeader/Routing.antt =====
-- What the router finds in a header that `encode` wrote.
use zetta_transport.Common.{
  ℕ, ◌+◌, ◌-◌, ◌*◌, ◌/◌, ◌%◌, ◌^◌, ◌<◌, ◌≡◌, sym, ap, ◌∙◌, arith, Bool, true, false, not, List, ◌∷◌,
  ◌++◌,
}
use zetta_transport.Common.{
  Option, some, ltb, ◌==◌, if◌then◌else◌, if_holds, length, take, bit_and, bit_or, length-append,
  take-append_length, Bool-cases, inl, inr,
}
use zetta_transport.Common.Bits.{bit_at, bit_at-le, bit_at-bit_or, bit_at_high, bit_or-lt, test_bit}
use zetta_transport.Protocol.Wire.{Buf, be_bytes}
use zetta_transport.Protocol.PacketHeader.{
  discriminant, initial, handshake, «data», close, mtu_probe, retry, PacketHeader, type_bits,
  first_byte, clamped_pn_len, put_id, pn_bytes, encode_header, extract_dcid_fast,
}
use mathlib.Core.List.{append_assoc}

type_bits-lt : (h : PacketHeader) → type_bits h < 2 ^ 6
unfolding type_bits
type_bits-lt h = elim h.p_type as (λ t. bit_and (discriminant t) 0x0F * 2 ^ 2 % 2 ^ 8 < 2 ^ 6) [
  | initial ↦ omega arith
  | handshake ↦ omega arith
  | «data» ↦ omega arith
  | close ↦ omega arith
  | mtu_probe ↦ omega arith
  | retry ↦ omega arith
]

long_bit : (t l : ℕ) → (bit_at (bit_or (bit_or 0x80 t) l) 7 == 1) ≡ true
long_bit t l = ground (
  arith,
  bit_at-bit_or (bit_or 0x80 t) l 7,
  bit_at-bit_or 0x80 t 7,
  bit_at-le (bit_or (bit_or 0x80 t) l) 7,
)

short_bit : (a : ℕ) → a < 2 ^ 7 → (bit_at a 7 == 1) ≡ false
short_bit a lt = ground (arith, bit_at_high 7 a 7 lt (omega arith))

short_byte-lt :
    (t l : ℕ) (k : Bool)
    → t < 2 ^ 6
    → l < 4
    → (if k then bit_or (bit_or t l) 0x40 else bit_or t l) < 2 ^ 7
short_byte-lt t l k h lt =
    if_holds (λ b. b < 2 ^ 7) k
      (λ _.
        bit_or-lt 7 (bit_or t l) 0x40 (bit_or-lt 7 t l (omega arith) (omega arith)) (omega arith))
      (λ _. bit_or-lt 7 t l (omega arith) (omega arith))

-- The top bit of the first byte says whether the header is long.
top_bit : (h : PacketHeader) (l : ℕ) → l < 4 → not (bit_and (first_byte h l) 0x80 == 0) ≡ h.is_long
unfolding first_byte
top_bit h l lt = test_bit (first_byte h l) 7 ∙ elim (Bool-cases h.is_long) [
  | inl y ↦ ap (λ c. bit_at (if c then long else short) 7 == 1) y ∙ long_bit (type_bits h) l ∙ sym y
  | inr n ↦
      ap (λ c. bit_at (if c then long else short) 7 == 1) n
      ∙ short_bit short (short_byte-lt (type_bits h) l h.key_phase (type_bits-lt h) lt)
      ∙ sym n
]
  where
    long : ℕ
    long = bit_or (bit_or 0x80 (type_bits h)) l

    short : ℕ
    short = if h.key_phase then bit_or (bit_or (type_bits h) l) 0x40 else bit_or (type_bits h) l

cut_id :
    (dcid rest : List ℕ) → length dcid < 2 ^ 8 → take (length dcid % 2 ^ 8) (dcid ++ rest) ≡ dcid
cut_id dcid rest lt =
    ap (λ k. take k (dcid ++ rest)) {x = length dcid % 2 ^ 8} {y = length dcid} (omega arith)
    ∙ take-append_length dcid rest

-- A datagram with the long bit, whose sixth byte is the length of the id.
extract_long :
    (b v0 v1 v2 v3 : ℕ) (dcid rest : List ℕ)
    → not (bit_and b 0x80 == 0) ≡ true
    → length dcid < 2 ^ 8
    → extract_dcid_fast (b ∷ v0 ∷ v1 ∷ v2 ∷ v3 ∷ (length dcid % 2 ^ 8) ∷ (dcid ++ rest)) ≡ some dcid
unfolding extract_dcid_fast
extract_long b v0 v1 v2 v3 dcid rest t lt =
    if_holds P (length bytes == 0) (λ z. absurd (ground arith))
      (λ _.
        if_holds P (not (bit_and b 0x80 == 0))
          (λ _.
            if_holds P (ltb (length bytes) 6) (λ z. absurd (ground arith))
              (λ _.
                if_holds P (ltb (length bytes) (6 + length dcid % 2 ^ 8))
                  (λ z. absurd (ground (arith, z, length-append dcid rest)))
                  (λ _. ap some (cut_id dcid rest lt))))
          (λ n. absurd (ground (arith, t, n))))
  where
    P : Option (List ℕ) → Type 0
    P o = o ≡ some dcid

    bytes : List ℕ
    bytes = b ∷ v0 ∷ v1 ∷ v2 ∷ v3 ∷ (length dcid % 2 ^ 8) ∷ (dcid ++ rest)

extract_short :
    (b : ℕ) (dcid rest : List ℕ)
    → not (bit_and b 0x80 == 0) ≡ false
    → length dcid < 2 ^ 8
    → extract_dcid_fast (b ∷ (length dcid % 2 ^ 8) ∷ (dcid ++ rest)) ≡ some dcid
unfolding extract_dcid_fast
extract_short b dcid rest t lt =
    if_holds P (length bytes == 0) (λ z. absurd (ground arith))
      (λ _.
        if_holds P (not (bit_and b 0x80 == 0)) (λ y. absurd (ground (arith, t, y)))
          (λ _.
            if_holds P (ltb (length bytes) 2) (λ z. absurd (ground arith))
              (λ _.
                if_holds P (ltb (length bytes) (2 + length dcid % 2 ^ 8))
                  (λ z. absurd (ground (arith, z, length-append dcid rest)))
                  (λ _. ap some (cut_id dcid rest lt)))))
  where
    P : Option (List ℕ) → Type 0
    P o = o ≡ some dcid

    bytes : List ℕ
    bytes = b ∷ (length dcid % 2 ^ 8) ∷ (dcid ++ rest)

module _ ⦃buf : Buf⦄ where
  open buf use {put_u32, put_u32_lem}

  -- The router finds the destination id in any datagram that starts with an encoded header, long or short,
  -- for an id whose length fits in its length byte.
  pub extract_dcid_fast-encode_header :
      (h : PacketHeader) (rest : List ℕ)
      → length h.dcid < 2 ^ 8
      → extract_dcid_fast (encode_header h ++ rest) ≡ some h.dcid
  unfolding encode_header
  extract_dcid_fast-encode_header h rest lt =
      if_holds (λ (bytes : List ℕ). extract_dcid_fast (bytes ++ rest) ≡ some h.dcid) h.is_long
        (λ y.
          ap (λ w. extract_dcid_fast (first ∷ ((w ++ put_id h.dcid behind) ++ rest)))
            (put_u32_lem h.version)
          ∙ ap
              (λ t.
                extract_dcid_fast (first ∷ (be_bytes 4 h.version ++ ((length h.dcid % 2 ^ 8) ∷ t))))
              (append_assoc h.dcid behind rest)
          ∙ extract_long first (h.version / 256 ^ 3 % 256) (h.version / 256 ^ 2 % 256)
              (h.version / 256 ^ 1 % 256) (h.version / 256 ^ 0 % 256) h.dcid (behind ++ rest)
              (top ∙ y) lt)
        (λ n.
          ap (λ t. extract_dcid_fast (first ∷ (length h.dcid % 2 ^ 8) ∷ t))
            (append_assoc h.dcid (pn_bytes h) rest)
          ∙ extract_short first h.dcid (pn_bytes h ++ rest) (top ∙ n) lt)
    where
      first : ℕ
      first = first_byte h (clamped_pn_len h - 1)

      behind : List ℕ
      behind = put_id h.scid (pn_bytes h)

      top : not (bit_and first 0x80 == 0) ≡ h.is_long
      top = top_bit h (clamped_pn_len h - 1) (omega arith)
