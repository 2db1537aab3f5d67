-- ===== src/Protocol/Decode/Reads/Ack.antt =====
-- ACK frames.
use zetta_transport.Common.{ℕ, ◌*◌, ◌%◌, ◌^◌, ◌≤◌, ◌<◌, ◌≡◌, refl, sym, ap, arith, ltb, false}
use zetta_transport.Common.{List, [], ◌∷◌, ◌++◌, length, All, min}
use zetta_transport.Common.{length-append, take-length}
use mathlib.Core.List.{append-nil, append_assoc}
use zetta_transport.Error.{ok}
use zetta_transport.Protocol.Wire.{Buf, get_u8}
use zetta_transport.Protocol.Wire.{get_u32, get_u64}
use zetta_transport.Protocol.Wire.Reads.{Reads, Reads-bind, Reads-map, Reads-need}
use zetta_transport.Protocol.Wire.Reads.{Reads-get_u8, Reads-get_u32, Reads-get_u64}
use zetta_transport.Protocol.Wire.Reads.{length-put_u32, length-put_u64}
use zetta_transport.Protocol.Varint.{put_varint, get_varint}
use zetta_transport.Protocol.Varint.RoundTrip.{Reads-get_varint, length-put_varint}
use zetta_transport.Protocol.Frame.{Frame, ack, put_ranges, encode}
use zetta_transport.Protocol.Decode.{parse_ranges, parse_counted, parse_ack}

-- Ranges in order, of u64 bounds.
abbrev pub AreRanges : List (ℕ × ℕ) → Type 0
AreRanges = All (λ r. (r.0 ≤ r.1) × (r.1 < 2 ^ 64))

module _ ⦃buf : Buf⦄ where
  open buf use {put_u16, put_u32, put_u64}

  pub Reads-parse_ranges :
      (ranges before : List (ℕ × ℕ))
      → AreRanges ranges
      → Reads (parse_ranges (length ranges) before) (put_ranges ranges) (before ++ ranges)
  unfolding parse_ranges
  Reads-parse_ranges [] before h = λ rest. ap (λ r. ok (r, rest)) (sym (append-nil before))
  Reads-parse_ranges ((start, end) ∷ ranges) before h =
      let tested : ltb end start ≡ false = ground arith in
      let regroup = append_assoc before ((start, end) ∷ []) ranges in
      Reads-bind get_u64 _ (put_u64 start) _ start _ (Reads-get_u64 start (omega arith)) (
        Reads-bind get_u64 _ (put_u64 end) _ end _ (Reads-get_u64 end h.0.1)
          (rw (tested, ← regroup) (Reads-parse_ranges ranges (before ++ ((start, end) ∷ [])) h.1)))

  pub length-put_ranges : (ranges : List (ℕ × ℕ)) → length (put_ranges ranges) ≡ length ranges * 16
  length-put_ranges [] = refl
  length-put_ranges ((start, end) ∷ ranges) =
      omega (arith, length-append {0}, length-put_u64, length-put_ranges ranges)

  pub Reads-parse_counted :
      (frame : List (ℕ × ℕ) → Frame) (ranges : List (ℕ × ℕ))
      → length ranges ≤ 128
      → AreRanges ranges
      → Reads (parse_counted (length ranges) frame) (put_ranges ranges) (frame ranges)
  unfolding parse_counted
  Reads-parse_counted frame ranges hl hr =
      let tested : ltb 128 (length ranges) ≡ false = ground arith in
      rw tested (
        Reads-need (length ranges * 16) "Ack frame ranges truncated" _ _ _
          (omega (arith, length-put_ranges ranges))
          (Reads-map (parse_ranges (length ranges) []) frame _ ranges _
            (Reads-parse_ranges ranges [] hr) refl))

  pub Reads-parse_ack :
      (largest_acked window_size ack_delay : ℕ) (ranges : List (ℕ × ℕ))
      → largest_acked < 2 ^ 64
      → window_size < 2 ^ 32
      → ack_delay < 2 ^ 62
      → length ranges ≤ 128
      → AreRanges ranges
      → Reads parse_ack
          (put_u64 largest_acked
            ++ (put_u32 window_size
                ++ (put_varint ack_delay ++ (length ranges ∷ put_ranges ranges))))
          (ack largest_acked window_size ack_delay ranges)
  unfolding parse_ack
  Reads-parse_ack l w d ranges hl hw hd hn hr =
      Reads-need 13 "Ack frame too short" _ _ _
        (omega (arith, length-append {0}, length-put_u32, length-put_u64, length-put_varint))
        (Reads-bind get_u64 _ _ _ l _ (Reads-get_u64 l hl) (
          Reads-bind get_u32 _ _ _ w _ (Reads-get_u32 w hw) (
            Reads-bind get_varint _ _ _ d _ (Reads-get_varint d hd) (
              Reads-need 1 "Ack frame range count missing" _ (length ranges ∷ put_ranges ranges) _
                (omega arith)
                (Reads-bind get_u8 _ (length ranges ∷ []) _ (length ranges) _
                  (Reads-get_u8 (length ranges)) (Reads-parse_counted (ack l w d) ranges hn hr))))))

  pub encode-ack :
      (l w d : ℕ) (ranges : List (ℕ × ℕ))
      → length ranges ≤ 128
      → encode (ack l w d ranges)
        ≡ 0x02 ∷ (put_u64 l ++ (put_u32 w ++ (put_varint d ++ (length ranges ∷ put_ranges ranges))))
  unfolding encode
  encode-ack l w d ranges h =
      let whole : min (length ranges) 128 ≡ length ranges = omega arith in
      let byte : length ranges % 2 ^ 8 ≡ length ranges = omega arith in
      rw (whole, byte, take-length ranges) refl
