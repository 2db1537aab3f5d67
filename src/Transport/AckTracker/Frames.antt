-- ===== src/Transport/AckTracker/Frames.antt =====
-- The acknowledgement frame that carries the reported ranges.
use zetta_transport.Common.{ℕ, ◌^◌, ◌<◌, ◌≡◌, arith}
use zetta_transport.Common.{List, [], ◌∷◌, ◌++◌, true, All}
use zetta_transport.Error.{ok}
use zetta_transport.Protocol.Wire.{Buf}
use zetta_transport.Protocol.Frame.{encode}
use zetta_transport.Protocol.Decode.{decode}
use zetta_transport.Protocol.Decode.Reads.{AreRanges}
use zetta_transport.Protocol.Decode.RoundTrip.{decode-encode}
use zetta_transport.Transport.PacketWindow.{new}
use zetta_transport.Transport.PacketWindow.Seen.{mark_all, elem, highest-mark_all-new}
use zetta_transport.Transport.AckTracker.{get_ack_ranges, ack_frame}
use zetta_transport.Transport.AckTracker.Ranges.{covers, Descending}
use zetta_transport.Transport.AckTracker.History.{get_ack_ranges_sound, get_ack_ranges-Descending}

elem-lt : (b q : ℕ) (pns : List ℕ) → All (λ pn. pn < b) pns → elem q pns ≡ true → q < b
elem-lt b q [] h e = absurd (ground arith)
elem-lt b q (pn ∷ pns) h e = ground (arith, h.0, elem-lt b q pns h.1)

Descending-AreRanges :
    (rs : List (ℕ × ℕ)) → Descending rs → ((q : ℕ) → covers rs q ≡ true → q < 2 ^ 64) → AreRanges rs
Descending-AreRanges [] d h = tt
Descending-AreRanges (r ∷ rs) d h = (
  (d.0, h r.1 (ground (arith, d.0))),
  Descending-AreRanges rs d.2 (λ q c. h q (ground (arith, c))),
)

module _ ⦃buf : Buf⦄ where
  -- The acknowledgement of any packets in any order is decoded by the peer as it was sent, with its bounds:
  -- packet numbers are u64 and the delay fits in a varint.
  pub decode-encode-ack_frame :
      (pns rest : List ℕ) (window delay : ℕ)
      → All (λ pn. pn < 2 ^ 64) pns
      → delay < 2 ^ 62
      → decode (encode (ack_frame (mark_all new pns) window delay) ++ rest)
        ≡ ok (ack_frame (mark_all new pns) window delay, rest)
  unfolding ack_frame
  decode-encode-ack_frame pns rest window delay h d =
      decode-encode (ack_frame (mark_all new pns) window delay) rest
        (
          highest-mark_all-new (2 ^ 64) pns (omega arith) h,
          omega arith,
          d,
          (get_ack_ranges-Descending pns).0,
          Descending-AreRanges (get_ack_ranges (mark_all new pns)) (get_ack_ranges-Descending pns).1
              (λ q c. elem-lt (2 ^ 64) q pns h (get_ack_ranges_sound pns q c)),
        )
        tt
