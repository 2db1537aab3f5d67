-- ===== src/Protocol/Decode/Tests.antt =====
-- Runs of the frame codec.
use zetta_transport.Common.{◌≡◌, refl, arith, [], ◌∷◌, ◌++◌}
use zetta_transport.Error.{ok, err, text, invalid_packet}
use zetta_transport.Transport.StreamType.{bidirectional}
use zetta_transport.Protocol.Wire.{need, get_u8}
use zetta_transport.Protocol.Wire.NetworkOrder.{network_order}
use zetta_transport.Protocol.Wire.Tame.{Ends}
use zetta_transport.Protocol.Frame.{Frame, stream, stream_close, encode}
use zetta_transport.Protocol.Decode.{decode, parse_type, parse_id_u64}
use zetta_transport.Protocol.Decode.RoundTrip.{decode-encode}
use zetta_transport.Protocol.Decode.Untrusted.{decode-Ends}

abbrev greeting : Frame
greeting = stream 42 bidirectional 1000 (b'h' ∷ b'i' ∷ [])

decode_short :
    decode (0x06 ∷ 0 ∷ 0 ∷ []) ≡ err (invalid_packet (text "StreamClose frame too short"))
unfolding decode need get_u8 parse_type parse_id_u64
decode_short = refl

encode_close : encode (stream_close 1 258) ≡ 6 ∷ 0 ∷ 0 ∷ 0 ∷ 1 ∷ 0 ∷ 0 ∷ 0 ∷ 0 ∷ 0 ∷ 0 ∷ 1 ∷ 2 ∷ []
unfolding encode
encode_close = refl

decode-encode_example : decode (encode greeting ++ (0 ∷ [])) ≡ ok (greeting, 0 ∷ [])
decode-encode_example = decode-encode greeting (0 ∷ []) (omega arith) tt

decode-Ends_example : Ends 2 (decode (6 ∷ 0 ∷ 0 ∷ []))
decode-Ends_example = decode-Ends (6 ∷ 0 ∷ 0 ∷ []) (omega arith)
