-- ===== src/Protocol/Varint/Tests.antt =====
-- Runs of the varint functions.
use zetta_transport.Common.{◌^◌, ◌+◌, ◌≡◌, refl, arith, [], ◌∷◌, ◌++◌}
use zetta_transport.Error.{ok}
use zetta_transport.Protocol.Wire.{need, peek_u8, get_u16}
use zetta_transport.Protocol.Wire.NetworkOrder.{network_order}
use zetta_transport.Protocol.Varint.{put_varint, get_varint}
use zetta_transport.Protocol.Varint.RoundTrip.{get_varint-put_varint}

put_15293 : put_varint 15293 ≡ 0x7b ∷ 0xbd ∷ []
unfolding put_varint
put_15293 = refl

get_15293 : get_varint (0x7b ∷ 0xbd ∷ 7 ∷ []) ≡ ok (15293, 7 ∷ [])
unfolding get_varint need peek_u8 get_u16
get_15293 = refl

get_varint-put_varint_example : get_varint (put_varint (2 ^ 62 + 5) ++ (9 ∷ [])) ≡ ok (5, 9 ∷ [])
get_varint-put_varint_example = get_varint-put_varint (2 ^ 62 + 5) (omega arith) (9 ∷ [])
