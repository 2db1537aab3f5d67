-- ===== src/Protocol/PacketHeader/Tests.antt =====
-- Runs of the header encoder and the router's extraction.
use zetta_transport.Common.{◌≡◌, refl, arith, true, false, [], ◌∷◌, ◌++◌, none, some}
use zetta_transport.Protocol.Wire.NetworkOrder.{network_order}
use zetta_transport.Protocol.PacketHeader.{
  PacketHeader, initial, type_bits, first_byte, pn_bytes, encode_header, extract_dcid_fast,
  get_pn_offset,
}
use zetta_transport.Protocol.PacketHeader.Routing.{extract_dcid_fast-encode_header}

abbrev long_header : PacketHeader
long_header = record {
  p_type = initial;
  is_long = true;
  version = 1;
  dcid = 9 ∷ 8 ∷ 7 ∷ 6 ∷ [];
  scid = 1 ∷ 2 ∷ [];
  packet_number = 258;
  key_phase = false;
  pn_len = 2;
}

-- `extract_dcid_short_header` and `extract_dcid_long_header`
found_short : extract_dcid_fast (2 ∷ 3 ∷ 1 ∷ 2 ∷ 3 ∷ 0xAA ∷ 0xBB ∷ []) ≡ some (1 ∷ 2 ∷ 3 ∷ [])
unfolding extract_dcid_fast
found_short = refl

found_long : extract_dcid_fast (0x80 ∷ 0 ∷ 0 ∷ 0 ∷ 1 ∷ 5 ∷ 1 ∷ 2 ∷ 3 ∷ 4 ∷ []) ≡ none
unfolding extract_dcid_fast
found_long = refl

encoded_long :
    encode_header long_header ≡ 0x81 ∷ 0 ∷ 0 ∷ 0 ∷ 1 ∷ 4 ∷ 9 ∷ 8 ∷ 7 ∷ 6 ∷ 2 ∷ 1 ∷ 2 ∷ 1 ∷ 2 ∷ []
unfolding encode_header first_byte type_bits pn_bytes
encoded_long = refl

offset_long : get_pn_offset (encode_header long_header) ≡ some 13
unfolding encode_header first_byte type_bits pn_bytes get_pn_offset
offset_long = refl

extract_dcid_fast-encode_header_example :
    extract_dcid_fast (encode_header long_header ++ (0 ∷ [])) ≡ some (9 ∷ 8 ∷ 7 ∷ 6 ∷ [])
extract_dcid_fast-encode_header_example =
    extract_dcid_fast-encode_header long_header (0 ∷ []) (omega arith)
