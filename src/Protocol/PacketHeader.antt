-- ===== src/Protocol/PacketHeader.antt =====
-- The header of a packet: `PacketHeader::encode` and `get_pn_offset` of src/protocol/packet.rs, and
-- `extract_dcid_fast` of src/protocol/routing.rs.
pub mod Routing
pub mod Tests
use zetta_transport.Common.{ℕ, ◌+◌, ◌-◌, ◌*◌, ◌%◌, ◌^◌, min, max, Bool, not, List, [], ◌∷◌, ◌++◌}
use zetta_transport.Common.{
  Option, none, some, ltb, ◌==◌, if◌then◌else◌, length, get_or, take, drop, bit_and, bit_or,
}
use zetta_transport.Protocol.Wire.{Buf, be_bytes}

pub data PacketType : Type 0 where
  initial handshake «data» close mtu_probe retry : PacketType

-- `p_type as u8`
abbrev pub discriminant : PacketType → ℕ
discriminant initial = 0x00
discriminant handshake = 0x01
discriminant «data» = 0x02
discriminant close = 0x0A
discriminant mtu_probe = 0x0B
discriminant retry = 0x0C

pub record PacketHeader : Type 0 where
  pub p_type : PacketType
  pub is_long : Bool
  pub version : ℕ
  pub dcid : List ℕ
  pub scid : List ℕ
  pub packet_number : ℕ
  pub key_phase : Bool
  pub pn_len : ℕ

abbrev header_pn_mask : ℕ → ℕ
header_pn_mask pn_len =
    if pn_len == 1
    then 0xFF
    else if pn_len == 2
    then 0xFFFF
    else if pn_len == 3
    then 0xFFFFFF
    else 0xFFFFFFFF

pub type_bits : PacketHeader → ℕ
type_bits h = bit_and (discriminant h.p_type) 0x0F * 2 ^ 2 % 2 ^ 8

pub first_byte : PacketHeader → ℕ → ℕ
unfolding type_bits
first_byte h len_bits =
    if h.is_long
    then bit_or (bit_or 0x80 (type_bits h)) len_bits
    else (let short = bit_or (type_bits h) len_bits in
        if h.key_phase then bit_or short 0x40 else short)

-- `pn_len.clamp(1, 4)`
abbrev pub clamped_pn_len : PacketHeader → ℕ
clamped_pn_len h = max 1 (min h.pn_len 4)

abbrev pub put_id : List ℕ → List ℕ → List ℕ
put_id id rest = (length id % 2 ^ 8) ∷ (id ++ rest)

module _ ⦃buf : Buf⦄ where
  open buf use {put_u16, put_u32}

  abbrev put_pn : ℕ → ℕ → List ℕ
  put_pn pn_len truncated_pn =
      if pn_len == 1
      then (truncated_pn % 2 ^ 8) ∷ []
      else if pn_len == 2
      then put_u16 (truncated_pn % 2 ^ 16)
      else if pn_len == 3
      then drop 1 (be_bytes 4 truncated_pn)
      else put_u32 truncated_pn

  pub pn_bytes : PacketHeader → List ℕ
  pn_bytes h =
      let pn_len = clamped_pn_len h in
      put_pn pn_len (bit_and h.packet_number (header_pn_mask pn_len) % 2 ^ 32)

  unfoldable pub encode_header : PacketHeader → List ℕ
  unfolding first_byte pn_bytes
  encode_header h =
      let first = first_byte h (clamped_pn_len h - 1) in
      if h.is_long
      then first ∷ (put_u32 h.version ++ put_id h.dcid (put_id h.scid (pn_bytes h)))
      else first ∷ put_id h.dcid (pn_bytes h)

-- `data[i]`, behind a check of the length.
abbrev byte : List ℕ → ℕ → ℕ
byte bytes i = get_or bytes i 0

pub extract_dcid_fast : List ℕ → Option (List ℕ)
extract_dcid_fast bytes =
    if length bytes == 0
    then none
    else if not (bit_and (byte bytes 0) 0x80 == 0)
    then if ltb (length bytes) 6
      then none
      else if ltb (length bytes) (6 + byte bytes 5)
      then none
      else some (take (byte bytes 5) (drop 6 bytes))
    else if ltb (length bytes) 2
    then none
    else if ltb (length bytes) (2 + byte bytes 1)
    then none
    else some (take (byte bytes 1) (drop 2 bytes))

unfoldable pub get_pn_offset : List ℕ → Option ℕ
get_pn_offset bytes =
    if length bytes == 0
    then none
    else if not (bit_and (byte bytes 0) 0x80 == 0)
    then if ltb (length bytes) 6
      then none
      else if ltb (length bytes) (6 + byte bytes 5 + 1)
      then none
      else some (6 + byte bytes 5 + (1 + byte bytes (6 + byte bytes 5)))
    else if ltb (length bytes) 2
    then none
    else some (2 + byte bytes 1)
