-- ===== src/Protocol/Wire/NetworkOrder.antt =====
-- A byte order that meets `Buf`, for runs.
use zetta_transport.Common.{refl}
use zetta_transport.Protocol.Wire.{Buf, be_bytes, get_be}

instance abbrev pub network_order : Buf
network_order = record {
  put_u16 = λ v. be_bytes 2 v;
  put_u32 = λ v. be_bytes 4 v;
  put_u64 = λ v. be_bytes 8 v;
  get_u16 = λ bs. get_be 2 bs;
  get_u32 = λ bs. get_be 4 bs;
  get_u64 = λ bs. get_be 8 bs;
  put_u16_lem = λ v. refl;
  put_u32_lem = λ v. refl;
  put_u64_lem = λ v. refl;
  get_u16_lem = λ bs. refl;
  get_u32_lem = λ bs. refl;
  get_u64_lem = λ bs. refl;
}
