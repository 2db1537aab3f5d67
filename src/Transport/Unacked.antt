-- ===== src/Transport/Unacked.antt =====
-- What is kept of a packet until it is acknowledged (src/transport/state/unacked.rs). The instant of
-- sending is a number of ticks.
use zetta_transport.Common.{ℕ, Bool, List, Option, length}
use zetta_transport.Transport.StreamType.{StreamType}

pub data UnackedPayload : Type 0 where
  initial : (cookie : Option (List ℕ)) → UnackedPayload
  stream : (stream_id : ℕ) (stream_type : StreamType) (offset : ℕ) (bytes : List ℕ) → UnackedPayload
  mtu_probe : (target_size : ℕ) → UnackedPayload
  stream_close : (stream_id final_size : ℕ) → UnackedPayload
  max_stream_data : (stream_id max_data : ℕ) → UnackedPayload
  reset_stream : (stream_id error_code final_size : ℕ) → UnackedPayload
  close : UnackedPayload
  connection_close_v2 : (error_code : ℕ) (reason : List ℕ) → UnackedPayload
  datagram : (bytes : List ℕ) → UnackedPayload

-- `UnackedPayload::len`
unfoldable pub payload_len : UnackedPayload → ℕ
payload_len (initial cookie) = 0
payload_len (stream stream_id stream_type offset bytes) = length bytes
payload_len (mtu_probe target_size) = target_size
payload_len (stream_close stream_id final_size) = 0
payload_len (max_stream_data stream_id max_data) = 0
payload_len (reset_stream stream_id error_code final_size) = 0
payload_len close = 0
payload_len (connection_close_v2 error_code reason) = 0
payload_len (datagram bytes) = length bytes

pub record UnackedPacket : Type 0 where
  pub payload : UnackedPayload
  pub sent_at : ℕ
  pub retries : ℕ
  pub is_mtu_probe : Bool
  pub sent_bytes : ℕ
