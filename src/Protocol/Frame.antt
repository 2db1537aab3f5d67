-- ===== src/Protocol/Frame.antt =====
-- `Frame` of src/protocol/frame.rs, and its encoding. A fixed array or `Bytes` is a list of bytes.
use zetta_transport.Common.{ℕ, ◌%◌, ◌^◌, List, [], ◌∷◌, ◌++◌, length, take, replicate, min}
use zetta_transport.Transport.StreamType.{StreamType, to_wire}
use zetta_transport.Protocol.Wire.{Buf}
use zetta_transport.Protocol.Varint.{put_varint}
use zetta_transport.Protocol.TransportParameters.{TransportParameters, transcript_bytes}

pub data Frame : Type 0 where
  padding : (len : ℕ) → Frame
  stream : (id : ℕ) (stream_type : StreamType) (offset : ℕ) (bytes : List ℕ) → Frame
  ack : (largest_acked window_size ack_delay : ℕ) (ack_ranges : List (ℕ × ℕ)) → Frame
  connection_close : Frame
  handshake : (public_key ed_public_key transcript_hash signature alpn : List ℕ) → Frame
  cookie : List ℕ → Frame
  stream_close : (id final_size : ℕ) → Frame
  max_stream_data : (id max_data : ℕ) → Frame
  max_data : ℕ → Frame
  datagram : List ℕ → Frame
  path_challenge : List ℕ → Frame
  path_response : List ℕ → Frame
  crypto : (offset : ℕ) (bytes : List ℕ) → Frame
  max_streams : ℕ → Frame
  streams_blocked : ℕ → Frame
  ping : Frame
  reset_stream : (stream_id error_code final_size : ℕ) → Frame
  stop_sending : (stream_id error_code : ℕ) → Frame
  data_blocked : (max_data : ℕ) → Frame
  stream_data_blocked : (stream_id max_data : ℕ) → Frame
  connection_close_v2 : (error_code : ℕ) (reason : List ℕ) → Frame
  transport_parameters : TransportParameters → Frame

module _ ⦃buf : Buf⦄ where
  open buf use {put_u16, put_u32, put_u64}

  abbrev pub put_ranges : List (ℕ × ℕ) → List ℕ
  put_ranges [] = []
  put_ranges ((start, end) ∷ ranges) = put_u64 start ++ (put_u64 end ++ put_ranges ranges)

  -- The bytes that `encode` appends to its buffer.
  unfoldable pub encode : Frame → List ℕ
  encode (padding len) = replicate len 0x00
  encode (stream id stream_type offset bytes) =
      0x01
      ∷ (put_u32 id
          ++ (to_wire stream_type ∷ (put_u64 offset ++ (put_varint (length bytes) ++ bytes))))
  encode (ack largest_acked window_size ack_delay ack_ranges) =
      let range_len = min (length ack_ranges) 128 in
      0x02
      ∷ (put_u64 largest_acked
          ++ (put_u32 window_size
              ++ (put_varint ack_delay
                  ++ ((range_len % 2 ^ 8) ∷ put_ranges (take range_len ack_ranges)))))
  encode connection_close = 0x03 ∷ []
  encode (handshake public_key ed_public_key transcript_hash signature alpn) =
      0x04
      ∷ (public_key
          ++ (ed_public_key
              ++ (put_u16 (length transcript_hash % 2 ^ 16)
                  ++ (transcript_hash ++ (signature ++ ((length alpn % 2 ^ 8) ∷ alpn))))))
  encode (cookie bytes) = 0x05 ∷ (put_u16 (length bytes % 2 ^ 16) ++ bytes)
  encode (stream_close id final_size) = 0x06 ∷ (put_u32 id ++ put_u64 final_size)
  encode (max_stream_data id limit) = 0x07 ∷ (put_u32 id ++ put_u64 limit)
  encode (max_data limit) = 0x08 ∷ put_u64 limit
  encode (datagram bytes) = 0x09 ∷ (put_varint (length bytes) ++ bytes)
  encode (path_challenge bytes) = 0x0A ∷ bytes
  encode (path_response bytes) = 0x0B ∷ bytes
  encode (crypto offset bytes) = 0x0C ∷ (put_u64 offset ++ (put_varint (length bytes) ++ bytes))
  encode (max_streams limit) = 0x12 ∷ put_u64 limit
  encode (streams_blocked limit) = 0x13 ∷ put_u64 limit
  encode ping = 0x0D ∷ []
  encode (reset_stream id error_code final_size) =
      0x0E ∷ (put_u32 id ++ (put_varint error_code ++ put_varint final_size))
  encode (stop_sending id error_code) = 0x0F ∷ (put_u32 id ++ put_varint error_code)
  encode (data_blocked limit) = 0x10 ∷ put_varint limit
  encode (stream_data_blocked id limit) = 0x11 ∷ (put_u32 id ++ put_varint limit)
  encode (connection_close_v2 error_code reason) =
      0x14 ∷ (put_varint error_code ++ (put_varint (length reason) ++ reason))
  encode (transport_parameters parameters) = 0x15 ∷ transcript_bytes parameters
