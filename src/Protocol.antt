-- ===== src/Protocol.antt =====
-- The wire formats of src/protocol: packet numbers, variable-length integers, frames, headers.
pub mod Wire
pub mod PacketNumber
pub mod Varint
pub mod TransportParameters
pub mod Frame
pub mod Decode
pub mod PacketHeader
