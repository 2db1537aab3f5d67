-- ===== src/Transport.antt =====
-- The transport layer of src/transport.
pub mod StreamType
pub mod PacketWindow
pub mod ReplayWindow
pub mod AckTracker
pub mod UnackedWindow
pub mod StreamBuffer
pub mod Unacked
pub mod PacketSpace
pub mod Congestion
pub mod Termination
pub mod StreamState
pub mod Connection
pub mod Actor
