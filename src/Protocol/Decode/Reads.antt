-- ===== src/Protocol/Decode/Reads.antt =====
-- Each branch of `Frame::decode` reads exactly the bytes that `Frame::encode` writes.
mod Sized
mod Control
mod Handshake
mod Ack
pub use Sized.*
pub use Control.*
pub use Handshake.*
pub use Ack.*
