-- ===== src/Transport/Actor/Books.antt =====
-- The books of a connection over all the operations of its actor that send or receive
-- (src/transport/actor/packet_sender.rs, src/transport/congestion.rs).
pub mod Senders
pub mod Steps
