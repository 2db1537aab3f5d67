-- ===== src/Lib.antt =====
-- A verification library of zetta-transport, an encrypted and multiplexed transport over UDP. It
-- translates the pure core of the crate to functions and proves what the protocol relies on.
--
-- The parts of the program and the files that model them:
--   * Config, Error: `ZtConfig` with its checks (src/config.rs) and `ZtError` (src/error.rs). A
--     `Result` is a value, an error or a panic of the thread.
--   * Protocol/Wire: buffers as byte lists and parsers on them. The integers that the crate `bytes`
--     writes and reads are a record of operations and laws (`Buf`), a parameter of the codec;
--     Protocol/Wire/NetworkOrder gives the big-endian instance that the tests run on.
--   * Protocol/Varint, Protocol/TransportParameters, Protocol/Frame, Protocol/Decode: the codec of
--     src/protocol/frame.rs. Each arm of `Frame::decode` is one parser; Protocol/Decode/Reads reads
--     back what `encode` wrote, Protocol/Decode/Untrusted treats arbitrary bytes.
--   * Protocol/PacketNumber: truncation and expansion (src/protocol/packet_number.rs).
--   * Protocol/PacketHeader: the header encoder and the offset of its packet number
--     (src/protocol/packet.rs), and the router's fast extraction (src/protocol/routing.rs).
--   * Transport/StreamType: the stream direction of src/transport/state/stream_state.rs.
--   * Transport/PacketWindow: the highest packet number and the 2048 bits below it, which
--     src/transport/state/replay_window.rs and src/transport/state/ack_tracker.rs both keep, in the
--     same code; Words and Shift treat the word loops, Mark one update, Seen sequences of them.
--   * Transport/ReplayWindow: `is_replay`. Transport/AckTracker: the scan `get_ack_ranges`, and the
--     frame that `flush_acks` (src/transport/actor/packet_sender.rs) builds of it.
--   * Transport/UnackedWindow: the queue of packets in flight
--     (src/transport/state/unacked_window.rs), for any packet type.
--   * Transport/Unacked, Transport/PacketSpace: the packets in flight and the packet number counter
--     (src/transport/state/unacked.rs, src/transport/state/space.rs).
--   * Transport/StreamBuffer: the receive buffer of a stream (src/transport/state/stream_buffer.rs) and
--     how `handle_frame` (src/transport/actor/incoming_handler.rs) calls it; Entries, Merging, Received
--     and Counted treat the received ranges, Ring the circular copies, Write, Read and Resize the operations,
--     Delivery sequences of them.
--   * Transport/Congestion: the trait `CongestionController` with Reno and Cubic; Boxed is either of them behind it;
--     Transport/Connection: `ZtConnection` with its path MTU search (src/transport/connection.rs).
--     Transport/Connection/Ack: `handle_ack` (src/transport/congestion.rs), step by step;
--     Frame and Windows say what its steps leave alone, InFlight, Tracked, Reliable and Forgotten what
--     becomes of the packets, RoundTrip the round-trip times.
--   * Transport/StreamState: the streams of a connection (src/transport/state/stream_state.rs), and
--     Transport/Termination: why they end (src/stream/termination.rs).
--   * Crypto: the trait `CryptoEngine` (src/crypto/mod.rs), as an interface.
--   * Transport/Actor: the task that owns a connection (src/transport/actor/). Send builds and sends
--     packets, Payloads sends what is tracked, Control what is not, and the MTU probes
--     (src/transport/actor/packet_sender.rs); Outgoing admits the application's data and opens streams,
--     Pacing empties the pacing queue (`flush_pacing_queue`), Timeouts finds and serves the packets that
--     are due (`handle_retransmits` and `get_next_rto_deadline`), Books follows the counters through sequences of these operations.
--   * Common: lists under native numbers, Boolean tests, 64-bit arithmetic and binary digits.
--
-- How they interact: a received packet number is expanded, tested and marked in the replay window
-- and the tracker; the tracker's ranges go into an acknowledgement frame, which the codec writes and
-- the peer reads; the peer then removes the acknowledged numbers from its unacknowledged packets. Stream
-- frames of the packet go into the receive buffers, which the actor reads for the application.
--
-- In the other direction, the actor admits data against the credit of the stream and the connection and
-- against the congestion window, takes a number, builds and seals a packet, and tracks it; the
-- acknowledgements and the timeouts take tracked packets off, and hand their payloads back.
--
-- Parameters: the engine (`CryptoEngine`), the hash and signature of the first packet (`Primitives`), the
-- floating point of Cubic and of the pacing (`Floats`), and of the loss detection the scaling of a round-trip time
-- (`scaled`). The socket is a list of the answers that it gives and a log of what it took.
--
-- Machine integers are native numbers with the wrap-around of the source written out; a u64 shift is
-- taken modulo 2 ^ 64. Loops over fixed ranges are recursions on the rounds that are left. The copy
-- loop of `StreamReceiveBuffer::write` takes fuel, the number of bytes, which is enough since every
-- round copies a byte. The loop of `flush_pacing_queue` takes one round more than payloads wait,
-- since every round removes one. Mutable state is passed and returned.
--
-- Not modelled: channels and tasks (src/transport/endpoint.rs, src/transport/handshake.rs, src/stream/ but
-- for the termination, and the event loop but for two of its arms), the cryptographic primitives,
-- the simulated network and the test-only branches of the sender, and, so far, decoding packet headers,
-- the handshake and the frame handlers of the actor.
pub mod Common
pub mod Protocol
pub mod Error
pub mod Crypto
pub mod Config
pub mod Transport
