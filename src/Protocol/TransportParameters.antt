-- ===== src/Protocol/TransportParameters.antt =====
-- `TransportParameters` of src/protocol/frame.rs: the limits that a peer announces.
pub mod Laws
mod Tests
use zetta_transport.Common.{ℕ, ◌-◌, ◌/◌, ◌%◌, ◌^◌, List, ◌++◌, ltb, ◌==◌, if◌then◌else◌, ◌||◌}
use zetta_transport.Error.{Result, ok, err, text, invalid_packet}
use zetta_transport.Config.{ZtConfig, as_millis, u32_max}
use zetta_transport.Protocol.Wire.{be_bytes}

pub record TransportParameters : Type 0 where
  pub max_streams : ℕ
  pub initial_stream_window : ℕ
  pub initial_max_data : ℕ
  pub max_datagram_size : ℕ
  pub idle_timeout_ms : ℕ

unfoldable pub from_config : ZtConfig → TransportParameters
from_config config = record {
  max_streams = config.max_concurrent_streams;
  initial_stream_window = config.initial_stream_window;
  initial_max_data = config.initial_max_data;
  max_datagram_size = (config.mtu_max - 64) % 2 ^ 32;
  idle_timeout_ms = as_millis config.idle_timeout % 2 ^ 64;
}

unfoldable pub validate : TransportParameters → Result TransportParameters
validate p =
    if p.max_streams == 0
      || ltb (u32_max / 2) p.max_streams
      || p.initial_stream_window == 0
      || p.initial_max_data == 0
      || ltb u32_max p.initial_max_data
      || p.max_datagram_size == 0
      || p.idle_timeout_ms == 0
    then err (invalid_packet (text "invalid peer transport parameters"))
    else ok p

-- Five fields at fixed places of an array of 36 bytes.
unfoldable pub transcript_bytes : TransportParameters → List ℕ
transcript_bytes p =
    be_bytes 8 p.max_streams
    ++ (be_bytes 8 p.initial_stream_window
        ++ (be_bytes 8 p.initial_max_data
            ++ (be_bytes 4 p.max_datagram_size ++ be_bytes 8 p.idle_timeout_ms)))
