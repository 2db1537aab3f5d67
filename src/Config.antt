-- ===== src/Config.antt =====
-- `ZtConfig` of src/config.rs. A `Duration` is its number of nanoseconds; the field `simulation`
-- exists in test builds only.
pub mod Laws
mod Tests
use Prim.Native.String.{String}
use zetta_transport.Common.{ℕ, ◌-◌, ◌*◌, ◌/◌, ◌^◌, List, [], ◌∷◌, Option, none}
use zetta_transport.Common.{ltb, ◌==◌, if◌then◌else◌, length, u64_max, ◌||◌}
use zetta_transport.Error.{Result, ok, err, invalid_configuration}

pub data CongestionControlAlgorithm : Type 0 where
  cubic reno : CongestionControlAlgorithm

pub record ZtConfig : Type 0 where
  pub connect_timeout : ℕ
  pub idle_timeout : ℕ
  pub max_concurrent_streams : ℕ
  pub alpn : List ℕ
  pub initial_stream_window : ℕ
  pub max_stream_window : ℕ
  pub initial_max_data : ℕ
  pub max_connection_buffer : ℕ
  pub mtu_min : ℕ
  pub mtu_max : ℕ
  pub mtu_probe_interval : ℕ
  pub cookie_max_age_ms : ℕ
  pub key_update_packet_interval : ℕ
  pub psk : Option (List ℕ)
  pub max_path_validation_retries : ℕ
  pub cc_algorithm : CongestionControlAlgorithm

abbrev pub u32_max : ℕ
u32_max = 2 ^ 32 - 1

-- `Duration::as_millis`, `from_secs`
abbrev pub as_millis : ℕ → ℕ
as_millis d = d / 1000000

abbrev pub from_secs : ℕ → ℕ
from_secs s = s * 1000000000

unfoldable pub default : ZtConfig
default = record {
  connect_timeout = from_secs 5;
  idle_timeout = from_secs 60;
  max_concurrent_streams = 100;
  alpn = b'z' ∷ b'e' ∷ b't' ∷ b't' ∷ b'a' ∷ [];
  initial_stream_window = 1048576;
  max_stream_window = 16 * 1024 * 1024;
  initial_max_data = 1048576;
  max_connection_buffer = 64 * 1024 * 1024;
  mtu_min = 1200;
  mtu_max = 9000;
  mtu_probe_interval = from_secs 15;
  cookie_max_age_ms = 5000;
  key_update_packet_interval = 2 ^ 20;
  psk = none;
  max_path_validation_retries = 3;
  cc_algorithm = cubic;
}

abbrev refuse : String → Result (Unit {0})
refuse message = err (invalid_configuration message)

-- `usize::try_from(max_stream_window)` cannot fail on a 64-bit target: a u64 is a usize.
unfoldable pub validate : ZtConfig → Result (Unit {0})
validate c =
    if c.connect_timeout == 0
    then refuse "connect_timeout must be greater than zero"
    else if as_millis c.idle_timeout == 0 || ltb u64_max (as_millis c.idle_timeout)
    then refuse "idle_timeout must fit in a non-zero millisecond wire value"
    else if c.max_concurrent_streams == 0 || ltb (u32_max / 2) c.max_concurrent_streams
    then refuse "max_concurrent_streams must be in 1..=u32::MAX/2"
    else if length c.alpn == 0 || ltb 255 (length c.alpn)
    then refuse "alpn length must be in 1..=255 bytes"
    else if c.initial_stream_window == 0 || ltb c.max_stream_window c.initial_stream_window
    then refuse "initial_stream_window must be non-zero and no larger than max_stream_window"
    else if ltb c.max_connection_buffer c.max_stream_window
    then refuse "max_stream_window must fit in usize and max_connection_buffer"
    else if c.initial_max_data == 0 || ltb u32_max c.initial_max_data
    then refuse "initial_max_data must be in 1..=u32::MAX (ACK wire limit)"
    else if c.max_connection_buffer == 0
    then refuse "max_connection_buffer must be greater than zero"
    else if ltb c.max_connection_buffer c.initial_max_data
    then refuse "initial_max_data must not exceed max_connection_buffer"
    else if ltb c.mtu_min 1200 || ltb c.mtu_max c.mtu_min
    then refuse "mtu_min must be at least 1200 and no larger than mtu_max"
    else if c.mtu_probe_interval == 0
    then refuse "mtu_probe_interval must be greater than zero"
    else if ltb 65507 c.mtu_max
    then refuse "mtu_max must not exceed the UDP payload limit (65507)"
    else if c.cookie_max_age_ms == 0
    then refuse "cookie_max_age_ms must be greater than zero"
    else if c.key_update_packet_interval == 0
    then refuse "key_update_packet_interval must be greater than zero"
    else ok tt
