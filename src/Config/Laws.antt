-- ===== src/Config/Laws.antt =====
-- What a validated configuration guarantees.
use zetta_transport.Common.{◌/◌, ◌≤◌, ◌<◌, ◌≡◌, ◌↔◌, arith, length, u64_max}
use zetta_transport.Error.{ok}
use zetta_transport.Config.{ZtConfig, validate, as_millis, u32_max}

-- The limits that the wire format, the buffers and the timers rely on.
pub record IsValid (c : ZtConfig) : Type 0 where
  pub connects : 0 < c.connect_timeout
  pub idles : 0 < as_millis c.idle_timeout
  pub idle_fits : as_millis c.idle_timeout ≤ u64_max
  pub streams : 0 < c.max_concurrent_streams
  pub streams_fit : c.max_concurrent_streams ≤ u32_max / 2
  pub alpn_some : 0 < length c.alpn
  pub alpn_fits : length c.alpn ≤ 255
  pub window : 0 < c.initial_stream_window
  pub window_fits : c.initial_stream_window ≤ c.max_stream_window
  pub window_buffered : c.max_stream_window ≤ c.max_connection_buffer
  pub receives : 0 < c.initial_max_data
  pub ack_fits : c.initial_max_data ≤ u32_max
  pub buffered : c.initial_max_data ≤ c.max_connection_buffer
  pub mtu_least : 1200 ≤ c.mtu_min
  pub mtu_order : c.mtu_min ≤ c.mtu_max
  pub probes : 0 < c.mtu_probe_interval
  pub datagram_fits : c.mtu_max ≤ 65507
  pub cookies_live : 0 < c.cookie_max_age_ms
  pub keys_last : 0 < c.key_update_packet_interval

-- `validate` accepts a configuration exactly when all its limits hold.
pub validate_iff : (c : ZtConfig) → (validate c ≡ ok tt) ↔ IsValid c
unfolding validate
validate_iff c = (λ h. ground arith, λ v. ground arith)
