-- ===== src/Protocol/TransportParameters/Laws.antt =====
-- The parameters that an endpoint announces are parameters that its peer accepts.
use zetta_transport.Common.{◌-◌, ◌/◌, ◌≤◌, ◌<◌, ◌≡◌, ◌↔◌, arith}
use zetta_transport.Error.{ok}
use zetta_transport.Config.{ZtConfig, u32_max, as_millis}
use zetta_transport.Config
use zetta_transport.Config.Laws.{validate_iff}
use zetta_transport.Protocol.TransportParameters.{TransportParameters, from_config, validate}

-- What `validate` demands.
pub record IsAcceptable (p : TransportParameters) : Type 0 where
  pub streams : 0 < p.max_streams
  pub streams_fit : p.max_streams ≤ u32_max / 2
  pub window : 0 < p.initial_stream_window
  pub receives : 0 < p.initial_max_data
  pub ack_fits : p.initial_max_data ≤ u32_max
  pub datagrams : 0 < p.max_datagram_size
  pub idles : 0 < p.idle_timeout_ms

-- `validate` returns its argument when all limits are met, and no other value.
validate_accepts : (p q : TransportParameters) → (validate p ≡ ok q) ↔ (IsAcceptable p × (p ≡ q))
unfolding validate
validate_accepts p q = ((λ h. ground arith), (λ h. ground arith))

-- Every configuration that `ZtConfig::validate` accepts announces parameters that a peer's
-- `TransportParameters::validate` accepts, with no value changed by a cast.
pub validate-from_config :
    (c : ZtConfig)
    → Config.validate c ≡ ok tt
    → (validate (from_config c) ≡ ok (from_config c))
      × ((from_config c).max_datagram_size ≡ c.mtu_max - 64)
      × ((from_config c).idle_timeout_ms ≡ as_millis c.idle_timeout)
unfolding validate from_config
validate-from_config c h =
    let v = (validate_iff c).0 h in (ground arith, ground arith, ground arith)
