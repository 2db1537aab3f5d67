-- ===== src/Protocol/TransportParameters/Tests.antt =====
-- A run of the parameter check.
use zetta_transport.Common.{◌≡◌, ◌-◌, refl}
use zetta_transport.Error.{ok}
use zetta_transport.Config.{default, as_millis}
use zetta_transport.Config
use zetta_transport.Protocol.TransportParameters.{from_config, validate}
use zetta_transport.Protocol.TransportParameters.Laws.{validate-from_config}

default-validates : Config.validate default ≡ ok tt
unfolding Config.validate default
default-validates = refl

validate-from_config_example :
    (validate (from_config default) ≡ ok (from_config default))
    × ((from_config default).max_datagram_size ≡ default.mtu_max - 64)
    × ((from_config default).idle_timeout_ms ≡ as_millis default.idle_timeout)
validate-from_config_example = validate-from_config default default-validates
