-- ===== src/Config/Tests.antt =====
-- Runs of `validate`.
use zetta_transport.Common.{◌≡◌, ◌↔◌, refl}
use zetta_transport.Config.Laws.{IsValid, validate_iff}
use zetta_transport.Error.{ok}
use zetta_transport.Config.{validate, default}

default-validates : validate default ≡ ok tt
unfolding validate default
default-validates = refl

validate_iff_example : (validate default ≡ ok tt) ↔ IsValid default
validate_iff_example = validate_iff default
