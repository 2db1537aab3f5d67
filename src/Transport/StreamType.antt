-- ===== src/Transport/StreamType.antt =====
-- `StreamType` of src/transport/state/stream_state.rs.
use zetta_transport.Common.{ℕ, ◌==◌, if◌then◌else◌, Option, none, some}

pub data StreamType : Type 0 where
  bidirectional unidirectional_out unidirectional_in : StreamType

unfoldable pub to_wire : StreamType → ℕ
to_wire bidirectional = 0
to_wire unidirectional_out = 1
to_wire unidirectional_in = 2

unfoldable pub from_wire : ℕ → Option StreamType
from_wire value =
    if value == 0
    then some bidirectional
    else if value == 1
    then some unidirectional_out
    else if value == 2
    then some unidirectional_in
    else none

unfoldable pub for_peer : StreamType → Option StreamType
for_peer bidirectional = some bidirectional
for_peer unidirectional_out = some unidirectional_in
for_peer unidirectional_in = none
