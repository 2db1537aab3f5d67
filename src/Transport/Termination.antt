-- ===== src/Transport/Termination.antt =====
-- `Termination` (src/stream/termination.rs): why a connection or a stream ended. The mutex around it is
-- held for one operation at a time, so that the operations are steps on the value.
mod Tests
use Prim.Native.String.{String}
use zetta_transport.Common.{ℕ, ◌≡◌, refl, ap, List, [], ◌∷◌, Option, none, some}
use zetta_transport.Error.{ZtError, stream_reset, connection_closed_by_peer, idle_timeout}

pub data TerminationReason : Type 0 where
  stream_was_reset : (stream_id error_code : ℕ) → TerminationReason
  connection_closed : (error_code : ℕ) (reason : String) → TerminationReason
  idle : TerminationReason

abbrev pub Termination : Type 0
Termination = Option TerminationReason

-- `Termination::set`
unfoldable pub set_reason : Termination → TerminationReason → Termination
set_reason none reason = some reason
set_reason (some current) reason = some current

-- `Termination::error`
pub termination_error : Termination → Option ZtError
termination_error none = none
termination_error (some (stream_was_reset stream_id error_code)) =
    some (stream_reset stream_id error_code)
termination_error (some (connection_closed error_code reason)) =
    some (connection_closed_by_peer error_code reason)
termination_error (some idle) = some idle_timeout

-- `set` for each of the reasons in turn.
pub set_all : Termination → List TerminationReason → Termination
unfolding set_reason
set_all t [] = t
set_all t (reason ∷ reasons) = set_all (set_reason t reason) reasons

set_all-some :
    (current : TerminationReason) (reasons : List TerminationReason)
    → set_all (some current) reasons ≡ some current
unfolding set_all
set_all-some current [] = refl
set_all-some current (reason ∷ reasons) = set_all-some current reasons

-- The first reason stands, whatever reasons follow, and the error that waiters see is the first one's.
pub first_reason_stands :
    (first : TerminationReason) (reasons : List TerminationReason)
    → (set_all none (first ∷ reasons) ≡ some first)
      × (termination_error (set_all none (first ∷ reasons)) ≡ termination_error (some first))
unfolding set_all
first_reason_stands first reasons =
    (set_all-some first reasons, ap termination_error (set_all-some first reasons))
