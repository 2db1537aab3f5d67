-- ===== src/Transport/Termination/Tests.antt =====
-- A run of the termination of a connection.
use zetta_transport.Common.{◌≡◌, [], ◌∷◌, none, some}
use zetta_transport.Transport.Termination.{
  idle, connection_closed, termination_error, set_all, first_reason_stands,
}

first_reason_stands_example :
    (set_all none (idle ∷ connection_closed 1 "late" ∷ []) ≡ some idle)
    × (termination_error (set_all none (idle ∷ connection_closed 1 "late" ∷ []))
        ≡ termination_error (some idle))
first_reason_stands_example = first_reason_stands idle (connection_closed 1 "late" ∷ [])
