-- ===== src/Error.antt =====
-- src/error.rs: the errors of endpoint, connection and stream operations, and the results of
-- fallible code.
use Prim.Native.String.{String}
use zetta_transport.Common.{ℕ, ◌≡◌, refl}

-- A message is a literal of the source, or is formatted from a number.
pub data Message : Type 0 where
  text : String → Message
  unknown_frame_type : ℕ → Message

-- Durations are in nanoseconds.
pub data ZtError : Type 0 where
  invalid_configuration : String → ZtError
  io : String → ZtError
  crypto : String → ZtError
  invalid_packet : Message → ZtError
  timeout : ZtError
  unauthorized : ZtError
  packet_number_overflow : ZtError
  connection_id_exhausted : ZtError
  actor_failed : ZtError
  flow_control_blocked : ZtError
  congestion_window_full : ZtError
  pacing_blocked : ℕ → ZtError
  too_many_streams : ℕ → ZtError
  stream_reset : ℕ → ℕ → ZtError
  connection_closed_by_peer : ℕ → String → ZtError
  idle_timeout : ZtError

-- A result, or a panic of the thread.
pub data Result {ℓ} (A : Type ℓ) : Type ℓ where
  ok : A → Result A
  err : ZtError → Result A
  panic : Result A

-- What holds after each result of a fallible call holds of the match on it.
pub result_holds {ℓ κ μ} :
    {A : Type ℓ} {B : Type μ} (P : B → Type κ) (r : Result A) {f : A → B} {g : ZtError → B} {p : B}
    → ((a : A) → r ≡ ok a → P (f a))
    → ((e : ZtError) → r ≡ err e → P (g e))
    → (r ≡ panic → P p)
    → P (elim r [ ok a ↦ f a | err e ↦ g e | panic ↦ p ])
result_holds P (ok a) hf hg hp = hf a refl
result_holds P (err e) hf hg hp = hg e refl
result_holds P panic hf hg hp = hp refl
