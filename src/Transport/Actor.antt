-- ===== src/Transport/Actor.antt =====
-- `ZtConnectionActor` (src/transport/actor/mod.rs): the state of the task that owns a connection. The
-- socket is the log of the datagrams it took, with their addresses, and the answers that it gives
-- to the next attempts to send; without an answer it would block. The clock is an argument `now`.
pub mod Send
pub mod Payloads
pub mod Control
pub mod Timeouts
pub mod Outgoing
pub mod Pacing
pub mod Books
mod Tests
use zetta_transport.Common.{
  ℕ, ◌%◌, Bool, true, false, not, List, [], ◌∷◌, Option, none, ◌==◌, if◌then◌else◌,
}
use zetta_transport.Error.{Result, ok, err, panic}
use zetta_transport.Config.{ZtConfig}
use zetta_transport.Transport.Connection.{
  ZtConnection, ConnectionState, handshaking, active, closing, closed,
}

pub data Answer : Type 0 where
  sent would_block : Answer
  failed : Answer

pub record Actor (C K F : Type 0) : Type 0 where
  pub config : ZtConfig
  pub state : ZtConnection C K F
  pub pending_acks : ℕ
  pub last_active_stream_id : ℕ
  pub next_stream_id : ℕ
  pub is_client : Bool
  pub socket_blocked : Bool
  pub pending_validation_addr : Option ℕ
  pub path_validation_token : Option (List ℕ)
  pub path_validation_sent_at : Option ℕ
  pub path_validation_retries : ℕ
  pub wire : List (ℕ × List ℕ)
  pub answers : List Answer

-- `ZtConnectionActor::new`
unfoldable pub new_actor :
    {C K F : Type 0}
    → ZtConfig
    → ZtConnection C K F
    → (is_client : Bool) → (answers : List Answer) → Actor C K F
new_actor config state is_client answers = record {
  config = config;
  state = state;
  pending_acks = 0;
  last_active_stream_id = 0;
  next_stream_id = if is_client then 2 else 1;
  is_client = is_client;
  socket_blocked = false;
  pending_validation_addr = none;
  path_validation_token = none;
  path_validation_sent_at = none;
  path_validation_retries = 0;
  wire = [];
  answers = answers;
}

abbrev pub is_handshaking : ConnectionState → Bool
is_handshaking handshaking = true
is_handshaking active = false
is_handshaking closing = false
is_handshaking closed = false

abbrev pub is_active : ConnectionState → Bool
is_active handshaking = false
is_active active = true
is_active closing = false
is_active closed = false

-- `!epoch.is_multiple_of(2)`
abbrev pub key_phase_of : (epoch : ℕ) → Bool
key_phase_of epoch = not (epoch % 2 == 0)

-- A handler's result with the actor after it, which a failed handler changes too.
abbrev pub Outcome : (C K F : Type 0) → Type 0
Outcome C K F = Result (Unit {0}) × Actor C K F
