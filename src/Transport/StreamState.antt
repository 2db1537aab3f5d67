-- ===== src/Transport/StreamState.antt =====
-- `StreamState` (src/transport/state/stream_state.rs). `window_opened` counts the signals that
-- `Notify` was given. A channel to the application is the list of chunks that wait in it.
use zetta_transport.Common.{
  ℕ, ◌+◌, Bool, true, List, [], Option, none, some, ◌∷◌, ◌++◌, length, saturating_add, ◌==◌,
  if◌then◌else◌,
}
use zetta_transport.Transport.StreamType.{StreamType}
use zetta_transport.Transport.StreamBuffer.{StreamReceiveBuffer}
use zetta_transport.Transport.StreamBuffer
use zetta_transport.Transport.Termination.{Termination}

-- The sending half of a bounded channel: `try_reserve` fails when it is full or its receiver is dropped.
pub record Sender : Type 0 where
  pub waiting : List (List ℕ)
  pub is_open : Bool

pub record StreamState : Type 0 where
  pub expected_rx_offset : ℕ
  pub next_tx_offset : ℕ
  pub receive_buffer : StreamReceiveBuffer
  pub window_size : ℕ
  pub tx_window : ℕ
  pub buffered_bytes : ℕ
  pub window_opened : ℕ
  pub app_tx : Option Sender
  pub termination : Termination
  pub highest_rx_offset : ℕ
  pub final_rx_offset : Option ℕ
  pub send_stopped_error : Option ℕ
  pub last_sent_max_data : ℕ
  pub last_window_update : ℕ
  pub bytes_read_in_epoch : ℕ
  pub stream_type : StreamType

-- `StreamState::new` at the instant `now`
unfoldable pub new_stream :
    (now : ℕ) (stream_type : StreamType) (receive_window transmit_window : ℕ) → StreamState
new_stream now stream_type receive_window transmit_window = record {
  expected_rx_offset = 0;
  next_tx_offset = 0;
  receive_buffer = StreamBuffer.new receive_window;
  window_size = receive_window;
  tx_window = transmit_window;
  buffered_bytes = 0;
  window_opened = 0;
  app_tx = some (record { waiting = []; is_open = true });
  termination = none;
  highest_rx_offset = 0;
  final_rx_offset = none;
  send_stopped_error = none;
  last_sent_max_data = receive_window;
  last_window_update = now;
  bytes_read_in_epoch = 0;
  stream_type = stream_type;
}

abbrev pub signal_window_opened : StreamState → StreamState
signal_window_opened s = record s { window_opened = s.window_opened + 1 }

-- The streams of a connection: an entry for each identifier.
abbrev pub Streams : Type 0
Streams = List (ℕ × StreamState)

-- `streams.get(&id)`
abbrev pub get_stream : Streams → ℕ → Option StreamState
get_stream [] id = none
get_stream (s ∷ streams) id = if s.0 == id then some s.1 else get_stream streams id

-- A write to a stream that is there, through `streams.get_mut(&id)`.
abbrev pub set_stream : Streams → ℕ → StreamState → Streams
set_stream [] id stream = []
set_stream (s ∷ streams) id stream =
    if s.0 == id then (id, stream) ∷ streams else s ∷ set_stream streams id stream

-- `streams.insert(id, stream)` of an identifier that is not there
abbrev pub add_stream : Streams → ℕ → StreamState → Streams
add_stream streams id stream = streams ++ ((id, stream) ∷ [])

-- `streams.remove(&id)`
abbrev pub remove_stream : Streams → ℕ → Streams
remove_stream [] id = []
remove_stream (s ∷ streams) id = if s.0 == id then streams else s ∷ remove_stream streams id

-- `for stream in streams.values() { stream.signal_window_opened(); }`
abbrev pub signal_all : Streams → Streams
signal_all [] = []
signal_all (s ∷ streams) = (s.0, signal_window_opened s.1) ∷ signal_all streams

-- `get_total_buffered_bytes`
pub total_buffered : Streams → ℕ
total_buffered [] = 0
total_buffered (s ∷ streams) = (s.1).buffered_bytes + total_buffered streams

-- `total_allocated_buffer_size`; `allocated_size` is the length of the buffer.
pub total_allocated_buffer_size : Streams → ℕ
total_allocated_buffer_size [] = 0
total_allocated_buffer_size (s ∷ streams) =
    saturating_add (length ((s.1).receive_buffer).buffer) (total_allocated_buffer_size streams)
