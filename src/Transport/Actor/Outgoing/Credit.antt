-- ===== src/Transport/Actor/Outgoing/Credit.antt =====
-- `process_outgoing_data` (src/transport/actor/packet_sender.rs) spends credit exactly.
use zetta_transport.Common.{ℕ, ◌+◌, ◌≤◌, ◌<◌, ◌^◌, ◌≡◌, List, [], ◌∷◌, ◌++◌, some, length}
use zetta_transport.Transport.Congestion.{CongestionController}
use zetta_transport.Transport.Unacked.{UnackedPayload, stream, payload_len}
use zetta_transport.Transport.StreamState.{StreamState, get_stream}
use zetta_transport.Transport.Connection.{ZtConnection}

-- The bytes of the payloads that wait in the pacing queue.
abbrev pub queue_bytes : List (UnackedPayload × ℕ) → ℕ
queue_bytes [] = 0
queue_bytes (e ∷ es) = payload_len e.0 + queue_bytes es

module _ {C K F : Type 0} ⦃controller : CongestionController C⦄ where
  -- The data is taken: `s` is the stream before, and `d` the connection after.
  pub record Taken (id : ℕ) (bytes : List ℕ) (c : ZtConnection C K F) (s : StreamState)
      (d : ZtConnection C K F) : Type 0 where
    pub found : get_stream c.streams id ≡ some s
    pub within_connection : length bytes ≤ c.remote_window
    pub within_stream : length bytes ≤ s.tx_window
    pub within_window : c.bytes_in_flight + d.queued_bytes ≤ controller.cwnd d.cc
    pub connection_credit : d.conn_tx_offset + d.remote_window ≡ c.conn_tx_offset + c.remote_window
    pub queue_kept :
        d.queued_bytes + queue_bytes c.unpaced_queue ≡ c.queued_bytes + queue_bytes d.unpaced_queue
    pub queued_last :
        d.unpaced_queue
        ≡ c.unpaced_queue ++ ((stream id s.stream_type s.next_tx_offset bytes, 0) ∷ [])
    pub stream_credit :
        (t : StreamState) × (get_stream d.streams id ≡ some t)
        × (t.next_tx_offset ≡ s.next_tx_offset + length bytes)
        × (t.next_tx_offset + t.tx_window ≡ s.next_tx_offset + s.tx_window)

  -- The sizes that do not overflow.
  abbrev pub Fits : (id : ℕ) (bytes : List ℕ) → ZtConnection C K F → StreamState → Type 0
  Fits id bytes c s =
      (c.conn_tx_offset + length bytes < 2 ^ 64)
      × (s.next_tx_offset + length bytes < 2 ^ 64)
      × (c.bytes_in_flight + length bytes + c.queued_bytes < 2 ^ 64)
