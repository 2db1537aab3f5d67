-- ===== src/Transport/Connection.antt =====
-- `ZtConnection` (src/transport/connection.rs): the state of one connection, over any congestion
-- controller `C`, encryption engine `K` and type `F` of floating point numbers. Addresses are numbers
-- that name them, instants and durations numbers of nanoseconds, maps lists of entries.
pub mod Mtu
pub mod Tally
pub mod Ack
pub mod Tests
use zetta_transport.Common.{
  ◌/◌, ℕ, ◌+◌, ◌-◌, ◌*◌, max, min, Bool, true, false, List, [], ◌∷◌, Option, none, some, ltb, leb,
  if◌then◌else◌, saturating_add, checked_add, u64_max, length, map,
}
use zetta_transport.Error.{Result, ok, err, packet_number_overflow}
use zetta_transport.Config.{ZtConfig}
use zetta_transport.Transport.Congestion.{CongestionController}
use zetta_transport.Transport.PacketWindow.{PacketWindow}
use zetta_transport.Transport.PacketWindow
use zetta_transport.Transport.UnackedWindow.{UnackedWindow}
use zetta_transport.Transport.UnackedWindow
use zetta_transport.Transport.Unacked.{UnackedPayload, UnackedPacket}
use zetta_transport.Transport.StreamState.{StreamState}
use zetta_transport.Transport.Termination.{Termination}

pub data ConnectionState : Type 0 where
  handshaking active closing closed : ConnectionState

pub record ZtConnection (C K F : Type 0) : Type 0 where
  pub addr : ℕ
  pub dcid : List ℕ
  pub scid : List ℕ
  pub state : ConnectionState
  pub next_packet_number : ℕ
  pub crypto : Option K
  pub streams : List (ℕ × StreamState)
  pub mtu_probes : List (ℕ × ℕ)
  pub unacked_packets : UnackedWindow UnackedPacket
  pub rtt : ℕ
  pub rttvar : ℕ
  pub rtt_initialized : Bool
  pub local_window : ℕ
  pub remote_window : ℕ
  pub cc : C
  pub pacing_tokens : F
  pub last_pacing_update : Option ℕ
  pub bytes_in_flight : ℕ
  pub mtu : ℕ
  pub shared_mtu : ℕ
  pub mtu_min : ℕ
  pub mtu_max : ℕ
  pub base_mtu : ℕ
  pub bytes_received : ℕ
  pub bytes_sent : ℕ
  pub conn_tx_offset : ℕ
  pub unpaced_queue : List (UnackedPayload × ℕ)
  pub queued_bytes : ℕ
  pub replay_window : PacketWindow
  pub ack_tracker : PacketWindow
  pub current_key_epoch : ℕ
  pub packets_since_key_update : ℕ
  pub cookie : Option (List ℕ)
  pub handshake_packet : Option (List ℕ)
  pub is_closed : Bool
  pub largest_acked_received_at : Option ℕ
  pub local_max_streams : ℕ
  pub peer_max_streams : ℕ
  pub peer_initial_stream_window : ℕ
  pub peer_max_datagram_size : ℕ
  pub idle_timeout : ℕ
  pub termination : Termination
  pub packets_lost : ℕ
  pub packets_retransmitted : ℕ
  pub mtu_probe_successes : ℕ
  pub mtu_probe_failures : ℕ
  pub mtu_blackhole_recoveries : ℕ

abbrev from_millis : ℕ → ℕ
from_millis ms = ms * 1000000

module _ {C K F : Type 0} where
  -- `ZtConnection::new_with_config`, given the controller for the window `10 * mtu_min` that the
  -- configured algorithm makes, and the conversion of that window to a floating point number. The
  -- unused packet spaces are left out.
  unfoldable pub new_with_config :
      (addr : ℕ) (scid dcid : List ℕ)
      → ZtConfig
      → (new_controller : (initial_cwnd mtu : ℕ) → C) → (of_usize : ℕ → F) → ZtConnection C K F
  new_with_config addr scid dcid config new_controller of_usize =
      let mtu = config.mtu_min in
      let initial_cwnd = 10 * mtu in
      record {
        addr = addr;
        dcid = dcid;
        scid = scid;
        state = handshaking;
        next_packet_number = 0;
        crypto = none;
        streams = [];
        mtu_probes = [];
        unacked_packets = UnackedWindow.new;
        rtt = from_millis 333;
        rttvar = from_millis 166;
        rtt_initialized = false;
        local_window = config.initial_max_data;
        remote_window = config.initial_max_data;
        cc = new_controller initial_cwnd mtu;
        pacing_tokens = of_usize initial_cwnd;
        last_pacing_update = none;
        bytes_in_flight = 0;
        mtu = mtu;
        shared_mtu = mtu;
        mtu_min = config.mtu_min;
        mtu_max = config.mtu_max;
        base_mtu = config.mtu_min;
        bytes_received = 0;
        bytes_sent = 0;
        conn_tx_offset = 0;
        unpaced_queue = [];
        queued_bytes = 0;
        replay_window = PacketWindow.new;
        ack_tracker = PacketWindow.new;
        current_key_epoch = 0;
        packets_since_key_update = 0;
        cookie = none;
        handshake_packet = none;
        is_closed = false;
        largest_acked_received_at = none;
        local_max_streams = config.max_concurrent_streams;
        peer_max_streams = config.max_concurrent_streams;
        peer_initial_stream_window = config.initial_stream_window;
        peer_max_datagram_size = config.mtu_min - 64;
        idle_timeout = config.idle_timeout;
        termination = none;
        packets_lost = 0;
        packets_retransmitted = 0;
        mtu_probe_successes = 0;
        mtu_probe_failures = 0;
        mtu_blackhole_recoveries = 0;
      }

  -- The number to send under, and the connection after it.
  unfoldable pub next_number : ZtConnection C K F → Result (ℕ × ZtConnection C K F)
  next_number c = elim (checked_add c.next_packet_number 1) [
    | none ↦ err packet_number_overflow
    | some next ↦ ok (c.next_packet_number, record c { next_packet_number = next })
  ]

module _ {C K F : Type 0} ⦃controller : CongestionController C⦄ where
  unfoldable pub record_mtu_probe_success :
      ZtConnection C K F → (target_size : ℕ) → ZtConnection C K F
  record_mtu_probe_success c target_size =
      let counted = record c {
        mtu_probe_successes = saturating_add c.mtu_probe_successes 1;
        mtu_min = max c.mtu_min target_size;
      } in
      if ltb c.mtu target_size
      then record counted {
        mtu = target_size;
        shared_mtu = target_size;
        cc = controller.set_mtu c.cc target_size;
      }
      else counted

  unfoldable pub record_mtu_probe_failure :
      ZtConnection C K F → (target_size : ℕ) → ZtConnection C K F
  record_mtu_probe_failure c target_size = record c {
    mtu_probe_failures = saturating_add c.mtu_probe_failures 1;
    mtu_max = min c.mtu_max (target_size - 1);
  }

  unfoldable pub recover_mtu_blackhole : ZtConnection C K F → Bool × ZtConnection C K F
  recover_mtu_blackhole c = if leb c.mtu c.base_mtu then (false, c) else (
    true,
    record c {
      mtu = c.base_mtu;
      mtu_min = c.base_mtu;
      mtu_max = max (c.mtu - 1) c.base_mtu;
      shared_mtu = c.base_mtu;
      cc = controller.set_mtu c.cc c.base_mtu;
      mtu_blackhole_recoveries = saturating_add c.mtu_blackhole_recoveries 1;
    },
  )

-- The size that `send_mtu_probe` tries next: the middle of the search interval, until that is short.
unfoldable pub probe_target : (mtu_min mtu_max : ℕ) → Option ℕ
probe_target mtu_min mtu_max =
    if leb mtu_max (mtu_min + 10) then none else some (mtu_min + (mtu_max - mtu_min) / 2)
