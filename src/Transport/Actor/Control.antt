-- ===== src/Transport/Actor/Control.antt =====
-- Acknowledgements, MTU probes and frames that are sent at once (src/transport/actor/packet_sender.rs).
use zetta_transport.Common.{
  ℕ, ◌+◌, ◌-◌, ◌/◌, ◌%◌, ◌^◌, List, ◌∷◌, Option, none, some, ◌==◌, if◌then◌else◌, saturating_add,
}
use zetta_transport.Error.{Result, ok, err, panic}
use zetta_transport.Crypto.{CryptoEngine}
use zetta_transport.Protocol.Wire.{Buf}
use zetta_transport.Protocol.Frame.{Frame, encode}
use zetta_transport.Protocol.PacketHeader.{PacketHeader, PacketType, encode_header}
use zetta_transport.Protocol.PacketHeader
use zetta_transport.Transport.Unacked.{mtu_probe}
use zetta_transport.Transport.StreamState.{total_buffered}
use zetta_transport.Transport.AckTracker.{ack_frame}
use zetta_transport.Transport.Connection.{next_number, probe_target}
use zetta_transport.Transport.Actor.{Actor, Outcome, is_active}
use zetta_transport.Transport.Actor.Send.{
  padded, build, note_packet_sent, sendmsg_vectored, transmit, with_number,
}
use zetta_transport.Transport.Actor.Payloads.{track}

-- The instants of the trackers are in nanoseconds, the delay of the frame in microseconds.
abbrev pub ack_delay_of : (now : ℕ) → Option ℕ → ℕ
ack_delay_of now none = 0
ack_delay_of now (some received_at) = (now - received_at) / 1000 % 2 ^ 64

module _ {C K F : Type 0} ⦃engine : CryptoEngine K⦄ ⦃buf : Buf⦄ where
  -- `local_window = initial_max_data.saturating_sub(get_total_buffered_bytes())`
  unfoldable pub refresh_window : Actor C K F → Actor C K F
  refresh_window a = record a {
    state = record a.state {
      local_window = (a.config).initial_max_data - total_buffered (a.state).streams;
    };
  }

  -- An acknowledgement is not tracked; a failure of the socket is only logged.
  unfoldable pub acks_flushed : Outcome C K F → Outcome C K F
  acks_flushed (ok u, a) = (ok tt, record (note_packet_sent a) { pending_acks = 0 })
  acks_flushed (err e, a) = (ok tt, record a { pending_acks = 0 })
  acks_flushed (panic, a) = (panic, a)

  unfoldable pub transmit_acks : Result (List ℕ) → Actor C K F → Outcome C K F
  unfolding acks_flushed
  transmit_acks (ok packet) a = acks_flushed (sendmsg_vectored a packet)
  transmit_acks (err e) a = (err e, a)
  transmit_acks panic a = (panic, a)

  unfoldable pub flush_acks : (now : ℕ) → Actor C K F → Outcome C K F
  unfolding refresh_window transmit_acks
  flush_acks now a =
      if a.pending_acks == 0
      then (ok tt, a)
      else with_number
          (λ pn b.
            let ready = refresh_window b in
            let s = ready.state in
            let frame =
              ack_frame s.ack_tracker s.local_window
                (ack_delay_of now s.largest_acked_received_at) in
            transmit_acks
              (build PacketHeader.«data» (λ h_len pn_len. padded pn_len (encode frame)) pn ready)
              ready)
          (next_number a.state) a

  unfoldable pub book_probe : (now target_size pn sent_bytes : ℕ) → Actor C K F → Actor C K F
  book_probe now target_size pn sent_bytes a =
      let tracked = track now (mtu_probe target_size) 0 pn sent_bytes a in
      note_packet_sent (record tracked {
        state = record tracked.state {
          bytes_in_flight = saturating_add (a.state).bytes_in_flight sent_bytes;
          mtu_probes = (pn, target_size) ∷ (tracked.state).mtu_probes;
        };
      })

  -- A probe that the socket does not take is only logged.
  unfoldable pub ignore_unsent : Result (List ℕ) → Outcome C K F → Outcome C K F
  ignore_unsent (ok packet) (err e, a) = (ok tt, a)
  ignore_unsent (ok packet) (ok u, a) = (ok tt, a)
  ignore_unsent (ok packet) (panic, a) = (panic, a)
  ignore_unsent (err e) r = r
  ignore_unsent panic r = r

  -- A path MTU probe of the size that the search tries next.
  unfoldable pub send_probe : (now target_size : ℕ) → Actor C K F → Outcome C K F
  unfolding refresh_window book_probe ignore_unsent
  send_probe now target_size a =
      with_number
        (λ pn b.
          let ready = refresh_window b in
          let packet =
            build PacketHeader.mtu_probe
              (λ h_len pn_len. encode (Frame.padding (target_size - (h_len + 16)))) pn ready in
          ignore_unsent packet (transmit (book_probe now target_size pn) packet ready))
        (next_number a.state) a

  unfoldable pub send_mtu_probe : (now : ℕ) → Actor C K F → Outcome C K F
  unfolding send_probe
  send_mtu_probe now a =
      if is_active (a.state).state
      then elim (probe_target (a.state).mtu_min (a.state).mtu_max) [
        | none ↦ (ok tt, a)
        | some target_size ↦ send_probe now target_size a
      ]
      else (ok tt, a)

  -- `sendmsg_vectored` to an address that may be another than the connection's.
  unfoldable pub transmit_to : (to_addr : ℕ) → Result (List ℕ) → Actor C K F → Outcome C K F
  transmit_to to_addr (ok packet) a =
      let r = sendmsg_vectored (record a { state = record a.state { addr = to_addr } }) packet in
      (r.0, record r.1 { state = record (r.1).state { addr = (a.state).addr } })
  transmit_to to_addr (err e) a = (err e, a)
  transmit_to to_addr panic a = (panic, a)

  -- A frame that is not tracked.
  unfoldable pub send_frame_immediate : Frame → (to_addr : ℕ) → Actor C K F → Outcome C K F
  unfolding transmit_to
  send_frame_immediate frame to_addr a =
      with_number
        (λ pn b.
          transmit_to to_addr
            (build PacketHeader.«data» (λ h_len pn_len. padded pn_len (encode frame)) pn b) b)
        (next_number a.state) a
