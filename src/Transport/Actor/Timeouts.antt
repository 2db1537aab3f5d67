-- ===== src/Transport/Actor/Timeouts.antt =====
-- Retransmission by timeout: `handle_retransmits` of src/transport/actor/packet_sender.rs and
-- `get_next_rto_deadline` of src/transport/actor/event_loop.rs. All reads of the clock in one call are `now`.
pub mod Deadline
pub mod Expiry
pub mod Resending
use zetta_transport.Common.{
  ℕ, zero, suc, ◌+◌, ◌-◌, ◌*◌, ◌^◌, min, max, Bool, true, false, ◌||◌, ◌&&◌, List, [], ◌∷◌, ◌++◌,
  Option, none, some, ltb, leb, ◌==◌, if◌then◌else◌, length, saturating_add,
}
use zetta_transport.Error.{Result, ok, err, panic, timeout}
use zetta_transport.Crypto.{CryptoEngine}
use zetta_transport.Protocol.Wire.{Buf}
use zetta_transport.Transport.Congestion.{CongestionController}
use zetta_transport.Transport.UnackedWindow.{UnackedWindow, iter, remove}
use zetta_transport.Transport.Unacked.{UnackedPayload, UnackedPacket, mtu_probe}
use zetta_transport.Transport.StreamState.{signal_all}
use zetta_transport.Transport.Connection.{
  ZtConnection, record_mtu_probe_failure, recover_mtu_blackhole,
}
use zetta_transport.Transport.Connection.Tally.{is_datagram, remove_probe}
use zetta_transport.Transport.Actor.{Actor, Outcome}
use zetta_transport.Transport.Actor.Payloads.{Primitives, retransmit_payload, initiate_close}

-- `1_u32.checked_shl(retries).unwrap_or(64).min(64)`
abbrev pub backoff_multiplier : (retries : ℕ) → ℕ
backoff_multiplier retries = min (if ltb retries 32 then 2 ^ retries else 64) 64

-- `(rtt + rttvar * 4).max(50 ms)`
abbrev pub rto_of : (rtt rttvar : ℕ) → ℕ
rto_of rtt rttvar = max (rtt + rttvar * 4) 50000000

abbrev pub packet_rto : (rto retries : ℕ) → ℕ
packet_rto rto retries = min (rto * backoff_multiplier retries) 10000000000

-- The smallest deadline of the packets.
unfoldable pub min_deadline : (rto : ℕ) → List (ℕ × UnackedPacket) → Option ℕ → Option ℕ
min_deadline rto [] least = least
min_deadline rto (e ∷ es) none =
    min_deadline rto es (some ((e.1).sent_at + packet_rto rto (e.1).retries))
min_deadline rto (e ∷ es) (some least) =
    let deadline = (e.1).sent_at + packet_rto rto (e.1).retries in
    min_deadline rto es (some (if ltb deadline least then deadline else least))

abbrev pub is_expired : (now rto : ℕ) → UnackedPacket → Bool
is_expired now rto up = ltb (packet_rto rto up.retries) (now - up.sent_at)

-- What the loop over `iter_mut` leaves: the packets, and its variables.
pub record Scan : Type 0 where
  pub slots : List (Option UnackedPacket)
  pub to_drop : List ℕ
  pub to_retransmit : List ℕ
  pub failed_probe_targets : List ℕ
  pub blackhole_detected : Bool
  pub timed_out : Bool

abbrev pub target_of : UnackedPayload → List ℕ → List ℕ
target_of (mtu_probe target_size) rest = target_size ∷ rest
target_of _ rest = rest

-- An expired packet that is not sent again.
abbrev pub drop_packet : ℕ → UnackedPacket → Scan → Scan
drop_packet pn up rest = record rest {
  slots = some up ∷ rest.slots;
  to_drop = pn ∷ rest.to_drop;
  failed_probe_targets = target_of up.payload rest.failed_probe_targets;
}

abbrev pub retry_packet : (now : ℕ) → ℕ → UnackedPacket → Scan → Scan
retry_packet now pn up rest = record rest {
  slots = some (record up { retries = up.retries + 1; sent_at = now }) ∷ rest.slots;
  to_drop = pn ∷ rest.to_drop;
  to_retransmit = pn ∷ rest.to_retransmit;
  blackhole_detected = ltb 3 (up.retries + 1) || rest.blackhole_detected;
}

abbrev pub keep_slot : Option UnackedPacket → Scan → Scan
keep_slot o rest = record rest { slots = o ∷ rest.slots }

-- The loop ends at a packet that was sent again ten times.
unfoldable pub scan : (now rto pn : ℕ) → List (Option UnackedPacket) → Scan
scan now rto pn [] = record {
  slots = [];
  to_drop = [];
  to_retransmit = [];
  failed_probe_targets = [];
  blackhole_detected = false;
  timed_out = false;
}
scan now rto pn (none ∷ slots) = keep_slot none (scan now rto (pn + 1) slots)
scan now rto pn (some up ∷ slots) =
    let rest = scan now rto (pn + 1) slots in
    if is_expired now rto up
    then if up.is_mtu_probe || is_datagram up.payload
      then drop_packet pn up rest
      else if ltb 10 (up.retries + 1)
      then record {
        slots = some (record up { retries = up.retries + 1 }) ∷ slots;
        to_drop = [];
        to_retransmit = [];
        failed_probe_targets = [];
        blackhole_detected = false;
        timed_out = true;
      }
      else retry_packet now pn up rest
    else keep_slot (some up) rest

-- `to_retransmit.contains(&pn)`
abbrev pub contains : List ℕ → ℕ → Bool
contains [] pn = false
contains (x ∷ xs) pn = (x == pn) || contains xs pn

module _ {C K F : Type 0} ⦃controller : CongestionController C⦄ where
  unfoldable pub get_next_rto_deadline : ZtConnection C K F → Option ℕ
  unfolding min_deadline
  get_next_rto_deadline c = min_deadline (rto_of c.rtt c.rttvar) (iter c.unacked_packets) none

  unfoldable pub fail_probes : List ℕ → ZtConnection C K F → ZtConnection C K F
  fail_probes [] c = c
  fail_probes (target_size ∷ targets) c =
      fail_probes targets (record_mtu_probe_failure c target_size)

  -- The connection without a packet that it tracked.
  abbrev pub dropped : (pn : ℕ) → UnackedPacket → ZtConnection C K F → ZtConnection C K F
  dropped pn up c = record c {
    unacked_packets = (remove c.unacked_packets pn).1;
    bytes_in_flight = c.bytes_in_flight - up.sent_bytes;
    mtu_probes = if up.is_mtu_probe then remove_probe c.mtu_probes pn else c.mtu_probes;
  }

  -- The payload of a dropped packet, before those of the later ones, if it is to be sent again.
  abbrev pub queued :
      (to_retransmit : List ℕ) (pn : ℕ)
      → UnackedPacket
      → ZtConnection C K F × List (UnackedPayload × ℕ)
      → ZtConnection C K F × List (UnackedPayload × ℕ)
  queued to_retransmit pn up rest =
      if up.is_mtu_probe
      then rest
      else if contains to_retransmit pn
      then (rest.0, (up.payload, up.retries) ∷ rest.1)
      else rest

  -- The loop over `to_drop`: the connection, and the payloads to send again.
  unfoldable pub drop_all :
      (to_retransmit to_drop : List ℕ)
      → ZtConnection C K F
      → ZtConnection C K F × List (UnackedPayload × ℕ)
  drop_all to_retransmit [] c = (c, [])
  drop_all to_retransmit (pn ∷ pns) c =
      let r = remove c.unacked_packets pn in
      elim r.0 [
        | none ↦ drop_all to_retransmit pns (record c { unacked_packets = r.1 })
        | some up ↦ queued to_retransmit pn up (drop_all to_retransmit pns (dropped pn up c))
      ]

  -- The probes that failed, the black hole, the packets that are dropped, and the reduced window.
  unfoldable pub expire :
      (now : ℕ) → Scan → ZtConnection C K F → ZtConnection C K F × List (UnackedPayload × ℕ)
  unfolding fail_probes drop_all
  expire now s c =
      let failed = fail_probes s.failed_probe_targets c in
      let recovered =
        if s.blackhole_detected && ltb failed.base_mtu failed.mtu
        then (recover_mtu_blackhole failed).1
        else failed in
      let dropped = drop_all s.to_retransmit s.to_drop recovered in
      let d = dropped.0 in
      if length dropped.1 == 0 then dropped else (
        record d {
          packets_lost = saturating_add d.packets_lost (length dropped.1);
          cc = controller.on_congestion_event d.cc d.rtt now;
        },
        dropped.1,
      )

module _ {C K F : Type 0} ⦃controller : CongestionController C⦄ ⦃engine : CryptoEngine K⦄
    ⦃buf : Buf⦄ (prim : Primitives K) where
  -- A failure to queue a payload again is only logged.
  unfoldable pub resend_all : (now : ℕ) → List (UnackedPayload × ℕ) → Actor C K F → Actor C K F
  resend_all now [] a = a
  resend_all now (p ∷ ps) a = resend_all now ps (retransmit_payload prim now p.0 p.1 a).1

  -- What follows the loop over the packets.
  unfoldable pub after_scan : (now : ℕ) → Scan → Actor C K F → Outcome C K F
  unfolding expire resend_all
  after_scan now s a =
      let c = a.state in
      let scanned = record c { unacked_packets = record c.unacked_packets { deque = s.slots } } in
      if s.timed_out
      then (err timeout, (initiate_close prim now (record a { state = scanned })).1)
      else (let e = expire now s scanned in
          let b = resend_all now e.1 (record a { state = e.0 }) in
          (
            ok tt,
            record b {
              state = record b.state {
                streams =
                    if length s.to_drop == 0
                    then (b.state).streams
                    else signal_all (b.state).streams;
              };
            },
          ))

  unfoldable pub handle_retransmits : (now : ℕ) → Actor C K F → Outcome C K F
  unfolding scan after_scan
  handle_retransmits now a =
      let c = a.state in
      after_scan now
        (scan now (rto_of c.rtt c.rttvar) (c.unacked_packets).base_pn (c.unacked_packets).deque) a
