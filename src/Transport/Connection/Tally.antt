-- ===== src/Transport/Connection/Tally.antt =====
-- The local computations of `handle_ack` (src/transport/congestion.rs): what a frame acknowledges and
-- loses, the table of MTU probes, and the round trip times.
use zetta_transport.Common.{
  ℕ, ◌+◌, ◌-◌, Bool, true, false, ◌&&◌, ◌||◌, not, List, [], ◌∷◌, Option, none, some, ltb, leb,
  ◌==◌, if◌then◌else◌,
}
use zetta_transport.Transport.Congestion.{wrap}
use zetta_transport.Transport.UnackedWindow.{is_some}
use zetta_transport.Transport.Unacked.{UnackedPayload, UnackedPacket, payload_len, datagram}

-- The variables of `handle_ack` for what the frame acknowledges.
pub record Tally : Type 0 where
  pub bytes_acked : ℕ
  pub bytes_in_flight_acked : ℕ
  pub sample_rtt : Option ℕ

abbrev pub none_acked : Tally
none_acked = record { bytes_acked = 0; bytes_in_flight_acked = 0; sample_rtt = none }

abbrev pub credit : (now : ℕ) → UnackedPacket → Tally → Tally
credit now up t = record {
  bytes_acked =
      if up.is_mtu_probe then t.bytes_acked else wrap (t.bytes_acked + payload_len up.payload);
  bytes_in_flight_acked = wrap (t.bytes_in_flight_acked + up.sent_bytes);
  sample_rtt =
      if not (is_some t.sample_rtt) && (up.retries == 0)
      then some (now - up.sent_at)
      else t.sample_rtt;
}

-- `mtu_probes.contains_key(&pn)`, and `mtu_probes.remove(&pn)`
abbrev pub has_probe : List (ℕ × ℕ) → ℕ → Bool
has_probe [] pn = false
has_probe (e ∷ es) pn = (e.0 == pn) || has_probe es pn

abbrev pub remove_probe : List (ℕ × ℕ) → ℕ → List (ℕ × ℕ)
remove_probe [] pn = []
remove_probe (e ∷ es) pn = if e.0 == pn then es else e ∷ remove_probe es pn

-- `for (pn, _) in iter() { if pn < oldest_tracked { push(pn) } else { break } }`
unfoldable pub numbers_below : (oldest_tracked : ℕ) → List (ℕ × UnackedPacket) → List ℕ
numbers_below oldest_tracked [] = []
numbers_below oldest_tracked (e ∷ es) =
    let rest = numbers_below oldest_tracked es in if ltb e.0 oldest_tracked then e.0 ∷ rest else []

-- Three numbers or more behind, or sent too long ago.
abbrev pub is_lost : (largest_acked_pn now time_threshold : ℕ) → ℕ → UnackedPacket → Bool
is_lost largest_acked_pn now time_threshold pn up =
    leb (wrap (pn + 3)) largest_acked_pn || ltb time_threshold (now - up.sent_at)

unfoldable pub lost_numbers :
    (largest_acked_pn now time_threshold : ℕ) → List (ℕ × UnackedPacket) → List ℕ
lost_numbers largest_acked_pn now time_threshold [] = []
lost_numbers largest_acked_pn now time_threshold (e ∷ es) =
    let rest = lost_numbers largest_acked_pn now time_threshold es in
    if ltb e.0 largest_acked_pn
    then if is_lost largest_acked_pn now time_threshold e.0 e.1 then e.0 ∷ rest else rest
    else []

abbrev pub is_datagram : UnackedPayload → Bool
is_datagram (datagram bytes) = true
is_datagram _ = false

-- `*sample_rtt` after the acknowledgement delay, and the smoothed estimates after it.
abbrev pub without_delay : (rtt ack_delay : ℕ) → ℕ
without_delay rtt ack_delay = if ltb ack_delay rtt then rtt - ack_delay else rtt

abbrev pub abs_diff : ℕ → ℕ → ℕ
abs_diff a b = if leb a b then b - a else a - b

-- What the loop over `lost_pns` changes: the payloads to send again, and `loss_detected`.
pub record Losses : Type 0 where
  pub fast_retransmits : List (UnackedPayload × ℕ)
  pub loss_detected : Bool
