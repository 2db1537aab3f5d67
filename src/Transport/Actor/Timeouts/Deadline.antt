-- ===== src/Transport/Actor/Timeouts/Deadline.antt =====
-- The timer of src/transport/actor/event_loop.rs and the handler that it wakes agree on what is due.
use zetta_transport.Common.{
  ℕ, ◌+◌, ◌≡◌, ◌≢◌, ◌↔◌, refl, ap, sym, ◌∙◌, arith, Bool, false, ◌||◌, List, [], ◌∷◌, Option, none,
  some, ltb, if_holds, if◌then◌else◌,
}
use zetta_transport.Error.{ok}
use zetta_transport.Crypto.{CryptoEngine}
use zetta_transport.Protocol.Wire.{Buf}
use zetta_transport.Transport.Congestion.{CongestionController}
use zetta_transport.Transport.UnackedWindow.{iter, iter_from}
use zetta_transport.Transport.Unacked.{UnackedPacket}
use zetta_transport.Transport.Connection.{ZtConnection}
use zetta_transport.Transport.Actor.{Actor}
use zetta_transport.Transport.Actor.Payloads.{Primitives}
use zetta_transport.Transport.Actor.Timeouts.{
  packet_rto, rto_of, min_deadline, is_expired, Scan, keep_slot, scan, get_next_rto_deadline,
  expire, resend_all, after_scan, handle_retransmits, fail_probes, drop_all,
}

-- Whether a timer set to the deadline has fired before `now`.
abbrev pub is_past : Option ℕ → (now : ℕ) → Bool
is_past none now = false
is_past (some deadline) now = ltb deadline now

abbrev pub any_expired : (now rto : ℕ) → List (ℕ × UnackedPacket) → Bool
any_expired now rto [] = false
any_expired now rto (e ∷ es) = is_expired now rto e.1 || any_expired now rto es

min_deadline_lem :
    (now rto : ℕ) (es : List (ℕ × UnackedPacket)) (least : Option ℕ)
    → is_past (min_deadline rto es least) now ≡ (is_past least now || any_expired now rto es)
unfolding min_deadline
min_deadline_lem now rto [] none = refl
min_deadline_lem now rto [] (some least) = ground arith
min_deadline_lem now rto (e ∷ es) none =
    ground
      (arith, min_deadline_lem now rto es (some ((e.1).sent_at + packet_rto rto (e.1).retries)))
min_deadline_lem now rto (e ∷ es) (some least) =
    let deadline = (e.1).sent_at + packet_rto rto (e.1).retries in
    ground
      (arith, min_deadline_lem now rto es (some (if ltb deadline least then deadline else least)))

min_deadline-some :
    (rto : ℕ) (es : List (ℕ × UnackedPacket)) (least : ℕ) → min_deadline rto es (some least) ≢ none
unfolding min_deadline
min_deadline-some rto [] least h = cc
min_deadline-some rto (e ∷ es) least h = min_deadline-some rto es _ h

min_deadline-none :
    (rto : ℕ) (es : List (ℕ × UnackedPacket)) → (min_deadline rto es none ≡ none) ↔ (es ≡ [])
unfolding min_deadline
min_deadline-none rto [] = (λ h. refl, λ h. refl)
min_deadline-none rto (e ∷ es) = (λ h. absurd (min_deadline-some rto es _ h), λ h. absurd cc)

-- What a scan leaves that finds nothing due.
abbrev nothing : List (Option UnackedPacket) → Scan
nothing slots = record {
  slots = slots;
  to_drop = [];
  to_retransmit = [];
  failed_probe_targets = [];
  blackhole_detected = false;
  timed_out = false;
}

scan_idle :
    (now rto pn : ℕ) (slots : List (Option UnackedPacket))
    → any_expired now rto (iter_from pn slots) ≡ false
    → scan now rto pn slots ≡ nothing slots
unfolding scan iter_from
scan_idle now rto pn [] h = refl
scan_idle now rto pn (none ∷ slots) h = ap (keep_slot none) (scan_idle now rto (pn + 1) slots h)
scan_idle now rto pn (some up ∷ slots) h =
    if_holds (λ (s : Scan). s ≡ nothing (some up ∷ slots)) (is_expired now rto up)
      (λ late. absurd (ground arith))
      (λ early. ap (keep_slot (some up)) (scan_idle now rto (pn + 1) slots (ground arith)))

module _ {C K F : Type 0} ⦃controller : CongestionController C⦄ where
  -- The deadline that the timer is set to has passed exactly where some tracked packet is due, and
  -- there is none exactly where nothing is tracked.
  pub get_next_rto_deadline-exact :
      (now : ℕ) (c : ZtConnection C K F)
      → (is_past (get_next_rto_deadline c) now
          ≡ any_expired now (rto_of c.rtt c.rttvar) (iter c.unacked_packets))
        × ((get_next_rto_deadline c ≡ none) ↔ (iter c.unacked_packets ≡ []))
  unfolding get_next_rto_deadline
  get_next_rto_deadline-exact now c = (
    min_deadline_lem now (rto_of c.rtt c.rttvar) (iter c.unacked_packets) none,
    min_deadline-none (rto_of c.rtt c.rttvar) (iter c.unacked_packets),
  )

module _ {C K F : Type 0} ⦃controller : CongestionController C⦄ ⦃engine : CryptoEngine K⦄
    ⦃buf : Buf⦄ (prim : Primitives K) where
  idle_after_scan :
      (now : ℕ) (a : Actor C K F)
      → after_scan prim now (nothing ((a.state).unacked_packets).deque) a ≡ (ok tt, a)
  unfolding after_scan expire fail_probes drop_all resend_all
  idle_after_scan now a = refl

  -- The handler does nothing at all while the deadline has not passed.
  pub handle_retransmits_early :
      (now : ℕ) (a : Actor C K F)
      → is_past (get_next_rto_deadline a.state) now ≡ false
      → handle_retransmits prim now a ≡ (ok tt, a)
  unfolding handle_retransmits iter
  handle_retransmits_early now a h =
      let c = a.state in
      ap (λ (s : Scan). after_scan prim now s a)
        (scan_idle now (rto_of c.rtt c.rttvar) (c.unacked_packets).base_pn (c.unacked_packets).deque
          (sym (get_next_rto_deadline-exact now c).0 ∙ h))
      ∙ idle_after_scan now a
