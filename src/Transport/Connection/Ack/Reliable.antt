-- ===== src/Transport/Connection/Ack/Reliable.antt =====
-- No payload is lost in `handle_ack` (src/transport/congestion.rs): what is not acknowledged is tracked
-- on, or is handed back to be sent again.
use mathlib.Core.List.{Mem, mem-cons_self, mem-append_left, mem-append_right}
use mathlib.Core.Path.{subst}
use zetta_transport.Common.{
  ℕ, ◌+◌, ◌≤◌, ◌≡◌, ◌⊎◌, inl, inr, ap, ◌∙◌, arith, false, List, [], ◌∷◌, some, ◌==◌, if_holds,
  option_holds, length, max, saturating_add, Bool-cases, ==_iff,
}
use zetta_transport.Transport.Congestion.{CongestionController}
use zetta_transport.Transport.UnackedWindow.{UnackedWindow, remove, get_mut}
use zetta_transport.Transport.UnackedWindow
use zetta_transport.Transport.UnackedWindow.Map.{get_mut-remove}
use zetta_transport.Transport.Unacked.{UnackedPayload, UnackedPacket}
use zetta_transport.Transport.Connection.{ZtConnection}
use zetta_transport.Transport.Connection.Tally.{Losses, lost_numbers, is_datagram}
use zetta_transport.Transport.Connection.Ack.{
  acknowledge, lose_one, lose, detect_losses, handle_ack,
}
use zetta_transport.Transport.Connection.Ack.Frame.{lose_one_frame, settle_frame}
use zetta_transport.Transport.Connection.Ack.InFlight.{without}
use zetta_transport.Transport.Connection.Ack.Tracked.{
  Outside, Tracks, without-Tracks, acknowledge-Tracks,
}

-- A payload that has to arrive: no probe and no datagram.
abbrev pub Reliable : UnackedPacket → Type 0
Reliable up = (up.is_mtu_probe ≡ false) × (is_datagram up.payload ≡ false)

abbrev pub Resent : UnackedPacket → List (UnackedPayload × ℕ) → Type 0
Resent up = Mem (up.payload, up.retries)

module _ {C K F : Type 0} ⦃controller : CongestionController C⦄ where
  lose_one_keeps :
      (x : UnackedPayload × ℕ) (pn : ℕ) (up : UnackedPacket) (c : ZtConnection C K F) (l : Losses)
      → Mem x l.fast_retransmits
      → Mem x ((lose_one pn up c l).1).fast_retransmits
  unfolding lose_one
  lose_one_keeps x pn up c l m =
      if_holds (λ (r : ZtConnection C K F × Losses). Mem x (r.1).fast_retransmits) up.is_mtu_probe
        (λ e. m)
        (λ e.
          if_holds (λ (r : ZtConnection C K F × Losses). Mem x (r.1).fast_retransmits)
            (is_datagram up.payload) (λ e. m)
            (λ e. mem-append_left ((up.payload, up.retries) ∷ []) m))

  lose_one_resends :
      (pn : ℕ) (up : UnackedPacket) (c : ZtConnection C K F) (l : Losses)
      → Reliable up
      → Resent up ((lose_one pn up c l).1).fast_retransmits
  unfolding lose_one
  lose_one_resends pn up c l r =
      if_holds (λ (r : ZtConnection C K F × Losses). Resent up (r.1).fast_retransmits)
        up.is_mtu_probe (λ e. absurd (cc))
        (λ e.
          if_holds (λ (r : ZtConnection C K F × Losses). Resent up (r.1).fast_retransmits)
            (is_datagram up.payload) (λ e. absurd (cc))
            (λ e. mem-append_right l.fast_retransmits mem-cons_self))

  lose_keeps :
      (x : UnackedPayload × ℕ) (pns : List ℕ) (c : ZtConnection C K F) (l : Losses)
      → Mem x l.fast_retransmits
      → Mem x ((lose pns c l).1).fast_retransmits
  unfolding lose
  lose_keeps x [] c l m = m
  lose_keeps x (pn ∷ pns) c l m =
      option_holds (λ (r : ZtConnection C K F × Losses). Mem x (r.1).fast_retransmits)
        (remove c.unacked_packets pn).0 (λ e. lose_keeps x pns (without pn c) l m)
        (λ up e.
          lose_keeps x pns (lose_one pn up (without pn c) l).0 (lose_one pn up (without pn c) l).1
            (lose_one_keeps x pn up (without pn c) l m))

  -- Tracked on, or to be sent again.
  abbrev Safe : ℕ → UnackedPacket → ZtConnection C K F × Losses → Type 0
  Safe q up r = Tracks q up r.0 ⊎ Resent up (r.1).fast_retransmits

  pub found :
      (q : ℕ) (up : UnackedPacket) (c : ZtConnection C K F)
      → Tracks q up c
      → (remove c.unacked_packets q).0 ≡ some up
  found q up c h = (get_mut-remove c.unacked_packets q q).0 ∙ h

  pub found_same :
      (q pn : ℕ) (up old : UnackedPacket) (c : ZtConnection C K F)
      → Tracks q up c
      → (remove c.unacked_packets pn).0 ≡ some old
      → q ≡ pn
      → up ≡ old
  found_same q pn up old c h e eq = let f = found q up c h in cc

  lose-Safe :
      (pns : List ℕ) (q : ℕ) (up : UnackedPacket) (c : ZtConnection C K F) (l : Losses)
      → Reliable up
      → Tracks q up c
      → Safe q up (lose pns c l)
  unfolding lose
  lose-Safe [] q up c l r h = inl h
  lose-Safe (pn ∷ pns) q up c l r h =
      option_holds (Safe q up) (remove c.unacked_packets pn).0
        (λ e.
          lose-Safe pns q up (without pn c) l r
            (without-Tracks pn q up c (λ (eq : q ≡ pn). let f = found q up c h in cc) h))
        (λ old e. elim (Bool-cases (q == pn)) [
          | inl same ↦ inr (
              lose_keeps (up.payload, up.retries) pns (lose_one pn old (without pn c) l).0
                (lose_one pn old (without pn c) l).1
                (subst (λ p. Resent up ((lose_one pn p (without pn c) l).1).fast_retransmits)
                  (found_same q pn up old c h e ((==_iff q pn).0 same))
                  (lose_one_resends pn up (without pn c) l r)))
          | inr other ↦
              lose-Safe pns q up (lose_one pn old (without pn c) l).0
                (lose_one pn old (without pn c) l).1 r
                (ap (λ (w : UnackedWindow UnackedPacket). get_mut w q)
                    (lose_one_frame pn old (without pn c) l).0
                  ∙ without-Tracks pn q up c (ground arith) h)
        ])

  detect_losses-Safe :
      (scaled : ℕ → ℕ) (now largest q : ℕ) (up : UnackedPacket) (c : ZtConnection C K F)
      → Reliable up
      → Tracks q up c
      → Safe q up (detect_losses scaled now largest c)
  unfolding detect_losses
  detect_losses-Safe scaled now largest q up c r h =
      let pns =
        lost_numbers largest now (max (scaled c.rtt) 15000000)
          (UnackedWindow.iter c.unacked_packets) in
      lose-Safe pns q up (record c { packets_lost = saturating_add c.packets_lost (length pns) })
        (record { fast_retransmits = []; loss_detected = false }) r h

  -- After any acknowledgement frame, a tracked packet with a payload that has to arrive, whose number
  -- is in no selective range and at most 2047 below the largest number acknowledged, is tracked as
  -- before, or its payload is among those to send again, with its count of retries.
  pub handle_ack_loses_nothing :
      (scaled : ℕ → ℕ) (now largest_acked_pn window_size delay : ℕ) (ranges : List (ℕ × ℕ)) (q : ℕ)
      (up : UnackedPacket) (c : ZtConnection C K F)
      → Reliable up
      → Outside q ranges
      → largest_acked_pn ≤ q + 2047
      → Tracks q up c
      → let r = handle_ack scaled now largest_acked_pn window_size delay ranges c in
        Tracks q up r.0 ⊎ Resent up r.1
  unfolding handle_ack
  handle_ack_loses_nothing scaled now largest_acked_pn window_size delay ranges q up c r o near h =
      let a = acknowledge now largest_acked_pn ranges c in
      let l = detect_losses scaled now largest_acked_pn a.0 in
      elim (detect_losses-Safe scaled now largest_acked_pn q up a.0 r
        (acknowledge-Tracks now largest_acked_pn ranges q up c o near h)) [
          | inl kept ↦ inl (
              ap (λ (w : UnackedWindow UnackedPacket). get_mut w q)
                (settle_frame now window_size delay a.1 (l.1).loss_detected l.0).0
              ∙ kept)
          | inr resent ↦ inr resent
        ]
