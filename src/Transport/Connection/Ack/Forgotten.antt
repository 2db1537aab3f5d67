-- ===== src/Transport/Connection/Ack/Forgotten.antt =====
-- What an acknowledgement frame covers is tracked no more after `handle_ack` (src/transport/congestion.rs).
use mathlib.Core.Path.{subst, subst⁻¹}
use zetta_transport.Common.{Bool-cases, ==_iff, sym}
use zetta_transport.Common.{
  ℕ, zero, suc, ◌+◌, ◌-◌, ◌≤◌, ◌<◌, ◌^◌, ◌≡◌, ◌⊎◌, inl, inr, refl, ap, ◌∙◌, arith, List, [], ◌∷◌,
  none, ◌==◌, option_holds, length, max, min, saturating_add, false,
}
use zetta_transport.Transport.Congestion.{CongestionController, wrap}
use zetta_transport.Transport.UnackedWindow.{UnackedWindow, remove, get_mut}
use zetta_transport.Transport.UnackedWindow
use zetta_transport.Transport.UnackedWindow.Map.{get_mut-remove}
use zetta_transport.Transport.UnackedWindow.Weight.{end-remove, get_mut-inside}
use zetta_transport.Transport.Unacked.{UnackedPacket}
use zetta_transport.Transport.Connection.{ZtConnection}
use zetta_transport.Transport.Connection.Tally.{
  Tally, none_acked, credit, Losses, numbers_below, lost_numbers,
}
use zetta_transport.Transport.Connection.Ack.{
  ack_one, ack_numbers, ack_range, ack_ranges, ack_cumulative, acknowledge, lose_one, lose,
  detect_losses, handle_ack,
}
use zetta_transport.Transport.Connection.Ack.Frame.{lose_one_frame, settle_frame}
use zetta_transport.Transport.Connection.Ack.InFlight.{without}
use zetta_transport.Transport.Connection.Ack.Tracked.{ack_one-unacked}

-- The number is in one of the ranges.
abbrev pub Covered : ℕ → List (ℕ × ℕ) → Type 0
Covered q [] = ⊥
Covered q (e ∷ es) = ((e.0 ≤ q) × (q ≤ e.1)) ⊎ Covered q es

abbrev Window : Type 0
Window = UnackedWindow UnackedPacket

abbrev Untracked : ℕ → Window → Type 0
Untracked q w = get_mut w q ≡ none

abbrev end : Window → ℕ
end w = w.base_pn + length w.deque

remove-Untracked : (w : Window) (pn q : ℕ) → Untracked q w → Untracked q (remove w pn).1
remove-Untracked w pn q h = ground (arith, get_mut-remove w pn q)

remove_self : (w : Window) (q : ℕ) → Untracked q (remove w q).1
remove_self w q = ground (arith, get_mut-remove w q q)

module _ {C K F : Type 0} ⦃controller : CongestionController C⦄ where
  ack_one_window :
      (now pn : ℕ) (c : ZtConnection C K F) (t : Tally) (P : Window → Type 0)
      → P (remove c.unacked_packets pn).1
      → P ((ack_one now pn c t).0).unacked_packets
  ack_one_window now pn c t P h = subst⁻¹ P (ack_one-unacked now pn c t) h

  ack_numbers-Untracked :
      (now n pn q : ℕ) (c : ZtConnection C K F) (t : Tally)
      → Untracked q c.unacked_packets
      → Untracked q ((ack_numbers now n pn c t).0).unacked_packets
  unfolding ack_numbers
  ack_numbers-Untracked now zero pn q c t h = h
  ack_numbers-Untracked now (suc n) pn q c t h =
      ack_numbers-Untracked now n (pn + 1) q (ack_one now pn c t).0 (ack_one now pn c t).1
        (ack_one_window now pn c t (Untracked q) (remove-Untracked c.unacked_packets pn q h))

  ack_numbers_forget :
      (now n pn q : ℕ) (c : ZtConnection C K F) (t : Tally)
      → pn ≤ q
      → q < pn + n
      → Untracked q ((ack_numbers now n pn c t).0).unacked_packets
  unfolding ack_numbers
  ack_numbers_forget now zero pn q c t low high = absurd (omega arith)
  ack_numbers_forget now (suc n) pn q c t low high = elim (Bool-cases (pn == q)) [
    | inl here ↦
        ack_numbers-Untracked now n (pn + 1) q (ack_one now pn c t).0 (ack_one now pn c t).1 (
          ack_one_window now pn c t (Untracked q) (
            subst (λ p. Untracked q (remove c.unacked_packets p).1) (sym ((==_iff pn q).0 here))
              (remove_self c.unacked_packets q)))
    | inr later ↦
        ack_numbers_forget now n (pn + 1) q (ack_one now pn c t).0 (ack_one now pn c t).1
          (ground arith) (omega arith)
  ]

  end-ack_numbers :
      (now n pn : ℕ) (c : ZtConnection C K F) (t : Tally)
      → end ((ack_numbers now n pn c t).0).unacked_packets ≡ end c.unacked_packets
  unfolding ack_numbers
  end-ack_numbers now zero pn c t = refl
  end-ack_numbers now (suc n) pn c t =
      end-ack_numbers now n (pn + 1) (ack_one now pn c t).0 (ack_one now pn c t).1
      ∙ ack_one_window now pn c t (λ w. end w ≡ end c.unacked_packets)
          (end-remove c.unacked_packets pn)

  ack_range_forgets :
      (now : ℕ) (e : ℕ × ℕ) (q : ℕ) (c : ZtConnection C K F) (t : Tally)
      → (e.0 ≤ q) × (q ≤ e.1)
      → end c.unacked_packets < 2 ^ 64
      → Untracked q ((ack_range now e c t).0).unacked_packets
  unfolding ack_range
  ack_range_forgets now e q c t i h =
      let lower = max e.0 (c.unacked_packets).base_pn in
      let upper = min e.1 (wrap (end c.unacked_packets)) in
      elim (get_mut-inside c.unacked_packets q) [
        | inl free ↦ ack_numbers-Untracked now (upper + 1 - lower) lower q c t free
        | inr inside ↦
            ack_numbers_forget now (upper + 1 - lower) lower q c t (omega arith) (omega arith)
      ]

  ack_range-Untracked :
      (now : ℕ) (e : ℕ × ℕ) (q : ℕ) (c : ZtConnection C K F) (t : Tally)
      → Untracked q c.unacked_packets
      → Untracked q ((ack_range now e c t).0).unacked_packets
  unfolding ack_range
  ack_range-Untracked now e q c t h =
      let lower = max e.0 (c.unacked_packets).base_pn in
      let upper = min e.1 (wrap (end c.unacked_packets)) in
      ack_numbers-Untracked now (upper + 1 - lower) lower q c t h

  end-ack_range :
      (now : ℕ) (e : ℕ × ℕ) (c : ZtConnection C K F) (t : Tally)
      → end ((ack_range now e c t).0).unacked_packets ≡ end c.unacked_packets
  unfolding ack_range
  end-ack_range now e c t =
      let lower = max e.0 (c.unacked_packets).base_pn in
      let upper = min e.1 (wrap (end c.unacked_packets)) in
      end-ack_numbers now (upper + 1 - lower) lower c t

  ack_ranges-Untracked :
      (now : ℕ) (es : List (ℕ × ℕ)) (q : ℕ) (c : ZtConnection C K F) (t : Tally)
      → Untracked q c.unacked_packets
      → Untracked q ((ack_ranges now es c t).0).unacked_packets
  unfolding ack_ranges
  ack_ranges-Untracked now [] q c t h = h
  ack_ranges-Untracked now (e ∷ es) q c t h =
      ack_ranges-Untracked now es q (ack_range now e c t).0 (ack_range now e c t).1
        (ack_range-Untracked now e q c t h)

  ack_ranges_forget :
      (now : ℕ) (es : List (ℕ × ℕ)) (q : ℕ) (c : ZtConnection C K F) (t : Tally)
      → Covered q es
      → end c.unacked_packets < 2 ^ 64
      → Untracked q ((ack_ranges now es c t).0).unacked_packets
  unfolding ack_ranges
  ack_ranges_forget now [] q c t v h = absurd v
  ack_ranges_forget now (e ∷ es) q c t (inl i) h =
      ack_ranges-Untracked now es q (ack_range now e c t).0 (ack_range now e c t).1
        (ack_range_forgets now e q c t i h)
  ack_ranges_forget now (e ∷ es) q c t (inr v) h =
      ack_ranges_forget now es q (ack_range now e c t).0 (ack_range now e c t).1 v
        (omega (arith, end-ack_range now e c t, h))

  ack_cumulative-Untracked :
      (now : ℕ) (pns : List ℕ) (q : ℕ) (c : ZtConnection C K F) (t : Tally)
      → Untracked q c.unacked_packets
      → Untracked q ((ack_cumulative now pns c t).0).unacked_packets
  unfolding ack_cumulative
  ack_cumulative-Untracked now [] q c t h = h
  ack_cumulative-Untracked now (pn ∷ pns) q c t h =
      option_holds (λ (r : ZtConnection C K F × Tally). Untracked q (r.0).unacked_packets)
        (remove c.unacked_packets pn).0
        (λ e.
          ack_cumulative-Untracked now pns q (without pn c) t
            (remove-Untracked c.unacked_packets pn q h))
        (λ up e.
          ack_cumulative-Untracked now pns q (without pn c) (credit now up t)
            (remove-Untracked c.unacked_packets pn q h))

  lose-Untracked :
      (pns : List ℕ) (q : ℕ) (c : ZtConnection C K F) (l : Losses)
      → Untracked q c.unacked_packets
      → Untracked q ((lose pns c l).0).unacked_packets
  unfolding lose
  lose-Untracked [] q c l h = h
  lose-Untracked (pn ∷ pns) q c l h =
      option_holds (λ (r : ZtConnection C K F × Losses). Untracked q (r.0).unacked_packets)
        (remove c.unacked_packets pn).0
        (λ e. lose-Untracked pns q (without pn c) l (remove-Untracked c.unacked_packets pn q h))
        (λ up e.
          lose-Untracked pns q (lose_one pn up (without pn c) l).0
            (lose_one pn up (without pn c) l).1
            (ap (λ (w : Window). get_mut w q) (lose_one_frame pn up (without pn c) l).0
              ∙ remove-Untracked c.unacked_packets pn q h))

  -- A number in one of the selective ranges of an acknowledgement frame is tracked no more after it,
  -- where the window of packets ends below 2 ^ 64.
  pub handle_ack_forgets :
      (scaled : ℕ → ℕ) (now largest_acked_pn window_size delay : ℕ) (ranges : List (ℕ × ℕ)) (q : ℕ)
      (c : ZtConnection C K F)
      → Covered q ranges
      → (c.unacked_packets).base_pn + length (c.unacked_packets).deque < 2 ^ 64
      → get_mut
          ((handle_ack scaled now largest_acked_pn window_size delay ranges c).0).unacked_packets
          q
        ≡ none
  unfolding handle_ack acknowledge detect_losses
  handle_ack_forgets scaled now largest_acked_pn window_size delay ranges q c v h =
      let r = ack_ranges now ranges c none_acked in
      let a = acknowledge now largest_acked_pn ranges c in
      let l = detect_losses scaled now largest_acked_pn a.0 in
      let lost_pns =
        lost_numbers largest_acked_pn now (max (scaled (a.0).rtt) 15000000)
          (UnackedWindow.iter (a.0).unacked_packets) in
      ap (λ (w : Window). get_mut w q)
        (settle_frame now window_size delay a.1 (l.1).loss_detected l.0).0
      ∙ lose-Untracked lost_pns q
          (record a.0 { packets_lost = saturating_add (a.0).packets_lost (length lost_pns) })
          (record { fast_retransmits = []; loss_detected = false })
          (ack_cumulative-Untracked now
            (numbers_below (largest_acked_pn - 2047) (UnackedWindow.iter (r.0).unacked_packets)) q
            r.0 r.1 (ack_ranges_forget now ranges q c none_acked v h))
