-- ===== src/Transport/Congestion/Laws.antt =====
-- What the connection relies on of a congestion controller (src/transport/congestion.rs), and what
-- follows for every sequence of acknowledgements and losses.
use mathlib.Core.Path.{subst, subst⁻¹}
use zetta_transport.Common.{Bool-cases, lt→ltb, ◌-◌, ap, ◌∙◌}
use zetta_transport.Common.{
  ℕ, ◌+◌, ◌*◌, ◌^◌, ◌≤◌, ◌<◌, ◌≡◌, inl, inr, refl, sym, arith, max, true, false, Option, some, List,
  [], ◌∷◌,
}
use zetta_transport.Transport.Congestion.{CongestionController, Event, acked, lost, run, recently}

-- The laws of a controller in the state `c`, whose segment size and last reduction `mtu` and
-- `last_loss` read.
pub record LawfulAt (C : Type 0) (cc : CongestionController C) (mtu : C → ℕ)
    (last_loss : C → Option ℕ) (c : C) : Type 0 where
  pub acked_grows :
      (b rtt now : ℕ)
      → mtu c * b < 2 ^ 64
      → cc.cwnd c + b + 1 < 2 ^ 64
      → (cc.cwnd c ≤ cc.cwnd (cc.on_packet_acked c b rtt now))
        × (cc.cwnd (cc.on_packet_acked c b rtt now) ≤ cc.cwnd c + max b 1)
  pub acked_keeps :
      (b rtt now : ℕ)
      → (mtu (cc.on_packet_acked c b rtt now) ≡ mtu c)
        × (last_loss (cc.on_packet_acked c b rtt now) ≡ last_loss c)
  pub lost_suppressed :
      (rtt now : ℕ) → recently (last_loss c) rtt now ≡ true → cc.on_congestion_event c rtt now ≡ c
  pub lost_reduces :
      (rtt now : ℕ)
      → mtu c * 2 < 2 ^ 64
      → recently (last_loss c) rtt now ≡ false
      → (last_loss (cc.on_congestion_event c rtt now) ≡ some now)
        × (mtu (cc.on_congestion_event c rtt now) ≡ mtu c)
        × (cc.cwnd (cc.on_congestion_event c rtt now)
            ≡ cc.ssthresh (cc.on_congestion_event c rtt now))
        × (mtu c * 2 ≤ cc.cwnd (cc.on_congestion_event c rtt now))
        × (cc.cwnd (cc.on_congestion_event c rtt now) ≤ max (cc.cwnd c) (mtu c * 2))

abbrev pub IsLawful :
    (C : Type 0) → CongestionController C → (mtu : C → ℕ) → (last_loss : C → Option ℕ) → Type 0
IsLawful C cc mtu last_loss = (c : C) → LawfulAt C cc mtu last_loss c

-- The growth that a sequence of events may bring: the acknowledged bytes, and one for each round.
abbrev pub growth : List Event → ℕ
growth [] = 0
growth (acked b rtt now ∷ es) = (b + 1) + growth es
growth (lost rtt now ∷ es) = growth es

-- No product of the MTU and an acknowledgement overflows.
abbrev pub Sized : ℕ → List Event → Type 0
Sized m [] = Unit
Sized m (acked b rtt now ∷ es) = (m * b < 2 ^ 64) × Sized m es
Sized m (lost rtt now ∷ es) = Sized m es

-- Every loss falls within a round trip after `t`.
abbrev pub Within : ℕ → List Event → Type 0
Within t [] = Unit
Within t (acked b rtt now ∷ es) = Within t es
Within t (lost rtt now ∷ es) = (now - t < rtt) × Within t es

module _ {C : Type 0} ⦃cc : CongestionController C⦄ {mtu : C → ℕ} {last_loss : C → Option ℕ}
    (l : IsLawful C cc mtu last_loss) where
  lost-bounds :
      (c : C) (rtt now : ℕ)
      → mtu c * 2 ≤ cc.cwnd c
      → cc.cwnd c < 2 ^ 64
      → (mtu c * 2 ≤ cc.cwnd (cc.on_congestion_event c rtt now))
        × (cc.cwnd (cc.on_congestion_event c rtt now) ≤ cc.cwnd c)
        × (mtu (cc.on_congestion_event c rtt now) ≡ mtu c)
  lost-bounds c rtt now low high = elim (Bool-cases (recently (last_loss c) rtt now)) [
    | inl e ↦ rw ((l c).lost_suppressed rtt now e) (low, omega arith, refl)
    | inr e ↦
        (let r = (l c).lost_reduces rtt now (omega arith) e in (r.3, omega (arith, r.4, low), r.1))
  ]

  -- While the MTU stands, a window that starts with two segments or more keeps two segments, and
  -- exceeds its start by no more than the bytes acknowledged and one byte for each
  -- acknowledgement, whatever the losses and whenever they come.
  pub lawful_bounds :
      (c : C) (es : List Event)
      → mtu c * 2 ≤ cc.cwnd c
      → cc.cwnd c + growth es < 2 ^ 64
      → Sized (mtu c) es
      → (mtu c * 2 ≤ cc.cwnd (run c es)) × (cc.cwnd (run c es) ≤ cc.cwnd c + growth es)
  lawful_bounds c [] low high s = (low, omega arith)
  lawful_bounds c (acked b rtt now ∷ es) low high s =
      let g = (l c).acked_grows b rtt now s.0 (omega arith) in
      let k = (l c).acked_keeps b rtt now in
      let rest =
        lawful_bounds (cc.on_packet_acked c b rtt now) es (omega (arith, k.0, g.0, low))
          (omega (arith, g.1)) (subst (λ m. Sized m es) (sym k.0) s.1) in
      (
        subst (λ m. m * 2 ≤ cc.cwnd (run (cc.on_packet_acked c b rtt now) es)) k.0 rest.0,
        omega (arith, rest.1, g.1),
      )
  lawful_bounds c (lost rtt now ∷ es) low high s =
      let b = lost-bounds c rtt now low (omega arith) in
      let rest =
        lawful_bounds (cc.on_congestion_event c rtt now) es (omega (arith, b.0, b.2))
          (omega (arith, b.1)) (subst (λ m. Sized m es) (sym b.2) s) in
      (
        subst (λ m. m * 2 ≤ cc.cwnd (run (cc.on_congestion_event c rtt now) es)) b.2 rest.0,
        omega (arith, rest.1, b.1),
      )

  quiet_run :
      (t : ℕ) (c : C) (es : List Event)
      → last_loss c ≡ some t
      → Within t es
      → cc.cwnd c + growth es < 2 ^ 64
      → Sized (mtu c) es
      → cc.cwnd c ≤ cc.cwnd (run c es)
  quiet_run t c [] e w high s = omega arith
  quiet_run t c (acked b rtt now ∷ es) e w high s =
      let g = (l c).acked_grows b rtt now s.0 (omega arith) in
      let k = (l c).acked_keeps b rtt now in
      omega (
        arith,
        g.0,
        quiet_run t (cc.on_packet_acked c b rtt now) es (k.1 ∙ e) w (omega (arith, g.1))
            (subst (λ m. Sized m es) (sym k.0) s.1),
      )
  quiet_run t c (lost rtt now ∷ es) e w high s =
      let same =
        (l c).lost_suppressed rtt now (ap (λ o. recently o rtt now) e ∙ lt→ltb (now - t) rtt w.0) in
      subst⁻¹ (λ d. cc.cwnd c ≤ cc.cwnd (run d es)) same (quiet_run t c es e w.1 high s)

  -- A loss that reduces the window at `t` sets it to the slow start threshold, and no further loss
  -- within a round trip of `t` reduces it again: the window only grows until then.
  pub lawful_reduces_once :
      (c : C) (rtt t : ℕ) (es : List Event)
      → recently (last_loss c) rtt t ≡ false
      → Within t es
      → (mtu c * 2 ≤ cc.cwnd c) × (cc.cwnd c + growth es < 2 ^ 64) × Sized (mtu c) es
      → (cc.cwnd (cc.on_congestion_event c rtt t) ≡ cc.ssthresh (cc.on_congestion_event c rtt t))
        × (cc.cwnd (cc.on_congestion_event c rtt t)
            ≤ cc.cwnd (run (cc.on_congestion_event c rtt t) es))
  lawful_reduces_once c rtt t es e w b =
      let r = (l c).lost_reduces rtt t (omega (arith, b.0, b.1)) e in
      (
        r.2,
        quiet_run t (cc.on_congestion_event c rtt t) es r.0 w (omega (arith, b.0, b.1, r.4))
            (subst (λ m. Sized m es) (sym r.1) b.2),
      )
