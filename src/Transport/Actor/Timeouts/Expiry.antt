-- ===== src/Transport/Actor/Timeouts/Expiry.antt =====
-- What `handle_retransmits` (src/transport/actor/packet_sender.rs) does with each tracked packet.
use mathlib.Core.Path.{subst}
use zetta_transport.Common.{
  ℕ, ◌+◌, ◌-◌, ◌<◌, ◌≡◌, inl, inr, refl, sym, ◌∙◌, arith, true, false, ◌||◌, List, [], ◌∷◌, Option,
  none, some, ltb, ◌==◌, if◌then◌else◌, if_holds, Bool-cases, ==_iff,
}
use zetta_transport.Transport.Unacked.{UnackedPacket}
use zetta_transport.Transport.UnackedWindow.Slots.{held, slot-cons}
use zetta_transport.Transport.Connection.Tally.{is_datagram}
use zetta_transport.Transport.Connection.Ack.Reliable.{Reliable}
use zetta_transport.Transport.Actor.Timeouts.{is_expired, Scan, scan, contains}

scan_above :
    (now rto b q : ℕ) (slots : List (Option UnackedPacket))
    → q < b
    → (contains (scan now rto b slots).to_drop q ≡ false)
      × (contains (scan now rto b slots).to_retransmit q ≡ false)
unfolding scan
scan_above now rto b q [] h = (refl, refl)
scan_above now rto b q (none ∷ slots) h = scan_above now rto (b + 1) q slots (omega arith)
scan_above now rto b q (some up ∷ slots) h =
    let rest = scan_above now rto (b + 1) q slots (omega arith) in
    if_holds P (is_expired now rto up)
      (λ late.
        if_holds P (up.is_mtu_probe || is_datagram up.payload) (λ e. ground (arith, rest))
          (λ e.
            if_holds P (ltb 10 (up.retries + 1)) (λ e. (refl, refl)) (λ e. ground (arith, rest))))
      (λ early. rest)
  where
    P : Scan → Type 0
    P s = (contains s.to_drop q ≡ false) × (contains s.to_retransmit q ≡ false)

-- The packet once more: sent now, and counted.
abbrev pub bumped : (now : ℕ) → UnackedPacket → UnackedPacket
bumped now up = record up { retries = up.retries + 1; sent_at = now }

-- What a scan from the base `b` on makes of the packet `up` under `q`.
abbrev Scanned : (now rto b q : ℕ) → UnackedPacket → Scan → Type 0
Scanned now rto b q up s =
    (held b s.slots q ≡ some (if is_expired now rto up then bumped now up else up))
    × (contains s.to_drop q ≡ is_expired now rto up)
    × (contains s.to_retransmit q ≡ is_expired now rto up)

held-here :
    (b q : ℕ) (first : UnackedPacket) (slots : List (Option UnackedPacket)) (up : UnackedPacket)
    → (b == q) ≡ true
    → held b (some first ∷ slots) q ≡ some up
    → first ≡ up
held-here b q first slots up e h = ground (arith, slot-cons (some first) slots (q - b))

held-later :
    {A : Type 0} (b q : ℕ) (o : Option A) (slots : List (Option A))
    → (b == q) ≡ false
    → held b (o ∷ slots) q ≡ held (b + 1) slots q
held-later b q o slots e = ground (arith, slot-cons o slots (q - b))

-- The first packet is the one under `q`.
scan-first :
    (now rto b : ℕ) (slots : List (Option UnackedPacket)) (up : UnackedPacket)
    → (scan now rto b (some up ∷ slots)).timed_out ≡ false
    → Reliable up
    → Scanned now rto b b up (scan now rto b (some up ∷ slots))
unfolding scan
scan-first now rto b slots up t r =
    if_holds P (is_expired now rto up)
      (λ late.
        if_holds P (up.is_mtu_probe || is_datagram up.payload) (λ e. absurd (ground (arith, r)))
          (λ e.
            if_holds P (ltb 10 (up.retries + 1)) (λ e u. absurd cc)
              (λ e u. ground (arith, slot-cons (some (bumped now up)) rest.slots (b - b)))))
      (λ early u. ground (arith, above, slot-cons (some up) rest.slots (b - b))) t
  where
    rest : Scan
    rest = scan now rto (b + 1) slots

    above : (contains rest.to_drop b ≡ false) × (contains rest.to_retransmit b ≡ false)
    above = scan_above now rto (b + 1) b slots (omega arith)

    P : Scan → Type 0
    P s = s.timed_out ≡ false → Scanned now rto b b up s

-- The packet under `q` comes later.
scan-later :
    (now rto b q : ℕ) (first up : UnackedPacket) (slots : List (Option UnackedPacket))
    → (b == q) ≡ false
    → ((scan now rto (b + 1) slots).timed_out ≡ false
        → Scanned now rto (b + 1) q up (scan now rto (b + 1) slots))
    → (scan now rto b (some first ∷ slots)).timed_out ≡ false
    → Scanned now rto b q up (scan now rto b (some first ∷ slots))
unfolding scan
scan-later now rto b q first up slots later ih =
    if_holds P (is_expired now rto first)
      (λ late.
        if_holds P (first.is_mtu_probe || is_datagram first.payload)
          (λ e u.
            let i = ih u in
            (held-later b q (some first) rest.slots later ∙ i.0, ground (arith, i.1), i.2))
          (λ e.
            if_holds P (ltb 10 (first.retries + 1)) (λ e u. absurd cc)
              (λ e u.
                let i = ih u in
                (
                  held-later b q (some (bumped now first)) rest.slots later ∙ i.0,
                  ground (arith, i.1),
                  ground (arith, i.2),
                ))))
      (λ early u. let i = ih u in (held-later b q (some first) rest.slots later ∙ i.0, i.1, i.2))
  where
    rest : Scan
    rest = scan now rto (b + 1) slots

    P : Scan → Type 0
    P s = s.timed_out ≡ false → Scanned now rto b q up s

pub scan-Scanned :
    (now rto b q : ℕ) (slots : List (Option UnackedPacket)) (up : UnackedPacket)
    → (scan now rto b slots).timed_out ≡ false
    → held b slots q ≡ some up
    → Reliable up
    → Scanned now rto b q up (scan now rto b slots)
unfolding scan
scan-Scanned now rto b q [] up t h r = absurd (ground arith)
scan-Scanned now rto b q (none ∷ slots) up t h r = ground (
  arith,
  scan-Scanned now rto (b + 1) q slots up,
  slot-cons none slots (q - b),
  slot-cons none (scan now rto (b + 1) slots).slots (q - b),
)
scan-Scanned now rto b q (some first ∷ slots) up t h r = elim (Bool-cases (b == q)) [
  | inl here ↦
      (let same = held-here b q first slots up here h in
        let at = (==_iff b q).0 here in
        subst (λ n. Scanned now rto b n up (scan now rto b (some first ∷ slots))) at
          (subst (λ p. Scanned now rto b b up (scan now rto b (some p ∷ slots))) (sym same)
            (scan-first now rto b slots up
              (subst (λ p. (scan now rto b (some p ∷ slots)).timed_out ≡ false) same t) r)))
  | inr later ↦
      (let below = sym (held-later b q (some first) slots later) ∙ h in
        scan-later now rto b q first up slots later
          (λ u. scan-Scanned now rto (b + 1) q slots up u below r) t)
]
