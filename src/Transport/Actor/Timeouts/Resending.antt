-- ===== src/Transport/Actor/Timeouts/Resending.antt =====
-- No payload is lost by a timeout (`handle_retransmits`, src/transport/actor/packet_sender.rs).
use mathlib.Core.List.{Mem, mem-cons_self, mem-cons_of_mem}
use mathlib.Core.Path.{subst}
use zetta_transport.Common.{
  ℕ, ◌+◌, ◌≡◌, ◌⊎◌, inl, inr, refl, ap, sym, ◌∙◌, arith, Bool, true, false, ◌&&◌, List, [], ◌∷◌,
  some, ltb, leb, ◌==◌, if◌then◌else◌, length, if_holds, option_holds, Bool-cases, ==_iff,
}
use zetta_transport.Transport.Congestion.{CongestionController}
use zetta_transport.Transport.Unacked.{UnackedPayload, UnackedPacket}
use zetta_transport.Transport.UnackedWindow.{UnackedWindow, remove, get_mut}
use zetta_transport.Transport.UnackedWindow.Map.{get_mut-remove}
use zetta_transport.Transport.Connection.{
  ZtConnection, record_mtu_probe_failure, recover_mtu_blackhole,
}
use zetta_transport.Transport.Connection.Ack.Tracked.{Tracks}
use zetta_transport.Transport.Connection.Ack.Reliable.{Reliable, found, found_same}
use zetta_transport.Transport.Actor.Timeouts.{
  rto_of, is_expired, Scan, scan, contains, fail_probes, dropped, queued, drop_all, expire,
}
use zetta_transport.Transport.Actor.Timeouts.Expiry.{bumped, scan-Scanned}

module _ {C K F : Type 0} ⦃controller : CongestionController C⦄ where
  -- What becomes of the packet under `q`: tracked on, or handed back if it is to be dropped and sent again.
  abbrev Served :
      (ret pns : List ℕ) (q : ℕ)
      → UnackedPacket
      → ZtConnection C K F × List (UnackedPayload × ℕ)
      → Type 0
  Served ret pns q up r =
      (contains pns q ≡ false → Tracks q up r.0)
      × (contains pns q ≡ true → contains ret q ≡ true → Mem (up.payload, up.retries) r.1)

  queued_later :
      (ret pns : List ℕ) (pn q : ℕ) (up old : UnackedPacket)
      (rest : ZtConnection C K F × List (UnackedPayload × ℕ))
      → (pn == q) ≡ false
      → Served ret pns q up rest
      → Served ret (pn ∷ pns) q up (queued ret pn old rest)
  queued_later ret pns pn q up old rest there i =
      if_holds P old.is_mtu_probe (λ probe. through)
        (λ other.
          if_holds P (contains ret pn)
            (λ again. (
              λ a. i.0 (ground arith),
              λ a b. mem-cons_of_mem (old.payload, old.retries) (i.1 (ground arith) b),
            ))
            (λ never. through))
    where
      P : ZtConnection C K F × List (UnackedPayload × ℕ) → Type 0
      P = Served ret (pn ∷ pns) q up

      through : P rest
      through = (λ a. i.0 (ground arith), λ a b. i.1 (ground arith) b)

  queued_here :
      (ret pns : List ℕ) (pn q : ℕ) (up : UnackedPacket)
      (rest : ZtConnection C K F × List (UnackedPayload × ℕ))
      → up.is_mtu_probe ≡ false
      → (pn == q) ≡ true
      → Served ret (pn ∷ pns) q up (queued ret pn up rest)
  queued_here ret pns pn q up rest p here =
      if_holds P up.is_mtu_probe (λ probe. absurd cc)
        (λ other.
          if_holds P (contains ret pn) (λ again. (λ a. absurd (ground arith), λ a b. mem-cons_self))
            (λ never.
              (λ a. absurd (ground arith), λ a b. absurd (let at = (==_iff pn q).0 here in cc))))
    where
      P : ZtConnection C K F × List (UnackedPayload × ℕ) → Type 0
      P = Served ret (pn ∷ pns) q up

  drop_all-Served :
      (ret pns : List ℕ) (q : ℕ) (up : UnackedPacket) (c : ZtConnection C K F)
      → up.is_mtu_probe ≡ false
      → Tracks q up c
      → Served ret pns q up (drop_all ret pns c)
  unfolding drop_all
  drop_all-Served ret [] q up c p h = (λ e. h, λ e f. absurd cc)
  drop_all-Served ret (pn ∷ pns) q up c p h =
      option_holds (Served ret (pn ∷ pns) q up) (remove c.unacked_packets pn).0
        (λ e. elim (Bool-cases (pn == q)) [
          | inl here ↦ absurd (let f = found q up c h in let at = (==_iff pn q).0 here in cc)
          | inr there ↦
              passed
                (drop_all ret pns (record c { unacked_packets = (remove c.unacked_packets pn).1 }))
                (drop_all-Served ret pns q up
                  (record c { unacked_packets = (remove c.unacked_packets pn).1 }) p (kept there))
                there
        ])
        (λ old e. elim (Bool-cases (pn == q)) [
          | inl here ↦
              subst
                (λ x.
                  Served ret (pn ∷ pns) q up
                    (queued ret pn x (drop_all ret pns (dropped pn old c))))
                (found_same q pn up old c h e (sym ((==_iff pn q).0 here)))
                (queued_here ret pns pn q up (drop_all ret pns (dropped pn old c)) p here)
          | inr there ↦
              queued_later ret pns pn q up old (drop_all ret pns (dropped pn old c)) there
                (drop_all-Served ret pns q up (dropped pn old c) p (kept there))
        ])
    where
      kept : (pn == q) ≡ false → get_mut (remove c.unacked_packets pn).1 q ≡ some up
      kept there = ground (arith, get_mut-remove c.unacked_packets pn q)

      passed :
          (rest : ZtConnection C K F × List (UnackedPayload × ℕ))
          → Served ret pns q up rest
          → (pn == q) ≡ false
          → Served ret (pn ∷ pns) q up rest
      passed rest i there = (λ a. i.0 (ground arith), λ a b. i.1 (ground arith) b)

  recover-unacked :
      (c : ZtConnection C K F) → ((recover_mtu_blackhole c).1).unacked_packets ≡ c.unacked_packets
  unfolding recover_mtu_blackhole
  recover-unacked c =
      if_holds (λ (r : Bool × ZtConnection C K F). (r.1).unacked_packets ≡ c.unacked_packets)
        (leb c.mtu c.base_mtu) (λ e. refl) (λ e. refl)

  fail_probes-unacked :
      (targets : List ℕ) (c : ZtConnection C K F)
      → (fail_probes targets c).unacked_packets ≡ c.unacked_packets
  unfolding fail_probes record_mtu_probe_failure
  fail_probes-unacked [] c = refl
  fail_probes-unacked (t ∷ ts) c = fail_probes-unacked ts (record_mtu_probe_failure c t)

  -- The connection whose packets a scan has passed.
  abbrev pub scanned_by : Scan → ZtConnection C K F → ZtConnection C K F
  scanned_by s c = record c { unacked_packets = record c.unacked_packets { deque = s.slots } }

  expire-Served :
      (now : ℕ) (s : Scan) (q : ℕ) (up : UnackedPacket) (c : ZtConnection C K F)
      → up.is_mtu_probe ≡ false
      → Tracks q up c
      → Served s.to_retransmit s.to_drop q up (expire now s c)
  unfolding expire
  expire-Served now s q up c p h =
      if_holds (Served s.to_retransmit s.to_drop q up) (length (drops recovered).1 == 0)
        (λ e. served) (λ e. served)
    where
      failed : ZtConnection C K F
      failed = fail_probes s.failed_probe_targets c

      recovered : ZtConnection C K F
      recovered =
          if s.blackhole_detected && ltb failed.base_mtu failed.mtu
          then (recover_mtu_blackhole failed).1
          else failed

      drops : ZtConnection C K F → ZtConnection C K F × List (UnackedPayload × ℕ)
      drops = drop_all s.to_retransmit s.to_drop

      same : recovered.unacked_packets ≡ c.unacked_packets
      same =
          if_holds (λ (d : ZtConnection C K F). d.unacked_packets ≡ c.unacked_packets)
            (s.blackhole_detected && ltb failed.base_mtu failed.mtu)
            (λ e. recover-unacked failed ∙ fail_probes-unacked s.failed_probe_targets c)
            (λ e. fail_probes-unacked s.failed_probe_targets c)

      served : Served s.to_retransmit s.to_drop q up (drops recovered)
      served =
          drop_all-Served s.to_retransmit s.to_drop q up recovered p
            (ap (λ (w : UnackedWindow UnackedPacket). get_mut w q) same ∙ h)

  -- Unless a packet was sent again ten times, the timeouts of `handle_retransmits` lose no packet that has
  -- to arrive: if its timeout has not passed it is tracked as before, and if it has passed its
  -- payload is among those to send again, with its retries counted up by one.
  pub expire_loses_nothing :
      (now q : ℕ) (up : UnackedPacket) (c : ZtConnection C K F)
      → let rto = rto_of c.rtt c.rttvar in
        let s = scan now rto (c.unacked_packets).base_pn (c.unacked_packets).deque in
        s.timed_out ≡ false
        → Reliable up
        → Tracks q up c
        → let r = expire now s (scanned_by s c) in
          ((is_expired now rto up ≡ false) × Tracks q up r.0)
          ⊎ ((is_expired now rto up ≡ true) × Mem (up.payload, up.retries + 1) r.1)
  unfolding get_mut
  expire_loses_nothing now q up c t r h =
      let rto = rto_of c.rtt c.rttvar in
      let b = (c.unacked_packets).base_pn in
      let s = scan now rto b (c.unacked_packets).deque in
      let after = scan-Scanned now rto b q (c.unacked_packets).deque up t h r in
      elim (Bool-cases (is_expired now rto up)) [
        | inl late ↦ inr (
          late,
          (expire-Served now s q (bumped now up) (scanned_by s c) r.0
                (after.0 ∙ ap (λ x. some (if x then bumped now up else up)) late)).1
              (after.1 ∙ late) (after.2 ∙ late),
        )
        | inr early ↦ inl (
          early,
          (expire-Served now s q up (scanned_by s c) r.0
                (after.0 ∙ ap (λ x. some (if x then bumped now up else up)) early)).0
              (after.1 ∙ early),
        )
      ]
