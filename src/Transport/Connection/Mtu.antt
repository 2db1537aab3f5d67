-- ===== src/Transport/Connection/Mtu.antt =====
-- Path MTU discovery (`record_mtu_probe_success`, `record_mtu_probe_failure` and `recover_mtu_blackhole` of
-- src/transport/connection.rs, and the choice of a target in src/transport/actor/packet_sender.rs).
use zetta_transport.Common.{
  ℕ, zero, suc, ◌+◌, ◌-◌, ◌*◌, ◌/◌, ◌^◌, ◌≤◌, ◌<◌, ◌≡◌, refl, sym, ap, arith, max, Bool, Option,
  none, some, ltb, leb, if◌then◌else◌, if_holds, List,
}
use zetta_transport.Common.Bits.{two_pow-suc, two_pow_pos}
use zetta_transport.Config.{ZtConfig}
use zetta_transport.Transport.Congestion.{CongestionController}
use zetta_transport.Transport.Connection.{
  ZtConnection, new_with_config, record_mtu_probe_success, record_mtu_probe_failure, probe_target,
}

module _ {C K F : Type 0} ⦃controller : CongestionController C⦄ where
  -- The search stands at the size in use, within its interval.
  pub record Searching (c : ZtConnection C K F) : Type 0 where
    pub at_minimum : c.mtu ≡ c.mtu_min
    pub shared : c.shared_mtu ≡ c.mtu
    pub above_base : c.base_mtu ≤ c.mtu
    pub ordered : c.mtu ≤ c.mtu_max

  -- A probe and its outcome on a path that takes the sizes `fits`: acknowledged or lost.
  unfoldable pub probe : (fits : ℕ → Bool) → ZtConnection C K F → ZtConnection C K F
  probe fits c = elim (probe_target c.mtu_min c.mtu_max) [
    | none ↦ c
    | some target ↦
        if fits target then record_mtu_probe_success c target else record_mtu_probe_failure c target
  ]

  unfoldable pub probe_times : (fits : ℕ → Bool) → ℕ → ZtConnection C K F → ZtConnection C K F
  probe_times fits zero c = c
  probe_times fits (suc n) c = probe_times fits n (probe fits c)

  success-Searching :
      (c : ZtConnection C K F) (target : ℕ)
      → Searching c
      → target ≤ c.mtu_max
      → Searching (record_mtu_probe_success c target)
  unfolding record_mtu_probe_success
  success-Searching c target v h =
      if_holds Searching (ltb c.mtu target)
        (λ up. record {
          at_minimum = ground (arith, v.at_minimum);
          shared = refl;
          above_base = ground (arith, v.above_base);
          ordered = h;
        })
        (λ same. record {
          at_minimum = ground (arith, v.at_minimum);
          shared = v.shared;
          above_base = v.above_base;
          ordered = v.ordered;
        })

  failure-Searching :
      (c : ZtConnection C K F) (target : ℕ)
      → Searching c
      → c.mtu < target
      → Searching (record_mtu_probe_failure c target)
  unfolding record_mtu_probe_failure
  failure-Searching c target v h = record {
    at_minimum = v.at_minimum;
    shared = v.shared;
    above_base = v.above_base;
    ordered = omega (arith, v.ordered);
  }

  -- What a probe on a path that takes `p` bytes and no more is to leave of the search.
  abbrev Narrowed : ℕ → ZtConnection C K F → ZtConnection C K F → Type 0
  Narrowed p c d =
      Searching d
      × (d.mtu ≤ p)
      × (p ≤ d.mtu_max)
      × (d.mtu_max - d.mtu ≤ max 10 ((c.mtu_max - c.mtu + 1) / 2))

  probed :
      (p target : ℕ) (c : ZtConnection C K F)
      → Searching c
      → (c.mtu ≤ p) × (p ≤ c.mtu_max)
      → (c.mtu + 10 < c.mtu_max) × (target ≡ c.mtu + (c.mtu_max - c.mtu) / 2)
      → Narrowed p c (
          if leb target p
          then record_mtu_probe_success c target
          else record_mtu_probe_failure c target)
  unfolding record_mtu_probe_success record_mtu_probe_failure
  probed p target c v h t =
      if_holds (Narrowed p c) (leb target p)
        (λ fits. (
          success-Searching c target v (omega (arith, t.1, t.0)),
          ground arith,
          ground arith,
          ground arith,
        ))
        (λ lost.
          (failure-Searching c target v (omega (arith, t.1, t.0)), h.0, ground arith, ground arith))

  probe_step :
      (p : ℕ) (c : ZtConnection C K F)
      → Searching c
      → (c.mtu ≤ p) × (p ≤ c.mtu_max)
      → Narrowed p c (probe (λ s. leb s p) c)
  unfolding probe probe_target
  probe_step p c v h =
      if_holds
        (λ (o : Option ℕ). Narrowed p c (elim o [
          | none ↦ c
          | some target ↦
              if leb target p
              then record_mtu_probe_success c target
              else record_mtu_probe_failure c target
        ]))
        (leb c.mtu_max (c.mtu_min + 10)) (λ done. (v, h.0, h.1, ground (arith, v.at_minimum)))
        (λ more.
          probed p (c.mtu_min + (c.mtu_max - c.mtu_min) / 2) c v h
            (ground (arith, v.at_minimum), ap (λ m. m + (c.mtu_max - m) / 2) (sym v.at_minimum)))

  -- On a path that takes `p` bytes and no more, with `p` within the search interval, `n` probes end the
  -- search where the interval is at most 10 * 2 ^ n wide: no further probe is sent, the size in use fits
  -- the path, and it falls short of the path by no more than 10 bytes.
  pub probe_times_finds :
      (n p : ℕ) (c : ZtConnection C K F)
      → Searching c
      → (c.mtu ≤ p) × (p ≤ c.mtu_max) × (c.mtu_max - c.mtu ≤ 10 * 2 ^ n)
      → let d = probe_times (λ s. leb s p) n c in
        Searching d × (probe_target d.mtu_min d.mtu_max ≡ none) × (d.mtu ≤ p) × (p ≤ d.mtu + 10)
  unfolding probe_times probe_target
  probe_times_finds zero p c v h = (v, ground (arith, v.at_minimum), h.0, omega (arith, h.1, h.2))
  probe_times_finds (suc n) p c v h =
      let s = probe_step p c v (h.0, h.1) in
      probe_times_finds n p (probe (λ s. leb s p) c) s.0
        (s.1, s.2, omega (arith, s.3, h.2, two_pow-suc n, two_pow_pos n))

  pub new-Searching :
      (addr : ℕ) (scid dcid : List ℕ) (config : ZtConfig) (new_controller : ℕ → ℕ → C)
      (of_usize : ℕ → F)
      → config.mtu_min ≤ config.mtu_max
      → Searching (new_with_config addr scid dcid config new_controller of_usize)
  unfolding new_with_config
  new-Searching addr scid dcid config new_controller of_usize h = record {
    at_minimum = refl;
    shared = refl;
    above_base = omega arith;
    ordered = h;
  }
