-- ===== src/Transport/Congestion.antt =====
-- Congestion control (src/transport/congestion.rs): the trait `CongestionController` as an interface of
-- operations, the guard that both controllers share, and `RenoController`. Instants and durations
-- are numbers of nanoseconds, and `duration_since` stops at 0. A window of 2^64 bytes wraps around, as
-- in a release build. The divisor of the growth in congestion avoidance is zero, where the code
-- would panic, for an MTU of zero only.
pub mod Laws
pub mod Reno
pub mod Cubic
pub mod Boxed
pub mod Tests
use zetta_transport.Common.{
  ℕ, ◌+◌, ◌*◌, ◌/◌, ◌%◌, ◌^◌, ◌-◌, max, Bool, true, false, Option, none, some, ltb, if◌then◌else◌,
  u64_max, List, [], ◌∷◌,
}

pub record CongestionController (C : Type 0) : Type 0 where
  pub on_packet_sent : C → (pn bytes sent_at : ℕ) → C
  pub on_packet_acked : C → (bytes_acked rtt now : ℕ) → C
  pub on_congestion_event : C → (rtt now : ℕ) → C
  pub cwnd : C → ℕ
  pub ssthresh : C → ℕ
  pub set_cwnd : C → ℕ → C
  pub set_ssthresh : C → ℕ → C
  pub set_mtu : C → ℕ → C

abbrev pub wrap : ℕ → ℕ
wrap n = n % 2 ^ 64

-- The early return of `on_congestion_event`: the last reduction is less than a round trip ago.
abbrev pub recently : Option ℕ → (rtt now : ℕ) → Bool
recently none rtt now = false
recently (some last_loss) rtt now = ltb (now - last_loss) rtt

pub record RenoController : Type 0 where
  pub cwnd : ℕ
  pub ssthresh : ℕ
  pub mtu : ℕ
  pub last_congestion_time : Option ℕ

pub new_reno : (initial_cwnd mtu : ℕ) → RenoController
new_reno initial_cwnd mtu = record {
  cwnd = initial_cwnd;
  ssthresh = u64_max;
  mtu = mtu;
  last_congestion_time = none;
}

pub reno_packet_acked : RenoController → (bytes_acked rtt now : ℕ) → RenoController
reno_packet_acked c bytes_acked rtt now =
    if ltb c.cwnd c.ssthresh
    then record c { cwnd = wrap (c.cwnd + bytes_acked) }
    else (let increment = wrap (c.mtu * bytes_acked) / max c.cwnd c.mtu in
        record c { cwnd = wrap (c.cwnd + max increment 1) })

pub reno_congestion_event : RenoController → (rtt now : ℕ) → RenoController
reno_congestion_event c rtt now =
    if recently c.last_congestion_time rtt now
    then c
    else (let reduced = max (c.cwnd / 2) (wrap (c.mtu * 2)) in
        record c { last_congestion_time = some now; ssthresh = reduced; cwnd = reduced })

instance abbrev pub reno_controller : CongestionController RenoController
reno_controller = record {
  on_packet_sent = λ c pn bytes sent_at. c;
  on_packet_acked = reno_packet_acked;
  on_congestion_event = reno_congestion_event;
  cwnd = λ c. c.cwnd;
  ssthresh = λ c. c.ssthresh;
  set_cwnd = λ c cwnd. record c { cwnd = cwnd };
  set_ssthresh = λ c ssthresh. record c { ssthresh = ssthresh };
  set_mtu = λ c mtu. record c { mtu = mtu };
}

-- What happens to a controller while the MTU stands: acknowledgements and losses.
pub data Event : Type 0 where
  acked : (bytes_acked rtt now : ℕ) → Event
  lost : (rtt now : ℕ) → Event

module _ {C : Type 0} ⦃cc : CongestionController C⦄ where
  abbrev pub react : C → Event → C
  react c (acked bytes_acked rtt now) = cc.on_packet_acked c bytes_acked rtt now
  react c (lost rtt now) = cc.on_congestion_event c rtt now

  abbrev pub run : C → List Event → C
  run c [] = c
  run c (e ∷ es) = run (react c e) es
