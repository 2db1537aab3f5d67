-- ===== src/Transport/Congestion/Cubic.antt =====
-- `CubicController` (src/transport/congestion.rs). Its floating point arithmetic is the parameter
-- `Floats`: the controller computes the same formulas with whatever a number of the type f64 is.
pub mod Laws
use zetta_transport.Common.{
  ℕ, ◌+◌, ◌*◌, ◌/◌, ◌-◌, max, min, Bool, true, Option, none, some, leb, ltb, if◌then◌else◌, u64_max,
  arith,
}
use zetta_transport.Transport.Congestion.{CongestionController, wrap, recently}

-- The operations of f64 and its conversions. `decimal 7 1` is the literal 0.7; `as_usize` is
-- the saturating cast; `as_secs_f64` reads a number of nanoseconds.
pub record Floats (F : Type 0) : Type 0 where
  pub decimal : (digits places : ℕ) → F
  pub of_usize : ℕ → F
  pub as_usize : F → ℕ
  pub as_secs_f64 : ℕ → F
  pub add : F → F → F
  pub sub : F → F → F
  pub mul : F → F → F
  pub div : F → F → F
  pub powi : F → ℕ → F
  pub cbrt : F → F
  pub fmax : F → F → F
  pub lt : F → F → Bool
  pub le : F → F → Bool

pub record CubicController (F : Type 0) : Type 0 where
  pub cwnd : ℕ
  pub ssthresh : ℕ
  pub mtu : ℕ
  pub cubic_w_max : F
  pub cubic_k : F
  pub last_congestion_time : Option ℕ
  pub last_cubic_update : Option ℕ
  pub cubic_epoch_start : Option ℕ
  pub target_cwnd : ℕ

abbrev or_else : Option ℕ → ℕ → ℕ
or_else none d = d
or_else (some a) d = a

abbrev pub due : Option ℕ → (rtt now : ℕ) → Bool
due none rtt now = true
due (some last) rtt now = leb rtt (now - last)

module _ {F : Type 0} (f : Floats F) where
  unfoldable pub new_cubic : (initial_cwnd mtu : ℕ) → CubicController F
  new_cubic initial_cwnd mtu = record {
    cwnd = initial_cwnd;
    ssthresh = u64_max;
    mtu = mtu;
    cubic_w_max = f.decimal 0 1;
    cubic_k = f.decimal 0 1;
    last_congestion_time = none;
    last_cubic_update = none;
    cubic_epoch_start = none;
    target_cwnd = initial_cwnd;
  }

  -- `(w_cubic_pkts * mtu as f64).max(0.0) as usize`, `t` seconds into the epoch
  unfoldable pub cubic_target : CubicController F → (epoch now : ℕ) → ℕ
  cubic_target c epoch now =
      let t = f.as_secs_f64 (now - epoch) in
      let w_cubic_pkts =
        f.add (f.mul (f.decimal 4 1) (f.powi (f.sub t c.cubic_k) 3)) c.cubic_w_max in
      f.as_usize (f.fmax (f.mul w_cubic_pkts (f.of_usize c.mtu)) (f.decimal 0 1))

  -- The epoch starts in the first round of congestion avoidance; the target is computed once in a
  -- round trip.
  unfoldable pub retarget : CubicController F → (rtt now : ℕ) → CubicController F
  unfolding cubic_target
  retarget c rtt now =
      let epoch = or_else c.cubic_epoch_start now in
      let started = record c { cubic_epoch_start = some epoch } in
      if due c.last_cubic_update rtt now
      then record started { last_cubic_update = some now; target_cwnd = cubic_target c epoch now }
      else started

  unfoldable pub grow : CubicController F → (bytes_acked : ℕ) → CubicController F
  grow c bytes_acked =
      let reno_inc = wrap (c.mtu * bytes_acked) / max c.cwnd c.mtu in
      if ltb c.cwnd c.target_cwnd
      then (let cubic_inc = c.target_cwnd - c.cwnd in
          record c { cwnd = wrap (c.cwnd + min (min cubic_inc bytes_acked) c.mtu) })
      else record c { cwnd = wrap (c.cwnd + reno_inc) }

  unfoldable pub cubic_packet_acked :
      CubicController F → (bytes_acked rtt now : ℕ) → CubicController F
  unfolding retarget grow
  cubic_packet_acked c bytes_acked rtt now =
      if ltb c.cwnd c.ssthresh
      then record c { cwnd = wrap (c.cwnd + bytes_acked) }
      else grow (retarget c rtt now) bytes_acked

  -- `(cwnd as f64 * beta) as usize`
  abbrev pub beta_share : ℕ → ℕ
  beta_share cwnd = f.as_usize (f.mul (f.of_usize cwnd) (f.decimal 7 1))

  -- Fast convergence lowers the remembered maximum further.
  unfoldable pub converge : CubicController F → F
  converge c =
      let current_cwnd_pkts = f.div (f.of_usize c.cwnd) (f.of_usize c.mtu) in
      if f.lt current_cwnd_pkts c.cubic_w_max
      then f.div (f.mul current_cwnd_pkts (f.add (f.decimal 10 1) (f.decimal 7 1))) (f.decimal 20 1)
      else current_cwnd_pkts

  unfoldable pub cubic_congestion_event : CubicController F → (rtt now : ℕ) → CubicController F
  unfolding converge
  cubic_congestion_event c rtt now =
      if recently c.last_congestion_time rtt now
      then c
      else (let reduced = max (beta_share c.cwnd) (wrap (c.mtu * 2)) in
          record {
            cwnd = reduced;
            ssthresh = reduced;
            mtu = c.mtu;
            cubic_w_max = converge c;
            cubic_k = f.cbrt (
                f.div (f.mul (converge c) (f.sub (f.decimal 10 1) (f.decimal 7 1)))
                  (f.decimal 4 1));
            last_congestion_time = some now;
            last_cubic_update = none;
            cubic_epoch_start = none;
            target_cwnd = c.target_cwnd;
          })

  abbrev pub cubic_controller : CongestionController (CubicController F)
  cubic_controller = record {
    on_packet_sent = λ c pn bytes sent_at. c;
    on_packet_acked = cubic_packet_acked;
    on_congestion_event = cubic_congestion_event;
    cwnd = λ c. c.cwnd;
    ssthresh = λ c. c.ssthresh;
    set_cwnd = λ c cwnd. record c { cwnd = cwnd };
    set_ssthresh = λ c ssthresh. record c { ssthresh = ssthresh };
    set_mtu = λ c mtu. record c { mtu = mtu };
  }
