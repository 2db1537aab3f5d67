-- ===== src/Transport/Connection/Ack/RoundTrip.antt =====
-- The smoothed round trip time of `handle_ack` (src/transport/congestion.rs).
use zetta_transport.Common.{ℕ, zero, suc, ◌+◌, ◌-◌, ◌*◌, ◌≤◌, ◌<◌, ◌≡◌, ◌⊎◌, max, min, true}
use zetta_transport.Transport.Congestion.{CongestionController}
use zetta_transport.Transport.Connection.{ZtConnection}
use zetta_transport.Transport.Connection.Ack.{update_rtt}

-- How far two times are apart.
abbrev pub apart : ℕ → ℕ → ℕ
apart a b = max a b - min a b

-- The time on the path: the sample less the delay that the peer reports, unless that is the whole sample
-- or more.
abbrev pub OnPath : (sample delay path : ℕ) → Type 0
OnPath sample delay path =
    ((delay * 1000 < sample) × (path + delay * 1000 ≡ sample))
    ⊎ ((sample ≤ delay * 1000) × (path ≡ sample))

module _ {C K F : Type 0} ⦃controller : CongestionController C⦄ where
  -- The same sample, `n` times.
  pub sampled : (n sample delay : ℕ) → ZtConnection C K F → ZtConnection C K F
  sampled zero sample delay c = c
  sampled (suc n) sample delay c = sampled n sample delay (update_rtt c sample delay)

  -- One update, from an estimate that is initialized.
  record Nearer (path : ℕ) (c d : ZtConnection C K F) : Type 0 where
    initialized : d.rtt_initialized ≡ true
    time : 8 * apart d.rtt path ≤ 7 * apart c.rtt path + 7
    variation : 4 * d.rttvar ≤ 3 * c.rttvar + apart c.rtt path
    variation_kept : 3 * c.rttvar + apart c.rtt path ≤ 4 * d.rttvar + 3
