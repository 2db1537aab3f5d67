-- ===== src/Transport/Connection/Tests.antt =====
-- Runs of a connection, those of the tests of src/transport/connection.rs among them.
use zetta_transport.Common.{ℕ, ◌+◌, ◌≤◌, ◌≡◌, refl, arith, Bool, leb, [], none}
use zetta_transport.Config.{default}
use zetta_transport.Transport.Congestion.{RenoController, new_reno, reno_controller}
use zetta_transport.Transport.Connection.{
  ZtConnection, new_with_config, record_mtu_probe_success, record_mtu_probe_failure,
  recover_mtu_blackhole, probe_target,
}
use zetta_transport.Transport.Connection.Mtu.{
  Searching, probe, probe_times, probe_times_finds, new-Searching,
}

abbrev pub Plain : Type 0
Plain = ZtConnection RenoController Bool ℕ

abbrev pub fresh : Plain
fresh = new_with_config 4433 [] [] default new_reno (λ n. n)

abbrev grown : Plain
grown = record_mtu_probe_success fresh 4096

pmtud_bounds_follow_probe_results :
    (record_mtu_probe_success (record_mtu_probe_failure fresh 5100) 3149).mtu ≡ 3149
unfolding record_mtu_probe_success record_mtu_probe_failure new_with_config default
pmtud_bounds_follow_probe_results = refl

blackhole_restarts_below : ((recover_mtu_blackhole grown).1).mtu_max ≡ 4095
unfolding record_mtu_probe_success recover_mtu_blackhole new_with_config default
blackhole_restarts_below = refl

found : (probe_times (λ s. leb s 5000) 12 fresh).mtu ≡ 4998
unfolding probe_times probe probe_target record_mtu_probe_success record_mtu_probe_failure
    new_with_config default
found = refl

probe_times_finds_example :
    let d = probe_times (λ s. leb s 5000) 10 fresh in
    Searching d × (probe_target d.mtu_min d.mtu_max ≡ none) × (d.mtu ≤ 5000) × (5000 ≤ d.mtu + 10)
unfolding new_with_config default
probe_times_finds_example =
    probe_times_finds 10 5000 fresh
      (new-Searching 4433 [] [] default new_reno (λ n. n) (omega arith))
      (omega arith, omega arith, omega arith)
