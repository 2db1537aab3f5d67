-- ===== src/Transport/Congestion/Tests.antt =====
-- Runs of the congestion controllers.
use zetta_transport.Common.{
  ℕ, ◌+◌, ◌*◌, ◌/◌, ◌-◌, ◌≤◌, ◌≡◌, refl, arith, max, leb, ltb, List, [], ◌∷◌,
}
use zetta_transport.Transport.Congestion.{
  new_reno, reno_packet_acked, reno_congestion_event, reno_controller, Event, acked, lost, run,
}
use zetta_transport.Transport.Congestion.Laws.{growth}
use zetta_transport.Transport.Congestion.Cubic.{
  Floats, new_cubic, cubic_target, retarget, grow, cubic_packet_acked, converge,
  cubic_congestion_event, cubic_controller,
}
use zetta_transport.Config.{cubic}
use zetta_transport.Transport.Congestion.Boxed.{
  Boxed, new_boxed, boxed_event, boxed_cwnd, boxed_ssthresh, run_boxed, run-bounds, reduce_once,
}

-- Tenths, rounded down: one instance of the arithmetic.
abbrev pub tenths : Floats ℕ
tenths = record {
  decimal = λ digits places. digits;
  of_usize = λ n. n * 10;
  as_usize = λ x. x / 10;
  as_secs_f64 = λ t. t / 100000000;
  add = λ a b. a + b;
  sub = λ a b. a - b;
  mul = λ a b. a * b / 10;
  div = λ a b. a * 10 / b;
  powi = λ a n. a * a / 10 * a / 10;
  cbrt = λ a. a;
  fmax = λ a b. max a b;
  lt = λ a b. ltb a b;
  le = λ a b. leb a b;
}

abbrev events : List Event
events = acked 6000 100 10 ∷ lost 100 50 ∷ acked 1200 100 60 ∷ lost 100 149 ∷ []

reno_run : (run ⦃cc = reno_controller⦄ (new_reno 12000 1200) events).cwnd ≡ 9160
unfolding new_reno reno_packet_acked reno_congestion_event
reno_run = refl

cubic_run : (run ⦃cc = cubic_controller tenths⦄ (new_cubic tenths 12000 1200) events).cwnd ≡ 13800
unfolding new_cubic cubic_target retarget grow cubic_packet_acked converge cubic_congestion_event
cubic_run = refl

abbrev boxed : Boxed ℕ
boxed = new_boxed tenths cubic 12000 1200

run-bounds_example :
    (1200 * 2 ≤ boxed_cwnd (run_boxed tenths boxed events))
    × (boxed_cwnd (run_boxed tenths boxed events) ≤ 12000 + growth events)
unfolding new_boxed new_cubic
run-bounds_example =
    run-bounds tenths (λ cwnd. omega arith) boxed events (omega arith) (omega arith)
      (omega arith, (omega arith, tt))

reduce_once_example :
    let d = boxed_event tenths boxed 100 50 in
    (boxed_cwnd d ≡ boxed_ssthresh d)
    × (boxed_cwnd d ≤ boxed_cwnd (run_boxed tenths d (acked 1200 100 60 ∷ lost 100 149 ∷ [])))
unfolding new_boxed new_cubic
reduce_once_example =
    reduce_once tenths (λ cwnd. omega arith) boxed 100 50 (acked 1200 100 60 ∷ lost 100 149 ∷ [])
      refl (omega arith, tt) (omega arith, omega arith, (omega arith, tt))
