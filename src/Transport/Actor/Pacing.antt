-- ===== src/Transport/Actor/Pacing.antt =====
-- The pacing queue: `flush_pacing_queue` of src/transport/actor/packet_sender.rs, over the floating point
-- arithmetic `Floats`. All reads of the clock in one call are `now`.
pub mod Queue
pub mod Order
use zetta_transport.Common.{
  ℕ, zero, suc, ◌+◌, ◌-◌, ◌*◌, ◌^◌, Bool, true, false, List, [], ◌∷◌, Option, none, some, ltb,
  if◌then◌else◌, length,
}
use zetta_transport.Error.{
  Result, ok, err, panic, ZtError, unauthorized, crypto, packet_number_overflow,
}
use zetta_transport.Crypto.{CryptoEngine}
use zetta_transport.Protocol.Wire.{Buf}
use zetta_transport.Transport.Congestion.{CongestionController}
use zetta_transport.Transport.Congestion.Cubic.{Floats}
use zetta_transport.Transport.Unacked.{UnackedPayload, payload_len}
use zetta_transport.Transport.Connection.{ZtConnection, closed}
use zetta_transport.Transport.Actor.{Actor, Outcome}
use zetta_transport.Transport.Actor.Payloads.{Primitives, send_payload_with_retries}

-- When the sender is to be called again: not by a timer, after milliseconds, or after seconds.
pub data Wait (F : Type 0) : Type 0 where
  no_timer : Wait F
  after_millis : ℕ → Wait F
  after_secs : F → Wait F
  crashed : Wait F

-- The errors that close the connection.
abbrev is_fatal : ZtError → Bool
is_fatal unauthorized = true
is_fatal (crypto m) = true
is_fatal packet_number_overflow = true
is_fatal _ = false

-- `pop_front`
abbrev pub tail_of : List (UnackedPayload × ℕ) → List (UnackedPayload × ℕ)
tail_of [] = []
tail_of (e ∷ es) = es

module _ {C K F : Type 0} where
  pub close_now : Actor C K F → Actor C K F
  close_now a = record a { state = record a.state { state = closed } }

  -- The front of the queue after another failure.
  pub retry_front : Actor C K F → List (UnackedPayload × ℕ) → Wait F × Actor C K F
  unfolding close_now
  retry_front a [] = (after_millis 1, a)
  retry_front a (e ∷ es) =
      let counted = record a { state = record a.state { unpaced_queue = (e.0, e.1 + 1) ∷ es } } in
      if ltb 10 (e.1 + 1)
      then (no_timer, close_now counted)
      else (after_millis (2 ^ (e.1 + 1)), counted)

  pub paced_failed : ZtError → Actor C K F → Wait F × Actor C K F
  unfolding retry_front
  paced_failed e a =
      if a.socket_blocked
      then (no_timer, a)
      else if is_fatal e
      then (no_timer, close_now a)
      else retry_front a (a.state).unpaced_queue

  -- A payload that was sent leaves the queue.
  pub popped : UnackedPayload → (tokens : F) → Actor C K F → Actor C K F
  popped payload tokens a = record a {
    state = record a.state {
      unpaced_queue = tail_of (a.state).unpaced_queue;
      queued_bytes = (a.state).queued_bytes - payload_len payload;
      pacing_tokens = tokens;
    };
  }

  -- What follows a send: the rest of the loop, or the treatment of the error.
  pub paced_sent : (Actor C K F → Wait F × Actor C K F) → Outcome C K F → Wait F × Actor C K F
  unfolding paced_failed
  paced_sent rest (ok u, a) = rest a
  paced_sent rest (err e, a) = paced_failed e a
  paced_sent rest (panic, a) = (crashed, a)

  -- The tokens that the time since the last call brings, up to a burst of ten packets.
  pub refilled : (f : Floats F) (now : ℕ) (rate : F) → Actor C K F → Actor C K F
  refilled f now rate a =
      let s = a.state in
      let max_burst = f.of_usize (s.mtu * 10) in
      record a {
        state = record s {
          last_pacing_update = some now;
          pacing_tokens = elim s.last_pacing_update [
            | none ↦ s.pacing_tokens
            | some last ↦
                (let tokens = f.add s.pacing_tokens (f.mul rate (f.as_secs_f64 (now - last))) in
                  if f.lt max_burst tokens then max_burst else tokens)
          ];
        };
      }

module _ {C K F : Type 0} ⦃controller : CongestionController C⦄ ⦃engine : CryptoEngine K⦄
    ⦃buf : Buf⦄ (f : Floats F) (prim : Primitives K) (now : ℕ) where
  -- `(cwnd as f64 * 1.25) / rtt.as_secs_f64().max(0.00001)`
  abbrev pub rate_of : ZtConnection C K F → F
  rate_of c =
      f.div (f.mul (f.of_usize (controller.cwnd c.cc)) (f.decimal 125 2))
        (f.fmax (f.as_secs_f64 c.rtt) (f.decimal 1 5))

  -- The rounds of the loop: a payload is sent if there are tokens for it or if they come within a
  -- millisecond.
  pub pace : (rounds : ℕ) (rate : F) → Actor C K F → Wait F × Actor C K F
  unfolding paced_sent popped
  pace zero rate a = (no_timer, a)
  pace (suc rounds) rate a = elim (a.state).unpaced_queue [
    | [] ↦ (no_timer, a)
    | e ∷ es ↦
        (let len = f.of_usize (payload_len e.0) in
          let tokens = (a.state).pacing_tokens in
          let wait_secs = f.div (f.sub len tokens) rate in
          if f.le len tokens
          then paced_sent (λ b. pace rounds rate (popped e.0 (f.sub (b.state).pacing_tokens len) b))
              (send_payload_with_retries prim now e.0 e.1 a)
          else if f.lt wait_secs (f.decimal 1 3)
          then paced_sent (λ b. pace rounds rate (popped e.0 (f.decimal 0 1) b))
              (send_payload_with_retries prim now e.0 e.1 a)
          else (after_secs wait_secs, a))
  ]

  pub flush_pacing_queue : Actor C K F → Wait F × Actor C K F
  unfolding pace refilled
  flush_pacing_queue a =
      if a.socket_blocked
      then (no_timer, a)
      else (let rate = rate_of a.state in
          pace (length (a.state).unpaced_queue + 1) rate (refilled f now rate a))
