-- ===== src/Transport/Actor/Pacing/Order.antt =====
-- What `flush_pacing_queue` (src/transport/actor/packet_sender.rs) does to its queue.
use mathlib.Core.Path.{subst}
use zetta_transport.Common.{
  ℕ, zero, suc, ◌+◌, ◌<◌, ◌≡◌, ◌⊎◌, inl, inr, refl, ap, sym, ◌∙◌, arith, true, List, [], ◌∷◌, ◌++◌,
  ltb, length, if_holds, list_holds,
}
use zetta_transport.Error.{ok, err, panic, ZtError}
use zetta_transport.Crypto.{CryptoEngine}
use zetta_transport.Protocol.Wire.{Buf}
use zetta_transport.Transport.Congestion.{CongestionController}
use zetta_transport.Transport.Congestion.Cubic.{Floats}
use zetta_transport.Transport.Unacked.{UnackedPayload, payload_len}
use zetta_transport.Transport.Connection.{closed}
use zetta_transport.Transport.Actor.{Actor, Outcome}
use zetta_transport.Transport.Actor.Payloads.{Primitives, send_payload_with_retries}
use zetta_transport.Transport.Actor.Outgoing.Credit.{queue_bytes}
use zetta_transport.Transport.Actor.Pacing.{
  Wait, no_timer, after_millis, after_secs, crashed, is_fatal, close_now, retry_front, paced_failed,
  tail_of, popped, paced_sent, refilled, rate_of, pace, flush_pacing_queue,
}
use zetta_transport.Transport.Actor.Pacing.Queue.{send_payload-queue}

abbrev Queue : Type 0
Queue = List (UnackedPayload × ℕ)

abbrev pub payloads : Queue → List UnackedPayload
payloads [] = []
payloads (e ∷ es) = e.0 ∷ payloads es

module _ {C K F : Type 0} ⦃controller : CongestionController C⦄ ⦃engine : CryptoEngine K⦄
    ⦃buf : Buf⦄ (f : Floats F) (prim : Primitives K) (now : ℕ) where
  -- Without a timer, the socket is blocked, the connection is closed or nothing waits.
  abbrev pub Resting : Wait F → Actor C K F → Type 0
  Resting no_timer a =
      (a.socket_blocked ≡ true) ⊎ (((a.state).state ≡ closed) ⊎ ((a.state).unpaced_queue ≡ []))
  Resting (after_millis n) a = Unit
  Resting (after_secs s) a = Unit
  Resting crashed a = Unit

  -- Rounds from an actor to another: tokens are refilled, and payloads, listed in order, leave the
  -- queue, its front each time,
  -- each after it was sent without an error.
  pub data Rounds : List UnackedPayload → Actor C K F → Actor C K F → Type 0 where
    done : {a : Actor C K F} → Rounds [] a a
    refills :
        {left : List UnackedPayload} {a b : Actor C K F} (rate : F)
        → Rounds left (refilled f now rate a) b
        → Rounds left a b
    sends :
        {left : List UnackedPayload} {a b d : Actor C K F} (payload : UnackedPayload) (retries : ℕ)
        (es : Queue) (tokens : F)
        → (a.state).unpaced_queue ≡ (payload, retries) ∷ es
        → send_payload_with_retries prim now payload retries a ≡ (ok tt, b)
        → Rounds left (popped payload tokens b) d
        → Rounds (payload ∷ left) a d

  -- How a flush ends: it waits, or the front payload could not be sent.
  pub data Ends (a : Actor C K F) : Wait F × Actor C K F → Type 0 where
    waits : (w : Wait F) → Ends a (w, a)
    fails :
        {b : Actor C K F} (payload : UnackedPayload) (retries : ℕ) (es : Queue) (e : ZtError)
        → (a.state).unpaced_queue ≡ (payload, retries) ∷ es
        → send_payload_with_retries prim now payload retries a ≡ (err e, b)
        → Ends a (paced_failed e b)
    panics :
        {b : Actor C K F} (payload : UnackedPayload) (retries : ℕ) (es : Queue)
        → (a.state).unpaced_queue ≡ (payload, retries) ∷ es
        → send_payload_with_retries prim now payload retries a ≡ (panic, b)
        → Ends a (crashed, b)

  -- A flush from the actor `a` with the queue `q`: the payloads that left were sent, in order, up to the
  -- actor `last`; the others wait in their order; and the counter is the sum over the queue.
  pub record Paced (q : Queue) (a : Actor C K F) (r : Wait F × Actor C K F) : Type 0 where
    pub left : List UnackedPayload
    pub last : Actor C K F
    pub all_sent : Rounds left a last
    pub ends : Ends last r
    pub in_order : payloads q ≡ left ++ payloads ((r.1).state).unpaced_queue
    pub counted : ((r.1).state).queued_bytes ≡ queue_bytes ((r.1).state).unpaced_queue
    pub resting : Resting r.0 r.1

  -- The actor has the queue `q`, which its counter sums.
  abbrev Queued : Queue → Actor C K F → Type 0
  Queued q a = ((a.state).unpaced_queue ≡ q) × ((a.state).queued_bytes ≡ queue_bytes q)

  -- What holds of the queue at the end.
  record Kept (q : Queue) (r : Wait F × Actor C K F) : Type 0 where
    same : payloads q ≡ payloads ((r.1).state).unpaced_queue
    counted : ((r.1).state).queued_bytes ≡ queue_bytes ((r.1).state).unpaced_queue
    resting : Resting r.0 r.1

  unchanged : (q : Queue) (w : Wait F) (a : Actor C K F) → Queued q a → Resting w a → Kept q (w, a)
  unchanged q w a h rest = record {
    same = ap payloads (sym h.0);
    counted = h.1 ∙ ap queue_bytes (sym h.0);
    resting = rest;
  }

  retry_front-Kept : (q : Queue) (a : Actor C K F) → Queued q a → Kept q (retry_front a q)
  unfolding retry_front close_now
  retry_front-Kept [] a h = unchanged [] (after_millis 1) a h tt
  retry_front-Kept (e ∷ es) a h =
      if_holds (Kept (e ∷ es)) (ltb 10 (e.1 + 1))
        (λ last. record { same = refl; counted = h.1; resting = inr (inl refl) })
        (λ more. record { same = refl; counted = h.1; resting = tt })

  paced_failed-Kept :
      (q : Queue) (e : ZtError) (a : Actor C K F) → Queued q a → Kept q (paced_failed e a)
  unfolding paced_failed close_now
  paced_failed-Kept q e a h =
      if_holds (Kept q) a.socket_blocked (λ b. unchanged q no_timer a h (inl b))
        (λ b.
          if_holds (Kept q) (is_fatal e)
            (λ fatal. unchanged q no_timer (close_now a) h (inr (inl refl)))
            (λ mild. subst (λ p. Kept q (retry_front a p)) (sym h.0) (retry_front-Kept q a h)))

  -- A flush that ends at once.
  at_once :
      (q : Queue) (a : Actor C K F) (r : Wait F × Actor C K F) → Ends a r → Kept q r → Paced q a r
  at_once q a r e k = record {
    left = [];
    last = a;
    all_sent = done;
    ends = e;
    in_order = k.same;
    counted = k.counted;
    resting = k.resting;
  }

  popped-Queued :
      (e : UnackedPayload × ℕ) (es : Queue) (tokens : F) (a : Actor C K F)
      → Queued (e ∷ es) a
      → Queued es (popped e.0 tokens a)
  unfolding popped
  popped-Queued e es tokens a h = (ap tail_of h.0, omega (arith, h.1))

  -- A round that sends the first payload goes before a flush of the others.
  before :
      (e : UnackedPayload × ℕ) (es : Queue) (tokens : F) (a b : Actor C K F)
      (r : Wait F × Actor C K F)
      → (a.state).unpaced_queue ≡ e ∷ es
      → send_payload_with_retries prim now e.0 e.1 a ≡ (ok tt, b)
      → Paced es (popped e.0 tokens b) r
      → Paced (e ∷ es) a r
  before e es tokens a b r at sent p = record {
    left = e.0 ∷ p.left;
    last = p.last;
    all_sent = sends e.0 e.1 es tokens at sent p.all_sent;
    ends = p.ends;
    in_order = ap (λ l. e.0 ∷ l) p.in_order;
    counted = p.counted;
    resting = p.resting;
  }

  -- What follows the sending of the first payload.
  paced_sent-Paced :
      (e : UnackedPayload × ℕ) (es : Queue) (tokens : Actor C K F → F)
      (rest : Actor C K F → Wait F × Actor C K F) (a : Actor C K F) (o : Outcome C K F)
      → (a.state).unpaced_queue ≡ e ∷ es
      → send_payload_with_retries prim now e.0 e.1 a ≡ o
      → Queued (e ∷ es) o.1
      → ((b : Actor C K F) → Queued es b → Paced es b (rest b))
      → Paced (e ∷ es) a (paced_sent (λ b. rest (popped e.0 (tokens b) b)) o)
  unfolding paced_sent
  paced_sent-Paced e es tokens rest a (ok u, b) at sent h keep =
      before e es (tokens b) a b (rest (popped e.0 (tokens b) b)) at sent
        (keep (popped e.0 (tokens b) b) (popped-Queued e es (tokens b) b h))
  paced_sent-Paced e es tokens rest a (err x, b) at sent h keep =
      at_once (e ∷ es) a (paced_failed x b) (fails e.0 e.1 es x at sent)
        (paced_failed-Kept (e ∷ es) x b h)
  paced_sent-Paced e es tokens rest a (panic, b) at sent h keep =
      at_once (e ∷ es) a (crashed, b) (panics e.0 e.1 es at sent)
        (unchanged (e ∷ es) crashed b h tt)

  sent-Queued :
      (q : Queue) (e : UnackedPayload × ℕ) (a : Actor C K F)
      → Queued q a
      → Queued q (send_payload_with_retries prim now e.0 e.1 a).1
  sent-Queued q e a h =
      let s = send_payload-queue prim now e.0 e.1 a in
      (ap (λ (p : Queue × ℕ). p.0) s ∙ h.0, ap (λ (p : Queue × ℕ). p.1) s ∙ h.1)

  as_queue :
      (p q : Queue) (a : Actor C K F) (r : Wait F × Actor C K F) → p ≡ q → Paced p a r → Paced q a r
  as_queue p q a r same h = subst (λ (l : Queue). Paced l a r) same h

  pace-Paced :
      (rounds : ℕ) (rate : F) (q : Queue) (a : Actor C K F)
      → length q < rounds
      → Queued q a
      → Paced q a (pace f prim now rounds rate a)
  unfolding pace
  pace-Paced zero rate q a enough h = absurd (omega (arith, enough))
  pace-Paced (suc rounds) rate q a enough h =
      list_holds (Paced q a) (a.state).unpaced_queue
        (λ e. at_once q a (no_timer, a) (waits no_timer) (unchanged q no_timer a h (inr (inr e))))
        (λ e es eq.
          let same : e ∷ es ≡ q = sym eq ∙ h.0 in
          let len = f.of_usize (payload_len e.0) in
          let front : Queued (e ∷ es) a = (eq, h.1 ∙ ap queue_bytes (sym same)) in
          let fewer : length es < rounds =
            omega (arith, enough, ap (λ (l : Queue). length l) same) in
          let sent = sent-Queued (e ∷ es) e a front in
          let outcome = send_payload_with_retries prim now e.0 e.1 a in
          let rest = λ (b : Actor C K F). pace f prim now rounds rate b in
          as_queue (e ∷ es) q a _ same (
            if_holds (Paced (e ∷ es) a) (f.le len (a.state).pacing_tokens)
              (λ affordable.
                paced_sent-Paced e es (λ b. f.sub (b.state).pacing_tokens len) rest a outcome eq
                  refl sent (λ b k. pace-Paced rounds rate es b fewer k))
              (λ later.
                if_holds (Paced (e ∷ es) a)
                  (f.lt (f.div (f.sub len (a.state).pacing_tokens) rate) (f.decimal 1 3))
                  (λ soon.
                    paced_sent-Paced e es (λ b. f.decimal 0 1) rest a outcome eq refl sent
                      (λ b k. pace-Paced rounds rate es b fewer k))
                  (λ wait. at_once (e ∷ es) a _ (waits _) (unchanged (e ∷ es) _ a front tt)))))

  refill :
      (q : Queue) (rate : F) (a : Actor C K F) (r : Wait F × Actor C K F)
      → Paced q (refilled f now rate a) r
      → Paced q a r
  refill q rate a r p = record {
    left = p.left;
    last = p.last;
    all_sent = refills rate p.all_sent;
    ends = p.ends;
    in_order = p.in_order;
    counted = p.counted;
    resting = p.resting;
  }

  -- If the counter of queued bytes is the sum over the pacing queue: a flush takes payloads off the front
  -- only, each after `send_payload_with_retries` succeeded for it, and in their order, until it waits
  -- or until a payload could not be sent, which then stays in the queue. The others keep their order,
  -- and the counter is the sum over them. Unless a timer is asked for or the thread panics, the
  -- socket is blocked, the connection is closed, or the queue is empty, so that the whole of it was
  -- sent.
  pub flush_pacing_queue-Paced :
      (a : Actor C K F)
      → (a.state).queued_bytes ≡ queue_bytes (a.state).unpaced_queue
      → Paced (a.state).unpaced_queue a (flush_pacing_queue f prim now a)
  unfolding flush_pacing_queue refilled
  flush_pacing_queue-Paced a h =
      let q = (a.state).unpaced_queue in
      let rate = rate_of f prim now a.state in
      if_holds (Paced q a) a.socket_blocked
        (λ b. at_once q a (no_timer, a) (waits no_timer) (unchanged q no_timer a (refl, h) (inl b)))
        (λ b.
          refill q rate a (pace f prim now (length q + 1) rate (refilled f now rate a))
            (pace-Paced (length q + 1) rate q (refilled f now rate a) (omega arith) (refl, h)))
