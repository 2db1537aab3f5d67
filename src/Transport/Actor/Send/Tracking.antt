-- ===== src/Transport/Actor/Send/Tracking.antt =====
-- What sending a packet (src/transport/actor/packet_sender.rs) leaves alone of the connection: the packets in
-- flight, but for the packet that is sent.
use zetta_transport.Common.{
  ℕ, ◌+◌, ◌*◌, ◌≡◌, checked_add_holds, refl, ap, sym, max, not, ◌&&◌, List, ltb, leb, length,
  if_holds, option_holds, list_holds, saturating_add,
}
use zetta_transport.Error.{Result, ok}
use zetta_transport.Crypto.{CryptoEngine}
use zetta_transport.Transport.Congestion.{wrap}
use zetta_transport.Transport.Connection.{ZtConnection, next_number}
use zetta_transport.Transport.Actor.{
  Actor, Outcome, Answer, sent, would_block, failed, is_handshaking, is_active,
}
use zetta_transport.Transport.Actor.Send.{note_packet_sent, answered, try_send, sendmsg_vectored}

module _ {C K F : Type 0} where
  -- The same packets in flight, as many bytes, the same next number and the same queue.
  abbrev pub Same : ZtConnection C K F → ZtConnection C K F → Type 0
  Same c d =
      (d.unacked_packets ≡ c.unacked_packets)
      × (d.bytes_in_flight ≡ c.bytes_in_flight)
      × (d.next_packet_number ≡ c.next_packet_number)
      × (d.unpaced_queue ≡ c.unpaced_queue)
      × (d.queued_bytes ≡ c.queued_bytes)

  answered-Same :
      (answer : Answer) (bytes : List ℕ) (a : Actor C K F)
      → Same a.state ((answered answer bytes a).1).state
  unfolding answered
  answered-Same sent bytes a = (refl, refl, refl, refl, refl)
  answered-Same would_block bytes a = (refl, refl, refl, refl, refl)
  answered-Same failed bytes a = (refl, refl, refl, refl, refl)

  try_send-Same : (a : Actor C K F) (bytes : List ℕ) → Same a.state ((try_send a bytes).1).state
  unfolding try_send
  try_send-Same a bytes =
      list_holds (λ (r : Outcome C K F). Same a.state (r.1).state) a.answers
        (λ e. answered-Same would_block bytes a)
        (λ answer answers e. answered-Same answer bytes (record a { answers = answers }))

  pub sendmsg-Same :
      (a : Actor C K F) (bytes : List ℕ) → Same a.state ((sendmsg_vectored a bytes).1).state
  unfolding sendmsg_vectored
  sendmsg-Same a bytes =
      if_holds (λ (r : Outcome C K F). Same a.state (r.1).state)
        (not a.is_client
          && (is_handshaking (a.state).state
              && ltb (wrap (3 * max (a.state).bytes_received 1))
                  (wrap ((a.state).bytes_sent + length bytes))))
        (λ limited. (refl, refl, refl, refl, refl)) (λ free. try_send-Same a bytes)

  -- A number that is handed out is the next one, and only the counter moves.
  pub next_number-eq-ok :
      (c : ZtConnection C K F) (r : ℕ × ZtConnection C K F)
      → next_number c ≡ ok r
      → (r.0 ≡ c.next_packet_number)
        × (r.1 ≡ record c { next_packet_number = c.next_packet_number + 1 })
  unfolding next_number
  next_number-eq-ok c r =
      checked_add_holds
        (λ (o : Result (ℕ × ZtConnection C K F)).
          o ≡ ok r
          → (r.0 ≡ c.next_packet_number)
            × (r.1 ≡ record c { next_packet_number = c.next_packet_number + 1 }))
        c.next_packet_number 1
        (λ next. ok (c.next_packet_number, record c { next_packet_number = next })) (λ e. absurd cc)
        (λ e.
          let same : (
            c.next_packet_number,
            record c { next_packet_number = c.next_packet_number + 1 },
          )
              ≡ r =
            cc in
          (
            ap (λ (q : ℕ × ZtConnection C K F). q.0) (sym same),
            ap (λ (q : ℕ × ZtConnection C K F). q.1) (sym same),
          ))

module _ {C K F : Type 0} ⦃engine : CryptoEngine K⦄ where
  pub note_packet_sent-Same : (a : Actor C K F) → Same a.state (note_packet_sent a).state
  unfolding note_packet_sent
  note_packet_sent-Same a =
      if_holds (λ (b : Actor C K F). Same a.state b.state) (is_active (a.state).state)
        (λ on.
          option_holds (λ (b : Actor C K F). Same a.state b.state) (a.state).crypto
            (λ e. (refl, refl, refl, refl, refl))
            (λ crypto e.
              if_holds (λ (b : Actor C K F). Same a.state b.state)
                (leb (a.config).key_update_packet_interval
                  (saturating_add (a.state).packets_since_key_update 1))
                (λ rotate. (refl, refl, refl, refl, refl))
                (λ wait. (refl, refl, refl, refl, refl))))
        (λ off. (refl, refl, refl, refl, refl))
