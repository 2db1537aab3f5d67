-- ===== src/Transport/Actor/Send/Amplification.antt =====
-- The limit of `sendmsg_vectored` (src/transport/actor/packet_sender.rs) on what a server sends before it knows its
-- peer's address.
use mathlib.Core.Path.{subst}
use zetta_transport.Common.{
  ℕ, ◌+◌, ◌*◌, ◌≤◌, ◌<◌, ◌^◌, ◌≡◌, refl, sym, arith, true, false, not, ◌&&◌, List, [], ◌∷◌, ◌++◌,
  All, ltb, max, length, if_holds, list_holds,
}
use zetta_transport.Transport.Congestion.{wrap}
use zetta_transport.Transport.Connection.{handshaking}
use zetta_transport.Transport.Actor.{
  Actor, Outcome, Answer, sent, would_block, failed, is_handshaking,
}
use zetta_transport.Transport.Actor.Send.{answered, try_send, sendmsg_vectored}

-- The bytes of the datagrams that the socket took.
abbrev pub wire_bytes : List (ℕ × List ℕ) → ℕ
wire_bytes [] = 0
wire_bytes (e ∷ es) = length e.1 + wire_bytes es

wire_bytes-append :
    (es : List (ℕ × List ℕ)) (e : ℕ × List ℕ)
    → wire_bytes (es ++ (e ∷ [])) ≡ wire_bytes es + length e.1
wire_bytes-append [] e = omega arith
wire_bytes-append (x ∷ es) e = omega (arith, wire_bytes-append es e)

module _ {C K F : Type 0} where
  -- The server hands the packets to the socket one after the other.
  pub send_all : List (List ℕ) → Actor C K F → Actor C K F
  send_all [] a = a
  send_all (packet ∷ packets) a = send_all packets (sendmsg_vectored a packet).1

  -- A server in the handshake that received `received` bytes, and what went to the wire is counted.
  pub record Unproven (received : ℕ) (a : Actor C K F) : Type 0 where
    pub is_server : a.is_client ≡ false
    pub is_early : (a.state).state ≡ handshaking
    pub received_bytes : (a.state).bytes_received ≡ received
    pub counted : (a.state).bytes_sent ≡ wire_bytes a.wire
    pub limited : wire_bytes a.wire ≤ 3 * max received 1

  answered-Unproven :
      (received : ℕ) (answer : Answer) (bytes : List ℕ) (a : Actor C K F)
      → 3 * max received 1 < 2 ^ 64
      → wire_bytes a.wire + length bytes ≤ 3 * max received 1
      → Unproven received a
      → Unproven received (answered answer bytes a).1
  unfolding answered
  answered-Unproven received sent bytes a fits room u =
      let grown = wire_bytes-append a.wire ((a.state).addr, bytes) in
      record {
        is_server = u.is_server;
        is_early = u.is_early;
        received_bytes = u.received_bytes;
        counted = omega (arith, grown, u.counted, room, fits);
        limited = omega (arith, grown, room);
      }
  answered-Unproven received would_block bytes a fits room u = record {
    is_server = u.is_server;
    is_early = u.is_early;
    received_bytes = u.received_bytes;
    counted = u.counted;
    limited = u.limited;
  }
  answered-Unproven received failed bytes a fits room u = u

  try_send-Unproven :
      (received : ℕ) (a : Actor C K F) (bytes : List ℕ)
      → 3 * max received 1 < 2 ^ 64
      → wire_bytes a.wire + length bytes ≤ 3 * max received 1
      → Unproven received a
      → Unproven received (try_send a bytes).1
  unfolding try_send
  try_send-Unproven received a bytes fits room u =
      list_holds (λ (r : Outcome C K F). Unproven received r.1) a.answers
        (λ e. answered-Unproven received would_block bytes a fits room u)
        (λ answer answers e.
          answered-Unproven received answer bytes (record a { answers = answers }) fits room
            (record {
              is_server = u.is_server;
              is_early = u.is_early;
              received_bytes = u.received_bytes;
              counted = u.counted;
              limited = u.limited;
            }))

  sendmsg-Unproven :
      (received : ℕ) (a : Actor C K F) (bytes : List ℕ)
      → 3 * max received 1 + length bytes < 2 ^ 64
      → Unproven received a
      → Unproven received (sendmsg_vectored a bytes).1
  unfolding sendmsg_vectored
  sendmsg-Unproven received a bytes fits u =
      if_holds (λ (r : Outcome C K F). Unproven received r.1)
        (not a.is_client
          && (is_handshaking (a.state).state
              && ltb (wrap (3 * max (a.state).bytes_received 1))
                  (wrap ((a.state).bytes_sent + length bytes))))
        (λ e. u)
        (λ e.
          let early : is_handshaking (a.state).state ≡ true =
            subst (λ s. is_handshaking s ≡ true) (sym u.is_early) refl in
          try_send-Unproven received a bytes (omega (arith, fits))
            (ground (arith, e, early, u.is_server, u.received_bytes, u.counted, u.limited, fits)) u)

  -- Whatever packets a server hands to its socket during the handshake, and whatever the socket
  -- answers, at most three times the bytes received go to the wire (three, if none were), and the
  -- counter of the bytes sent is what went there, as long as the numbers fit a word.
  pub amplification_limited :
      (received : ℕ) (packets : List (List ℕ)) (a : Actor C K F)
      → All (λ packet. 3 * max received 1 + length packet < 2 ^ 64) packets
      → Unproven received a
      → Unproven received (send_all packets a)
  unfolding send_all
  amplification_limited received [] a fits u = u
  amplification_limited received (packet ∷ packets) a fits u =
      amplification_limited received packets (sendmsg_vectored a packet).1 fits.1
        (sendmsg-Unproven received a packet fits.0 u)
