-- ===== src/Transport/Actor/Outgoing/Keeping.antt =====
-- Sending a frame (src/transport/actor/packet_sender.rs) leaves the streams of the actor as they are.
use zetta_transport.Common.{
  ℕ, ◌+◌, ◌*◌, ◌≡◌, refl, ap, ◌∙◌, Bool, not, ◌&&◌, List, ltb, max, length, if_holds, list_holds,
}
use zetta_transport.Error.{Result, ok, err, panic}
use zetta_transport.Crypto.{CryptoEngine}
use zetta_transport.Protocol.Wire.{Buf}
use zetta_transport.Protocol.Frame.{Frame}
use zetta_transport.Transport.StreamState.{Streams}
use zetta_transport.Transport.Congestion.{wrap}
use zetta_transport.Transport.Connection.{ZtConnection, next_number}
use zetta_transport.Transport.Actor.{
  Actor, Outcome, Answer, sent, would_block, failed, is_handshaking,
}
use zetta_transport.Transport.Actor.Send.{answered, try_send, sendmsg_vectored, with_number}
use zetta_transport.Transport.Actor.Send.Tracking.{next_number-eq-ok}
use zetta_transport.Transport.Actor.Control.{transmit_to, send_frame_immediate}

-- What the numbering of streams depends on.
abbrev pub numbering : {C K F : Type 0} → Actor C K F → Bool × ℕ × Streams
numbering a = (a.is_client, a.next_stream_id, (a.state).streams)

module _ {C K F : Type 0} where
  answered-numbering :
      (answer : Answer) (bytes : List ℕ) (a : Actor C K F)
      → numbering (answered answer bytes a).1 ≡ numbering a
  unfolding answered
  answered-numbering sent bytes a = refl
  answered-numbering would_block bytes a = refl
  answered-numbering failed bytes a = refl

  try_send-numbering :
      (a : Actor C K F) (bytes : List ℕ) → numbering (try_send a bytes).1 ≡ numbering a
  unfolding try_send
  try_send-numbering a bytes =
      list_holds (λ (r : Outcome C K F). numbering r.1 ≡ numbering a) a.answers
        (λ e. answered-numbering would_block bytes a)
        (λ answer answers e. answered-numbering answer bytes (record a { answers = answers }))

  sendmsg-numbering :
      (a : Actor C K F) (bytes : List ℕ) → numbering (sendmsg_vectored a bytes).1 ≡ numbering a
  unfolding sendmsg_vectored
  sendmsg-numbering a bytes =
      if_holds (λ (r : Outcome C K F). numbering r.1 ≡ numbering a)
        (not a.is_client
          && (is_handshaking (a.state).state
              && ltb (wrap (3 * max (a.state).bytes_received 1))
                  (wrap ((a.state).bytes_sent + length bytes))))
        (λ limited. refl) (λ free. try_send-numbering a bytes)

module _ {C K F : Type 0} ⦃engine : CryptoEngine K⦄ ⦃buf : Buf⦄ where
  transmit_to-numbering :
      (to_addr : ℕ) (r : Result (List ℕ)) (a : Actor C K F)
      → numbering (transmit_to to_addr r a).1 ≡ numbering a
  unfolding transmit_to
  transmit_to-numbering to_addr (ok packet) a =
      sendmsg-numbering (record a { state = record a.state { addr = to_addr } }) packet
  transmit_to-numbering to_addr (err e) a = refl
  transmit_to-numbering to_addr panic a = refl

  with_number-numbering :
      (rest : ℕ → Actor C K F → Outcome C K F) (r : Result (ℕ × ZtConnection C K F))
      (a : Actor C K F)
      → next_number a.state ≡ r
      → ((pn : ℕ) (b : Actor C K F) → numbering (rest pn b).1 ≡ numbering b)
      → numbering (with_number rest r a).1 ≡ numbering a
  unfolding with_number
  with_number-numbering rest (ok r) a e keep =
      keep r.0 (record a { state = r.1 })
      ∙ ap (λ (c : ZtConnection C K F). (a.is_client, a.next_stream_id, c.streams))
          (next_number-eq-ok a.state r e).1
  with_number-numbering rest (err x) a e keep = refl
  with_number-numbering rest panic a e keep = refl

  pub send_frame-numbering :
      (frame : Frame) (to_addr : ℕ) (a : Actor C K F)
      → numbering (send_frame_immediate frame to_addr a).1 ≡ numbering a
  unfolding send_frame_immediate
  send_frame-numbering frame to_addr a =
      with_number-numbering _ (next_number a.state) a refl
        (λ pn b. transmit_to-numbering to_addr _ b)
