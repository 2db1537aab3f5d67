-- ===== src/Transport/Actor/Pacing/Queue.antt =====
-- Sending a payload (src/transport/actor/packet_sender.rs) leaves the pacing queue as it is.
use zetta_transport.Common.{ℕ, ◌≡◌, refl, ap, ◌∙◌, List, Option, none, some, length, ltb, if_holds}
use zetta_transport.Error.{Result, ok, err, panic}
use zetta_transport.Crypto.{CryptoEngine}
use zetta_transport.Protocol.Wire.{Buf}
use zetta_transport.Protocol.Frame.{encode}
use zetta_transport.Protocol.PacketHeader.{PacketType}
use zetta_transport.Protocol.PacketHeader
use zetta_transport.Transport.Unacked.{
  UnackedPayload, initial, stream, mtu_probe, stream_close, max_stream_data, reset_stream, close,
  connection_close_v2, datagram,
}
use zetta_transport.Transport.Connection.{ZtConnection, next_number}
use zetta_transport.Transport.Actor.{Actor, Outcome}
use zetta_transport.Transport.Actor.Send.{
  payload_frame, padded, build, note_packet_sent, sendmsg_vectored, booked, transmit, with_number,
  send_packet,
}
use zetta_transport.Transport.Actor.Send.Tracking.{
  Same, sendmsg-Same, next_number-eq-ok, note_packet_sent-Same,
}
use zetta_transport.Transport.Actor.Payloads.{
  Primitives, track, count_retransmit, keep_cookie, transmit_initial, send_initial_packet_internal,
  send_tracked, send_payload_with_retries,
}

abbrev pub queue_of : {C K F : Type 0} → ZtConnection C K F → List (UnackedPayload × ℕ) × ℕ
queue_of c = (c.unpaced_queue, c.queued_bytes)

module _ {C K F : Type 0} where
  Same-queue : (c d : ZtConnection C K F) → Same c d → queue_of d ≡ queue_of c
  Same-queue c d s = ap (λ q. (q, d.queued_bytes)) s.3 ∙ ap (λ n. (c.unpaced_queue, n)) s.4

module _ {C K F : Type 0} ⦃engine : CryptoEngine K⦄ ⦃buf : Buf⦄ where
  booked-queue :
      (book : ℕ → Actor C K F → Actor C K F) (n : ℕ) (r : Outcome C K F)
      → ((a : Actor C K F) → queue_of (book n a).state ≡ queue_of a.state)
      → queue_of ((booked book n r).1).state ≡ queue_of (r.1).state
  unfolding booked
  booked-queue book n (ok u, a) keep = keep a
  booked-queue book n (err e, a) keep = refl
  booked-queue book n (panic, a) keep = refl

  sendmsg-queue :
      (a : Actor C K F) (packet : List ℕ)
      → queue_of ((sendmsg_vectored a packet).1).state ≡ queue_of a.state
  sendmsg-queue a packet =
      Same-queue a.state ((sendmsg_vectored a packet).1).state (sendmsg-Same a packet)

  note-queue : (a : Actor C K F) → queue_of (note_packet_sent a).state ≡ queue_of a.state
  note-queue a = Same-queue a.state (note_packet_sent a).state (note_packet_sent-Same a)

  transmit-queue :
      (book : ℕ → Actor C K F → Actor C K F) (r : Result (List ℕ)) (a : Actor C K F)
      → ((n : ℕ) (a : Actor C K F) → queue_of (book n a).state ≡ queue_of a.state)
      → queue_of ((transmit book r a).1).state ≡ queue_of a.state
  unfolding transmit
  transmit-queue book (ok packet) a keep =
      booked-queue book (length packet) (sendmsg_vectored a packet) (keep (length packet))
      ∙ sendmsg-queue a packet
  transmit-queue book (err e) a keep = refl
  transmit-queue book panic a keep = refl

  with_number-queue :
      (rest : ℕ → Actor C K F → Outcome C K F) (r : Result (ℕ × ZtConnection C K F))
      (a : Actor C K F)
      → next_number a.state ≡ r
      → ((pn : ℕ) (b : Actor C K F) → queue_of ((rest pn b).1).state ≡ queue_of b.state)
      → queue_of ((with_number rest r a).1).state ≡ queue_of a.state
  unfolding with_number
  with_number-queue rest (ok r) a e keep =
      keep r.0 (record a { state = r.1 })
      ∙ ap (λ (c : ZtConnection C K F). queue_of c) (next_number-eq-ok a.state r e).1
  with_number-queue rest (err x) a e keep = refl
  with_number-queue rest panic a e keep = refl

  track-queue :
      (now : ℕ) (payload : UnackedPayload) (retries pn n : ℕ) (a : Actor C K F)
      → queue_of (track now payload retries pn n a).state ≡ queue_of a.state
  unfolding track
  track-queue now payload retries pn n a = refl

  count-queue :
      (retries : ℕ) (a : Actor C K F)
      → queue_of (count_retransmit retries a).state ≡ queue_of a.state
  unfolding count_retransmit
  count-queue retries a =
      if_holds (λ (b : Actor C K F). queue_of b.state ≡ queue_of a.state) (ltb 0 retries)
        (λ e. refl) (λ e. refl)

  send_packet-queue :
      (p_type : PacketType) (payload : ℕ → ℕ → List ℕ) (book : ℕ → ℕ → Actor C K F → Actor C K F)
      (a : Actor C K F)
      → ((pn n : ℕ) (b : Actor C K F) → queue_of (book pn n b).state ≡ queue_of b.state)
      → queue_of ((send_packet p_type payload book a).1).state ≡ queue_of a.state
  unfolding send_packet
  send_packet-queue p_type payload book a keep =
      with_number-queue (λ pn b. transmit (book pn) (build p_type payload pn b) b)
        (next_number a.state) a refl
        (λ pn b. transmit-queue (book pn) (build p_type payload pn b) b (keep pn))

  send_tracked-queue :
      (prim : Primitives K) (now : ℕ) (payload : UnackedPayload) (retries : ℕ) (a : Actor C K F)
      → queue_of ((send_tracked prim now payload retries a).1).state ≡ queue_of a.state
  unfolding send_tracked
  send_tracked-queue prim now payload retries a =
      send_packet-queue PacketHeader.«data»
        (λ h_len pn_len. padded pn_len (encode (payload_frame h_len payload)))
        (λ pn n b. note_packet_sent (track now payload retries pn n (count_retransmit retries b))) a
        (λ pn n d.
          note-queue (track now payload retries pn n (count_retransmit retries d))
          ∙ track-queue now payload retries pn n (count_retransmit retries d)
          ∙ count-queue retries d)

  cookie-queue :
      (o : Option (List ℕ)) (c : ZtConnection C K F) → queue_of (keep_cookie o c) ≡ queue_of c
  cookie-queue none c = refl
  cookie-queue (some bytes) c = refl

  transmit_initial-queue :
      (prim : Primitives K) (now : ℕ) (cookie : Option (List ℕ)) (retries pn : ℕ)
      (r : Result (List ℕ)) (a : Actor C K F)
      → queue_of ((transmit_initial prim now cookie retries pn r a).1).state ≡ queue_of a.state
  unfolding transmit_initial
  transmit_initial-queue prim now cookie retries pn (ok packet) a =
      let kept : Actor C K F = record a {
        state = record a.state { handshake_packet = some packet };
      } in
      let t = (sendmsg_vectored kept packet).1 in
      note-queue (track now (initial cookie) retries pn (length packet) t)
      ∙ track-queue now (initial cookie) retries pn (length packet) t
      ∙ sendmsg-queue kept packet
  transmit_initial-queue prim now cookie retries pn (err e) a = refl
  transmit_initial-queue prim now cookie retries pn panic a = refl

  send_initial-queue :
      (prim : Primitives K) (now : ℕ) (cookie : Option (List ℕ)) (retries : ℕ) (a : Actor C K F)
      → queue_of ((send_initial_packet_internal prim now cookie retries a).1).state
        ≡ queue_of a.state
  unfolding send_initial_packet_internal
  send_initial-queue prim now cookie retries a =
      with_number-queue _ (next_number a.state) a refl (λ pn b.
        transmit_initial-queue prim now cookie retries pn _
          (record b { state = keep_cookie cookie b.state })
        ∙ cookie-queue cookie b.state)

  pub send_payload-queue :
      (prim : Primitives K) (now : ℕ) (payload : UnackedPayload) (retries : ℕ) (a : Actor C K F)
      → queue_of ((send_payload_with_retries prim now payload retries a).1).state ≡ queue_of a.state
  unfolding send_payload_with_retries
  send_payload-queue prim now (initial cookie) retries a =
      send_initial-queue prim now cookie retries a
  send_payload-queue prim now (stream i t o d) retries a =
      send_tracked-queue prim now (stream i t o d) retries a
  send_payload-queue prim now (mtu_probe n) retries a =
      send_tracked-queue prim now (mtu_probe n) retries a
  send_payload-queue prim now (stream_close i n) retries a =
      send_tracked-queue prim now (stream_close i n) retries a
  send_payload-queue prim now (max_stream_data i n) retries a =
      send_tracked-queue prim now (max_stream_data i n) retries a
  send_payload-queue prim now (reset_stream i e n) retries a =
      send_tracked-queue prim now (reset_stream i e n) retries a
  send_payload-queue prim now close retries a = send_tracked-queue prim now close retries a
  send_payload-queue prim now (connection_close_v2 e r) retries a =
      send_tracked-queue prim now (connection_close_v2 e r) retries a
  send_payload-queue prim now (datagram d) retries a =
      send_tracked-queue prim now (datagram d) retries a
