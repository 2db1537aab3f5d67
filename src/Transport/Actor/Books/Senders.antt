-- ===== src/Transport/Actor/Books/Senders.antt =====
-- Each sending operation of src/transport/actor/packet_sender.rs keeps the books.
use mathlib.Core.Path.{subst}
use zetta_transport.Common.{
  ℕ, ◌<◌, refl, sym, arith, List, Option, none, some, ◌==◌, length, if_holds, option_holds,
}
use zetta_transport.Error.{Result, ok, err, panic}
use zetta_transport.Crypto.{CryptoEngine}
use zetta_transport.Protocol.Wire.{Buf}
use zetta_transport.Protocol.Frame.{Frame}
use zetta_transport.Transport.Unacked.{
  UnackedPayload, initial, stream, mtu_probe, stream_close, max_stream_data, reset_stream, close,
  connection_close_v2, datagram,
}
use zetta_transport.Transport.Connection.{ZtConnection, next_number, probe_target}
use zetta_transport.Transport.Actor.{Actor, Outcome, is_active}
use zetta_transport.Transport.Actor.Send.{sendmsg_vectored}
use zetta_transport.Transport.Actor.Send.Tracking.{Same, sendmsg-Same}
use zetta_transport.Transport.Actor.Payloads.{
  Primitives, track, keep_cookie, build_initial, transmit_initial, send_initial_packet_internal,
  send_payload_with_retries, requeue, retransmit_payload,
}
use zetta_transport.Transport.Actor.Payloads.Booking.{
  BookedBelow, Booked, BookedIfSmall, Books, Same-BookedBelow, same-BookedIfSmall, weaken,
  track-Booked, track-bytes, note-BookedIfSmall, transmit-BookedIfSmall, with_number-BookedIfSmall,
  send_tracked-BookedIfSmall,
}
use zetta_transport.Transport.Actor.Control.{
  refresh_window, acks_flushed, transmit_acks, flush_acks, book_probe, ignore_unsent, send_probe,
  send_mtu_probe, transmit_to, send_frame_immediate,
}

module _ {C K F : Type 0} ⦃engine : CryptoEngine K⦄ ⦃buf : Buf⦄ where
  -- Nothing is sent: the window stays below the next number.
  idle :
      (pn : ℕ) (c : ZtConnection C K F)
      → BookedBelow pn c
      → pn < c.next_packet_number
      → BookedIfSmall c
  idle pn c b below small = weaken pn c.next_packet_number c (omega arith) b

  cookie-Same : (o : Option (List ℕ)) (c : ZtConnection C K F) → Same c (keep_cookie o c)
  cookie-Same none c = (refl, refl, refl, refl, refl)
  cookie-Same (some bytes) c = (refl, refl, refl, refl, refl)

  transmit_initial-BookedIfSmall :
      (prim : Primitives K) (now : ℕ) (cookie : Option (List ℕ)) (retries pn : ℕ)
      (r : Result (List ℕ)) (a : Actor C K F)
      → BookedBelow pn a.state
      → pn < (a.state).next_packet_number
      → BookedIfSmall ((transmit_initial prim now cookie retries pn r a).1).state
  unfolding transmit_initial
  transmit_initial-BookedIfSmall prim now cookie retries pn (ok packet) a b below =
      let kept : Actor C K F = record a {
        state = record a.state { handshake_packet = some packet };
      } in
      let s = sendmsg-Same kept packet in
      let t = (sendmsg_vectored kept packet).1 in
      note-BookedIfSmall (track now (initial cookie) retries pn (length packet) t) (
        track-Booked now (initial cookie) retries pn (length packet) t
          (Same-BookedBelow pn a.state t.state s b) (subst (λ m. pn < m) (sym s.2) below))
  transmit_initial-BookedIfSmall prim now cookie retries pn (err e) a b below =
      idle pn a.state b below
  transmit_initial-BookedIfSmall prim now cookie retries pn panic a b below =
      idle pn a.state b below

  send_initial-BookedIfSmall :
      (prim : Primitives K) (now : ℕ) (cookie : Option (List ℕ)) (retries : ℕ) (a : Actor C K F)
      → Booked a.state
      → BookedIfSmall ((send_initial_packet_internal prim now cookie retries a).1).state
  unfolding send_initial_packet_internal
  send_initial-BookedIfSmall prim now cookie retries a =
      with_number-BookedIfSmall
        (λ pn b.
          let kept = record b { state = keep_cookie cookie b.state } in
          transmit_initial prim now cookie retries pn (build_initial prim cookie pn kept) kept)
        (next_number a.state) a refl
        (λ pn b books below.
          let s = cookie-Same cookie b.state in
          let kept : Actor C K F = record b { state = keep_cookie cookie b.state } in
          transmit_initial-BookedIfSmall prim now cookie retries pn
            (build_initial prim cookie pn kept) kept
            (Same-BookedBelow pn b.state kept.state s books) (subst (λ m. pn < m) (sym s.2) below))

  pub send_payload-BookedIfSmall :
      (prim : Primitives K) (now : ℕ) (payload : UnackedPayload) (retries : ℕ) (a : Actor C K F)
      → Booked a.state
      → BookedIfSmall ((send_payload_with_retries prim now payload retries a).1).state
  unfolding send_payload_with_retries
  send_payload-BookedIfSmall prim now (initial cookie) retries a b =
      send_initial-BookedIfSmall prim now cookie retries a b
  send_payload-BookedIfSmall prim now (stream i t o d) retries a b =
      send_tracked-BookedIfSmall prim now (stream i t o d) retries a b
  send_payload-BookedIfSmall prim now (mtu_probe n) retries a b =
      send_tracked-BookedIfSmall prim now (mtu_probe n) retries a b
  send_payload-BookedIfSmall prim now (stream_close i n) retries a b =
      send_tracked-BookedIfSmall prim now (stream_close i n) retries a b
  send_payload-BookedIfSmall prim now (max_stream_data i n) retries a b =
      send_tracked-BookedIfSmall prim now (max_stream_data i n) retries a b
  send_payload-BookedIfSmall prim now (reset_stream i e n) retries a b =
      send_tracked-BookedIfSmall prim now (reset_stream i e n) retries a b
  send_payload-BookedIfSmall prim now close retries a b =
      send_tracked-BookedIfSmall prim now close retries a b
  send_payload-BookedIfSmall prim now (connection_close_v2 e r) retries a b =
      send_tracked-BookedIfSmall prim now (connection_close_v2 e r) retries a b
  send_payload-BookedIfSmall prim now (datagram d) retries a b =
      send_tracked-BookedIfSmall prim now (datagram d) retries a b

  requeue-BookedIfSmall :
      (payload : UnackedPayload) (retries : ℕ) (r : Outcome C K F)
      → BookedIfSmall (r.1).state
      → BookedIfSmall ((requeue payload retries r).1).state
  unfolding requeue
  requeue-BookedIfSmall payload retries (ok u, a) b = b
  requeue-BookedIfSmall payload retries (err e, a) b = λ small. record {
    balance = (b small).balance;
    formed = (b small).formed;
    fresh = (b small).fresh;
  }
  requeue-BookedIfSmall payload retries (panic, a) b = b

  pub retransmit-BookedIfSmall :
      (prim : Primitives K) (now : ℕ) (payload : UnackedPayload) (retries : ℕ) (a : Actor C K F)
      → Booked a.state
      → BookedIfSmall ((retransmit_payload prim now payload retries a).1).state
  unfolding retransmit_payload
  retransmit-BookedIfSmall prim now payload retries a b =
      requeue-BookedIfSmall payload retries (send_payload_with_retries prim now payload retries a)
        (send_payload-BookedIfSmall prim now payload retries a b)

  acks_flushed-BookedIfSmall :
      (r : Outcome C K F) → BookedIfSmall (r.1).state → BookedIfSmall ((acks_flushed r).1).state
  unfolding acks_flushed
  acks_flushed-BookedIfSmall (ok u, a) b = note-BookedIfSmall a b
  acks_flushed-BookedIfSmall (err e, a) b = b
  acks_flushed-BookedIfSmall (panic, a) b = b

  transmit_acks-BookedIfSmall :
      (r : Result (List ℕ)) (a : Actor C K F)
      → BookedIfSmall a.state
      → BookedIfSmall ((transmit_acks r a).1).state
  unfolding transmit_acks
  transmit_acks-BookedIfSmall (ok packet) a b =
      acks_flushed-BookedIfSmall (sendmsg_vectored a packet)
        (same-BookedIfSmall a.state ((sendmsg_vectored a packet).1).state (sendmsg-Same a packet) b)
  transmit_acks-BookedIfSmall (err e) a b = b
  transmit_acks-BookedIfSmall panic a b = b

  refresh-Same : (d : Actor C K F) → Same d.state (refresh_window d).state
  unfolding refresh_window
  refresh-Same d = (refl, refl, refl, refl, refl)

  pub flush_acks-BookedIfSmall :
      (now : ℕ) (a : Actor C K F) → Booked a.state → BookedIfSmall ((flush_acks now a).1).state
  unfolding flush_acks
  flush_acks-BookedIfSmall now a b =
      if_holds (λ (r : Outcome C K F). BookedIfSmall (r.1).state) (a.pending_acks == 0)
        (λ none_pending small. b)
        (λ pending.
          with_number-BookedIfSmall _ (next_number a.state) a refl
            (λ pn d books below. transmit_acks-BookedIfSmall _ (refresh_window d) (
              same-BookedIfSmall d.state (refresh_window d).state (refresh-Same d)
                (idle pn d.state books below)))
            b)

  book_probe-Books :
      (now target_size : ℕ) → Books (book_probe {C = C} {K = K} {F = F} now target_size)
  unfolding book_probe
  book_probe-Books now target_size pn n b books below = note-BookedIfSmall _ (λ small.
      let t = track-Booked now (mtu_probe target_size) 0 pn n b books below small in
      let grown = track-bytes now (mtu_probe target_size) 0 pn n b books in
      record {
        balance = omega (arith, grown, books.balance, small);
        formed = t.formed;
        fresh = t.fresh;
      })

  ignore_unsent-BookedIfSmall :
      (p : Result (List ℕ)) (r : Outcome C K F)
      → BookedIfSmall (r.1).state
      → BookedIfSmall ((ignore_unsent p r).1).state
  unfolding ignore_unsent
  ignore_unsent-BookedIfSmall (ok packet) (ok u, a) b = b
  ignore_unsent-BookedIfSmall (ok packet) (err e, a) b = b
  ignore_unsent-BookedIfSmall (ok packet) (panic, a) b = b
  ignore_unsent-BookedIfSmall (err e) r b = b
  ignore_unsent-BookedIfSmall panic r b = b

  send_probe-BookedIfSmall :
      (now target_size : ℕ) (a : Actor C K F)
      → Booked a.state
      → BookedIfSmall ((send_probe now target_size a).1).state
  unfolding send_probe
  send_probe-BookedIfSmall now target_size a =
      with_number-BookedIfSmall _ (next_number a.state) a refl (λ pn d books below.
        let s = refresh-Same d in
        ignore_unsent-BookedIfSmall _ _ (
          transmit-BookedIfSmall (book_probe now target_size) pn _ (refresh_window d)
            (book_probe-Books now target_size)
            (Same-BookedBelow pn d.state (refresh_window d).state s books)
            (subst (λ m. pn < m) (sym s.2) below)))

  pub send_mtu_probe-BookedIfSmall :
      (now : ℕ) (a : Actor C K F) → Booked a.state → BookedIfSmall ((send_mtu_probe now a).1).state
  unfolding send_mtu_probe
  send_mtu_probe-BookedIfSmall now a b =
      if_holds (λ (r : Outcome C K F). BookedIfSmall (r.1).state) (is_active (a.state).state)
        (λ on.
          option_holds (λ (r : Outcome C K F). BookedIfSmall (r.1).state)
            (probe_target (a.state).mtu_min (a.state).mtu_max) (λ e small. b)
            (λ target_size e. send_probe-BookedIfSmall now target_size a b))
        (λ off small. b)

  transmit_to-BookedIfSmall :
      (to_addr : ℕ) (r : Result (List ℕ)) (a : Actor C K F)
      → BookedIfSmall a.state
      → BookedIfSmall ((transmit_to to_addr r a).1).state
  unfolding transmit_to
  transmit_to-BookedIfSmall to_addr (ok packet) a b =
      let there : Actor C K F = record a { state = record a.state { addr = to_addr } } in
      same-BookedIfSmall a.state ((transmit_to to_addr (ok packet) a).1).state
        (sendmsg-Same there packet) b
  transmit_to-BookedIfSmall to_addr (err e) a b = b
  transmit_to-BookedIfSmall to_addr panic a b = b

  pub send_frame-BookedIfSmall :
      (frame : Frame) (to_addr : ℕ) (a : Actor C K F)
      → Booked a.state
      → BookedIfSmall ((send_frame_immediate frame to_addr a).1).state
  unfolding send_frame_immediate
  send_frame-BookedIfSmall frame to_addr a =
      with_number-BookedIfSmall _ (next_number a.state) a refl
        (λ pn d books below. transmit_to-BookedIfSmall to_addr _ d (idle pn d.state books below))
