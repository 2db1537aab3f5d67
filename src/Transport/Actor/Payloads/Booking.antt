-- ===== src/Transport/Actor/Payloads/Booking.antt =====
-- The books of the connection under sending (src/transport/actor/packet_sender.rs).
use mathlib.Core.Path.{subst, subst⁻¹}
use zetta_transport.Common.{
  ℕ, ◌+◌, ◌≤◌, ◌<◌, ◌^◌, ◌≡◌, refl, ap, sym, ◌∙◌, arith, List, ltb, length, if_holds,
}
use zetta_transport.Error.{Result, ok, err, panic}
use zetta_transport.Crypto.{CryptoEngine}
use zetta_transport.Protocol.Wire.{Buf}
use zetta_transport.Protocol.Frame.{encode}
use zetta_transport.Protocol.PacketHeader.{PacketType}
use zetta_transport.Protocol.PacketHeader
use zetta_transport.Transport.Unacked.{UnackedPayload, UnackedPacket}
use zetta_transport.Transport.UnackedWindow.{UnackedWindow}
use zetta_transport.Transport.UnackedWindow.Map.{WellFormed, insert-WellFormed}
use zetta_transport.Transport.UnackedWindow.Weight.{weight}
use zetta_transport.Transport.UnackedWindow.Append.{insert-Appended}
use zetta_transport.Transport.Connection.{ZtConnection, next_number}
use zetta_transport.Transport.Connection.Ack.InFlight.{sent}
use zetta_transport.Transport.Actor.{Actor, Outcome}
use zetta_transport.Transport.Actor.Send.{
  payload_frame, padded, build, note_packet_sent, sendmsg_vectored, booked, transmit, with_number,
  send_packet,
}
use zetta_transport.Transport.Actor.Send.Tracking.{
  Same, sendmsg-Same, next_number-eq-ok, note_packet_sent-Same,
}
use zetta_transport.Transport.Actor.Payloads.{
  Primitives, is_probe, track, count_retransmit, send_tracked,
}

module _ {C K F : Type 0} where
  -- The bytes of the packets that are tracked.
  abbrev pub tracked_bytes : ZtConnection C K F → ℕ
  tracked_bytes c = weight sent (c.unacked_packets).deque

  -- The counter of the bytes in flight is the sum over the tracked packets, the window of packets is
  -- well formed, and every number in it is below `n`.
  pub record BookedBelow (n : ℕ) (c : ZtConnection C K F) : Type 0 where
    pub balance : c.bytes_in_flight ≡ tracked_bytes c
    pub formed : WellFormed c.unacked_packets
    pub fresh : (c.unacked_packets).base_pn + length (c.unacked_packets).deque ≤ n

  abbrev pub Booked : ZtConnection C K F → Type 0
  Booked c = BookedBelow c.next_packet_number c

  pub Same-BookedBelow :
      (n : ℕ) (c d : ZtConnection C K F) → Same c d → BookedBelow n c → BookedBelow n d
  Same-BookedBelow n c d s b = record {
    balance =
        s.1 ∙ b.balance ∙ ap (λ (w : UnackedWindow UnackedPacket). weight sent w.deque) (sym s.0);
    formed = subst WellFormed (sym s.0) b.formed;
    fresh =
        subst (λ (w : UnackedWindow UnackedPacket). w.base_pn + length w.deque ≤ n) (sym s.0)
          b.fresh;
  }

  -- Where the bytes that are tracked afterwards do not overflow.
  abbrev pub BookedIfSmall : ZtConnection C K F → Type 0
  BookedIfSmall c = tracked_bytes c < 2 ^ 64 → Booked c

  -- The packet's bytes are added to those that are tracked.
  pub track-bytes :
      (now : ℕ) (payload : UnackedPayload) (retries pn n : ℕ) (a : Actor C K F)
      → BookedBelow pn a.state
      → tracked_bytes (track now payload retries pn n a).state ≡ tracked_bytes a.state + n
  unfolding track
  track-bytes now payload retries pn n a h =
      (insert-Appended sent (a.state).unacked_packets pn
        (record {
          payload = payload;
          sent_at = now;
          retries = retries;
          is_mtu_probe = is_probe payload;
          sent_bytes = n;
        })
        h.formed h.fresh).0

  pub track-Booked :
      (now : ℕ) (payload : UnackedPayload) (retries pn n : ℕ) (a : Actor C K F)
      → BookedBelow pn a.state
      → pn < (a.state).next_packet_number
      → BookedIfSmall (track now payload retries pn n a).state
  unfolding track
  track-Booked now payload retries pn n a b h small =
      let p =
        insert-Appended sent (a.state).unacked_packets pn
          (record {
            payload = payload;
            sent_at = now;
            retries = retries;
            is_mtu_probe = is_probe payload;
            sent_bytes = n;
          })
          b.formed b.fresh in
      record {
        balance = omega (arith, b.balance, p.0, small);
        formed = insert-WellFormed (a.state).unacked_packets pn _ b.formed;
        fresh = omega (arith, p.1);
      }

  pub same-BookedIfSmall : (c d : ZtConnection C K F) → Same c d → BookedIfSmall c → BookedIfSmall d
  same-BookedIfSmall c d s b small = Same-BookedBelow d.next_packet_number c d s (
      subst (λ n. BookedBelow n c) (sym s.2)
        (b (subst (λ (w : UnackedWindow UnackedPacket). weight sent w.deque < 2 ^ 64) s.0 small)))

  pub weaken : (n m : ℕ) (c : ZtConnection C K F) → n ≤ m → BookedBelow n c → BookedBelow m c
  weaken n m c h b = record {
    balance = b.balance;
    formed = b.formed;
    fresh = omega (arith, b.fresh);
  }

  -- After a number is handed out, every number in the window is below it, and it is below the next.
  pub numbered-BookedBelow :
      (c : ZtConnection C K F) (r : ℕ × ZtConnection C K F)
      → next_number c ≡ ok r
      → Booked c
      → BookedBelow r.0 r.1 × (r.0 < (r.1).next_packet_number)
  numbered-BookedBelow c r e b =
      let n = next_number-eq-ok c r e in
      (
        subst⁻¹ (BookedBelow r.0) n.1 (record {
          balance = b.balance;
          formed = b.formed;
          fresh = omega (arith, n.0, b.fresh);
        }),
        omega (arith, n.0, ap (λ (d : ZtConnection C K F). d.next_packet_number) n.1),
      )

  -- What a booking does to the books.
  abbrev pub Books : ((pn sent_bytes : ℕ) → Actor C K F → Actor C K F) → Type 0
  Books book =
      (pn n : ℕ) (b : Actor C K F)
      → BookedBelow pn b.state
      → pn < (b.state).next_packet_number
      → BookedIfSmall (book pn n b).state

module _ {C K F : Type 0} ⦃engine : CryptoEngine K⦄ ⦃buf : Buf⦄ where
  pub note-BookedIfSmall :
      (a : Actor C K F) → BookedIfSmall a.state → BookedIfSmall (note_packet_sent a).state
  note-BookedIfSmall a b =
      same-BookedIfSmall a.state (note_packet_sent a).state (note_packet_sent-Same a) b

  pub booked-BookedIfSmall :
      (book : ℕ → ℕ → Actor C K F → Actor C K F) (pn n : ℕ) (r : Outcome C K F)
      → Books book
      → BookedBelow pn (r.1).state
      → pn < ((r.1).state).next_packet_number
      → BookedIfSmall ((booked (book pn) n r).1).state
  unfolding booked
  booked-BookedIfSmall book pn n (ok u, a) books b below = books pn n a b below
  booked-BookedIfSmall book pn n (err e, a) books b below =
      λ small. weaken pn (a.state).next_packet_number a.state (omega arith) b
  booked-BookedIfSmall book pn n (panic, a) books b below =
      λ small. weaken pn (a.state).next_packet_number a.state (omega arith) b

  pub transmit-BookedIfSmall :
      (book : ℕ → ℕ → Actor C K F → Actor C K F) (pn : ℕ) (r : Result (List ℕ)) (a : Actor C K F)
      → Books book
      → BookedBelow pn a.state
      → pn < (a.state).next_packet_number
      → BookedIfSmall ((transmit (book pn) r a).1).state
  unfolding transmit
  transmit-BookedIfSmall book pn (ok packet) a books b below =
      let s = sendmsg-Same a packet in
      booked-BookedIfSmall book pn (length packet) (sendmsg_vectored a packet) books
        (Same-BookedBelow pn a.state ((sendmsg_vectored a packet).1).state s b)
        (subst (λ m. pn < m) (sym s.2) below)
  transmit-BookedIfSmall book pn (err e) a books b below =
      λ small. weaken pn (a.state).next_packet_number a.state (omega arith) b
  transmit-BookedIfSmall book pn panic a books b below =
      λ small. weaken pn (a.state).next_packet_number a.state (omega arith) b

  -- What follows a number keeps the books if it does so for a number above the window.
  pub with_number-BookedIfSmall :
      (rest : ℕ → Actor C K F → Outcome C K F) (r : Result (ℕ × ZtConnection C K F))
      (a : Actor C K F)
      → next_number a.state ≡ r
      → ((pn : ℕ) (b : Actor C K F)
          → BookedBelow pn b.state
          → pn < (b.state).next_packet_number
          → BookedIfSmall ((rest pn b).1).state)
      → Booked a.state
      → BookedIfSmall ((with_number rest r a).1).state
  unfolding with_number
  with_number-BookedIfSmall rest (ok r) a e keep b =
      let n = numbered-BookedBelow a.state r e b in keep r.0 (record a { state = r.1 }) n.0 n.1
  with_number-BookedIfSmall rest (err x) a e keep b = λ small. b
  with_number-BookedIfSmall rest panic a e keep b = λ small. b

  pub send_packet-BookedIfSmall :
      (p_type : PacketType) (payload : ℕ → ℕ → List ℕ) (book : ℕ → ℕ → Actor C K F → Actor C K F)
      (a : Actor C K F)
      → Books book
      → Booked a.state
      → BookedIfSmall ((send_packet p_type payload book a).1).state
  unfolding send_packet
  send_packet-BookedIfSmall p_type payload book a books =
      with_number-BookedIfSmall (λ pn b. transmit (book pn) (build p_type payload pn b) b)
        (next_number a.state) a refl
        (λ pn b. transmit-BookedIfSmall book pn (build p_type payload pn b) b books)

  count-Same : (retries : ℕ) (a : Actor C K F) → Same a.state (count_retransmit retries a).state
  unfolding count_retransmit
  count-Same retries a =
      if_holds (λ (b : Actor C K F). Same a.state b.state) (ltb 0 retries)
        (λ e. (refl, refl, refl, refl, refl)) (λ e. (refl, refl, refl, refl, refl))

  pub track_and_note-Books :
      (now : ℕ) (payload : UnackedPayload) (retries : ℕ)
      → Books (λ pn n (b : Actor C K F).
        note_packet_sent (track now payload retries pn n (count_retransmit retries b)))
  track_and_note-Books now payload retries pn n b books below =
      let counted = count_retransmit retries b in
      note-BookedIfSmall (track now payload retries pn n counted) (
        track-Booked now payload retries pn n counted
          (Same-BookedBelow pn b.state counted.state (count-Same retries b) books)
          (subst (λ m. pn < m) (sym (count-Same retries b).2) below))

  -- Sending a payload keeps the books, whatever fails on the way: the number is refused, the packet
  -- cannot be encrypted, the socket does not take it, or a server may not answer yet.
  pub send_tracked-BookedIfSmall :
      (prim : Primitives K) (now : ℕ) (payload : UnackedPayload) (retries : ℕ) (a : Actor C K F)
      → Booked a.state
      → BookedIfSmall ((send_tracked prim now payload retries a).1).state
  unfolding send_tracked
  send_tracked-BookedIfSmall prim now payload retries a b =
      send_packet-BookedIfSmall PacketHeader.«data»
        (λ h_len pn_len. padded pn_len (encode (payload_frame h_len payload)))
        (λ pn sent_bytes b.
          note_packet_sent (track now payload retries pn sent_bytes (count_retransmit retries b)))
        a (track_and_note-Books now payload retries) b
