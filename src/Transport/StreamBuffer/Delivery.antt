-- ===== src/Transport/StreamBuffer/Delivery.antt =====
-- Any sequence of stream frames, growths of the buffer and reads.
use zetta_transport.Common.{
  ℕ, ◌+◌, ◌-◌, ◌%◌, ◌^◌, ◌≤◌, ◌<◌, ◌≡◌, refl, ap, ◌∙◌, inr, arith, List, [], ◌∷◌, ◌++◌, Option,
  none, some,
}
use zetta_transport.Common.{
  ltb, leb, if_holds, checked_add_holds, length, length-drop, drop, length-append,
}
use mathlib.Core.Path.{subst⁻¹}
use native.Mathlib.Nat.{mod-le}
use zetta_transport.Transport.StreamBuffer.{
  StreamReceiveBuffer, exceeds_final, new, resize, write, read_contiguous, receive,
}
use zetta_transport.Transport.StreamBuffer.Ring.{get_or-append, get_or-drop}
use zetta_transport.Transport.StreamBuffer.Write.{Valid, Agrees, store-Accepted}
use zetta_transport.Transport.StreamBuffer.Resize.{resize-Valid}
use zetta_transport.Transport.StreamBuffer.Read.{Delivers, read_contiguous-Delivers}

pub new-Valid : (content : ℕ → ℕ) (capacity : ℕ) → 0 < capacity → Valid content (new capacity)
unfolding new
new-Valid content capacity pos = record {
  room = pos;
  sized = inr (refl, refl);
  sorted = tt;
  bounded = λ p h. absurd (ground arith);
  heads = (omega arith, omega arith);
  stored = λ p h. absurd (ground arith);
}

-- The buffer stays valid and its read head in place.
abbrev Keeps : (ℕ → ℕ) → ℕ → StreamReceiveBuffer → Type 0
Keeps content head t = Valid content t × (t.read_head ≡ head)

write-Keeps :
    (content : ℕ → ℕ) (s : StreamReceiveBuffer) (offset : ℕ) (bytes : List ℕ)
    → Valid content s
    → Agrees content offset bytes
    → s.read_head ≤ offset
    → Keeps content s.read_head (write s offset bytes).1
unfolding write
write-Keeps content s offset [] v a behind = (v, refl)
write-Keeps content s offset (b ∷ bytes) v a behind =
    checked_add_holds P offset (length (b ∷ bytes)) _ (v, refl)
      (if_holds P (ltb ((s.read_head + s.capacity) % 2 ^ 64) (offset + length (b ∷ bytes)))
        (λ _. (v, refl))
        (λ fits.
          let r =
            store-Accepted content s offset (b ∷ bytes) v a behind
              (ground (arith, mod-le (s.read_head + s.capacity) (2 ^ 64))) (omega arith) in
          (r.valid, r.head_kept)))
  where
    P : Option ℕ × StreamReceiveBuffer → Type 0
    P r = Keeps content s.read_head r.1

Agrees-drop :
    (content : ℕ → ℕ) (offset head : ℕ) (bytes : List ℕ)
    → Agrees content offset bytes
    → offset ≤ head
    → Agrees content head (drop (head - offset) bytes)
Agrees-drop content offset head bytes a le i lt =
    get_or-drop (head - offset) bytes i
    ∙ a (head - offset + i) (omega (arith, lt, length-drop (head - offset) bytes))
    ∙ ap content {x = offset + (head - offset + i)} {y = head + i} (omega arith)

receive-Keeps :
    (content : ℕ → ℕ) (final_size : Option ℕ) (limit : ℕ) (s : StreamReceiveBuffer) (offset : ℕ)
    (bytes : List ℕ)
    → Valid content s
    → Agrees content offset bytes
    → Keeps content s.read_head (receive final_size limit s offset bytes)
unfolding receive
receive-Keeps content final_size limit s offset bytes v a =
    checked_add_holds P offset (length bytes) _ (v, refl)
      (if_holds P (exceeds_final final_size (offset + length bytes)) (λ _. (v, refl))
        (λ _.
          if_holds P (leb (offset + length bytes) s.read_head) (λ _. (v, refl))
            (λ _.
              if_holds P (ltb limit (offset + length bytes)) (λ _. (v, refl))
                (λ _.
                  if_holds P (ltb offset s.read_head)
                    (λ y.
                      write-Keeps content s s.read_head (drop (s.read_head - offset) bytes) v
                        (Agrees-drop content offset s.read_head bytes a (ground arith))
                        (omega arith))
                    (λ n. write-Keeps content s offset bytes v a (ground arith))))))
  where
    P : StreamReceiveBuffer → Type 0
    P = Keeps content s.read_head

-- A stream frame arrives, under some final size and flow-control limit, the buffer grows, or the actor reads for the application.
pub data Event : Type 0 where
  frame : (final_size : Option ℕ) (limit offset : ℕ) (bytes : List ℕ) → Event
  grow : (extra : ℕ) → Event
  read : Event

-- The bytes that the application has got, and the buffer.
abbrev pub Delivery : Type 0
Delivery = List ℕ × StreamReceiveBuffer

abbrev pub deliver : List ℕ → Option (List ℕ) × StreamReceiveBuffer → Delivery
deliver got (none, s) = (got, s)
deliver got (some out, s) = (got ++ out, s)

abbrev pub run : Delivery → List Event → Delivery
run d [] = d
run d (frame final_size limit offset bytes ∷ events) =
    run (d.0, receive final_size limit d.1 offset bytes) events
run d (grow extra ∷ events) = run (d.0, resize d.1 (d.1.capacity + extra)) events
run d (read ∷ events) = run (deliver d.0 (read_contiguous d.1)) events

-- Every frame carries bytes of the stream, in any order, at any offset, any number of times.
abbrev pub Genuine : (ℕ → ℕ) → List Event → Type 0
Genuine content [] = Unit
Genuine content (frame final_size limit offset bytes ∷ events) =
    Agrees content offset bytes × Genuine content events
Genuine content (grow extra ∷ events) = Genuine content events
Genuine content (read ∷ events) = Genuine content events

-- The bytes got are the first of the stream, up to the read head.
abbrev pub Prefix : (ℕ → ℕ) → Delivery → Type 0
Prefix content d = Valid content d.1 × (length d.0 ≡ d.1.read_head) × Agrees content 0 d.0

deliver-Prefix :
    (content : ℕ → ℕ) (got : List ℕ) (s : StreamReceiveBuffer)
    (r : Option (List ℕ) × StreamReceiveBuffer)
    → Prefix content (got, s)
    → Delivers content s r
    → Prefix content (deliver got r)
deliver-Prefix content got s (none, t) p d = subst⁻¹ (λ u. Prefix content (got, u)) d.0 p
deliver-Prefix content got s (some out, t) p d = (
  d.valid,
  omega (arith, length-append got out, p.1, d.head),
  λ i lt.
      get_or-append got out i
      ∙ ground (
        arith,
        lt,
        p.1,
        length-append got out,
        p.2 i,
        d.agrees (i - length got),
        λ (e : s.read_head + (i - length got) ≡ 0 + i). ap content e,
      ),
)

run-Prefix :
    (content : ℕ → ℕ) (d : Delivery) (events : List Event)
    → Prefix content d
    → Genuine content events
    → Prefix content (run d events)
run-Prefix content d [] p g = p
run-Prefix content d (frame final_size limit offset bytes ∷ events) p g =
    let k = receive-Keeps content final_size limit d.1 offset bytes p.0 g.0 in
    run-Prefix content (d.0, receive final_size limit d.1 offset bytes) events
      (k.0, omega (arith, k.1, p.1), p.2) g.1
run-Prefix content d (grow extra ∷ events) p g =
    let r =
      resize-Valid content d.1 (d.1.capacity + extra) p.0 (omega (arith, (p.0).room))
        (omega (arith, (p.0).heads)) in
    run-Prefix content (d.0, resize d.1 (d.1.capacity + extra)) events
      (r.0, omega (arith, r.1, p.1), p.2) g
run-Prefix content d (read ∷ events) p g =
    run-Prefix content (deliver d.0 (read_contiguous d.1)) events
      (deliver-Prefix content d.0 d.1 (read_contiguous d.1) p
        (read_contiguous-Delivers content d.1 p.0))
      g

-- Whatever the order, overlap and repetition of the frames, with reads and growths of the buffer between them, the application gets
-- the bytes of the stream from the first on, in order, once each, as many as the read head says. The
-- capacity is not zero.
pub run_delivers :
    (content : ℕ → ℕ) (capacity : ℕ) (events : List Event)
    → 0 < capacity
    → Genuine content events
    → Prefix content (run ([], new capacity) events)
unfolding new
run_delivers content capacity events pos g =
    run-Prefix content ([], new capacity) events
      (new-Valid content capacity pos, refl, λ i lt. absurd (omega arith)) g
