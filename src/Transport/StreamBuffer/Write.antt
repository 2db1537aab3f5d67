-- ===== src/Transport/StreamBuffer/Write.antt =====
-- `write` keeps the received bytes of the stream and adds the new ones.
use zetta_transport.Common.{
  ℕ, ◌+◌, ◌-◌, ◌%◌, ◌^◌, ◌≤◌, ◌<◌, ◌≡◌, refl, sym, ap, ◌∙◌, ◌⊎◌, inl, inr, arith, true, false, not,
  ◌||◌, List, [], ◌∷◌, Option, none, some,
}
use zetta_transport.Common.{
  ltb, leb, if◌then◌else◌, if_holds, length, get_or, replicate, length-replicate, u64_max,
}
use native.Mathlib.Nat.{mod-lt}
use zetta_transport.Transport.StreamBuffer.{
  Entries, StreamReceiveBuffer, no_bytes, add_range, copy_chunks, store, write,
}
use zetta_transport.Transport.StreamBuffer.Entries.{within, holds, Sorted}
use zetta_transport.Transport.StreamBuffer.Received.{add_range-Sorted, holds-add_range}
use zetta_transport.Transport.StreamBuffer.Counted.{tally, holds-add_range_counted}
use zetta_transport.Transport.StreamBuffer.Ring.{
  ring_place, ahead, length-copy_chunks, get_or-copy_chunks,
}

-- The buffer holds the bytes of the stream `content` at the received positions, which lie between the
-- read head and the write head, within the capacity.
pub record Valid (content : ℕ → ℕ) (s : StreamReceiveBuffer) : Type 0 where
  pub room : 0 < s.capacity
  pub sized : (length s.buffer ≡ s.capacity) ⊎ ((s.buffer ≡ []) × (s.received_ranges ≡ []))
  pub sorted : Sorted s.received_ranges
  pub bounded :
      (p : ℕ)
      → holds s.received_ranges p ≡ true
      → (s.read_head ≤ p) × (p < s.read_head + s.capacity) × (p < s.write_head)
  pub heads : (s.read_head ≤ s.write_head) × (s.write_head ≤ s.read_head + s.capacity)
  pub stored :
      (p : ℕ) → holds s.received_ranges p ≡ true → get_or s.buffer (p % s.capacity) 0 ≡ content p

-- The bytes are those of the stream from the offset on.
abbrev pub Agrees : (ℕ → ℕ) → ℕ → List ℕ → Type 0
Agrees content offset bytes = (i : ℕ) → i < length bytes → get_or bytes i 0 ≡ content (offset + i)

module _ (content : ℕ → ℕ) (s : StreamReceiveBuffer) (offset : ℕ) (bytes : List ℕ)
    (v : Valid content s) (agrees : Agrees content offset bytes) (behind : s.read_head ≤ offset)
    (fits : offset + length bytes ≤ s.read_head + s.capacity) (some_bytes : 0 < length bytes) where
  abbrev allocated : List ℕ
  allocated = if no_bytes s.buffer then replicate s.capacity 0 else s.buffer

  abbrev copied : List ℕ
  copied = copy_chunks (length bytes) s.capacity allocated (offset % s.capacity) bytes

  no_bytes-length : (xs : List ℕ) → 0 < length xs → no_bytes xs ≡ false
  no_bytes-length [] h = absurd (omega arith)
  no_bytes-length (x ∷ xs) h = refl

  length-allocated : length allocated ≡ s.capacity
  length-allocated = elim v.sized [
    | inl e ↦
        ap (λ c. length (if c then replicate s.capacity 0 else s.buffer))
          (no_bytes-length s.buffer (omega (arith, e, v.room)))
        ∙ e
    | inr e ↦
        ap (λ c. length (if no_bytes c then replicate s.capacity 0 else s.buffer)) e.0
        ∙ length-replicate {A = ℕ} s.capacity 0
  ]

  allocated-stored :
      (p : ℕ) → holds s.received_ranges p ≡ true → get_or allocated (p % s.capacity) 0 ≡ content p
  allocated-stored p h = elim v.sized [
    | inl e ↦
        ap (λ c. get_or (if c then replicate s.capacity 0 else s.buffer) (p % s.capacity) 0)
          (no_bytes-length s.buffer (omega (arith, e, v.room)))
        ∙ v.stored p h
    | inr e ↦ absurd (ground (arith, h, ap (λ r. holds r p) e.1))
  ]

  place :
      (p : ℕ)
      → s.read_head ≤ p
      → p < s.read_head + s.capacity
      → p % s.capacity ≡ (
          if ltb (s.read_head % s.capacity + (p - s.read_head)) s.capacity
          then s.read_head % s.capacity + (p - s.read_head)
          else s.read_head % s.capacity + (p - s.read_head) - s.capacity)
  place p lo hi =
      ap (λ q. q % s.capacity) {x = p} {y = s.read_head + (p - s.read_head)} (omega arith)
      ∙ ring_place s.capacity s.read_head (p - s.read_head) v.room (omega arith)

  -- The way from the start of the new bytes to a position of the window.
  ahead_of :
      (p : ℕ)
      → s.read_head ≤ p
      → p < s.read_head + s.capacity
      → ahead s.capacity (offset % s.capacity) (p % s.capacity)
        ≡ (if leb offset p then p - offset else p + s.capacity - offset)
  ahead_of p lo hi = ground (
    arith,
    place p lo hi,
    place offset behind (omega arith),
    mod-lt s.read_head {m = s.capacity} v.room,
  )

  copied-at :
      (p : ℕ)
      → s.read_head ≤ p
      → p < s.read_head + s.capacity
      → get_or copied (p % s.capacity) 0 ≡ (
          if within offset (offset + length bytes) p
          then get_or bytes (p - offset) 0
          else get_or allocated (p % s.capacity) 0)
  copied-at p lo hi =
      get_or-copy_chunks s.capacity (offset % s.capacity) allocated bytes (p % s.capacity)
        length-allocated (mod-lt offset {m = s.capacity} v.room) (mod-lt p {m = s.capacity} v.room)
        (omega arith)
      ∙ ground (arith, ahead_of p lo hi)

  added : Entries
  added = (add_range offset (offset + length bytes) s.received_ranges).1

  in_window :
      (p : ℕ)
      → (holds s.received_ranges p || within offset (offset + length bytes) p) ≡ true
      → (s.read_head ≤ p) × (p < s.read_head + s.capacity)
  in_window p h = ground (arith, v.bounded p)

  copied-stored :
      (p : ℕ)
      → (holds s.received_ranges p || within offset (offset + length bytes) p) ≡ true
      → get_or copied (p % s.capacity) 0 ≡ content p
  copied-stored p h =
      copied-at p (in_window p h).0 (in_window p h).1
      ∙ ground (
        arith,
        allocated-stored p,
        agrees (p - offset),
        λ (e : offset + (p - offset) ≡ p). ap content e,
      )

  store-Valid : Valid content (store s offset bytes (offset + length bytes)).1
  unfolding store
  store-Valid = record {
    room = v.room;
    sized = inl (
        length-copy_chunks (length bytes) s.capacity (offset % s.capacity) allocated bytes
        ∙ length-allocated);
    sorted =
        add_range-Sorted offset (offset + length bytes) (omega arith) s.received_ranges v.sorted;
    bounded = λ p h. ground (
      arith,
      h,
      v.bounded p,
      v.heads,
      holds-add_range offset (offset + length bytes) (omega arith) s.received_ranges v.sorted p,
    );
    heads = ground (arith, v.heads);
    stored = λ p h. copied-stored p (
        sym (
          holds-add_range offset (offset + length bytes) (omega arith) s.received_ranges v.sorted p)
        ∙ h);
  }

-- What `write` promises for bytes of the stream: it counts the new ones and receives their positions.
pub record Accepted (content : ℕ → ℕ) (s : StreamReceiveBuffer) (offset : ℕ) (bytes : List ℕ)
    (r : Option ℕ × StreamReceiveBuffer) : Type 0 where
  pub answer : r.0 ≡ some (tally (λ p. not (holds s.received_ranges p)) (length bytes) offset)
  pub valid : Valid content r.1
  pub head_kept : r.1.read_head ≡ s.read_head
  pub received :
      (p : ℕ)
      → holds r.1.received_ranges p
        ≡ (holds s.received_ranges p || within offset (offset + length bytes) p)

pub store-Accepted :
    (content : ℕ → ℕ) (s : StreamReceiveBuffer) (offset : ℕ) (bytes : List ℕ)
    → Valid content s
    → Agrees content offset bytes
    → s.read_head ≤ offset
    → offset + length bytes ≤ s.read_head + s.capacity
    → 0 < length bytes
    → Accepted content s offset bytes (store s offset bytes (offset + length bytes))
unfolding store
store-Accepted content s offset bytes v agrees behind fits nonempty = record {
  answer = ap some (
      (holds-add_range_counted offset (offset + length bytes) s.received_ranges 0 (omega arith)
        v.sorted).2
      ∙ ap (λ n. tally (λ p. not (holds s.received_ranges p)) n offset)
          {x = offset + length bytes - offset} {y = length bytes} (omega arith));
  valid = store-Valid content s offset bytes v agrees behind fits nonempty;
  head_kept = refl;
  received = λ p.
      holds-add_range offset (offset + length bytes) (omega arith) s.received_ranges v.sorted p;
}

-- Bytes of the stream that start at the read head or behind it and fit in the window are accepted, for a
-- window that ends below 2^64: the buffer stays valid, the answer is the number of bytes that were not
-- received before, and exactly the positions of the bytes are received beside the old ones.
pub write-Accepted :
    (content : ℕ → ℕ) (s : StreamReceiveBuffer) (offset : ℕ) (bytes : List ℕ)
    → Valid content s
    → Agrees content offset bytes
    → s.read_head ≤ offset
    → offset + length bytes ≤ s.read_head + s.capacity
    → s.read_head + s.capacity < 2 ^ 64
    → Accepted content s offset bytes (write s offset bytes)
unfolding write
write-Accepted content s offset [] v agrees behind fits small = record {
  answer = refl;
  valid = v;
  head_kept = refl;
  received = λ p. ground arith;
}
write-Accepted content s offset (b ∷ bytes) v agrees behind fits small =
    if_holds
      (λ (o : Option ℕ). Accepted content s offset (b ∷ bytes) (elim o [
        | none ↦ (none, s)
        | some end_offset ↦
            if ltb ((s.read_head + s.capacity) % 2 ^ 64) end_offset
            then (none, s)
            else store s offset (b ∷ bytes) end_offset
      ]))
      (leb (offset + length (b ∷ bytes)) u64_max)
      (λ _.
        if_holds (Accepted content s offset (b ∷ bytes))
          (ltb ((s.read_head + s.capacity) % 2 ^ 64) (offset + length (b ∷ bytes)))
          (λ over. absurd (ground arith))
          (λ _. store-Accepted content s offset (b ∷ bytes) v agrees behind fits (omega arith)))
      (λ overflow. absurd (ground arith))
