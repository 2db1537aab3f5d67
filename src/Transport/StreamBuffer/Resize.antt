-- ===== src/Transport/StreamBuffer/Resize.antt =====
-- `resize` keeps the bytes between the read head and the write head.
use zetta_transport.Common.{
  ℕ, ◌+◌, ◌-◌, ◌%◌, ◌≤◌, ◌<◌, min, ◌≡◌, refl, sym, ap, ◌∙◌, inl, inr, arith, true, false, List, [],
  ◌∷◌, ◌++◌,
}
use zetta_transport.Common.{
  ltb, leb, ◌==◌, if◌then◌else◌, if_holds, length, get_or, take, drop, replicate, length-append,
  length-take, length-drop, length-replicate, Bool-cases, leb→le,
}
use native.Mathlib.Nat.{mod-lt}
use zetta_transport.Transport.StreamBuffer.{
  StreamReceiveBuffer, no_bytes, overwrite, copy_chunks, unread, wrap_into, resize,
}
use zetta_transport.Transport.StreamBuffer.Entries.{holds}
use zetta_transport.Transport.StreamBuffer.Ring.{
  ring_place, ahead, get_or-take, get_or-drop, get_or-append, take-all, copy_chunks-fitting,
  copy_chunks-wrapping, length-copy_chunks, get_or-copy_chunks,
}
use zetta_transport.Transport.StreamBuffer.Write.{Valid}

-- The two copies of `resize` are what the loop of `write` would copy.
wrap_into-copy_chunks :
    (buffer : List ℕ) (c start : ℕ) (linear : List ℕ)
    → start < c
    → length linear ≤ c
    → wrap_into buffer c start linear ≡ copy_chunks (length linear) c buffer start linear
unfolding wrap_into
wrap_into-copy_chunks buffer c start linear lt fit =
    elim (Bool-cases (leb (length linear) (c - start))) [
      | inl y ↦
          if_holds (λ (b : List ℕ). b ≡ copy_chunks (length linear) c buffer start linear)
            (ltb (min (length linear) (c - start)) (length linear)) (λ z. absurd (ground arith))
            (λ z.
              ap (overwrite buffer start)
                (take-all (min (length linear) (c - start)) linear (ground arith))
              ∙ sym (
                  copy_chunks-fitting (length linear) c start buffer linear (omega arith)
                    (leb→le (length linear) (c - start) y)))
      | inr n ↦
          if_holds (λ (b : List ℕ). b ≡ copy_chunks (length linear) c buffer start linear)
            (ltb (min (length linear) (c - start)) (length linear))
            (λ z.
              ap (λ k. overwrite (overwrite buffer start (take k linear)) 0 (drop k linear))
                {x = min (length linear) (c - start)} {y = c - start} (ground arith)
              ∙ sym (
                  copy_chunks-wrapping (length linear) c start buffer linear (omega arith) lt fit
                    (ground arith)))
            (λ z. absurd (ground arith))
    ]

module _ (s : StreamReceiveBuffer) (room : 0 < s.capacity) (size : length s.buffer ≡ s.capacity)
    (fits : s.write_head ≤ s.read_head + s.capacity) where
  abbrev place : ℕ
  place = s.read_head % s.capacity

  abbrev count : ℕ
  count = s.write_head - s.read_head

  abbrev first : List ℕ
  first = take (min count (s.capacity - place)) (drop place s.buffer)

  abbrev second : List ℕ
  second = take (count - min count (s.capacity - place)) s.buffer

  length-first : length first ≡ min count (s.capacity - place)
  length-first = ground (
    arith,
    mod-lt s.read_head {m = s.capacity} room,
    length-take (min count (s.capacity - place)) (drop place s.buffer),
    length-drop place s.buffer,
  )

  length-unread : length (unread s) ≡ count
  unfolding unread
  length-unread =
      if_holds (λ (l : List ℕ). length l ≡ count) (ltb (min count (s.capacity - place)) count)
        {x = first ++ second} {y = first}
        (λ y. ground (
          arith,
          mod-lt s.read_head {m = s.capacity} room,
          length-append first second,
          length-first,
          length-take (count - min count (s.capacity - place)) s.buffer,
        ))
        (λ n. ground (arith, length-first))

  get_or-first :
      (i : ℕ)
      → i < min count (s.capacity - place)
      → get_or first i 0 ≡ get_or s.buffer (place + i) 0
  get_or-first i lt =
      get_or-take (min count (s.capacity - place)) (drop place s.buffer) i
      ∙ ground (arith, lt, get_or-drop place s.buffer i)

  get_or-unread :
      (i : ℕ)
      → i < count
      → get_or (unread s) i 0 ≡ get_or s.buffer ((s.read_head + i) % s.capacity) 0
  unfolding unread
  get_or-unread i lt =
      if_holds (λ (l : List ℕ). get_or l i 0 ≡ get_or s.buffer ((s.read_head + i) % s.capacity) 0)
        (ltb (min count (s.capacity - place)) count) {x = first ++ second} {y = first}
        (λ y.
          get_or-append first second i
          ∙ ground (
            arith,
            mod-lt s.read_head {m = s.capacity} room,
            length-first,
            get_or-first i,
            get_or-take (count - min count (s.capacity - place)) s.buffer (i - length first),
            ring_place s.capacity s.read_head i room,
          ))
        (λ n.
          get_or-first i (ground arith)
          ∙ ground (
            arith,
            mod-lt s.read_head {m = s.capacity} room,
            ring_place s.capacity s.read_head i room,
          ))

module _ (content : ℕ → ℕ) (s : StreamReceiveBuffer) (n : ℕ) (v : Valid content s)
    (size : length s.buffer ≡ s.capacity) (pos : 0 < n)
    (fits : s.write_head ≤ s.read_head + n) where
  abbrev fresh : List ℕ
  fresh = replicate n 0

  abbrev start : ℕ
  start = s.read_head % n

  abbrev moved : List ℕ
  moved = wrap_into fresh n start (unread s)

  length-unread_valid : length (unread s) ≡ s.write_head - s.read_head
  length-unread_valid = length-unread s v.room size (v.heads).1

  moved-copy_chunks : moved ≡ copy_chunks (length (unread s)) n fresh start (unread s)
  moved-copy_chunks =
      wrap_into-copy_chunks fresh n start (unread s) (mod-lt s.read_head {m = n} pos)
        (omega (arith, length-unread_valid))

  length-moved : length moved ≡ n
  length-moved =
      ap length moved-copy_chunks
      ∙ length-copy_chunks (length (unread s)) n start fresh (unread s)
      ∙ length-replicate {A = ℕ} n 0

  ahead_of : (p : ℕ) → holds s.received_ranges p ≡ true → ahead n start (p % n) ≡ p - s.read_head
  ahead_of p h =
      let b = v.bounded p h in
      ap (λ q. ahead n start (q % n)) {x = p} {y = s.read_head + (p - s.read_head)}
        (omega (arith, b))
      ∙ ground
          (arith, b, ring_place n s.read_head (p - s.read_head) pos, mod-lt s.read_head {m = n} pos)

  old_place :
      (p : ℕ) → holds s.received_ranges p ≡ true → get_or (unread s) (p - s.read_head) 0 ≡ content p
  old_place p h =
      let b = v.bounded p h in
      get_or-unread s v.room size (v.heads).1 (p - s.read_head) (omega (arith, b))
      ∙ ap (λ q. get_or s.buffer (q % s.capacity) 0) {x = s.read_head + (p - s.read_head)} {y = p}
          (omega (arith, b))
      ∙ v.stored p h

  moved-stored : (p : ℕ) → holds s.received_ranges p ≡ true → get_or moved (p % n) 0 ≡ content p
  moved-stored p h =
      ap (λ b. get_or b (p % n) 0) moved-copy_chunks
      ∙ get_or-copy_chunks n start fresh (unread s) (p % n) (length-replicate {A = ℕ} n 0)
          (mod-lt s.read_head {m = n} pos) (mod-lt p {m = n} pos)
          (omega (arith, length-unread_valid))
      ∙ ground (
        arith,
        ahead_of p h,
        length-unread_valid,
        v.bounded p h,
        old_place p h,
        ap (λ i. get_or (unread s) i 0) (ahead_of p h),
      )

  resized : StreamReceiveBuffer
  resized = record s {
    buffer = if ltb 0 (s.write_head - s.read_head) then moved else fresh;
    capacity = n;
  }

  nothing_held :
      ltb 0 (s.write_head - s.read_head) ≡ false → (p : ℕ) → holds s.received_ranges p ≡ true → ⊥
  nothing_held z p h = ground (arith, z, v.bounded p h)

  resized-Valid : Valid content resized
  unfolding resized
  resized-Valid = record {
    room = pos;
    sized = inl (
        if_holds (λ (b : List ℕ). length b ≡ n) (ltb 0 (s.write_head - s.read_head))
          (λ _. length-moved) (λ _. length-replicate {A = ℕ} n 0));
    sorted = v.sorted;
    bounded = λ p h. ground (arith, v.bounded p h);
    heads = ((v.heads).0, fits);
    stored = λ p h.
        if_holds (λ (b : List ℕ). get_or b (p % n) 0 ≡ content p)
          (ltb 0 (s.write_head - s.read_head)) {x = moved} {y = fresh} (λ _. moved-stored p h)
          (λ z. absurd (nothing_held z p h));
  }

length-buffer :
    (content : ℕ → ℕ) (s : StreamReceiveBuffer)
    → Valid content s
    → no_bytes s.buffer ≡ false
    → length s.buffer ≡ s.capacity
length-buffer content s v f = elim v.sized [
  | inl e ↦ e
  | inr e ↦ absurd (ground (arith, f, ap no_bytes e.0))
]

nil-no_bytes : (xs : List ℕ) → no_bytes xs ≡ true → xs ≡ []
nil-no_bytes [] y = refl
nil-no_bytes (x ∷ xs) y = absurd (ground arith)

nothing_received :
    (content : ℕ → ℕ) (s : StreamReceiveBuffer)
    → Valid content s
    → no_bytes s.buffer ≡ true
    → s.received_ranges ≡ []
nothing_received content s v y = elim v.sized [
  | inl e ↦ absurd (omega (arith, e, v.room, ap length (nil-no_bytes s.buffer y)))
  | inr e ↦ e.1
]

empty-Valid :
    (content : ℕ → ℕ) (s : StreamReceiveBuffer) (n : ℕ)
    → Valid content s
    → 0 < n
    → s.write_head ≤ s.read_head + n
    → no_bytes s.buffer ≡ true
    → Valid content (record s { capacity = n })
empty-Valid content s n v pos fits y = record {
  room = pos;
  sized = inr (nil-no_bytes s.buffer y, nothing_received content s v y);
  sorted = v.sorted;
  bounded = λ p h. absurd (ground (arith, h, ap (λ r. holds r p) (nothing_received content s v y)));
  heads = ((v.heads).0, fits);
  stored = λ p h. absurd (ground (arith, h, ap (λ r. holds r p) (nothing_received content s v y)));
}

-- Resizing a valid buffer to a capacity that holds all up to the write head keeps it valid for the same
-- stream, with the same read head and received ranges. The new capacity is not zero.
pub resize-Valid :
    (content : ℕ → ℕ) (s : StreamReceiveBuffer) (n : ℕ)
    → Valid content s
    → 0 < n
    → s.write_head ≤ s.read_head + n
    → Valid content (resize s n)
      × ((resize s n).read_head ≡ s.read_head)
      × ((resize s n).received_ranges ≡ s.received_ranges)
      × ((resize s n).capacity ≡ n)
unfolding resize resized
resize-Valid content s n v pos fits =
    if_holds P (n == s.capacity) (λ same. (v, refl, refl, ground (arith, same)))
      (λ _.
        if_holds P (no_bytes s.buffer)
          (λ y. (empty-Valid content s n v pos fits y, refl, refl, refl))
          (λ f.
            (resized-Valid content s n v (length-buffer content s v f) pos fits, refl, refl, refl)))
  where
    P : StreamReceiveBuffer → Type 0
    P t =
        Valid content t
        × (t.read_head ≡ s.read_head)
        × (t.received_ranges ≡ s.received_ranges)
        × (t.capacity ≡ n)
