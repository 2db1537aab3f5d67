-- ===== src/Transport/StreamBuffer/Read.antt =====
-- `read_contiguous` delivers the bytes of the stream from the read head on.
use zetta_transport.Common.{
  ℕ, ◌+◌, ◌-◌, ◌%◌, ◌≤◌, ◌<◌, ◌≡◌, refl, sym, ap, ◌∙◌, inl, inr, arith, Bool, true, false, not,
  ◌&&◌, List, [], ◌∷◌, ◌++◌, Option, none, some,
}
use zetta_transport.Common.{
  ltb, leb, if◌then◌else◌, if_holds, length, get_or, take, drop, length-append, length-take,
  length-drop, All, All-imp, All-and, list_holds, ltb→lt, filter, Bool-cases,
}
use native.Mathlib.Nat.{mod-lt, add-mod_right}
use zetta_transport.Transport.StreamBuffer.{
  Entries, StreamReceiveBuffer, no_bytes, range_to, remove_all, copy_out, drop_stale, trim,
  take_range, read_contiguous,
}
use zetta_transport.Transport.StreamBuffer.Entries.{
  holds, Sorted, keys_of, remove_all-filter, Sorted-nonempty,
}
use zetta_transport.Transport.StreamBuffer.Ring.{
  ring_place, get_or-take, get_or-drop, get_or-append,
}
use zetta_transport.Transport.StreamBuffer.Write.{Valid, Agrees}
use mathlib.Core.Path.{subst, subst⁻¹}
use mathlib.Core.List.{cons-ne-nil}

-- The keys of the stale entries are those of the entries that end at the read head or before it.
stale-range_to :
    (h : ℕ) (es : Entries)
    → Sorted es
    → filter (λ e. leb e.1 h) (range_to h es) ≡ filter (λ e. leb e.1 h) es
stale-range_to h [] s = refl
stale-range_to h (e ∷ es) s = elim (Bool-cases (leb e.0 h)) [
  | inl y ↦
      ap (λ c. filter (λ e. leb e.1 h) (if c then e ∷ range_to h es else range_to h es)) y
      ∙ ap (λ r. if leb e.1 h then e ∷ r else r) (stale-range_to h es s.2)
  | inr n ↦
      ap (λ c. filter (λ e. leb e.1 h) (if c then e ∷ range_to h es else range_to h es)) n
      ∙ stale-range_to h es s.2
      ∙ sym (
          ap (λ c. if c then e ∷ filter (λ e. leb e.1 h) es else filter (λ e. leb e.1 h) es)
            {x = leb e.1 h} {y = false} (ground (arith, s.0)))
]

filter-All : (t : ℕ × ℕ → Bool) (es : Entries) → All (λ e. t e ≡ true) es → filter t es ≡ es
filter-All t [] h = refl
filter-All t (e ∷ es) h =
    ap (λ c. if c then e ∷ filter t es else filter t es) h.0 ∙ ap (◌∷◌ e) (filter-All t es h.1)

drop_stale-filter :
    (h : ℕ) (es : Entries) → Sorted es → drop_stale h es ≡ filter (λ e. not (leb e.1 h)) es
unfolding drop_stale
drop_stale-filter h es s =
    ap (λ r. remove_all (keys_of r) es) (stale-range_to h es s)
    ∙ remove_all-filter (λ e. leb e.1 h) es s

trim_above : (h : ℕ) (es : Entries) → All (λ r. h < r.0) es → trim h es ≡ es
unfolding trim
trim_above h [] b = refl
trim_above h (e ∷ es) b =
    if_holds (λ r. r ≡ (e ∷ es)) (ltb e.0 h && ltb h e.1) (λ y. absurd (ground (arith, b.0)))
      (λ _. refl)

later_kept :
    (e : ℕ × ℕ) (es : Entries) → Sorted (e ∷ es) → filter (λ r. not (leb r.1 e.1)) (e ∷ es) ≡ es
later_kept e es s =
    ap
      (λ c.
        if not c
        then e ∷ filter (λ r. not (leb r.1 e.1)) es
        else filter (λ r. not (leb r.1 e.1)) es)
      {x = leb e.1 e.1} {y = true} (ground arith)
    ∙ filter-All (λ r. not (leb r.1 e.1)) es
        (All-imp (λ r. (e.1 < r.0) × (r.0 < r.1)) (λ r. not (leb r.1 e.1) ≡ true) es
          (λ r h. ground (arith, h))
          (All-and (λ r. e.1 < r.0) (λ r. r.0 < r.1) es s.1 (Sorted-nonempty es s.2)))

-- After a read up to the end of the first range, that range alone goes.
drop_stale-first :
    (e : ℕ × ℕ) (es : Entries) → Sorted (e ∷ es) → trim e.1 (drop_stale e.1 (e ∷ es)) ≡ es
drop_stale-first e es s =
    ap (trim e.1) (drop_stale-filter e.1 (e ∷ es) s ∙ later_kept e es s) ∙ trim_above e.1 es s.1

module _ (s : StreamReceiveBuffer) (n : ℕ) (room : 0 < s.capacity)
    (size : length s.buffer ≡ s.capacity) (pos : 0 < n) (fits : n ≤ s.capacity) where
  end_place : (s.read_head + n) % s.capacity ≡ (
      if ltb (s.read_head % s.capacity + n) s.capacity
      then s.read_head % s.capacity + n
      else s.read_head % s.capacity + n - s.capacity)
  end_place = elim (Bool-cases (ltb n s.capacity)) [
    | inl y ↦ ring_place s.capacity s.read_head n room (ltb→lt n s.capacity y)
    | inr f ↦
        ap (λ k. (s.read_head + k) % s.capacity) {x = n} {y = s.capacity} (ground arith)
        ∙ add-mod_right s.read_head s.capacity
        ∙ ground arith
  ]

  abbrev straight : List ℕ
  straight =
      take ((s.read_head + n) % s.capacity - s.read_head % s.capacity)
        (drop (s.read_head % s.capacity) s.buffer)

  abbrev wrapped : List ℕ
  wrapped =
      drop (s.read_head % s.capacity) s.buffer ++ take ((s.read_head + n) % s.capacity) s.buffer

  length-copy_out : length (copy_out s n) ≡ n
  unfolding copy_out
  length-copy_out =
      if_holds (λ (o : List ℕ). length o ≡ n)
        (ltb (s.read_head % s.capacity) ((s.read_head + n) % s.capacity)) {x = straight}
        {y = wrapped}
        (λ y. ground (
          arith,
          end_place,
          mod-lt s.read_head {m = s.capacity} room,
          length-take ((s.read_head + n) % s.capacity - s.read_head % s.capacity)
              (drop (s.read_head % s.capacity) s.buffer),
          length-drop (s.read_head % s.capacity) s.buffer,
        ))
        (λ f. ground (
          arith,
          end_place,
          mod-lt s.read_head {m = s.capacity} room,
          length-append (drop (s.read_head % s.capacity) s.buffer)
              (take ((s.read_head + n) % s.capacity) s.buffer),
          length-take ((s.read_head + n) % s.capacity) s.buffer,
          length-drop (s.read_head % s.capacity) s.buffer,
        ))

  get_or-copy_out :
      (i : ℕ)
      → i < n
      → get_or (copy_out s n) i 0 ≡ get_or s.buffer ((s.read_head + i) % s.capacity) 0
  unfolding copy_out
  get_or-copy_out i lt =
      if_holds (λ o. get_or o i 0 ≡ get_or s.buffer ((s.read_head + i) % s.capacity) 0)
        (ltb (s.read_head % s.capacity) ((s.read_head + n) % s.capacity))
        (λ y.
          get_or-take ((s.read_head + n) % s.capacity - s.read_head % s.capacity)
            (drop (s.read_head % s.capacity) s.buffer) i
          ∙ ground (
            arith,
            end_place,
            mod-lt s.read_head {m = s.capacity} room,
            get_or-drop (s.read_head % s.capacity) s.buffer i,
            ring_place s.capacity s.read_head i room,
          ))
        (λ f.
          get_or-append (drop (s.read_head % s.capacity) s.buffer)
            (take ((s.read_head + n) % s.capacity) s.buffer) i
          ∙ ground (
            arith,
            end_place,
            mod-lt s.read_head {m = s.capacity} room,
            length-drop (s.read_head % s.capacity) s.buffer,
            get_or-drop (s.read_head % s.capacity) s.buffer i,
            get_or-take ((s.read_head + n) % s.capacity) s.buffer
                (i - length (drop (s.read_head % s.capacity) s.buffer)),
            ring_place s.capacity s.read_head i room,
          ))

-- The bytes of the stream from the read head to the first position that is not received.
pub record Delivered (content : ℕ → ℕ) (s : StreamReceiveBuffer) (out : List ℕ)
    (t : StreamReceiveBuffer) : Type 0 where
  pub progress : 0 < length out
  pub agrees : Agrees content s.read_head out
  pub head : t.read_head ≡ s.read_head + length out
  pub valid : Valid content t
  pub kept : (p : ℕ) → holds t.received_ranges p ≡ (holds s.received_ranges p && leb t.read_head p)
  pub maximal : holds s.received_ranges t.read_head ≡ false

-- What a read gives: nothing where the position at the read head is not received, or else bytes.
abbrev pub Delivers : (ℕ → ℕ) → StreamReceiveBuffer → Option (List ℕ) × StreamReceiveBuffer → Type 0
Delivers content s r = elim r.0 [
  | none ↦ (r.1 ≡ s) × (holds s.received_ranges s.read_head ≡ false)
  | some out ↦ Delivered content s out r.1
]

beyond_first :
    (e : ℕ × ℕ) (es : Entries) (b p : ℕ) → All (λ r. b < r.0) es → p ≤ b → holds es p ≡ false
beyond_first e [] b p h le = refl
beyond_first e (x ∷ es) b p h le = ground (arith, h.0, beyond_first e es b p h.1 le)

module _ (content : ℕ → ℕ) (s : StreamReceiveBuffer) (first : ℕ × ℕ) (rest : Entries)
    (v : Valid content s) (e : s.received_ranges ≡ first ∷ rest) where
  first_rest : Sorted (first ∷ rest)
  first_rest = subst Sorted e v.sorted

  held : (p : ℕ) → holds s.received_ranges p ≡ holds (first ∷ rest) p
  held p = ap (λ r. holds r p) e

  size : length s.buffer ≡ s.capacity
  size = elim v.sized [ inl z ↦ z | inr z ↦ absurd (cons-ne-nil first rest (sym e ∙ z.1)) ]

  -- The first range starts at the read head, if it reaches there.
  bounds : (s.read_head ≤ first.0) × (first.1 ≤ s.read_head + s.capacity) × (first.1 ≤ s.write_head)
  bounds = ground (
    arith,
    first_rest.0,
    held first.0,
    held (first.1 - 1),
    v.bounded first.0,
    v.bounded (first.1 - 1),
  )

  abbrev len : ℕ
  len = first.1 - s.read_head

  -- The state after the read, once the ranges are cleaned up.
  abbrev advanced : Entries → StreamReceiveBuffer
  advanced ranges = record s { read_head = first.1; received_ranges = ranges }

  advanced-Valid : s.read_head ≡ first.0 → Valid content (advanced rest)
  advanced-Valid at = record {
    room = v.room;
    sized = inl size;
    sorted = first_rest.2;
    bounded = λ p h. ground (
      arith,
      h,
      held p,
      v.bounded p,
      beyond_first first rest first.1 p first_rest.1,
      first_rest.0,
    );
    heads = ground (arith, v.heads, bounds, first_rest.0);
    stored = λ p h. v.stored p (ground (arith, h, held p));
  }

  cleaned : trim first.1 (drop_stale first.1 s.received_ranges) ≡ rest
  cleaned = ap (λ r. trim first.1 (drop_stale first.1 r)) e ∙ drop_stale-first first rest first_rest

  advanced-Delivered : s.read_head ≡ first.0 → Delivered content s (copy_out s len) (advanced rest)
  advanced-Delivered at =
      let count =
        length-copy_out s len v.room size (omega (arith, first_rest.0)) (omega (arith, bounds)) in
      record {
        progress = omega (arith, count, first_rest.0);
        agrees = λ i lt.
            get_or-copy_out s len v.room size (omega (arith, first_rest.0)) (omega (arith, bounds))
              i (omega (arith, count))
            ∙ v.stored (s.read_head + i) (ground (arith, held (s.read_head + i), count, lt));
        head = omega (arith, count, first_rest.0);
        valid = advanced-Valid at;
        kept = λ p. ground (arith, held p, beyond_first first rest first.1 p first_rest.1);
        maximal =
            ground (arith, held first.1, beyond_first first rest first.1 first.1 first_rest.1);
      }

  take_range-Delivers : Delivers content s (take_range s first)
  unfolding take_range
  take_range-Delivers =
      if_holds (Delivers content s) (leb first.0 s.read_head && ltb s.read_head first.1)
        (λ y.
          subst⁻¹ (λ r. Delivered content s (copy_out s len) (advanced r)) cleaned
            (advanced-Delivered (ground (arith, bounds))))
        (λ f. (
          refl,
          ground (
            arith,
            bounds,
            held s.read_head,
            first_rest.0,
            beyond_first first rest first.1 s.read_head first_rest.1,
          ),
        ))

no_bytes-length : (xs : List ℕ) → no_bytes xs ≡ true → length xs ≡ 0
no_bytes-length [] h = refl
no_bytes-length (x ∷ xs) h = absurd (ground arith)

nothing_received :
    (content : ℕ → ℕ) (s : StreamReceiveBuffer)
    → Valid content s
    → no_bytes s.buffer ≡ true
    → holds s.received_ranges s.read_head ≡ false
nothing_received content s v y = elim v.sized [
  | inl e ↦ absurd (omega (arith, e, v.room, no_bytes-length s.buffer y))
  | inr e ↦ ap (λ r. holds r s.read_head) e.1
]

-- A read of a valid buffer gives the bytes of the stream from the read head up to the first position that
-- is not received, moves the head behind them, keeps the later ranges and the buffer valid, and gives
-- nothing exactly where the position at the head is not received.
pub read_contiguous-Delivers :
    (content : ℕ → ℕ) (s : StreamReceiveBuffer)
    → Valid content s
    → Delivers content s (read_contiguous s)
unfolding read_contiguous
read_contiguous-Delivers content s v =
    if_holds (Delivers content s) (no_bytes s.buffer) (λ y. (refl, nothing_received content s v y))
      (λ n.
        list_holds (Delivers content s) s.received_ranges
          (λ e. (refl, ap (λ r. holds r s.read_head) e))
          (λ first rest e. take_range-Delivers content s first rest v e))
