-- ===== src/Transport/AckTracker/Scan.antt =====
-- The loops of `get_ack_ranges`: the ranges pushed so far and the one that is open are exactly the
-- bits passed.
use zetta_transport.Common.{
  ℕ, zero, suc, ◌+◌, ◌-◌, ◌*◌, ◌/◌, ◌≤◌, ◌<◌, ◌≡◌, refl, sym, ap, ◌∙◌, ◌⊎◌, inl, inr, arith,
}
use zetta_transport.Common.{
  List, [], ◌∷◌, ◌++◌, Bool, true, false, not, ◌&&◌, ◌||◌, ltb, leb, ◌==◌, if◌then◌else◌, if_holds,
  bit_and,
}
use zetta_transport.Common.{length, get_or, u64_max, All, All-imp, All-append, length-append}
use zetta_transport.Common.Bits.{bit_at, bit_at-zero, bit_at-ones, test_bit}
use zetta_transport.Transport.AckTracker.{
  ScanState, Flow, continue, returned, and_then, scan_bit, scan_bits, scan_word, scan_words, close,
  start,
}
use zetta_transport.Transport.AckTracker.Ranges.{
  covers, covers-append, Descending, Descending-append,
}

-- `h` is the highest packet number, and `received d` says whether the one `d` below it was processed.
module _ (h : ℕ) (received : ℕ → Bool) where
  -- The range lies above the open one, or above the numbers still to look at, and does not touch them.
  abbrev Clear : ScanState → ℕ × ℕ → Type 0
  Clear s r = if s.in_range then suc s.current_end < r.0 else suc h < r.0 + s.diff

  pub record Scanned (s : ScanState) : Type 0 where
    pub exact :
        (q : ℕ)
        → (covers s.ranges q || (s.in_range && leb q s.current_end && leb (suc h) (q + s.diff)))
          ≡ (leb q h && ltb (h - q) s.diff && received (h - q))
    pub open_range :
        s.in_range ≡ true → (s.current_end ≤ h) × (h < s.current_end + s.diff) × (s.diff ≤ suc h)
    pub few : length s.ranges < 128
    pub ordered : Descending s.ranges
    pub gap : All (Clear s) s.ranges

  -- A list that can be reported: every number in it was processed.
  pub record Sound (rs : List (ℕ × ℕ)) : Type 0 where
    pub held : (q : ℕ) → covers rs q ≡ true → (leb q h && received (h - q)) ≡ true
    pub bounded : length rs ≤ 128
    pub ordered : Descending rs

  -- The loops have passed `e` positions, or all there are, or the function has returned.
  pub data Passed (e : ℕ) : Flow → Type 0 where
    on :
        {s : ScanState}
        → Scanned s
        → (s.diff ≡ e) ⊎ ((h < s.diff) × (s.diff ≤ e))
        → Passed e (continue s)
    stop : {rs : List (ℕ × ℕ)} → Sound rs → 128 ≤ length rs → Passed e (returned rs)

  -- A received number opens a range or extends the open one.
  scan_received :
      (s : ScanState)
      → Scanned s
      → s.diff ≤ h
      → received s.diff ≡ true
      → Scanned (record {
        in_range = true;
        current_end = if s.in_range then s.current_end else h - s.diff;
        diff = s.diff + 1;
        ranges = s.ranges;
      })
  scan_received s v le r = record {
    exact = λ q. ground (arith, v.exact q, v.open_range, λ (i : h - q ≡ s.diff). ap received i ∙ r);
    open_range = λ _. ground (arith, v.open_range);
    few = v.few;
    ordered = v.ordered;
    gap =
        All-imp (Clear s) (λ t. suc (if s.in_range then s.current_end else h - s.diff) < t.0)
          s.ranges (λ t g. ground arith) v.gap;
  }

  -- Outside a range, numbers not received change nothing.
  scan_pass :
      (s : ScanState) (n : ℕ)
      → Scanned s
      → s.in_range ≡ false
      → ((j : ℕ) → j < n → received (s.diff + j) ≡ false)
      → Scanned (record s { diff = s.diff + n })
  scan_pass s n v e r = record {
    exact = λ q. ground (
      arith,
      v.exact q,
      e,
      r (h - q - s.diff),
      λ (i : s.diff + (h - q - s.diff) ≡ h - q). ap received i,
    );
    open_range = λ o. ground (arith, o, e);
    few = v.few;
    ordered = v.ordered;
    gap =
        All-imp (Clear s)
          (λ t. (if s.in_range then suc s.current_end < t.0 else suc h < t.0 + (s.diff + n)))
          s.ranges (λ t g. ground arith) v.gap;
  }

  -- Inside a range, received numbers extend it.
  scan_hold :
      (s : ScanState) (n : ℕ)
      → Scanned s
      → s.in_range ≡ true
      → s.diff + n ≤ suc h
      → ((j : ℕ) → j < n → received (s.diff + j) ≡ true)
      → Scanned (record s { diff = s.diff + n })
  scan_hold s n v e le r = record {
    exact = λ q. ground (
      arith,
      v.exact q,
      e,
      v.open_range e,
      r (h - q - s.diff),
      λ (i : s.diff + (h - q - s.diff) ≡ h - q). ap received i,
    );
    open_range = λ o. ground (arith, v.open_range o);
    few = v.few;
    ordered = v.ordered;
    gap =
        All-imp (Clear s)
          (λ t. (if s.in_range then suc s.current_end < t.0 else suc h < t.0 + (s.diff + n)))
          s.ranges (λ t g. ground arith) v.gap;
  }

  abbrev pushed : ScanState → List (ℕ × ℕ)
  pushed s = s.ranges ++ ((h - s.diff + 1, s.current_end) ∷ [])

  pushed-Descending :
      (s : ScanState) → Scanned s → s.in_range ≡ true → s.diff ≤ h → Descending (pushed s)
  pushed-Descending s v e le =
      Descending-append s.ranges (h - s.diff + 1) s.current_end v.ordered
        (All-imp (Clear s) (λ t. suc s.current_end < t.0) s.ranges (λ t g. ground (arith, e)) v.gap)
        (omega (arith, v.open_range e))

  -- A number not received closes the range that was open.
  scan_push :
      (s : ScanState)
      → Scanned s
      → s.in_range ≡ true
      → s.diff ≤ h
      → received s.diff ≡ false
      → length (pushed s) < 128
      → Scanned (record {
        in_range = false;
        current_end = s.current_end;
        diff = s.diff + 1;
        ranges = pushed s;
      })
  scan_push s v e le r few = record {
    exact = λ q. ground (
      arith,
      v.exact q,
      e,
      v.open_range e,
      covers-append s.ranges (h - s.diff + 1) s.current_end q,
      λ (i : h - q ≡ s.diff). ap received i ∙ r,
    );
    open_range = λ o. ground (arith, o);
    few = few;
    ordered = pushed-Descending s v e le;
    gap =
        All-append (λ t. suc h < t.0 + (s.diff + 1)) s.ranges ((h - s.diff + 1, s.current_end) ∷ [])
          (All-imp (Clear s) (λ t. suc h < t.0 + (s.diff + 1)) s.ranges
            (λ t g. ground (arith, e, v.open_range e)) v.gap)
          (omega arith, tt);
  }

  scan_full :
      (s : ScanState)
      → Scanned s
      → s.in_range ≡ true
      → s.diff ≤ h
      → received s.diff ≡ false
      → Sound (pushed s)
  scan_full s v e le r = record {
    held = λ q c. ground (
      arith,
      v.exact q,
      c,
      e,
      v.open_range e,
      covers-append s.ranges (h - s.diff + 1) s.current_end q,
    );
    bounded = omega (arith, v.few, length-append s.ranges ((h - s.diff + 1, s.current_end) ∷ []));
    ordered = pushed-Descending s v e le;
  }

  scan_bit-Passed :
      (w : ℕ) (s : ScanState)
      → Scanned s
      → s.diff ≤ h
      → (bit_at w 0 == 1) ≡ received s.diff
      → Passed (s.diff + 1) (scan_bit h w s)
  unfolding scan_bit
  scan_bit-Passed w s v le b =
      if_holds (Passed (s.diff + 1)) (not (bit_and w 1 == 0))
        (λ r. on (scan_received s v le (ground (arith, b, test_bit w 0))) (inl refl))
        (λ r.
          if_holds (Passed (s.diff + 1)) s.in_range
            (λ e.
              if_holds (Passed (s.diff + 1)) (leb 128 (length (pushed s)))
                (λ full. stop (scan_full s v e le (ground (arith, b, test_bit w 0))) (ground arith))
                (λ few.
                  on (scan_push s v e le (ground (arith, b, test_bit w 0)) (ground arith))
                    (inl refl)))
            (λ e.
              on
                (scan_pass s 1 v e (λ j lt.
                  ap received {x = s.diff + j} {y = s.diff} (omega arith)
                  ∙ ground (arith, b, test_bit w 0)))
                (inl refl)))

  and_then-Passed :
      (e e' : ℕ) (f : Flow) (k : ScanState → Flow)
      → Passed e f
      → ((s : ScanState)
          → Scanned s
          → (s.diff ≡ e) ⊎ ((h < s.diff) × (s.diff ≤ e))
          → Passed e' (k s))
      → Passed e' (and_then f k)
  and_then-Passed e e' (continue s) k (on v d) g = g s v d
  and_then-Passed e e' (returned rs) k (stop o full) g = stop o full

  -- The word has the bits of the numbers from `d` on.
  abbrev pub Holds : ℕ → ℕ → ℕ → Type 0
  Holds n w d = (j : ℕ) → j < n → (bit_at w j == 1) ≡ received (d + j)

  Passed-at : (d e : ℕ) (f : Flow) → d ≡ e → Passed d f → Passed e f
  Passed-at d e f i p = rw⁻¹ i p

  scan_bits-past :
      (n w e : ℕ) (t : ScanState)
      → Scanned t
      → h < t.diff
      → t.diff ≤ e
      → Passed e (scan_bits n h w t)
  unfolding scan_bits
  scan_bits-past zero w e t u past le = on u (inr (past, le))
  scan_bits-past (suc n) w e t u past le =
      if_holds (Passed e) (ltb h t.diff) (λ _. on u (inr (past, le))) (λ f. absurd (ground arith))

  scan_bits-Passed :
      (n w : ℕ) (s : ScanState)
      → Scanned s
      → Holds n w s.diff
      → Passed (s.diff + n) (scan_bits n h w s)
  unfolding scan_bits
  scan_bits-Passed zero w s v b = on v (inl (omega arith))
  scan_bits-Passed (suc n) w s v b =
      if_holds (Passed (s.diff + suc n)) (ltb h s.diff)
        (λ past. on v (inr (ground arith, omega arith)))
        (λ le.
          and_then-Passed (s.diff + 1) (s.diff + suc n) (scan_bit h w s)
            (λ t. scan_bits n h (w / 2) t)
            (scan_bit-Passed w s v (ground arith)
              (b 0 (omega arith) ∙ ap received {x = s.diff + 0} {y = s.diff} (omega arith)))
            (λ t u d. elim d [
              | inr past ↦ scan_bits-past n (w / 2) (s.diff + suc n) t u past.0 (omega arith)
              | inl e ↦
                  Passed-at (t.diff + n) (s.diff + suc n) (scan_bits n h (w / 2) t)
                    (omega (arith, e))
                    (scan_bits-Passed n (w / 2) t u (λ j lt.
                      b (suc j) (omega arith)
                      ∙ ap received {x = s.diff + suc j} {y = t.diff + j} (omega (arith, e))))
            ]))

  module _ (below_zero : (d : ℕ) → h < d → received d ≡ false) where
    -- One word of the array, skipped or scanned.
    scan_word-Passed :
        (w : ℕ) (s : ScanState)
        → Scanned s
        → Holds 64 w s.diff
        → Passed (s.diff + 64) (scan_word h w s)
    unfolding scan_word
    scan_word-Passed w s v b =
        if_holds (Passed (s.diff + 64)) (not s.in_range && w == 0)
          (λ z. on (scan_pass s 64 v (ground arith) (λ j lt. zeros (ground arith) j lt)) (inl refl))
          (λ _.
            if_holds (Passed (s.diff + 64)) (s.in_range && w == u64_max)
              (λ m.
                on
                  (scan_hold s 64 v (ground arith)
                    (ground (arith, ones (ground arith) 63, below_zero (s.diff + 63)))
                    (λ j lt. ones (ground arith) j lt))
                  (inl refl))
              (λ _. scan_bits-Passed 64 w s v b))
      where
        zeros : w ≡ 0 → (j : ℕ) → j < 64 → received (s.diff + j) ≡ false
        zeros e j lt = sym (b j lt) ∙ ap (λ x. bit_at x j == 1) e ∙ ground (arith, bit_at-zero j)

        ones : w ≡ u64_max → (j : ℕ) → j < 64 → received (s.diff + j) ≡ true
        ones e j lt = sym (b j lt) ∙ ap (λ x. bit_at x j == 1) e ∙ ground (arith, bit_at-ones 64 j)

    -- Each word of the list holds its 64 numbers.
    abbrev pub AllHold : List ℕ → ℕ → Type 0
    AllHold [] d = Unit
    AllHold (w ∷ ws) d = Holds 64 w d × AllHold ws (d + 64)

    scan_words-past :
        (ws : List ℕ) (e : ℕ) (t : ScanState)
        → Scanned t
        → h < t.diff
        → t.diff ≤ e
        → Passed e (scan_words ws h t)
    unfolding scan_words
    scan_words-past [] e t u past le = on u (inr (past, le))
    scan_words-past (w ∷ ws) e t u past le =
        if_holds (Passed e) (ltb h t.diff) (λ _. on u (inr (past, le))) (λ f. absurd (ground arith))

    scan_words-Passed :
        (ws : List ℕ) (s : ScanState)
        → Scanned s
        → AllHold ws s.diff
        → Passed (s.diff + 64 * length ws) (scan_words ws h s)
    unfolding scan_words
    scan_words-Passed [] s v b = on v (inl (omega arith))
    scan_words-Passed (w ∷ ws) s v b =
        if_holds (Passed (s.diff + 64 * length (w ∷ ws))) (ltb h s.diff)
          (λ past. on v (inr (ground arith, omega arith)))
          (λ le.
            and_then-Passed (s.diff + 64) (s.diff + 64 * length (w ∷ ws)) (scan_word h w s)
              (λ t. scan_words ws h t) (scan_word-Passed w s v b.0)
              (λ t u d. elim d [
                | inr past ↦
                    scan_words-past ws (s.diff + 64 * length (w ∷ ws)) t u past.0 (omega arith)
                | inl e ↦
                    Passed-at (t.diff + 64 * length ws) (s.diff + 64 * length (w ∷ ws))
                      (scan_words ws h t) (omega (arith, e)) (scan_words-Passed ws t u (rw e b.1))
              ]))

  start-Scanned : Scanned start
  unfolding start
  start-Scanned = record {
    exact = λ q. ground arith;
    open_range = λ e. ground arith;
    few = omega arith;
    ordered = tt;
    gap = tt;
  }

  -- What the function returns: sound, and exact for the numbers of the window unless it is full.
  pub record Reported (rs : List (ℕ × ℕ)) : Type 0 where
    pub sound : Sound rs
    pub exact :
        length rs < 128 → (q : ℕ) → covers rs q ≡ (leb q h && ltb (h - q) 2048 && received (h - q))

  close-Reported : (f : Flow) → Passed 2048 f → Reported (close h f)
  unfolding close
  close-Reported (returned rs) (stop o full) = record {
    sound = o;
    exact = λ few. absurd (omega arith);
  }
  close-Reported (continue s) (on v d) =
      if_holds Reported s.in_range
        (λ e.
          if_holds Reported (ltb (length s.ranges) 128)
            (λ _. record {
              sound = record {
                held = λ q c. ground (
                  arith,
                  v.exact q,
                  c,
                  e,
                  v.open_range e,
                  covers-append s.ranges (h - (s.diff - 1)) s.current_end q,
                );
                bounded =
                    omega (
                      arith,
                      v.few,
                      length-append s.ranges ((h - (s.diff - 1), s.current_end) ∷ []),
                    );
                ordered =
                    Descending-append s.ranges (h - (s.diff - 1)) s.current_end v.ordered
                      (All-imp (Clear s) (λ t. suc s.current_end < t.0) s.ranges
                        (λ t g. ground (arith, e)) v.gap)
                      (omega (arith, v.open_range e));
              };
              exact = λ few q. ground (
                arith,
                v.exact q,
                e,
                v.open_range e,
                d,
                covers-append s.ranges (h - (s.diff - 1)) s.current_end q,
              );
            })
            (λ f. absurd (ground (arith, v.few))))
        (λ e. record {
          sound = record {
            held = λ q c. ground (arith, v.exact q, c, e);
            bounded = omega (arith, v.few);
            ordered = v.ordered;
          };
          exact = λ few q. ground (arith, v.exact q, e, d);
        })

  module _ (below_zero : (d : ℕ) → h < d → received d ≡ false) where
    AllHold-words :
        (ws : List ℕ) (d : ℕ)
        → ((i j : ℕ)
            → i < length ws
            → j < 64
            → (bit_at (get_or ws i 0) j == 1) ≡ received (d + 64 * i + j))
        → AllHold below_zero ws d
    AllHold-words [] d f = tt
    AllHold-words (w ∷ ws) d f = (
      λ j lt. f 0 j (omega arith) lt ∙ ap received {x = d + 64 * 0 + j} {y = d + j} (omega arith),
      AllHold-words ws (d + 64) (λ i j hi lt.
          f (suc i) j (omega arith) lt
          ∙ ap received {x = d + 64 * suc i + j} {y = d + 64 + 64 * i + j} (omega arith)),
    )

    pub scan-Reported :
        (ws : List ℕ)
        → length ws ≡ 32
        → ((i j : ℕ) → i < 32 → j < 64 → (bit_at (get_or ws i 0) j == 1) ≡ received (64 * i + j))
        → Reported (close h (scan_words ws h start))
    unfolding start
    scan-Reported ws size f = close-Reported (scan_words ws h start) (
        Passed-at (0 + 64 * length ws) 2048 (scan_words ws h start) (omega (arith, size)) (
          scan_words-Passed below_zero ws start start-Scanned (
            AllHold-words ws 0 (λ i j hi lt.
              f i j (omega (arith, size)) lt
              ∙ ap received {x = 64 * i + j} {y = 0 + 64 * i + j} (omega arith)))))
