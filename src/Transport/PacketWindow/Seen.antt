-- ===== src/Transport/PacketWindow/Seen.antt =====
-- Which packet numbers the window knows after any sequence of `mark_processed`.
use zetta_transport.Common.{ℕ, ◌+◌, ◌-◌, ◌<◌, ◌≤◌, max, ◌≡◌, refl, sym, ap, ◌∙◌, arith}
use zetta_transport.Common.{List, [], ◌∷◌, Option, none, some, Bool, true, false, ◌||◌}
use zetta_transport.Common.{ltb, leb, ◌==◌, if◌then◌else◌, if_holds, option_holds, All, ltb→lt, set}
use zetta_transport.Transport.PacketWindow.{
  PacketWindow, new, set_bit, mark_above, mark_processed, highest_or_zero,
}
use zetta_transport.Transport.PacketWindow.Words.{bit}
use zetta_transport.Transport.PacketWindow.Mark.{
  WellFormed, new-WellFormed, mark_processed-WellFormed, bit-mark_above, bit-set_bit, bit-set_only,
}

-- Whether the window has the bit of the number, or the number is too old for a bit.
abbrev pub seen : Option ℕ → List ℕ → ℕ → Bool
seen none m q = false
seen (some h) m q =
    if leb q h then (if leb 2048 (h - q) then true else bit m (h - q) == 1) else false

abbrev Absorbs : Option ℕ → List ℕ → ℕ → ℕ → PacketWindow → Type 0
Absorbs o m pn q w =
    seen w.highest_processed w.bitmask q ≡ (seen o m q || (q == pn) || leb (q + 2048) pn)

seen-mark_first :
    (w : PacketWindow) (pn q : ℕ)
    → WellFormed w
    → w.highest_processed ≡ none
    → Absorbs none w.bitmask pn q
        (record { highest_processed = some pn; bitmask = set w.bitmask 0 1 })
seen-mark_first w pn q v e = ground (
  arith,
  λ (lt : pn - q < 2048).
      bit-set_only w.bitmask (pn - q) v.shape (v.bounded (pn - q) lt (rw e refl)),
)

seen-mark_next :
    (w : PacketWindow) (h pn q : ℕ)
    → WellFormed w
    → h < pn
    → Absorbs
        (some h)
        w.bitmask
        pn
        q
        (record { highest_processed = some pn; bitmask = mark_above w h pn })
seen-mark_next w h pn q v above = ground (arith, bit-mark_above w h pn (pn - q) v.shape above)

seen-mark_within :
    (w : PacketWindow) (h pn q : ℕ)
    → WellFormed w
    → pn ≤ h
    → h - pn < 2048
    → Absorbs
        (some h)
        w.bitmask
        pn
        q
        (record { highest_processed = some h; bitmask = set_bit (h - pn) w.bitmask })
seen-mark_within w h pn q v below near =
    ground (arith, bit-set_bit (h - pn) w.bitmask (h - q) v.shape near)

seen-mark_beyond :
    (w : PacketWindow) (h pn q : ℕ)
    → 2048 ≤ h - pn
    → seen (some h) w.bitmask q ≡ (seen (some h) w.bitmask q || (q == pn) || leb (q + 2048) pn)
seen-mark_beyond w h pn q far = ground arith

pub seen-mark_processed :
    (w : PacketWindow) (pn q : ℕ)
    → WellFormed w
    → Absorbs w.highest_processed w.bitmask pn q (mark_processed w pn)
unfolding mark_processed
seen-mark_processed w pn q v =
    option_holds P w.highest_processed (λ e. seen-mark_first w pn q v e ∙ sym (old none e))
      (λ h e.
        if_holds P (ltb h pn)
          (λ above. seen-mark_next w h pn q v (ltb→lt h pn above) ∙ sym (old (some h) e))
          (λ low.
            if_holds P (ltb (h - pn) 2048)
              (λ near.
                ap (λ o. seen o (set_bit (h - pn) w.bitmask) q) e
                ∙ seen-mark_within w h pn q v (ground arith) (ltb→lt (h - pn) 2048 near)
                ∙ sym (old (some h) e))
              (λ far.
                ap (λ o. seen o w.bitmask q) e
                ∙ seen-mark_beyond w h pn q (ground arith)
                ∙ sym (old (some h) e))))
  where
    P : PacketWindow → Type 0
    P = Absorbs w.highest_processed w.bitmask pn q

    old :
        (o : Option ℕ)
        → w.highest_processed ≡ o
        → (seen w.highest_processed w.bitmask q || (q == pn) || leb (q + 2048) pn)
          ≡ (seen o w.bitmask q || (q == pn) || leb (q + 2048) pn)
    old o e = ap (λ o. seen o w.bitmask q || (q == pn) || leb (q + 2048) pn) e

-- `mark_processed` for each number in turn.
abbrev pub mark_all : PacketWindow → List ℕ → PacketWindow
mark_all w [] = w
mark_all w (pn ∷ pns) = mark_all (mark_processed w pn) pns

-- Some number of the list is the given one or leaves it 2048 or more behind.
abbrev pub known : List ℕ → ℕ → Bool
known [] q = false
known (pn ∷ pns) q = (q == pn) || leb (q + 2048) pn || known pns q

pub mark_all-WellFormed :
    (w : PacketWindow) (pns : List ℕ) → WellFormed w → WellFormed (mark_all w pns)
mark_all-WellFormed w [] v = v
mark_all-WellFormed w (pn ∷ pns) v =
    mark_all-WellFormed (mark_processed w pn) pns (mark_processed-WellFormed w pn v)

pub seen-mark_all :
    (w : PacketWindow) (pns : List ℕ) (q : ℕ)
    → WellFormed w
    → seen (mark_all w pns).highest_processed (mark_all w pns).bitmask q
      ≡ (seen w.highest_processed w.bitmask q || known pns q)
seen-mark_all w [] q v = ground arith
seen-mark_all w (pn ∷ pns) q v = ground (
  arith,
  seen-mark_all (mark_processed w pn) pns q (mark_processed-WellFormed w pn v),
  seen-mark_processed w pn q v,
)

pub seen-mark_all-new :
    (pns : List ℕ) (q : ℕ)
    → seen (mark_all new pns).highest_processed (mark_all new pns).bitmask q ≡ known pns q
unfolding new
seen-mark_all-new pns q = seen-mark_all new pns q new-WellFormed

-- The highest number after `mark_processed`.
abbrev top_with : Option ℕ → ℕ → Option ℕ
top_with none pn = some pn
top_with (some h) pn = some (max h pn)

highest-mark_processed :
    (w : PacketWindow) (pn : ℕ)
    → (mark_processed w pn).highest_processed ≡ top_with w.highest_processed pn
unfolding mark_processed
highest-mark_processed w pn =
    option_holds P w.highest_processed (λ e. sym (ap (λ o. top_with o pn) e))
      (λ h e.
        if_holds P (ltb h pn)
          (λ above. ap some (omega (arith, ltb→lt h pn above)) ∙ sym (ap (λ o. top_with o pn) e))
          (λ low. if_holds P (ltb (h - pn) 2048) (λ _. keeps h e low) (λ _. keeps h e low)))
  where
    P : PacketWindow → Type 0
    P v = v.highest_processed ≡ top_with w.highest_processed pn

    keeps :
        (h : ℕ)
        → w.highest_processed ≡ some h
        → ltb h pn ≡ false
        → w.highest_processed ≡ top_with w.highest_processed pn
    keeps h e low = e ∙ ap some (ground arith) ∙ sym (ap (λ o. top_with o pn) e)

-- Some number of the list is the given one.
abbrev pub elem : ℕ → List ℕ → Bool
elem q [] = false
elem q (pn ∷ pns) = (q == pn) || elem q pns

-- Some number of the list leaves the given one 2048 or more behind.
abbrev pub behind : ℕ → List ℕ → Bool
behind q [] = false
behind q (pn ∷ pns) = leb (q + 2048) pn || behind q pns

pub known-split : (pns : List ℕ) (q : ℕ) → known pns q ≡ (elem q pns || behind q pns)
known-split [] q = refl
known-split (pn ∷ pns) q = ground (arith, known-split pns q)

abbrev pub beyond : Option ℕ → ℕ → Bool
beyond none q = false
beyond (some h) q = leb (q + 2048) h

beyond-top_with :
    (o : Option ℕ) (pn q : ℕ) → beyond (top_with o pn) q ≡ (beyond o q || leb (q + 2048) pn)
beyond-top_with none pn q = ground arith
beyond-top_with (some h) pn q = ground arith

beyond-mark_all :
    (w : PacketWindow) (pns : List ℕ) (q : ℕ)
    → beyond (mark_all w pns).highest_processed q ≡ (beyond w.highest_processed q || behind q pns)
beyond-mark_all w [] q = ground arith
beyond-mark_all w (pn ∷ pns) q = ground (
  arith,
  beyond-mark_all (mark_processed w pn) pns q,
  ap (λ o. beyond o q) (highest-mark_processed w pn),
  beyond-top_with w.highest_processed pn q,
)

pub beyond-mark_all-new :
    (pns : List ℕ) (q : ℕ) → beyond (mark_all new pns).highest_processed q ≡ behind q pns
unfolding new
beyond-mark_all-new pns q = beyond-mark_all new pns q

top_with-lt :
    (b : ℕ) (o : Option ℕ) (pn : ℕ)
    → highest_or_zero o < b
    → pn < b
    → highest_or_zero (top_with o pn) < b
top_with-lt b none pn h k = k
top_with-lt b (some t) pn h k = omega arith

highest-mark_all :
    (b : ℕ) (w : PacketWindow) (pns : List ℕ)
    → highest_or_zero w.highest_processed < b
    → All (λ pn. pn < b) pns
    → highest_or_zero (mark_all w pns).highest_processed < b
highest-mark_all b w [] h k = h
highest-mark_all b w (pn ∷ pns) h k =
    highest-mark_all b (mark_processed w pn) pns
      (rw (highest-mark_processed w pn) (top_with-lt b w.highest_processed pn h k.0)) k.1

pub highest-mark_all-new :
    (b : ℕ) (pns : List ℕ)
    → 0 < b
    → All (λ pn. pn < b) pns
    → highest_or_zero (mark_all new pns).highest_processed < b
unfolding new
highest-mark_all-new b pns h k = highest-mark_all b new pns h k
