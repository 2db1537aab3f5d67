-- ===== src/Transport/AckTracker/History.antt =====
-- What `get_ack_ranges` reports after any sequence of `mark_processed`.
use zetta_transport.Common.{
  ℕ, ◌+◌, ◌-◌, ◌*◌, ◌/◌, ◌%◌, ◌≤◌, ◌<◌, ◌≡◌, sym, ap, ◌∙◌, arith, inl, inr,
}
use zetta_transport.Common.{List, [], Option, none, some, Bool, true, false, not, ◌&&◌, length}
use zetta_transport.Common.{ltb, leb, ◌==◌, option_holds, get_or_beyond, Option-cases}
use zetta_transport.Common.Bits.{bit_at, bit_at-zero}
use zetta_transport.Transport.PacketWindow.{PacketWindow, new, word}
use zetta_transport.Transport.PacketWindow.Words.{bit}
use zetta_transport.Transport.PacketWindow.Mark.{WellFormed, new-WellFormed, reaches}
use zetta_transport.Transport.PacketWindow.Seen.{
  seen, mark_all, mark_all-WellFormed, known-split, elem, behind, beyond, seen-mark_all-new,
  beyond-mark_all-new,
}
use zetta_transport.Transport.AckTracker.{get_ack_ranges, close, scan_words, start}
use zetta_transport.Transport.AckTracker.Ranges.{covers, Descending}
use zetta_transport.Transport.AckTracker.Scan.{Reported, scan-Reported}

abbrev recorded : List ℕ → ℕ → Bool
recorded m d = bit m d == 1

recorded_far : (t : PacketWindow) (d : ℕ) → WellFormed t → 2048 ≤ d → recorded t.bitmask d ≡ false
recorded_far t d v far = ground (
  arith,
  ap (λ w. bit_at w (d % 64))
      (get_or_beyond {A = ℕ} t.bitmask (d / 64) 0 (omega (arith, v.shape.size))),
  bit_at-zero (d % 64),
)

recorded_below_zero :
    (t : PacketWindow) (h d : ℕ)
    → WellFormed t
    → t.highest_processed ≡ some h
    → h < d
    → recorded t.bitmask d ≡ false
recorded_below_zero t h d v e lt = ground (
  arith,
  λ (near : d < 2048). v.bounded d near (ap (λ o. reaches o d) e ∙ ground arith),
  recorded_far t d v,
)

report : List ℕ → Option ℕ → List (ℕ × ℕ)
report m none = []
report m (some h) = close h (scan_words m h start)

get_ack_ranges-report : (t : PacketWindow) → get_ack_ranges t ≡ report t.bitmask t.highest_processed
unfolding get_ack_ranges report
get_ack_ranges-report t =
    option_holds (λ rs. rs ≡ report t.bitmask t.highest_processed) t.highest_processed
      (λ e. sym (ap (report t.bitmask) e)) (λ h e. sym (ap (report t.bitmask) e))

pub get_ack_ranges-none : (t : PacketWindow) → t.highest_processed ≡ none → get_ack_ranges t ≡ []
unfolding report
get_ack_ranges-none t e = get_ack_ranges-report t ∙ ap (report t.bitmask) e

pub get_ack_ranges-Reported :
    (t : PacketWindow) (h : ℕ)
    → WellFormed t
    → t.highest_processed ≡ some h
    → Reported h (recorded t.bitmask) (get_ack_ranges t)
unfolding report
get_ack_ranges-Reported t h v e =
    rw (get_ack_ranges-report t, e)
      (scan-Reported h (recorded t.bitmask) (λ d lt. recorded_below_zero t h d v e lt) t.bitmask
        v.shape.size
        (λ i j hi lt.
          ap (λ (x : ℕ). bit_at (word t.bitmask x) j == 1) {x = i} {y = (64 * i + j) / 64}
            (omega arith)
          ∙ ap (λ (x : ℕ). bit_at (word t.bitmask ((64 * i + j) / 64)) x == 1) {x = j}
              {y = (64 * i + j) % 64} (omega arith)))

recorded-mark_all :
    (pns : List ℕ) (h q : ℕ)
    → (mark_all new pns).highest_processed ≡ some h
    → (leb q h && ltb (h - q) 2048 && recorded (mark_all new pns).bitmask (h - q))
      ≡ (elem q pns && not (behind q pns))
recorded-mark_all pns h q e = ground (
  arith,
  seen-mark_all-new pns q,
  ap (λ o. seen o (mark_all new pns).bitmask q) e,
  beyond-mark_all-new pns q,
  ap (λ o. beyond o q) e,
  known-split pns q,
)

none-mark_all :
    (pns : List ℕ) (q : ℕ) → (mark_all new pns).highest_processed ≡ none → elem q pns ≡ false
none-mark_all pns q e = ground (
  arith,
  seen-mark_all-new pns q,
  ap (λ o. seen o (mark_all new pns).bitmask q) e,
  known-split pns q,
)

new-mark_all : (pns : List ℕ) → WellFormed (mark_all new pns)
new-mark_all pns = mark_all-WellFormed new pns new-WellFormed

-- Whatever the order of arrival, only packet numbers that were processed are acknowledged.
pub get_ack_ranges_sound :
    (pns : List ℕ) (q : ℕ) → covers (get_ack_ranges (mark_all new pns)) q ≡ true → elem q pns ≡ true
get_ack_ranges_sound pns q c = elim (Option-cases (mark_all new pns).highest_processed) [
  | inl e ↦ ground (arith, c, ap (λ rs. covers rs q) (get_ack_ranges-none (mark_all new pns) e))
  | inr (h, e) ↦ ground (
    arith,
    (get_ack_ranges-Reported (mark_all new pns) h (new-mark_all pns) e).sound.held q c,
    recorded-mark_all pns h q e,
    recorded_far (mark_all new pns) (h - q) (new-mark_all pns),
  )
]

-- While fewer than 128 ranges are reported, exactly the processed packet numbers are acknowledged that no
-- processed number leaves 2048 or more behind.
pub get_ack_ranges-exact :
    (pns : List ℕ) (q : ℕ)
    → length (get_ack_ranges (mark_all new pns)) < 128
    → covers (get_ack_ranges (mark_all new pns)) q ≡ (elem q pns && not (behind q pns))
get_ack_ranges-exact pns q few = elim (Option-cases (mark_all new pns).highest_processed) [
  | inl e ↦ ground (
    arith,
    none-mark_all pns q e,
    ap (λ rs. covers rs q) (get_ack_ranges-none (mark_all new pns) e),
  )
  | inr (h, e) ↦
      (get_ack_ranges-Reported (mark_all new pns) h (new-mark_all pns) e).exact few q
      ∙ recorded-mark_all pns h q e
]

-- At most 128 ranges are reported, from the highest to the lowest, with an unacknowledged number
-- between any two.
pub get_ack_ranges-Descending :
    (pns : List ℕ)
    → (length (get_ack_ranges (mark_all new pns)) ≤ 128)
      × Descending (get_ack_ranges (mark_all new pns))
get_ack_ranges-Descending pns = elim (Option-cases (mark_all new pns).highest_processed) [
  | inl e ↦ rw (get_ack_ranges-none (mark_all new pns) e) (omega arith, tt)
  | inr (h, e) ↦
      let r = get_ack_ranges-Reported (mark_all new pns) h (new-mark_all pns) e in
      (r.sound.bounded, r.sound.ordered)
]
