-- ===== src/Transport/ReplayWindow/History.antt =====
-- What `is_replay` answers after any sequence of `mark_processed`.
use zetta_transport.Common.{ℕ, ◌+◌, ◌-◌, ◌/◌, ◌%◌, ◌≡◌, refl, sym, ap, ◌∙◌}
use zetta_transport.Common.{List, none, some, true, false, ◌||◌}
use zetta_transport.Common.{leb, ◌==◌, if◌then◌else◌}
use zetta_transport.Common.Bits.{test_bit}
use zetta_transport.Transport.PacketWindow.{PacketWindow, new, word, mark_processed}
use zetta_transport.Transport.PacketWindow.Mark.{WellFormed}
use zetta_transport.Transport.PacketWindow.Seen.{
  seen, mark_all, known, seen-mark_processed, seen-mark_all-new,
}
use zetta_transport.Transport.ReplayWindow.{is_replay}

is_replay-seen : (w : PacketWindow) (q : ℕ) → is_replay w q ≡ seen w.highest_processed w.bitmask q
unfolding is_replay
is_replay-seen w q =
    elim w.highest_processed
      as (λ o.
        is_replay (record { highest_processed = o; bitmask = w.bitmask }) q ≡ seen o w.bitmask q) [
          | none ↦ refl
          | some h ↦
              ap (λ b. if leb q h then (if leb 2048 (h - q) then true else b) else false)
                (test_bit (word w.bitmask ((h - q) / 64)) ((h - q) % 64))
        ]

-- After a packet number is processed, exactly these are replays: those that were, the number itself,
-- and those that it leaves 2048 or more behind. The window is one that `mark_processed` can reach.
pub is_replay-mark_processed :
    (w : PacketWindow) (pn q : ℕ)
    → WellFormed w
    → is_replay (mark_processed w pn) q ≡ (is_replay w q || (q == pn) || leb (q + 2048) pn)
is_replay-mark_processed w pn q v =
    is_replay-seen (mark_processed w pn) q
    ∙ seen-mark_processed w pn q v
    ∙ ap (λ b. b || (q == pn) || leb (q + 2048) pn) (sym (is_replay-seen w q))

-- From a new window, whatever the order of arrival: a number is a replay exactly where it was processed or a
-- processed number is greater by 2048 or more.
pub is_replay-mark_all : (pns : List ℕ) (q : ℕ) → is_replay (mark_all new pns) q ≡ known pns q
is_replay-mark_all pns q = is_replay-seen (mark_all new pns) q ∙ seen-mark_all-new pns q
