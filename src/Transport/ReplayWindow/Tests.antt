-- ===== src/Transport/ReplayWindow/Tests.antt =====
-- Runs of the replay test.
use zetta_transport.Common.{◌≡◌, refl, ℕ, List, [], ◌∷◌, true, false}
use zetta_transport.Transport.PacketWindow.{
  new, move_words, clear_words, shift_words, shift_by_words, shift_by_bits, shift_left, set_bit,
  mark_above, mark_processed,
}
use zetta_transport.Transport.PacketWindow.Seen.{mark_all, known}
use zetta_transport.Transport.ReplayWindow.{is_replay}
use zetta_transport.Transport.ReplayWindow.History.{is_replay-mark_all}

abbrev arrivals : List ℕ
arrivals = 5 ∷ 3000 ∷ 2990 ∷ []

known_number : is_replay (mark_all new arrivals) 2990 ≡ true
unfolding new move_words clear_words shift_words shift_by_words shift_by_bits shift_left set_bit
    mark_above mark_processed is_replay
known_number = refl

new_number : is_replay (mark_all new arrivals) 2991 ≡ false
unfolding new move_words clear_words shift_words shift_by_words shift_by_bits shift_left set_bit
    mark_above mark_processed is_replay
new_number = refl

too_old : is_replay (mark_all new arrivals) 952 ≡ true
unfolding new move_words clear_words shift_words shift_by_words shift_by_bits shift_left set_bit
    mark_above mark_processed is_replay
too_old = refl

is_replay-mark_all_example : is_replay (mark_all new arrivals) 2991 ≡ known arrivals 2991
is_replay-mark_all_example = is_replay-mark_all arrivals 2991
