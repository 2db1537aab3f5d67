-- ===== src/Transport/AckTracker/Tests.antt =====
-- Runs of the acknowledgement scan.
use zetta_transport.Common.{◌≤◌, ◌≡◌, refl, arith, ℕ, List, [], ◌∷◌, ◌++◌, true, not, ◌&&◌, length}
use zetta_transport.Error.{ok}
use zetta_transport.Protocol.Wire.NetworkOrder.{network_order}
use zetta_transport.Protocol.Frame.{encode}
use zetta_transport.Protocol.Decode.{decode}
use zetta_transport.Transport.PacketWindow.{
  new, mark_above, set_bit, mark_processed, shift_left, shift_by_bits, shift_by_words, move_words,
  clear_words, shift_words,
}
use zetta_transport.Transport.PacketWindow.Seen.{mark_all, elem, behind}
use zetta_transport.Transport.AckTracker.{
  start, scan_bit, scan_bits, scan_word, scan_words, close, get_ack_ranges, ack_frame,
}
use zetta_transport.Transport.AckTracker.Ranges.{covers, Descending}
use zetta_transport.Transport.AckTracker.History.{
  get_ack_ranges_sound, get_ack_ranges-exact, get_ack_ranges-Descending,
}
use zetta_transport.Transport.AckTracker.Frames.{decode-encode-ack_frame}

-- Out of order, with a gap and a duplicate.
abbrev arrivals : List ℕ
arrivals = 3 ∷ 1 ∷ 2 ∷ 70 ∷ 3 ∷ 71 ∷ []

ranges_of_arrivals : get_ack_ranges (mark_all new arrivals) ≡ (70, 71) ∷ (1, 3) ∷ []
unfolding new move_words clear_words shift_words shift_by_words shift_by_bits shift_left set_bit
    mark_above mark_processed start scan_bit scan_bits scan_word scan_words close get_ack_ranges
ranges_of_arrivals = refl

get_ack_ranges_sound_example : elem 2 arrivals ≡ true
unfolding new move_words clear_words shift_words shift_by_words shift_by_bits shift_left set_bit
    mark_above mark_processed start scan_bit scan_bits scan_word scan_words close get_ack_ranges
get_ack_ranges_sound_example = get_ack_ranges_sound arrivals 2 refl

get_ack_ranges-exact_example :
    covers (get_ack_ranges (mark_all new arrivals)) 4 ≡ (elem 4 arrivals && not (behind 4 arrivals))
unfolding new move_words clear_words shift_words shift_by_words shift_by_bits shift_left set_bit
    mark_above mark_processed start scan_bit scan_bits scan_word scan_words close get_ack_ranges
get_ack_ranges-exact_example = get_ack_ranges-exact arrivals 4 (omega arith)

get_ack_ranges-Descending_example :
    (length (get_ack_ranges (mark_all new arrivals)) ≤ 128)
    × Descending (get_ack_ranges (mark_all new arrivals))
get_ack_ranges-Descending_example = get_ack_ranges-Descending arrivals

decode-encode-ack_frame_example :
    decode (encode (ack_frame (mark_all new arrivals) 65536 25) ++ [])
    ≡ ok (ack_frame (mark_all new arrivals) 65536 25, [])
decode-encode-ack_frame_example =
    decode-encode-ack_frame arrivals [] 65536 25
      (omega arith, (omega arith, (omega arith, (omega arith, (omega arith, (omega arith, tt))))))
      (omega arith)
