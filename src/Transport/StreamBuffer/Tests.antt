-- ===== src/Transport/StreamBuffer/Tests.antt =====
-- Runs of the receive buffer.
use zetta_transport.Common.{
  none, ℕ, zero, suc, ◌+◌, ◌-◌, ◌≡◌, refl, arith, not, ◌||◌, List, [], ◌∷◌,
}
use zetta_transport.Transport.StreamBuffer.{
  Entries, new, merge_entry, merge_entries, merge_next, add_range, overwrite, copy_chunks, store,
  write, copy_out, drop_stale, trim, take_range, read_contiguous, receive, resize,
}
use zetta_transport.Transport.StreamBuffer.Entries.{holds, within, Sorted}
use zetta_transport.Transport.StreamBuffer.Counted.{tally, holds-add_range_counted}
use zetta_transport.Transport.StreamBuffer.Write.{Valid, Agrees, Accepted, write-Accepted}
use zetta_transport.Transport.StreamBuffer.Read.{Delivers, read_contiguous-Delivers}
use zetta_transport.Transport.StreamBuffer.Resize.{resize-Valid}
use zetta_transport.Transport.StreamBuffer.Delivery.{
  Event, frame, read, run, Prefix, new-Valid, run_delivers,
}

-- The stream "ABCDE..".
abbrev alphabet : ℕ → ℕ
alphabet p = 65 + p

-- Out of order, with an overlap, over a buffer of 4 bytes.
abbrev events : List Event
events =
    frame none 10 2 (67 ∷ 68 ∷ [])
    ∷ read
    ∷ frame none 10 0 (65 ∷ 66 ∷ 67 ∷ [])
    ∷ read
    ∷ frame none 10 3 (68 ∷ 69 ∷ [])
    ∷ read
    ∷ []

delivered_events : (run ([], new 4) events).0 ≡ 65 ∷ 66 ∷ 67 ∷ 68 ∷ 69 ∷ []
unfolding new merge_entry merge_entries merge_next add_range overwrite copy_chunks store write
    copy_out drop_stale trim take_range read_contiguous receive
delivered_events = refl

too_large : (write (new 4) 2 (1 ∷ 2 ∷ 3 ∷ [])).1 ≡ new 4
unfolding new merge_entry merge_entries merge_next add_range overwrite copy_chunks store write
too_large = refl

abbrev two_ranges : Entries
two_ranges = (0, 5) ∷ (10, 15) ∷ []

-- `buffered_ranges_merge_correctly`
gap_filled : add_range 5 10 two_ranges ≡ (5, (0, 15) ∷ [])
unfolding merge_entry merge_entries merge_next add_range
gap_filled = refl

two_ranges-Sorted : Sorted two_ranges
two_ranges-Sorted = (omega arith, (omega arith, tt), (omega arith, tt, tt))

holds-add_range_counted_example :
    Sorted (add_range 5 10 two_ranges).1
    × (holds (add_range 5 10 two_ranges).1 7 ≡ (holds two_ranges 7 || within 5 10 7))
    × ((add_range 5 10 two_ranges).0 ≡ tally (λ q. not (holds two_ranges q)) (10 - 5) 5)
holds-add_range_counted_example =
    holds-add_range_counted 5 10 two_ranges 7 (omega arith) two_ranges-Sorted

one-Agrees : (p b : ℕ) → b ≡ alphabet p → Agrees alphabet p (b ∷ [])
one-Agrees p b e zero lt = omega (arith, e)
one-Agrees p b e (suc i) lt = absurd (omega arith)

pair-Agrees : (p b c : ℕ) → b ≡ alphabet p → c ≡ alphabet (p + 1) → Agrees alphabet p (b ∷ c ∷ [])
pair-Agrees p b c e f zero lt = omega (arith, e)
pair-Agrees p b c e f (suc zero) lt = omega (arith, f)
pair-Agrees p b c e f (suc (suc i)) lt = absurd (omega arith)

write-Accepted_example : Accepted alphabet (new 4) 2 (67 ∷ 68 ∷ []) (write (new 4) 2 (67 ∷ 68 ∷ []))
unfolding new
write-Accepted_example =
    write-Accepted alphabet (new 4) 2 (67 ∷ 68 ∷ []) (new-Valid alphabet 4 (omega arith))
      (pair-Agrees 2 67 68 refl refl) (omega arith) (omega arith) (omega arith)

one_write : Valid alphabet (write (new 4) 0 (65 ∷ 66 ∷ [])).1
unfolding new
one_write =
    (write-Accepted alphabet (new 4) 0 (65 ∷ 66 ∷ []) (new-Valid alphabet 4 (omega arith))
      (pair-Agrees 0 65 66 refl refl) (omega arith) (omega arith) (omega arith)).valid

read_contiguous-Delivers_example :
    Delivers alphabet
      (write (new 4) 0 (65 ∷ 66 ∷ [])).1
      (read_contiguous (write (new 4) 0 (65 ∷ 66 ∷ [])).1)
read_contiguous-Delivers_example =
    read_contiguous-Delivers alphabet (write (new 4) 0 (65 ∷ 66 ∷ [])).1 one_write

run_delivers_example :
    Prefix alphabet
      (run ([], new 4) (frame none 10 1 (66 ∷ []) ∷ frame none 10 0 (65 ∷ 66 ∷ []) ∷ read ∷ []))
run_delivers_example =
    run_delivers alphabet 4 (frame none 10 1 (66 ∷ []) ∷ frame none 10 0 (65 ∷ 66 ∷ []) ∷ read ∷ [])
      (omega arith) (one-Agrees 1 66 refl, (pair-Agrees 0 65 66 refl refl, tt))

resize-Valid_example :
    Valid alphabet (resize (write (new 4) 0 (65 ∷ 66 ∷ [])).1 8)
    × ((resize (write (new 4) 0 (65 ∷ 66 ∷ [])).1 8).read_head
        ≡ (write (new 4) 0 (65 ∷ 66 ∷ [])).1.read_head)
    × ((resize (write (new 4) 0 (65 ∷ 66 ∷ [])).1 8).received_ranges
        ≡ (write (new 4) 0 (65 ∷ 66 ∷ [])).1.received_ranges)
    × ((resize (write (new 4) 0 (65 ∷ 66 ∷ [])).1 8).capacity ≡ 8)
unfolding new merge_entry merge_entries merge_next add_range overwrite copy_chunks store write
resize-Valid_example =
    resize-Valid alphabet (write (new 4) 0 (65 ∷ 66 ∷ [])).1 8 one_write (omega arith) (omega arith)
