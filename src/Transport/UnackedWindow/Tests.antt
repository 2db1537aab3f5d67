-- ===== src/Transport/UnackedWindow/Tests.antt =====
-- Runs of the window of unacknowledged packets.
use zetta_transport.Common.{
  ℕ, ◌≡◌, refl, arith, ◌&&◌, List, [], ◌∷◌, none, some, length, ◌==◌, if◌then◌else◌,
}
use zetta_transport.Transport.UnackedWindow.{
  UnackedWindow, new, insert_at, insert, pop_free, remove, get_mut, iter_from, iter, keys,
}
use zetta_transport.Transport.UnackedWindow.Map.{
  new-WellFormed, insert-WellFormed, takes, get_mut-insert, get_mut-remove,
}
use zetta_transport.Transport.UnackedWindow.Order.{Step, sent, settled, run, run_map, get_mut-run}
use zetta_transport.Transport.UnackedWindow.Iter.{listed, Ascending, iter-listed}

-- `insert_remove_shifts_base_forward` and `insert_with_gap_preserves_keys`
abbrev steps : List (Step ℕ)
steps = sent 5 50 ∷ sent 7 70 ∷ settled 5 ∷ sent 9 90 ∷ settled 6 ∷ []

keys_of_steps : keys (run new steps) ≡ 7 ∷ 9 ∷ []
unfolding new insert_at insert pop_free remove iter_from iter keys
keys_of_steps = refl

abbrev single : UnackedWindow ℕ
single = insert new 10 100

get_mut-run_example : get_mut (run new steps) 7 ≡ run_map (λ k. none) steps 7
get_mut-run_example = get_mut-run steps 7 (omega arith, (omega arith, (omega arith, tt)))

get_mut-insert_example :
    get_mut (insert single 9 90) 9
    ≡ (if 9 == 9 && takes single 9 then some 90 else get_mut single 9)
get_mut-insert_example = get_mut-insert single 9 9 90 (insert-WellFormed new 10 100 new-WellFormed)

get_mut-remove_example :
    ((remove single 10).0 ≡ get_mut single 10)
    × (get_mut (remove single 10).1 11 ≡ (if 11 == 10 then none else get_mut single 11))
get_mut-remove_example = get_mut-remove single 10 11

iter-listed_example :
    (listed (iter single) 10 ≡ get_mut single 10)
    × (length (iter single) ≡ single.len)
    × Ascending (keys single)
iter-listed_example = iter-listed single 10 (insert-WellFormed new 10 100 new-WellFormed)
