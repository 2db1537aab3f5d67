-- ===== src/Transport/StreamBuffer/Received.antt =====
-- The received ranges after `add_range`.
use zetta_transport.Common.{
  ℕ, ◌-◌, ◌≤◌, ◌<◌, ◌≡◌, refl, ap, ◌∙◌, inl, inr, arith, true, false, not, ◌||◌, [], ◌∷◌,
}
use zetta_transport.Common.{
  Option, none, some, leb, if_holds, option_holds, All, All-imp, All-and, All-filter_imp, filter,
  Bool-cases,
}
use zetta_transport.Transport.StreamBuffer.{
  Entries, first_from, map_remove, map_insert, remove_all, Merge, unmerged, merge_next, add_range,
}
use zetta_transport.Transport.StreamBuffer.Entries.{
  within, holds, Sorted, Apart, SameOrApart, map_remove-absent, remove_all-filter,
  remove_all-append, holds-filter, filter-Sorted, holds-map_insert, map_insert-Sorted, Sorted-apart,
  Sorted-nonempty,
}
use zetta_transport.Transport.StreamBuffer.Merging.{
  touching, fold, merge_entries-fold, within-fold, to_remove-fold, fold-grows, fold-contains,
  fold-Apart,
}
use mathlib.Core.Path.{subst}

-- What holds of every entry holds of the first at or behind a limit.
abbrev Found : (ℕ × ℕ → Type 0) → ℕ → Option (ℕ × ℕ) → Type 0
Found P limit none = Unit
Found P limit (some n) = P n × (limit ≤ n.0)

first_from-Found :
    (P : ℕ × ℕ → Type 0) (limit : ℕ) (es : Entries) → All P es → Found P limit (first_from limit es)
first_from-Found P limit [] h = tt
first_from-Found P limit (e ∷ es) h =
    if_holds (Found P limit) (leb limit e.0) (λ y. (h.0, ground arith))
      (λ _. first_from-Found P limit es h.1)

module _ (start end : ℕ) (lt : start < end) (rs : Entries) (sorted : Sorted rs) where
  abbrev merged : Merge
  merged = fold start end (unmerged start end) rs

  abbrev ms : ℕ
  ms = merged.merged_start

  abbrev me : ℕ
  me = merged.merged_end

  abbrev others : Entries
  others = filter (λ e. not (touching start end e)) rs

  -- An entry is part of the merged range, or apart from it.
  abbrev Placed : ℕ × ℕ → Type 0
  Placed r =
      (touching start end r ≡ true → (ms ≤ r.0) × (r.1 ≤ me))
      × (touching start end r ≡ false → Apart (ms, me) r)

  placed-Apart :
      (r : ℕ × ℕ)
      → r.0 < r.1
      → All (SameOrApart r) rs
      → touching start end r ≡ false
      → Apart (ms, me) r
  placed-Apart r ne h f =
      fold-Apart start end (unmerged start end) rs r lt (omega arith) (omega arith) ne
        (ground arith)
        (All-imp (SameOrApart r) (λ t. touching start end t ≡ true → Apart r t) rs
          (λ t d y. ground arith) h)

  All-Placed : All Placed rs
  All-Placed =
      All-and (λ r. touching start end r ≡ true → (ms ≤ r.0) × (r.1 ≤ me))
        (λ r. touching start end r ≡ false → Apart (ms, me) r) rs
        (fold-contains start end (unmerged start end) rs)
        (All-imp (λ r. (r.0 < r.1) × All (SameOrApart r) rs)
          (λ r. touching start end r ≡ false → Apart (ms, me) r) rs
          (λ r h f. placed-Apart r h.0 h.1 f)
          (All-and (λ r. r.0 < r.1) (λ r. All (SameOrApart r) rs) rs (Sorted-nonempty rs sorted)
            (Sorted-apart rs sorted)))

  others-Apart : All (Apart (ms, me)) others
  others-Apart =
      All-filter_imp (Apart (ms, me)) (λ e. not (touching start end e)) rs
        (All-imp Placed (λ r. not (touching start end r) ≡ true → Apart (ms, me) r) rs
          (λ r p n. p.1 (ground arith)) All-Placed)

  -- What the last step of the search leaves: the merged range, and the entries to replace.
  abbrev Settled : Merge → Type 0
  Settled m =
      (m.merged_start ≡ ms)
      × (m.merged_end ≡ me)
      × (remove_all m.to_remove rs ≡ others)
      × (m.overlap ≡ merged.overlap)

  merged-removes : remove_all merged.to_remove rs ≡ others
  merged-removes =
      ap (λ ks. remove_all ks rs) (to_remove-fold start end (unmerged start end) rs)
      ∙ remove_all-filter (touching start end) rs sorted

  merged-ends : (ms ≤ start) × (end ≤ me)
  merged-ends = fold-grows start end (unmerged start end) rs

  others-Sorted : Sorted others
  others-Sorted = filter-Sorted (λ e. not (touching start end e)) rs sorted

  -- The last step finds no entry but those that are merged already.
  again_merged : (n : ℕ × ℕ) → Placed n → n.0 < n.1 → end ≤ n.0 → n.0 ≤ me → n.1 ≤ me
  again_merged n p ne above inside = elim (Bool-cases (touching start end n)) [
    | inl y ↦ (p.0 y).1
    | inr f ↦ ground (arith, p.1 f, merged-ends)
  ]

  again_absent : (n : ℕ × ℕ) → end ≤ n.0 → n.0 ≤ me → All (λ e. ¬ (e.0 ≡ n.0)) others
  again_absent n above inside =
      All-imp (λ e. Apart (ms, me) e × (e.0 < e.1)) (λ e. ¬ (e.0 ≡ n.0)) others
        (λ e h same. absurd (ground (arith, h.0, h.1, merged-ends)))
        (All-and (Apart (ms, me)) (λ e. e.0 < e.1) others others-Apart
          (Sorted-nonempty others others-Sorted))

  found :
      (n : ℕ × ℕ) → first_from end rs ≡ some n → Found (λ r. Placed r × (r.0 < r.1)) end (some n)
  found n e = subst (Found (λ r. Placed r × (r.0 < r.1)) end) e (
      first_from-Found (λ r. Placed r × (r.0 < r.1)) end rs
        (All-and Placed (λ r. r.0 < r.1) rs All-Placed (Sorted-nonempty rs sorted)))

  merge_next-Settled : Settled (merge_next end rs merged)
  unfolding merge_next
  merge_next-Settled =
      option_holds Settled (first_from end rs) (λ _. (refl, refl, merged-removes, refl))
        (λ n e.
          if_holds Settled (leb n.0 me)
            (λ inside. (
              refl,
              omega (
                arith,
                again_merged n (found n e).0.0 (found n e).0.1 (found n e).1 (ground arith),
              ),
              remove_all-append merged.to_remove n.0 rs
                  ∙ ap (map_remove n.0) merged-removes
                  ∙ map_remove-absent n.0 others (again_absent n (found n e).1 (ground arith)),
              refl,
            ))
            (λ _. (refl, refl, merged-removes, refl)))

  add_range-entries : (add_range start end rs).1 ≡ map_insert ms me others
  unfolding add_range
  add_range-entries =
      ap (λ m. body (merge_next end rs m)) (merge_entries-fold start end (unmerged start end) rs)
      ∙ ap (λ a. map_insert a last.merged_end (remove_all last.to_remove rs)) merge_next-Settled.0
      ∙ ap (λ b. map_insert ms b (remove_all last.to_remove rs)) merge_next-Settled.1
      ∙ ap (map_insert ms me) merge_next-Settled.2
    where
      body : Merge → Entries
      body m = map_insert m.merged_start m.merged_end (remove_all m.to_remove rs)

      last : Merge
      last = merge_next end rs merged

  ends_in_order : ms < me
  ends_in_order = omega (arith, merged-ends)

  -- The ranges stay sorted and apart, and hold the new positions beside the old ones.
  pub add_range-Sorted : Sorted (add_range start end rs).1
  add_range-Sorted =
      rw add_range-entries (map_insert-Sorted ms me others ends_in_order others-Sorted others-Apart)

  pub holds-add_range :
      (p : ℕ) → holds (add_range start end rs).1 p ≡ (holds rs p || within start end p)
  holds-add_range p = rw add_range-entries (
      holds-map_insert ms me others p ends_in_order others-Sorted others-Apart
      ∙ ground (
        arith,
        within-fold start end (unmerged start end) rs p lt (omega arith) (omega arith),
        holds-filter (touching start end) rs p,
      ))

  pub add_range-added : (add_range start end rs).0 ≡ (end - start) - merged.overlap
  unfolding add_range
  add_range-added =
      ap (λ m. (end - start) - (merge_next end rs m).overlap)
        (merge_entries-fold start end (unmerged start end) rs)
      ∙ ap (λ o. (end - start) - o) merge_next-Settled.3
