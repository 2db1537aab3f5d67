-- ===== src/Transport/StreamBuffer/Merging.antt =====
-- The loop of `add_range`: the merged range and the entries that it replaces.
use zetta_transport.Common.{
  ℕ, ◌+◌, ◌-◌, ◌≤◌, ◌<◌, min, max, ◌≡◌, refl, sym, ap, ◌∙◌, inl, inr, arith, Bool, true, ◌&&◌, ◌||◌,
  List, [], ◌∷◌, ◌++◌,
}
use zetta_transport.Common.{ltb, leb, if◌then◌else◌, if_holds, All, filter, Bool-cases}
use mathlib.Core.List.{append-nil, append_assoc}
use zetta_transport.Transport.StreamBuffer.{Entries, range_to, Merge, merge_entry, merge_entries}
use zetta_transport.Transport.StreamBuffer.Entries.{
  within, holds, holds-filter_cons, Apart, keys_of,
}

module _ (start end : ℕ) where
  -- The entry overlaps the new range or is adjacent to it.
  abbrev pub touching : ℕ × ℕ → Bool
  touching e = leb e.0 end && leb start e.1

  abbrev pub joined : Merge → ℕ × ℕ → Merge
  joined m e = record {
    merged_start = min m.merged_start e.0;
    merged_end = max m.merged_end e.1;
    overlap =
        if ltb (max start e.0) (min end e.1)
        then m.overlap + (min end e.1 - max start e.0)
        else m.overlap;
    to_remove = m.to_remove ++ (e.0 ∷ []);
  }

  abbrev pub fold : Merge → Entries → Merge
  fold m [] = m
  fold m (e ∷ es) = fold (if touching e then joined m e else m) es

  pub merge_entries-fold :
      (m : Merge) (es : Entries) → merge_entries start end m (range_to end es) ≡ fold m es
  unfolding merge_entries merge_entry
  merge_entries-fold m [] = refl
  merge_entries-fold m (e ∷ es) = elim (Bool-cases (leb e.0 end)) [
    | inl y ↦ rw y (merge_entries-fold (merge_entry start end m e) es)
    | inr n ↦ rw n (merge_entries-fold m es)
  ]

  pub within-fold :
      (m : Merge) (es : Entries) (p : ℕ)
      → start < end
      → m.merged_start ≤ start
      → end ≤ m.merged_end
      → within (fold m es).merged_start (fold m es).merged_end p
        ≡ (within m.merged_start m.merged_end p || holds (filter touching es) p)
  within-fold m [] p lt a b = ground arith
  within-fold m (e ∷ es) p lt a b =
      if_holds
        (λ k.
          within (fold k es).merged_start (fold k es).merged_end p
          ≡ (within m.merged_start m.merged_end p || holds (filter touching (e ∷ es)) p))
        (touching e)
        (λ y.
          within-fold (joined m e) es p lt (omega arith) (omega arith)
          ∙ ground (arith, holds-filter_cons touching e es p))
        (λ n. within-fold m es p lt a b ∙ ground (arith, holds-filter_cons touching e es p))

  pub to_remove-fold :
      (m : Merge) (es : Entries)
      → (fold m es).to_remove ≡ (m.to_remove ++ keys_of (filter touching es))
  to_remove-fold m [] = sym (append-nil m.to_remove)
  to_remove-fold m (e ∷ es) = elim (Bool-cases (touching e)) [
    | inl y ↦
        ap kept y
        ∙ to_remove-fold (joined m e) es
        ∙ append_assoc m.to_remove (e.0 ∷ []) (keys_of (filter touching es))
        ∙ sym (ap listed y)
    | inr n ↦ ap kept n ∙ to_remove-fold m es ∙ sym (ap listed n)
  ]
    where
      kept : Bool → List ℕ
      kept c = (fold (if c then joined m e else m) es).to_remove

      listed : Bool → List ℕ
      listed c = m.to_remove ++ keys_of (if c then e ∷ filter touching es else filter touching es)

  -- The merged range only grows.
  pub fold-grows :
      (m : Merge) (es : Entries)
      → ((fold m es).merged_start ≤ m.merged_start) × (m.merged_end ≤ (fold m es).merged_end)
  fold-grows m [] = (omega arith, omega arith)
  fold-grows m (e ∷ es) =
      if_holds
        (λ k. ((fold k es).merged_start ≤ m.merged_start) × (m.merged_end ≤ (fold k es).merged_end))
        (touching e) (λ y. omega (arith, fold-grows (joined m e) es)) (λ n. fold-grows m es)

  pub fold-contains :
      (m : Merge) (es : Entries)
      → All
          (λ e.
            touching e ≡ true → ((fold m es).merged_start ≤ e.0) × (e.1 ≤ (fold m es).merged_end))
          es
  fold-contains m [] = tt
  fold-contains m (e ∷ es) = (
    λ t.
        if_holds (λ k. ((fold k es).merged_start ≤ e.0) × (e.1 ≤ (fold k es).merged_end))
          (touching e) (λ y. omega (arith, fold-grows (joined m e) es))
          (λ n. absurd (ground arith)),
    fold-contains (if touching e then joined m e else m) es,
  )

  pub fold-Apart :
      (m : Merge) (es : Entries) (r : ℕ × ℕ)
      → start < end
      → m.merged_start ≤ start
      → end ≤ m.merged_end
      → r.0 < r.1
      → Apart (m.merged_start, m.merged_end) r
      → All (λ t. touching t ≡ true → Apart r t) es
      → Apart ((fold m es).merged_start, (fold m es).merged_end) r
  fold-Apart m [] r lt a b ne h k = h
  fold-Apart m (e ∷ es) r lt a b ne h k =
      if_holds (λ j. Apart ((fold j es).merged_start, (fold j es).merged_end) r) (touching e)
        (λ y.
          fold-Apart (joined m e) es r lt (omega arith) (omega arith) ne (ground (arith, h, k.0 y))
            k.1)
        (λ n. fold-Apart m es r lt a b ne h k.1)
