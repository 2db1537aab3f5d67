-- ===== src/Transport/StreamBuffer/Counted.antt =====
-- The number of new bytes that `add_range` returns.
use zetta_transport.Common.{
  ℕ, zero, suc, ◌+◌, ◌-◌, ◌≤◌, ◌<◌, min, max, ◌≡◌, refl, sym, ◌∙◌, arith, Bool, false, not, ◌||◌,
  [], ◌∷◌,
}
use zetta_transport.Common.{if◌then◌else◌, if_holds, All}
use zetta_transport.Transport.StreamBuffer.{Entries, Merge, unmerged, add_range}
use zetta_transport.Transport.StreamBuffer.Entries.{within, holds, Sorted}
use zetta_transport.Transport.StreamBuffer.Merging.{touching, joined, fold}
use zetta_transport.Transport.StreamBuffer.Received.{
  add_range-Sorted, holds-add_range, add_range-added,
}

-- How many of the `n` positions from `p` on pass the test.
abbrev pub tally : (ℕ → Bool) → ℕ → ℕ → ℕ
tally t zero p = 0
tally t (suc n) p = (if t p then 1 else 0) + tally t n (p + 1)

tally-within : (a b n p : ℕ) → tally (within a b) n p ≡ min (p + n) b - max p a
tally-within a b zero p = omega arith
tally-within a b (suc n) p = ground (arith, tally-within a b n (p + 1))

beyond-holds : (b : ℕ) (es : Entries) (p : ℕ) → All (λ s. b < s.0) es → p ≤ b → holds es p ≡ false
beyond-holds b [] p h le = refl
beyond-holds b (e ∷ es) p h le = ground (arith, h.0, beyond-holds b es p h.1 le)

tally_cons :
    (e : ℕ × ℕ) (es : Entries) (n p : ℕ)
    → All (λ s. e.1 < s.0) es
    → tally (holds (e ∷ es)) n p ≡ tally (within e.0 e.1) n p + tally (holds es) n p
tally_cons e es zero p h = refl
tally_cons e es (suc n) p h = ground (arith, tally_cons e es n (p + 1) h, beyond-holds e.1 es p h)

tally-not : (t : ℕ → Bool) (n p : ℕ) → tally (λ q. not (t q)) n p + tally t n p ≡ n
tally-not t zero p = refl
tally-not t (suc n) p = ground (arith, tally-not t n (p + 1))

tally_nothing : (n p : ℕ) → tally (λ q. false) n p ≡ 0
tally_nothing zero p = refl
tally_nothing (suc n) p = omega (arith, tally_nothing n (p + 1))

module _ (start end : ℕ) where
  -- The positions that the entries share with the new range.
  abbrev spans : Entries → ℕ
  spans [] = 0
  spans (e ∷ es) = (min end e.1 - max start e.0) + spans es

  overlap-fold :
      (m : Merge) (es : Entries)
      → start < end
      → (fold start end m es).overlap ≡ m.overlap + spans es
  overlap-fold m [] lt = omega arith
  overlap-fold m (e ∷ es) lt =
      if_holds (λ k. (fold start end k es).overlap ≡ m.overlap + spans (e ∷ es))
        (touching start end e) (λ y. overlap-fold (joined start end m e) es lt ∙ ground arith)
        (λ n. overlap-fold m es lt ∙ ground arith)

  spans-tally :
      (es : Entries) → start < end → Sorted es → spans es ≡ tally (holds es) (end - start) start
  spans-tally [] lt s = sym (tally_nothing (end - start) start)
  spans-tally (e ∷ es) lt s = ground (
    arith,
    spans-tally es lt s.2,
    tally_cons e es (end - start) start s.1,
    tally-within e.0 e.1 (end - start) start,
  )

-- Adding a range to sorted ranges keeps them sorted, adds exactly the positions of the range, and returns
-- how many of them are new. The range is not empty.
pub holds-add_range_counted :
    (start end : ℕ) (rs : Entries) (p : ℕ)
    → start < end
    → Sorted rs
    → Sorted (add_range start end rs).1
      × (holds (add_range start end rs).1 p ≡ (holds rs p || within start end p))
      × ((add_range start end rs).0 ≡ tally (λ q. not (holds rs q)) (end - start) start)
holds-add_range_counted start end rs p lt s = (
  add_range-Sorted start end lt rs s,
  holds-add_range start end lt rs s p,
  add_range-added start end lt rs s
      ∙ omega (
        arith,
        overlap-fold start end (unmerged start end) rs lt,
        spans-tally start end rs lt s,
        tally-not (holds rs) (end - start) start,
      ),
)
