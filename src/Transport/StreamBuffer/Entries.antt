-- ===== src/Transport/StreamBuffer/Entries.antt =====
-- The operations of the ordered map on entries that are disjoint ranges.
use zetta_transport.Common.{
  ℕ, ◌<◌, ◌≡◌, refl, ap, ◌∙◌, ◌⊎◌, inl, inr, arith, Bool, false, not, ◌&&◌, ◌||◌, List, [], ◌∷◌,
  ◌++◌, map,
}
use zetta_transport.Common.{
  ltb, leb, ◌==◌, if_holds, All, All-imp, All-filter, All-and, filter, Bool-cases,
}
use zetta_transport.Transport.StreamBuffer.{Entries, map_remove, map_insert, remove_all}

-- Whether the position lies in the range `[a, b)`.
abbrev pub within : ℕ → ℕ → ℕ → Bool
within a b p = leb a p && ltb p b

-- Whether a range of the map holds the position.
abbrev pub holds : Entries → ℕ → Bool
holds [] p = false
holds (e ∷ es) p = within e.0 e.1 p || holds es p

-- Not empty, in order, and with a position between any two.
abbrev pub Sorted : Entries → Type 0
Sorted [] = Unit
Sorted (e ∷ es) = (e.0 < e.1) × All (λ s. e.1 < s.0) es × Sorted es

-- Neither overlapping nor adjacent.
abbrev pub Apart : ℕ × ℕ → ℕ × ℕ → Type 0
Apart r s = (r.1 < s.0) ⊎ (s.1 < r.0)

abbrev pub keys_of : Entries → List ℕ
keys_of es = map (λ e. e.0) es

pub map_remove-absent : (k : ℕ) (es : Entries) → All (λ e. ¬ (e.0 ≡ k)) es → map_remove k es ≡ es
map_remove-absent k [] h = refl
map_remove-absent k (e ∷ es) h =
    if_holds (λ r. r ≡ (e ∷ es)) (e.0 == k) (λ t. absurd (h.0 (ground arith)))
      (λ f. ap (◌∷◌ e) (map_remove-absent k es h.1))

remove_all-skip :
    (ks : List ℕ) (e : ℕ × ℕ) (es : Entries)
    → All (λ k. e.0 < k) ks
    → remove_all ks (e ∷ es) ≡ (e ∷ remove_all ks es)
remove_all-skip [] e es h = refl
remove_all-skip (k ∷ ks) e es h =
    if_holds (λ r. remove_all ks r ≡ (e ∷ remove_all ks (map_remove k es))) (e.0 == k)
      (λ t. absurd (ground (arith, h.0))) (λ f. remove_all-skip ks e (map_remove k es) h.1)

All-keys_of : (P : ℕ → Type 0) (es : Entries) → All (λ e. P e.0) es → All P (keys_of es)
All-keys_of P [] h = tt
All-keys_of P (e ∷ es) h = (h.0, All-keys_of P es h.1)

-- Removing the keys of the entries that pass a test leaves the others.
pub remove_all-filter :
    (t : ℕ × ℕ → Bool) (es : Entries)
    → Sorted es
    → remove_all (keys_of (filter t es)) es ≡ filter (λ e. not (t e)) es
remove_all-filter t [] s = refl
remove_all-filter t (e ∷ es) s = elim (Bool-cases (t e)) [
  | inl y ↦ rw y (
      ap (remove_all (keys_of (filter t es)))
        (if_holds (λ r. r ≡ es) (e.0 == e.0) (λ _. refl) (λ f. absurd (ground arith)))
      ∙ remove_all-filter t es s.2)
  | inr n ↦ rw n (
      remove_all-skip (keys_of (filter t es)) e es (
        All-keys_of (λ k. e.0 < k) (filter t es)
          (All-filter (λ r. e.0 < r.0) t es
            (All-imp (λ r. e.1 < r.0) (λ r. e.0 < r.0) es (λ r h. omega (arith, s.0)) s.1)))
      ∙ ap (◌∷◌ e) (remove_all-filter t es s.2))
]

pub holds-filter :
    (t : ℕ × ℕ → Bool) (es : Entries) (p : ℕ)
    → holds es p ≡ (holds (filter t es) p || holds (filter (λ e. not (t e)) es) p)
holds-filter t [] p = refl
holds-filter t (e ∷ es) p = elim (Bool-cases (t e)) [
  | inl y ↦ rw y (ground (arith, holds-filter t es p))
  | inr n ↦ rw n (ground (arith, holds-filter t es p))
]

pub filter-Sorted : (t : ℕ × ℕ → Bool) (es : Entries) → Sorted es → Sorted (filter t es)
filter-Sorted t [] s = tt
filter-Sorted t (e ∷ es) s =
    if_holds Sorted (t e) (λ _. (s.0, All-filter (λ r. e.1 < r.0) t es s.1, filter-Sorted t es s.2))
      (λ _. filter-Sorted t es s.2)

-- Inserting a range that is apart from every entry adds its positions.
pub holds-map_insert :
    (a b : ℕ) (es : Entries) (p : ℕ)
    → a < b
    → Sorted es
    → All (Apart (a, b)) es
    → holds (map_insert a b es) p ≡ (within a b p || holds es p)
holds-map_insert a b [] p lt s h = ground arith
holds-map_insert a b (e ∷ es) p lt s h =
    if_holds (λ r. holds r p ≡ (within a b p || holds (e ∷ es) p)) (ltb a e.0) (λ _. refl)
      (λ _.
        if_holds (λ r. holds r p ≡ (within a b p || holds (e ∷ es) p)) (a == e.0)
          (λ same. absurd (ground (arith, h.0, s.0)))
          (λ _. ground (arith, holds-map_insert a b es p lt s.2 h.1)))

All-map_insert :
    (P : ℕ × ℕ → Type 0) (a b : ℕ) (es : Entries) → P (a, b) → All P es → All P (map_insert a b es)
All-map_insert P a b [] p h = (p, tt)
All-map_insert P a b (e ∷ es) p h =
    if_holds (All P) (ltb a e.0) (λ _. (p, h))
      (λ _. if_holds (All P) (a == e.0) (λ _. (p, h.1)) (λ _. (h.0, All-map_insert P a b es p h.1)))

pub map_insert-Sorted :
    (a b : ℕ) (es : Entries)
    → a < b
    → Sorted es
    → All (Apart (a, b)) es
    → Sorted (map_insert a b es)
map_insert-Sorted a b [] lt s h = (lt, tt, tt)
map_insert-Sorted a b (e ∷ es) lt s h =
    if_holds Sorted (ltb a e.0)
      (λ below. (
        lt,
        (
          ground (arith, h.0, s.0),
          All-imp (λ r. e.1 < r.0) (λ r. b < r.0) es (λ r g. ground (arith, h.0, s.0)) s.1,
        ),
        s,
      ))
      (λ above.
        if_holds Sorted (a == e.0) (λ same. absurd (ground (arith, h.0, s.0)))
          (λ _. (
            s.0,
            All-map_insert (λ r. e.1 < r.0) a b es (ground (arith, h.0)) s.1,
            map_insert-Sorted a b es lt s.2 h.1,
          )))

pub holds-filter_cons :
    (t : ℕ × ℕ → Bool) (e : ℕ × ℕ) (es : Entries) (p : ℕ)
    → holds (filter t (e ∷ es)) p ≡ ((t e && within e.0 e.1 p) || holds (filter t es) p)
holds-filter_cons t e es p = elim (Bool-cases (t e)) [
  | inl y ↦ rw y (ground arith)
  | inr n ↦ rw n (ground arith)
]

pub remove_all-append :
    (ks : List ℕ) (k : ℕ) (es : Entries)
    → remove_all (ks ++ (k ∷ [])) es ≡ map_remove k (remove_all ks es)
remove_all-append [] k es = refl
remove_all-append (j ∷ ks) k es = remove_all-append ks k (map_remove j es)

-- Two entries of a sorted map are the same or apart.
abbrev pub SameOrApart : ℕ × ℕ → ℕ × ℕ → Type 0
SameOrApart r s = ((r.0 ≡ s.0) × (r.1 ≡ s.1)) ⊎ Apart r s

pub Sorted-apart : (es : Entries) → Sorted es → All (λ r. All (SameOrApart r) es) es
Sorted-apart [] s = tt
Sorted-apart (e ∷ es) s = (
  (inl (refl, refl), All-imp (λ r. e.1 < r.0) (SameOrApart e) es (λ r h. inr (inl h)) s.1),
  All-and (λ r. SameOrApart r e) (λ r. All (SameOrApart r) es) es
      (All-imp (λ r. e.1 < r.0) (λ r. SameOrApart r e) es (λ r h. inr (inr h)) s.1)
      (Sorted-apart es s.2),
)

pub Sorted-nonempty : (es : Entries) → Sorted es → All (λ r. r.0 < r.1) es
Sorted-nonempty [] s = tt
Sorted-nonempty (e ∷ es) s = (s.0, Sorted-nonempty es s.2)
