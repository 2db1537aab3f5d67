-- ===== src/Transport/StreamBuffer/Ring.antt =====
-- Copying into the circular buffer.
use zetta_transport.Common.{
  ℕ, zero, suc, ◌+◌, ◌-◌, ◌%◌, ◌≤◌, ◌<◌, min, ◌≡◌, refl, ap, ◌∙◌, arith, ◌&&◌, List, [], ◌∷◌, ◌++◌,
}
use zetta_transport.Common.{
  ltb, leb, ◌==◌, if◌then◌else◌, length, get_or, set, take, drop, length-set, length-take,
  length-drop, get_or-set_self, get_or-set_ne, Bool-cases, inl, inr, leb→le,
}
use native.Mathlib.Nat.{mod-lt, mod-eq_of_lt, mod-add-mod, mod-eq-sub-mod}
use zetta_transport.Transport.StreamBuffer.{overwrite, copy_chunks}

-- The place of a position `d` after one whose place is known.
pub ring_place :
    (c o d : ℕ)
    → 0 < c
    → d < c
    → (o + d) % c ≡ (if ltb (o % c + d) c then o % c + d else o % c + d - c)
ring_place c o d pos lt = ground (
  arith,
  mod-add-mod o c d,
  mod-lt o {m = c} pos,
  λ (h : o % c + d < c). mod-eq_of_lt h,
  λ (h : c ≤ o % c + d). mod-eq-sub-mod h,
  λ (h : o % c + d - c < c). mod-eq_of_lt h,
)

pub get_or-take :
    (n : ℕ) (xs : List ℕ) (i : ℕ) → get_or (take n xs) i 0 ≡ (if ltb i n then get_or xs i 0 else 0)
get_or-take zero xs i = ground arith
get_or-take (suc n) [] i = ground arith
get_or-take (suc n) (x ∷ xs) zero = ground arith
get_or-take (suc n) (x ∷ xs) (suc i) = ground (arith, get_or-take n xs i)

pub get_or-drop : (n : ℕ) (xs : List ℕ) (i : ℕ) → get_or (drop n xs) i 0 ≡ get_or xs (n + i) 0
get_or-drop zero xs i = ap (λ k. get_or xs k 0) {x = i} {y = 0 + i} (omega arith)
get_or-drop (suc n) [] i = refl
get_or-drop (suc n) (x ∷ xs) i =
    get_or-drop n xs i
    ∙ ap (λ k. get_or (x ∷ xs) k 0) {x = suc (n + i)} {y = suc n + i} (omega arith)

pub get_or-append :
    (xs ys : List ℕ) (i : ℕ)
    → get_or (xs ++ ys) i 0
      ≡ (if ltb i (length xs) then get_or xs i 0 else get_or ys (i - length xs) 0)
get_or-append [] ys i = ground arith
get_or-append (x ∷ xs) ys zero = ground arith
get_or-append (x ∷ xs) ys (suc i) = ground (arith, get_or-append xs ys i)

get_or-cons :
    (x : ℕ) (xs : List ℕ) (k : ℕ)
    → get_or (x ∷ xs) k 0 ≡ (if k == 0 then x else get_or xs (k - 1) 0)
get_or-cons x xs zero = ground arith
get_or-cons x xs (suc k) = ground arith

length-overwrite :
    (buffer : List ℕ) (i : ℕ) (bytes : List ℕ) → length (overwrite buffer i bytes) ≡ length buffer
unfolding overwrite
length-overwrite buffer i [] = refl
length-overwrite buffer i (b ∷ bytes) =
    length-overwrite (set buffer i b) (i + 1) bytes ∙ length-set buffer i b

get_or-overwrite :
    (buffer : List ℕ) (i : ℕ) (bytes : List ℕ) (j : ℕ)
    → i + length bytes ≤ length buffer
    → get_or (overwrite buffer i bytes) j 0
      ≡ (if leb i j && ltb j (i + length bytes) then get_or bytes (j - i) 0 else get_or buffer j 0)
unfolding overwrite
get_or-overwrite buffer i [] j h = ground arith
get_or-overwrite buffer i (b ∷ bytes) j h =
    get_or-overwrite (set buffer i b) (i + 1) bytes j (omega (arith, length-set buffer i b))
    ∙ ground (
      arith,
      get_or-set_self buffer i b 0,
      get_or-set_ne buffer i j b 0,
      get_or-cons b bytes (j - i),
      λ (e : i ≡ j). ap (λ k. get_or (set buffer i b) k 0) e,
    )

pub take-all : (n : ℕ) (xs : List ℕ) → length xs ≤ n → take n xs ≡ xs
take-all zero [] h = refl
take-all zero (x ∷ xs) h = absurd (omega arith)
take-all (suc n) [] h = refl
take-all (suc n) (x ∷ xs) h = ap (◌∷◌ x) (take-all n xs (omega arith))

drop-all : (n : ℕ) (xs : List ℕ) → length xs ≤ n → drop n xs ≡ []
drop-all zero [] h = refl
drop-all zero (x ∷ xs) h = absurd (omega arith)
drop-all (suc n) [] h = refl
drop-all (suc n) (x ∷ xs) h = drop-all n xs (omega arith)

copy_chunks-empty : (fuel c s : ℕ) (buffer : List ℕ) → copy_chunks fuel c buffer s [] ≡ buffer
unfolding copy_chunks
copy_chunks-empty zero c s buffer = refl
copy_chunks-empty (suc fuel) c s buffer = refl

-- Bytes that fit behind the start are copied in one piece.
pub copy_chunks-fitting :
    (fuel c s : ℕ) (buffer bytes : List ℕ)
    → length bytes ≤ fuel
    → length bytes ≤ c - s
    → copy_chunks fuel c buffer s bytes ≡ overwrite buffer s bytes
unfolding copy_chunks overwrite
copy_chunks-fitting fuel c s buffer [] f h = copy_chunks-empty fuel c s buffer
copy_chunks-fitting zero c s buffer (b ∷ bytes) f h = absurd (omega arith)
copy_chunks-fitting (suc fuel) c s buffer (b ∷ bytes) f h =
    ap
      (λ k.
        copy_chunks fuel c (overwrite buffer s k) 0
          (drop (min (length (b ∷ bytes)) (c - s)) (b ∷ bytes)))
      (take-all (min (length (b ∷ bytes)) (c - s)) (b ∷ bytes) (omega arith))
    ∙ ap (copy_chunks fuel c (overwrite buffer s (b ∷ bytes)) 0)
        (drop-all (min (length (b ∷ bytes)) (c - s)) (b ∷ bytes) (omega arith))
    ∙ copy_chunks-empty fuel c 0 (overwrite buffer s (b ∷ bytes))

-- Others are cut at the end of the buffer.
pub copy_chunks-wrapping :
    (fuel c s : ℕ) (buffer bytes : List ℕ)
    → length bytes ≤ fuel
    → s < c
    → length bytes ≤ c
    → c - s < length bytes
    → copy_chunks fuel c buffer s bytes
      ≡ overwrite (overwrite buffer s (take (c - s) bytes)) 0 (drop (c - s) bytes)
unfolding copy_chunks
copy_chunks-wrapping fuel c s buffer [] f lt fit wraps = absurd (omega arith)
copy_chunks-wrapping zero c s buffer (b ∷ bytes) f lt fit wraps = absurd (omega arith)
copy_chunks-wrapping (suc fuel) c s buffer (b ∷ bytes) f lt fit wraps =
    ap (λ k. copy_chunks fuel c (overwrite buffer s (take k (b ∷ bytes))) 0 (drop k (b ∷ bytes)))
      {x = min (length (b ∷ bytes)) (c - s)} {y = c - s} (omega arith)
    ∙ copy_chunks-fitting fuel c 0 (overwrite buffer s (take (c - s) (b ∷ bytes)))
        (drop (c - s) (b ∷ bytes)) (omega (arith, length-drop (c - s) (b ∷ bytes)))
        (omega (arith, length-drop (c - s) (b ∷ bytes)))

pub length-copy_chunks :
    (fuel c s : ℕ) (buffer bytes : List ℕ)
    → length (copy_chunks fuel c buffer s bytes) ≡ length buffer
unfolding copy_chunks
length-copy_chunks fuel c s buffer [] = ap length (copy_chunks-empty fuel c s buffer)
length-copy_chunks zero c s buffer (b ∷ bytes) = refl
length-copy_chunks (suc fuel) c s buffer (b ∷ bytes) =
    length-copy_chunks fuel c 0
      (overwrite buffer s (take (min (length (b ∷ bytes)) (c - s)) (b ∷ bytes)))
      (drop (min (length (b ∷ bytes)) (c - s)) (b ∷ bytes))
    ∙ length-overwrite buffer s (take (min (length (b ∷ bytes)) (c - s)) (b ∷ bytes))

-- How far a place lies behind the start, around the buffer.
abbrev pub ahead : ℕ → ℕ → ℕ → ℕ
ahead c s j = if leb s j then j - s else j + c - s

pub get_or-copy_chunks :
    (c s : ℕ) (buffer bytes : List ℕ) (j : ℕ)
    → length buffer ≡ c
    → s < c
    → j < c
    → length bytes ≤ c
    → get_or (copy_chunks (length bytes) c buffer s bytes) j 0 ≡ (
        if ltb (ahead c s j) (length bytes)
        then get_or bytes (ahead c s j) 0
        else get_or buffer j 0)
get_or-copy_chunks c s buffer bytes j size hs hj fit =
    elim (Bool-cases (leb (length bytes) (c - s))) [
      | inl y ↦
          ap (λ b. get_or b j 0)
            (copy_chunks-fitting (length bytes) c s buffer bytes (omega arith)
              (leb→le (length bytes) (c - s) y))
          ∙ get_or-overwrite buffer s bytes j (ground arith)
          ∙ ground arith
      | inr n ↦
          ap (λ b. get_or b j 0)
            (copy_chunks-wrapping (length bytes) c s buffer bytes (omega arith) hs fit
              (ground arith))
          ∙ get_or-overwrite inner 0 (drop (c - s) bytes) j (
              omega
                (arith, length-overwrite buffer s (take (c - s) bytes), length-drop (c - s) bytes))
          ∙ ground (
            arith,
            length-drop (c - s) bytes,
            length-take (c - s) bytes,
            get_or-drop (c - s) bytes (j - 0),
            get_or-take (c - s) bytes (j - s),
            get_or-overwrite buffer s (take (c - s) bytes) j,
          )
    ]
  where
    inner : List ℕ
    inner = overwrite buffer s (take (c - s) bytes)
