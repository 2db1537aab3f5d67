-- ===== src/Protocol/Wire/Tame.antt =====
-- Parsers that neither panic nor leave more than they were given, on any bytes of some length.
use Prim.Native.String.{String}
use zetta_transport.Common.{
  ℕ, zero, suc, ◌+◌, ◌-◌, ◌≤◌, ◌<◌, ◌≡◌, refl, arith, List, [], ◌∷◌, length, Bool, true, false,
}
use zetta_transport.Common.{if◌then◌else◌, take, drop, length-drop, Bool-cases, inl, inr, ltb, All}
use zetta_transport.Error.{Result, ok, err, panic}
use zetta_transport.Protocol.Wire.{Buf, Parser, ◌>>=◌, ◌>>◌, need, get_u8}
use zetta_transport.Protocol.Wire.{from_be_bytes, copy_to_bytes, get_u16, get_u32, get_u64}

abbrev pub AreBytes : List ℕ → Type 0
AreBytes = All (λ b. b < 256)

pub drop-AreBytes : (n : ℕ) (bs : List ℕ) → AreBytes bs → AreBytes (drop n bs)
drop-AreBytes zero bs h = h
drop-AreBytes (suc n) [] h = tt
drop-AreBytes (suc n) (b ∷ bs) h = drop-AreBytes n bs h.1

abbrev pub Ends {ℓ} : {A : Type ℓ} → ℕ → Result (A × List ℕ) → Type 0
Ends m (ok (a, rest)) = (length rest ≤ m) × AreBytes rest
Ends m (err e) = Unit {0}
Ends m panic = ⊥

-- `n` bytes at least remain.
abbrev pub Tame {ℓ} : {A : Type ℓ} → ℕ → Parser A → Type 0
Tame n p = (src : List ℕ) → AreBytes src → n ≤ length src → Ends (length src) (p src)

-- `p` takes `k` bytes whenever they are there.
abbrev pub Takes {ℓ} : {A : Type ℓ} → ℕ → Parser A → Type ℓ
Takes {A} k p =
    (src : List ℕ)
    → AreBytes src
    → k ≤ length src
    → (a : A) × (rest : List ℕ) × (p src ≡ ok (a, rest))
      × (length src ≡ length rest + k)
      × AreBytes rest

pub Ends-mono {ℓ} : {A : Type ℓ} (m n : ℕ) (r : Result (A × List ℕ)) → m ≤ n → Ends m r → Ends n r
Ends-mono m n (ok (a, rest)) h e = (omega arith, e.1)
Ends-mono m n (err x) h e = tt
Ends-mono m n panic h e = e

Ends-bind {ℓ κ} :
    {A : Type ℓ} {B : Type κ} (m : ℕ) (r : Result (A × List ℕ)) (f : A → Parser B)
    → Ends m r
    → ((a : A) → Tame 0 (f a))
    → Ends m (◌>>=◌ (λ _. r) f [])
Ends-bind m (ok (a, rest)) f e tame =
    Ends-mono (length rest) m (f a rest) e.0 (tame a rest e.1 (omega arith))
Ends-bind m (err x) f e tame = tt
Ends-bind m panic f e tame = e

module _ {ℓ κ} {A : Type ℓ} {B : Type κ} (n : ℕ) (p : Parser A) (f : A → Parser B) where
  pub Tame-bind : Tame n p → ((a : A) → Tame 0 (f a)) → Tame n (p >>= f)
  Tame-bind tame next src bytes h = Ends-bind (length src) (p src) f (tame src bytes h) next

  pub Tame-Takes : (k : ℕ) → Takes k p → k ≤ n → ((a : A) → Tame (n - k) (f a)) → Tame n (p >>= f)
  Tame-Takes k takes le next src bytes h =
      let (a, rest, e, l, left) = takes src bytes (omega arith) in
      rw (e, ◌>>=◌)
        (Ends-mono (length rest) (length src) (f a rest) (omega arith)
          (next a rest left (omega arith)))

pub Takes-Tame {ℓ} : {A : Type ℓ} (n k : ℕ) (p : Parser A) → Takes k p → k ≤ n → Tame n p
Takes-Tame n k p takes le src bytes h =
    let (a, rest, e, l, left) = takes src bytes (omega arith) in rw e (omega arith, left)

pub Tame-need {ℓ} :
    {B : Type ℓ} (n m : ℕ) (message : String) (p : Parser B)
    → Tame m p
    → Tame n (need m message >> p)
unfolding need
Tame-need n m message p tame src bytes h = elim (Bool-cases (ltb (length src) m)) [
  | inl short ↦ rw (short, ◌>>=◌) tt
  | inr enough ↦ rw (enough, ◌>>=◌) (tame src bytes (ground arith))
]

pub Tame-if {ℓ} :
    {A : Type ℓ} (n : ℕ) (c : Bool) (p q : Parser A)
    → Tame n p
    → Tame n q
    → Tame n (if c then p else q)
Tame-if n true p q hp hq = hp
Tame-if n false p q hp hq = hq

pub Takes-get_u8 : Takes 1 get_u8
unfolding get_u8
Takes-get_u8 [] bytes h = absurd (omega arith)
Takes-get_u8 (b ∷ bs) bytes h = (b, bs, refl, omega arith, bytes.1)

pub Takes-copy_to_bytes : (n : ℕ) → Takes n (copy_to_bytes n)
unfolding copy_to_bytes
Takes-copy_to_bytes n src bytes h = (
  take n src,
  drop n src,
  ground arith,
  omega (arith, length-drop n src),
  drop-AreBytes n src bytes,
)

module _ ⦃buf : Buf⦄ where
  pub Takes-get_u16 : Takes 2 get_u16
  unfolding get_u16
  Takes-get_u16 src bytes h = (
    from_be_bytes 0 (take 2 src),
    drop 2 src,
    rw (buf.get_u16_lem src) (ground arith),
    omega (arith, length-drop 2 src),
    drop-AreBytes 2 src bytes,
  )

  pub Takes-get_u32 : Takes 4 get_u32
  unfolding get_u32
  Takes-get_u32 src bytes h = (
    from_be_bytes 0 (take 4 src),
    drop 4 src,
    rw (buf.get_u32_lem src) (ground arith),
    omega (arith, length-drop 4 src),
    drop-AreBytes 4 src bytes,
  )

  pub Takes-get_u64 : Takes 8 get_u64
  unfolding get_u64
  Takes-get_u64 src bytes h = (
    from_be_bytes 0 (take 8 src),
    drop 8 src,
    rw (buf.get_u64_lem src) (ground arith),
    omega (arith, length-drop 8 src),
    drop-AreBytes 8 src bytes,
  )
