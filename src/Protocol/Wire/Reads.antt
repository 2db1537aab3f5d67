-- ===== src/Protocol/Wire/Reads.antt =====
-- A parser that reads exactly the given bytes, whatever follows them.
use Prim.Native.String.{String}
use zetta_transport.Common.{ℕ, ◌^◌, ◌≤◌, ◌<◌, ◌≡◌, refl, ap, arith}
use zetta_transport.Common.{List, [], ◌∷◌, ◌++◌, length, length-append}
use zetta_transport.Common.{take-append_length, drop-append_length}
use mathlib.Core.List.{append_assoc}
use zetta_transport.Error.{ok}
use zetta_transport.Protocol.Wire.{Buf, Parser, ◌>>=◌, ◌>>◌, return, need, get_u8, copy_to_bytes}
use zetta_transport.Protocol.Wire.{get_u16, get_u32, get_u64}

abbrev pub Reads {ℓ} : {A : Type ℓ} → Parser A → List ℕ → A → Type ℓ
Reads p bs a = (rest : List ℕ) → p (bs ++ rest) ≡ ok (a, rest)

pub Reads-bind {ℓ κ} :
    {A : Type ℓ} {B : Type κ} (p : Parser A) (f : A → Parser B) (xs ys : List ℕ) (a : A) (b : B)
    → Reads p xs a
    → Reads (f a) ys b
    → Reads (p >>= f) (xs ++ ys) b
Reads-bind p f xs ys a b hp hf rest = rw (append_assoc xs ys rest, hp (ys ++ rest), ◌>>=◌) (hf rest)

pub need-ok : (n : ℕ) (m : String) (src : List ℕ) → n ≤ length src → need n m src ≡ ok (tt, src)
unfolding need
need-ok n m src h = ground arith

pub Reads-need {ℓ} :
    {A : Type ℓ} (n : ℕ) (m : String) (p : Parser A) (xs : List ℕ) (a : A)
    → n ≤ length xs
    → Reads p xs a
    → Reads (need n m >> p) xs a
Reads-need n m p xs a h hp rest =
    rw (need-ok n m (xs ++ rest) (omega (arith, length-append xs rest)), ◌>>=◌) (hp rest)

pub Reads-map {ℓ κ} :
    {A : Type ℓ} {B : Type κ} (p : Parser A) (f : A → B) (xs : List ℕ) (a : A) (b : B)
    → Reads p xs a
    → f a ≡ b
    → Reads (p >>= λ x. return (f x)) xs b
Reads-map p f xs a b hp e rest = rw (hp rest, ◌>>=◌, e) refl

pub Reads-get_u8 : (b : ℕ) → Reads get_u8 (b ∷ []) b
unfolding get_u8
Reads-get_u8 b rest = refl

pub Reads-copy_to_bytes : (xs : List ℕ) → Reads (copy_to_bytes (length xs)) xs xs
unfolding copy_to_bytes
Reads-copy_to_bytes xs rest =
    ground (arith, length-append xs rest, take-append_length xs rest, drop-append_length xs rest)

module _ ⦃buf : Buf⦄ where
  pub Reads-get_u16 : (v : ℕ) → v < 2 ^ 16 → Reads get_u16 (buf.put_u16 v) v
  unfolding get_u16
  Reads-get_u16 v h rest = rw (buf.put_u16_lem v, buf.get_u16_lem) (ground arith)

  pub Reads-get_u32 : (v : ℕ) → v < 2 ^ 32 → Reads get_u32 (buf.put_u32 v) v
  unfolding get_u32
  Reads-get_u32 v h rest = rw (buf.put_u32_lem v, buf.get_u32_lem) (ground arith)

  pub Reads-get_u64 : (v : ℕ) → v < 2 ^ 64 → Reads get_u64 (buf.put_u64 v) v
  unfolding get_u64
  Reads-get_u64 v h rest = rw (buf.put_u64_lem v, buf.get_u64_lem) (ground arith)

  pub length-put_u16 : (v : ℕ) → length (buf.put_u16 v) ≡ 2
  length-put_u16 v = ap length (buf.put_u16_lem v)

  pub length-put_u32 : (v : ℕ) → length (buf.put_u32 v) ≡ 4
  length-put_u32 v = ap length (buf.put_u32_lem v)

  pub length-put_u64 : (v : ℕ) → length (buf.put_u64 v) ≡ 8
  length-put_u64 v = ap length (buf.put_u64_lem v)
