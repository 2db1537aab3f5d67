-- ===== src/Protocol/Wire.antt =====
-- What src/protocol uses of the crate `bytes`: a `Bytes` or `BytesMut` is the list of its bytes.
-- The crate's integers of several bytes are the parameter `Buf`, with their documented format.
pub mod Reads
pub mod Tame
pub mod NetworkOrder
use Prim.Native.String.{String}
use zetta_transport.Common.{ℕ, zero, suc, ◌+◌, ◌*◌, ◌/◌, ◌%◌, ◌^◌, ◌≡◌, List, [], ◌∷◌, ◌++◌}
use zetta_transport.Common.{Option, none, some, ltb, if◌then◌else◌, length, take, drop}
use zetta_transport.Error.{Result, ok, err, panic, text, invalid_packet}

-- `to_be_bytes` of an integer of `n` bytes.
abbrev pub be_bytes : ℕ → ℕ → List ℕ
be_bytes zero v = []
be_bytes (suc n) v = (v / 256 ^ n % 256) ∷ be_bytes n v

-- `from_be_bytes`, behind the digits already read.
abbrev pub from_be_bytes : ℕ → List ℕ → ℕ
from_be_bytes acc [] = acc
from_be_bytes acc (b ∷ bs) = from_be_bytes (acc * 256 + b) bs

-- The first `n` bytes; `none` where there are fewer.
abbrev pub split_at : ℕ → List ℕ → Option (List ℕ × List ℕ)
split_at n bs = if ltb (length bs) n then none else some (take n bs, drop n bs)

abbrev pub get_be : ℕ → List ℕ → Option (ℕ × List ℕ)
get_be n bs = if ltb (length bs) n then none else some (from_be_bytes 0 (take n bs), drop n bs)

-- `BufMut::put_u16` and its kin append in network byte order; `Buf::get_u16` and its kin take such
-- a number from the front, and panic (`none`) where too few bytes remain.
pub record Buf : Type 0 where
  pub put_u16 : ℕ → List ℕ
  pub put_u32 : ℕ → List ℕ
  pub put_u64 : ℕ → List ℕ
  pub get_u16 : List ℕ → Option (ℕ × List ℕ)
  pub get_u32 : List ℕ → Option (ℕ × List ℕ)
  pub get_u64 : List ℕ → Option (ℕ × List ℕ)
  pub put_u16_lem : (v : ℕ) → put_u16 v ≡ be_bytes 2 v
  pub put_u32_lem : (v : ℕ) → put_u32 v ≡ be_bytes 4 v
  pub put_u64_lem : (v : ℕ) → put_u64 v ≡ be_bytes 8 v
  pub get_u16_lem : (bs : List ℕ) → get_u16 bs ≡ get_be 2 bs
  pub get_u32_lem : (bs : List ℕ) → get_u32 bs ≡ get_be 4 bs
  pub get_u64_lem : (bs : List ℕ) → get_u64 bs ≡ get_be 8 bs

-- A function on `src: &mut Bytes`: the result and what remains of `src`. Its callers drop `src`
-- after an error.
abbrev pub Parser {ℓ} : Type ℓ → Type ℓ
Parser A = List ℕ → Result (A × List ℕ)

infixl 5 ◌>>=◌ ◌>>◌
abbrev pub ◌>>=◌ {ℓ κ} : {A : Type ℓ} {B : Type κ} → Parser A → (A → Parser B) → Parser B
◌>>=◌ m f src = elim (m src) [ ok (a, rest) ↦ f a rest | err e ↦ err e | panic ↦ panic ]

abbrev pub ◌>>◌ {ℓ} : {B : Type ℓ} → Parser (Unit {0}) → Parser B → Parser B
m >> k = m >>= λ _. k

abbrev pub return {ℓ} : {A : Type ℓ} → A → Parser A
return a src = ok (a, src)

abbrev pub fail {ℓ} : {A : Type ℓ} → String → Parser A
fail message src = err (invalid_packet (text message))

abbrev pub or_panic {ℓ} : {A : Type ℓ} → Option A → Result A
or_panic none = panic
or_panic (some a) = ok a

-- `if src.remaining() < n { return Err(..) }`
unfoldable pub need : ℕ → String → Parser (Unit {0})
need n message src =
    if ltb (length src) n then err (invalid_packet (text message)) else ok (tt, src)

-- `src.chunk()[0]`
unfoldable pub peek_u8 : Parser ℕ
peek_u8 [] = panic
peek_u8 (b ∷ bs) = ok (b, b ∷ bs)

-- `src.get_u8()`
unfoldable pub get_u8 : Parser ℕ
get_u8 [] = panic
get_u8 (b ∷ bs) = ok (b, bs)

-- `src.copy_to_bytes(n)`, or `src.chunk()[..n]` and `src.advance(n)`.
unfoldable pub copy_to_bytes : ℕ → Parser (List ℕ)
copy_to_bytes n src = or_panic (split_at n src)

module _ ⦃buf : Buf⦄ where
  unfoldable pub get_u16 : Parser ℕ
  get_u16 src = or_panic (buf.get_u16 src)

  unfoldable pub get_u32 : Parser ℕ
  get_u32 src = or_panic (buf.get_u32 src)

  unfoldable pub get_u64 : Parser ℕ
  get_u64 src = or_panic (buf.get_u64 src)
