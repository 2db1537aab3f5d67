-- ===== src/Common/Bits.antt =====
-- `&`, `|`, `<<` and `>>` on natural numbers, by the single binary digit.
mod Step
pub mod Fields
use Step.{bit_and_step, bit_or_step}
use Prim.Native.Nat.{
  ℕ, zero, suc, ◌+◌, ◌-◌, ◌*◌, ◌/◌, ◌%◌, ◌^◌, ◌≤◌, ◌<◌, min, max, bit_and, bit_or,
}
use mathlib.Core.Path.{◌≡◌, refl, sym, ap, ◌∙◌}
use mathlib.Core.Bool.{not}
use zetta_transport.Common.Tests.{ltb, ◌==◌, if◌then◌else◌}
use native.Mathlib.Omega.{arith}
use native.Mathlib.Nat.{pow-suc, div-add-mod, div-div-eq-div-mul}

-- The binary digit of weight 2 ^ i.
abbrev pub bit_at : ℕ → ℕ → ℕ
bit_at a zero = a % 2
bit_at a (suc i) = bit_at (a / 2) i

pub bit_at-le : (a i : ℕ) → bit_at a i ≤ 1
bit_at-le a zero = omega arith
bit_at-le a (suc i) = bit_at-le (a / 2) i

pub bit_at-zero : (i : ℕ) → bit_at 0 i ≡ 0
bit_at-zero zero = refl
bit_at-zero (suc i) = bit_at-zero i

pub bit_at-bit_and : (a b i : ℕ) → bit_at (bit_and a b) i ≡ min (bit_at a i) (bit_at b i)
bit_at-bit_and a b zero = omega (arith, bit_and_step a b)
bit_at-bit_and a b (suc i) =
    let half : bit_and a b / 2 ≡ bit_and (a / 2) (b / 2) = omega (arith, bit_and_step a b) in
    rw half (bit_at-bit_and (a / 2) (b / 2) i)

pub bit_at-bit_or : (a b i : ℕ) → bit_at (bit_or a b) i ≡ max (bit_at a i) (bit_at b i)
bit_at-bit_or a b zero = omega (arith, bit_or_step a b)
bit_at-bit_or a b (suc i) =
    let half : bit_or a b / 2 ≡ bit_or (a / 2) (b / 2) = omega (arith, bit_or_step a b) in
    rw half (bit_at-bit_or (a / 2) (b / 2) i)

pub two_pow-suc : (k : ℕ) → 2 ^ suc k ≡ 2 * 2 ^ k
two_pow-suc k = omega (arith, pow-suc 2 k)

pub mul-two_pow-suc : (a k : ℕ) → a * 2 ^ suc k ≡ 2 * (a * 2 ^ k)
mul-two_pow-suc a k = omega (arith, ap (λ (t : ℕ). a * t) (pow-suc 2 k))

pub div-two_pow-suc : (a k : ℕ) → a / 2 ^ suc k ≡ a / 2 / 2 ^ k
div-two_pow-suc a k = rw two_pow-suc (sym (div-div-eq-div-mul a 2 (2 ^ k)))

-- The digits of `a << s`, of `a >> s`, of a wrapped word and of `1 << k`.
pub bit_at-shift_left :
    (s a i : ℕ) → bit_at (a * 2 ^ s) i ≡ (if ltb i s then 0 else bit_at a (i - s))
bit_at-shift_left zero a i = ground arith
bit_at-shift_left (suc s) a zero = ground (arith, mul-two_pow-suc a s)
bit_at-shift_left (suc s) a (suc i) =
    let half : a * 2 ^ suc s / 2 ≡ a * 2 ^ s = omega (arith, mul-two_pow-suc a s) in
    ground (arith, ap (λ t. bit_at t i) half, bit_at-shift_left s a i)

pub bit_at-shift_right : (s a i : ℕ) → bit_at (a / 2 ^ s) i ≡ bit_at a (i + s)
bit_at-shift_right zero a i = ground arith
bit_at-shift_right (suc s) a i =
    let next : i + suc s ≡ suc (i + s) = omega arith in
    rw (div-two_pow-suc a s, next) (bit_at-shift_right s (a / 2) i)

-- A remainder by 2 ^ (w + 1) is the lowest digit and a remainder of the half.
pub mod-two_pow-suc : (a w : ℕ) → a % 2 ^ suc w ≡ 2 * (a / 2 % 2 ^ w) + a % 2
mod-two_pow-suc a w = omega (
  arith,
  div-add-mod a (2 ^ suc w),
  div-add-mod (a / 2) (2 ^ w),
  div-two_pow-suc a w,
  ap (λ (t : ℕ). t * (a / 2 / 2 ^ w)) (two_pow-suc w),
  ap (λ (t : ℕ). 2 ^ suc w * t) (div-two_pow-suc a w),
)

pub bit_at-mod : (w a i : ℕ) → i < w → bit_at (a % 2 ^ w) i ≡ bit_at a i
bit_at-mod zero a i h = absurd (omega arith)
bit_at-mod (suc w) a zero h = omega (arith, mod-two_pow-suc a w)
bit_at-mod (suc w) a (suc i) h =
    let half : a % 2 ^ suc w / 2 ≡ a / 2 % 2 ^ w = omega (arith, mod-two_pow-suc a w) in
    rw half (bit_at-mod w (a / 2) i (omega arith))

pub bit_at-two_pow : (k i : ℕ) → bit_at (2 ^ k) i ≡ (if i == k then 1 else 0)
bit_at-two_pow zero zero = refl
bit_at-two_pow zero (suc i) = ground (arith, bit_at-zero i)
bit_at-two_pow (suc k) zero = ground (arith, two_pow-suc k)
bit_at-two_pow (suc k) (suc i) =
    let half : 2 ^ suc k / 2 ≡ 2 ^ k = omega (arith, two_pow-suc k) in
    ground (arith, ap (λ t. bit_at t i) half, bit_at-two_pow k i)

bit_and-zero_below : (n a : ℕ) → a ≤ n → bit_and a 0 ≡ 0
bit_and-zero_below n zero h = refl
bit_and-zero_below zero (suc a) h = absurd (omega arith)
bit_and-zero_below (suc n) (suc a) h =
    omega (arith, bit_and_step (suc a) 0, bit_and-zero_below n (suc a / 2) (omega arith))

pub bit_and-zero_right : (a : ℕ) → bit_and a 0 ≡ 0
bit_and-zero_right a = bit_and-zero_below a a (omega arith)

-- `a & (1 << k)` keeps one digit.
pub bit_and-two_pow : (k a : ℕ) → bit_and a (2 ^ k) ≡ bit_at a k * 2 ^ k
bit_and-two_pow zero a = omega (arith, bit_and_step a 1, bit_and-zero_right (a / 2))
bit_and-two_pow (suc k) a =
    let half : 2 ^ suc k / 2 ≡ 2 ^ k = omega (arith, two_pow-suc k) in
    omega (
      arith,
      bit_and_step a (2 ^ suc k),
      two_pow-suc k,
      ap (bit_and (a / 2)) half,
      bit_and-two_pow k (a / 2),
      mul-two_pow-suc (bit_at (a / 2) k) k,
    )

-- A word below 2 ^ w has no digit from place `w` on.
pub bit_at_high : (w a i : ℕ) → a < 2 ^ w → w ≤ i → bit_at a i ≡ 0
bit_at_high zero a i h le = let none : a ≡ 0 = omega arith in rw none (bit_at-zero i)
bit_at_high (suc w) a zero h le = absurd (omega arith)
bit_at_high (suc w) a (suc i) h le =
    bit_at_high w (a / 2) i (omega (arith, two_pow-suc w)) (omega arith)

pub bit_or-lt : (w a b : ℕ) → a < 2 ^ w → b < 2 ^ w → bit_or a b < 2 ^ w
bit_or-lt zero a b ha hb =
    let none : a ≡ 0 = omega arith in
    let none' : b ≡ 0 = omega arith in rw (none, none') (omega arith)
bit_or-lt (suc w) a b ha hb = omega (
  arith,
  two_pow-suc w,
  bit_or_step a b,
  bit_or-lt w (a / 2) (b / 2) (omega (arith, two_pow-suc w)) (omega (arith, two_pow-suc w)),
)

pub two_pow_pos : (k : ℕ) → 0 < 2 ^ k
two_pow_pos zero = omega arith
two_pow_pos (suc k) = omega (arith, two_pow_pos k, two_pow-suc k)

pub two_pow-lt : (k w : ℕ) → k < w → 2 ^ k < 2 ^ w
two_pow-lt k zero h = absurd (omega arith)
two_pow-lt zero (suc w) h = omega (arith, two_pow_pos w, two_pow-suc w)
two_pow-lt (suc k) (suc w) h =
    omega (arith, two_pow-lt k w (omega arith), two_pow-suc k, two_pow-suc w)

test_bit_value : (b x k : ℕ) → x ≡ b * 2 ^ k → b ≤ 1 → 0 < 2 ^ k → not (x == 0) ≡ (b == 1)
test_bit_value zero x k e h pos = ground arith
test_bit_value (suc zero) x k e h pos = ground arith
test_bit_value (suc (suc b)) x k e h pos = absurd (omega arith)

-- `a & (1 << k) != 0`
pub test_bit : (a k : ℕ) → not (bit_and a (2 ^ k) == 0) ≡ (bit_at a k == 1)
test_bit a k =
    test_bit_value (bit_at a k) (bit_and a (2 ^ k)) k (bit_and-two_pow k a) (bit_at-le a k)
      (two_pow_pos k)

pub bit_at-ones : (k j : ℕ) → j < k → bit_at (2 ^ k - 1) j ≡ 1
bit_at-ones zero j h = absurd (omega arith)
bit_at-ones (suc k) zero h = omega (arith, two_pow-suc k, two_pow_pos k)
bit_at-ones (suc k) (suc j) h =
    let half : (2 ^ suc k - 1) / 2 ≡ 2 ^ k - 1 = omega (arith, two_pow-suc k, two_pow_pos k) in
    rw half (bit_at-ones k j (omega arith))
