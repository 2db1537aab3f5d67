-- ===== src/Common/Bits/Fields.antt =====
-- Masks and disjoint fields of a word as arithmetic, at every width.
use zetta_transport.Common.Bits.Step.{bit_and_step, bit_or_step}
use zetta_transport.Common.Bits.{bit_and-zero_right, two_pow-suc, mul-two_pow-suc, div-two_pow-suc}
use zetta_transport.Common.Bits.{mod-two_pow-suc}
use Prim.Native.Nat.{ℕ, zero, suc, ◌+◌, ◌-◌, ◌*◌, ◌/◌, ◌%◌, ◌^◌, ◌≤◌, ◌<◌, bit_and, bit_or}
use Prim.Native.Nat.{bit_or-bitwise}
use mathlib.Core.Path.{◌≡◌, refl, ap}
use native.Mathlib.Omega.{arith}
use native.Mathlib.Nat.{one-le-pow, div-eq_of_lt, mod-eq_of_lt}

-- `a & (2^k - 1)`
pub bit_and-mask : (k a : ℕ) → bit_and a (2 ^ k - 1) ≡ a % 2 ^ k
bit_and-mask zero a = omega (arith, bit_and-zero_right a)
bit_and-mask (suc k) a =
    let half : (2 ^ suc k - 1) / 2 ≡ 2 ^ k - 1 = omega (arith, two_pow-suc k) in
    omega (
      arith,
      bit_and_step a (2 ^ suc k - 1),
      ap (bit_and (a / 2)) half,
      bit_and-mask k (a / 2),
      mod-two_pow-suc a k,
      two_pow-suc k,
      one-le-pow k 2,
    )

-- `a | (m << k)` splits at bit `k`.
pub bit_or-high : (k a m : ℕ) → bit_or a (m * 2 ^ k) ≡ bit_or (a / 2 ^ k) m * 2 ^ k + a % 2 ^ k
bit_or-high zero a m =
    let whole : m * 2 ^ 0 ≡ m = omega arith in
    let all : a / 2 ^ 0 ≡ a = omega arith in rw (whole, all) (omega arith)
bit_or-high (suc k) a m =
    let half : m * 2 ^ suc k / 2 ≡ m * 2 ^ k = omega (arith, mul-two_pow-suc m k) in
    omega (
      arith,
      bit_or_step a (m * 2 ^ suc k),
      mul-two_pow-suc m k,
      ap (bit_or (a / 2)) half,
      bit_or-high k (a / 2) m,
      mod-two_pow-suc a k,
      ap (λ t. bit_or t m) (div-two_pow-suc a k),
      mul-two_pow-suc (bit_or (a / 2 / 2 ^ k) m) k,
      ap (λ (t : ℕ). t * 2 ^ suc k) (ap (λ t. bit_or t m) (div-two_pow-suc a k)),
    )

zero-bit_or : (b : ℕ) → bit_or 0 b ≡ b
zero-bit_or b = omega (arith, bit_or-bitwise 0 b)

-- Disjoint fields add up.
pub bit_or-field : (k a m : ℕ) → a < 2 ^ k → bit_or a (m * 2 ^ k) ≡ m * 2 ^ k + a
bit_or-field k a m h = rw (bit_or-high k a m, div-eq_of_lt h, mod-eq_of_lt h, zero-bit_or m)

bit_or_comm_below : (n a b : ℕ) → a + b ≤ n → bit_or a b ≡ bit_or b a
bit_or_comm_below zero zero zero h = refl
bit_or_comm_below zero zero (suc b) h = absurd (omega arith)
bit_or_comm_below zero (suc a) b h = absurd (omega arith)
bit_or_comm_below (suc n) zero zero h = refl
bit_or_comm_below (suc n) (suc a) b h = omega (
  arith,
  bit_or_step (suc a) b,
  bit_or_step b (suc a),
  bit_or_comm_below n (suc a / 2) (b / 2) (omega arith),
)
bit_or_comm_below (suc n) zero (suc b) h = omega (
  arith,
  bit_or_step zero (suc b),
  bit_or_step (suc b) zero,
  bit_or_comm_below n 0 (suc b / 2) (omega arith),
)

pub bit_or_comm : (a b : ℕ) → bit_or a b ≡ bit_or b a
bit_or_comm a b = bit_or_comm_below (a + b) a b (omega arith)

-- `a & (m << k)` drops the low `k` bits.
pub bit_and-high : (k a m : ℕ) → bit_and a (m * 2 ^ k) ≡ bit_and (a / 2 ^ k) m * 2 ^ k
bit_and-high zero a m =
    let whole : m * 2 ^ 0 ≡ m = omega arith in
    let all : a / 2 ^ 0 ≡ a = omega arith in rw (whole, all) (omega arith)
bit_and-high (suc k) a m =
    let half : m * 2 ^ suc k / 2 ≡ m * 2 ^ k = omega (arith, mul-two_pow-suc m k) in
    omega (
      arith,
      bit_and_step a (m * 2 ^ suc k),
      mul-two_pow-suc m k,
      ap (bit_and (a / 2)) half,
      bit_and-high k (a / 2) m,
      mul-two_pow-suc (bit_and (a / 2 / 2 ^ k) m) k,
      ap (λ (t : ℕ). t * 2 ^ suc k) (ap (λ t. bit_and t m) (div-two_pow-suc a k)),
    )
