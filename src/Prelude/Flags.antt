-- ===== src/Prelude/Flags.antt =====
-- Single bits as flags, under a disjunction and a conjunction of all bits.
use Prim.Native.Nat.{
  ℕ, zero, suc, ◌+◌, ◌*◌, ◌/◌, ◌%◌, ◌≤◌, min, max, bit_and, bit_or, digits, bit_and-bitwise,
  bit_or-bitwise,
}
use mathlib.Core.Path.{◌≡◌, refl, ◌∙◌, ap}
use mathlib.Core.Bool.{Bool, not, ◌||◌, ◌&&◌}
use native.Mathlib.Omega.{arith}
use dark_core.Prelude.Tests.{◌==◌}
use dark_core.Prelude.Bits.{bit_or_low, bit_and_low, bit_and-one}

-- The rounds that the digits take may be more than they need.
digits_enough :
    (z : ℕ → ℕ) (f : ℕ → ℕ → ℕ) (m n a b : ℕ) → a ≤ m → a ≤ n → digits z f m a b ≡ digits z f n a b
digits_enough z f zero zero a b h k = refl
digits_enough z f zero (suc n) zero b h k = refl
digits_enough z f zero (suc n) (suc a) b h k = absurd (omega arith)
digits_enough z f (suc m) zero zero b h k = refl
digits_enough z f (suc m) zero (suc a) b h k = absurd (omega arith)
digits_enough z f (suc m) (suc n) zero b h k = refl
digits_enough z f (suc m) (suc n) (suc a) b h k =
    ap (λ d. d * 2 + f (suc a % 2) (b % 2))
      (digits_enough z f m n (suc a / 2) (b / 2) (omega arith) (omega arith))

bit_or_half : (x y : ℕ) → bit_or x y / 2 ≡ bit_or (x / 2) (y / 2)
bit_or_half zero y = omega (arith, bit_or-bitwise 0 y, bit_or-bitwise 0 (y / 2))
bit_or_half (suc x) y = omega (
  arith,
  bit_or-bitwise (suc x) y,
  bit_or-bitwise (suc x / 2) (y / 2),
  digits_enough (λ b. b) max x (suc x / 2) (suc x / 2) (y / 2) (omega arith) (omega arith),
)

bit_and_half : (x y : ℕ) → bit_and x y / 2 ≡ bit_and (x / 2) (y / 2)
bit_and_half zero y = omega (arith, bit_and-bitwise 0 y, bit_and-bitwise 0 (y / 2))
bit_and_half (suc x) y = omega (
  arith,
  bit_and-bitwise (suc x) y,
  bit_and-bitwise (suc x / 2) (y / 2),
  digits_enough (λ b. zero) min x (suc x / 2) (suc x / 2) (y / 2) (omega arith) (omega arith),
)

-- The number of one bit.
abbrev pub power : ℕ → ℕ
power zero = 1
power (suc k) = 2 * power k

abbrev pub has_flag : ℕ → ℕ → Bool
has_flag k x = not (bit_and x (power k) == 0)

-- A bit by its place.
abbrev bit : ℕ → ℕ → ℕ
bit zero x = x % 2
bit (suc k) x = bit k (x / 2)

bit_small : (k x : ℕ) → bit k x ≤ 1
bit_small zero x = omega arith
bit_small (suc k) x = bit_small k (x / 2)

bit-bit_or : (k x y : ℕ) → bit k (bit_or x y) ≡ max (bit k x) (bit k y)
bit-bit_or zero x y = bit_or_low x y
bit-bit_or (suc k) x y = ap (bit k) (bit_or_half x y) ∙ bit-bit_or k (x / 2) (y / 2)

bit-bit_and : (k x y : ℕ) → bit k (bit_and x y) ≡ min (bit k x) (bit k y)
bit-bit_and zero x y = bit_and_low x y
bit-bit_and (suc k) x y = ap (bit k) (bit_and_half x y) ∙ bit-bit_and k (x / 2) (y / 2)

has_flag-bit : (k x : ℕ) → has_flag k x ≡ (bit k x == 1)
has_flag-bit zero x = ground (arith, bit_and-one x)
has_flag-bit (suc k) x =
    let low : bit_and x (2 * power k) % 2 ≡ 0 = omega (arith, bit_and_low x (2 * power k)) in
    let half : bit_and x (2 * power k) / 2 ≡ bit_and (x / 2) (power k) =
      bit_and_half x (2 * power k) ∙ ap (bit_and (x / 2)) (omega arith) in
    ground (arith, low, half, has_flag-bit k (x / 2))

-- A flag is in a disjunction if it is in either number, and in a conjunction if it is in both.
pub has_flag-bit_or : (k x y : ℕ) → has_flag k (bit_or x y) ≡ (has_flag k x || has_flag k y)
has_flag-bit_or k x y = ground (
  arith,
  has_flag-bit k (bit_or x y),
  has_flag-bit k x,
  has_flag-bit k y,
  bit-bit_or k x y,
  bit_small k x,
  bit_small k y,
)

pub has_flag-bit_and : (k x y : ℕ) → has_flag k (bit_and x y) ≡ (has_flag k x && has_flag k y)
has_flag-bit_and k x y = ground (
  arith,
  has_flag-bit k (bit_and x y),
  has_flag-bit k x,
  has_flag-bit k y,
  bit-bit_and k x y,
  bit_small k x,
  bit_small k y,
)
