-- ===== src/Prelude/Bits.antt =====
-- Masks and flags at variables. The library computes `bit_and` and `bit_or` at numerals, and says of
-- variables that they go through the binary digits of the first argument.
use Prim.Native.Nat.{
  ℕ, zero, suc, ◌/◌, ◌%◌, ◌≤◌, ◌<◌, min, max, bit_and, bit_or, digits, bit_and-bitwise,
  bit_or-bitwise,
}
use mathlib.Core.Path.{◌≡◌, refl, ◌∙◌}
use mathlib.Core.Bool.{Bool, true, ◌&&◌}
use native.Mathlib.Omega.{arith}

-- `x & mask`, with a bound on the digits of `x`.
abbrev masked : ℕ → ℕ → ℕ → ℕ
masked rounds x mask = digits (λ c. zero) min rounds x mask

masked_by_zero : (rounds x : ℕ) → masked rounds x 0 ≡ 0
masked_by_zero zero x = refl
masked_by_zero (suc k) zero = refl
masked_by_zero (suc k) (suc x) = omega (arith, masked_by_zero k (suc x / 2))

masked_by_one : (rounds x : ℕ) → x ≤ rounds → masked rounds x 1 ≡ x % 2
masked_by_one zero zero h = refl
masked_by_one (suc k) zero h = refl
masked_by_one (suc k) (suc x) h = omega (arith, masked_by_zero k (suc x / 2))
masked_by_one zero (suc x) h = absurd (omega arith)

masked_by_three : (rounds x : ℕ) → x ≤ rounds → masked rounds x 3 ≡ x % 4
masked_by_three zero zero h = refl
masked_by_three (suc k) zero h = refl
masked_by_three (suc k) (suc x) h = omega (arith, masked_by_one k (suc x / 2) (omega arith))
masked_by_three zero (suc x) h = absurd (omega arith)

masked_by_seven : (rounds x : ℕ) → x ≤ rounds → masked rounds x 7 ≡ x % 8
masked_by_seven zero zero h = refl
masked_by_seven (suc k) zero h = refl
masked_by_seven (suc k) (suc x) h = omega (arith, masked_by_three k (suc x / 2) (omega arith))
masked_by_seven zero (suc x) h = absurd (omega arith)

pub bit_and-one : (x : ℕ) → bit_and x 1 ≡ x % 2
bit_and-one x = bit_and-bitwise x 1 ∙ masked_by_one x x (omega arith)

pub bit_and_three : (x : ℕ) → bit_and x 3 ≡ x % 4
bit_and_three x = bit_and-bitwise x 3 ∙ masked_by_three x x (omega arith)

pub bit_and_seven : (x : ℕ) → bit_and x 7 ≡ x % 8
bit_and_seven x = bit_and-bitwise x 7 ∙ masked_by_seven x x (omega arith)

-- The lowest bit of a disjunction and of a conjunction.
pub bit_or_low : (x y : ℕ) → bit_or x y % 2 ≡ max (x % 2) (y % 2)
bit_or_low zero y = omega (arith, bit_or-bitwise 0 y)
bit_or_low (suc x) y = omega (arith, bit_or-bitwise (suc x) y)

pub bit_and_low : (x y : ℕ) → bit_and x y % 2 ≡ min (x % 2) (y % 2)
bit_and_low zero y = omega (arith, bit_and-bitwise 0 y)
bit_and_low (suc x) y = omega (arith, bit_and-bitwise (suc x) y)

-- A property of every number below a bound, by evaluation.
unfoldable pub all_below : ℕ → (ℕ → Bool) → Bool
all_below zero test = true
all_below (suc n) test = test n && all_below n test

pub all_below_sound :
    (n : ℕ) (test : ℕ → Bool) (x : ℕ) → all_below n test ≡ true → x < n → test x ≡ true
unfolding all_below
all_below_sound zero test x passed h = absurd (omega arith)
all_below_sound (suc n) test x passed h = ground (arith, all_below_sound n test x)
