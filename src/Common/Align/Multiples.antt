-- ===== src/Common/Align/Multiples.antt =====
-- Which multiple of the alignment AlignUp and AlignDown return.
use native.Mathlib.Nat.{div-add-mod}
use dark_core.Prelude.{ℕ, zero, suc, ◌+◌, ◌-◌, ◌*◌, ◌/◌, ◌%◌, ◌<◌, ◌≡◌, arith, size_mod}
use dark_core.Common.Align.{align_up, align_down}

-- AlignUp returns the first multiple of the alignment that is greater than the value, so that an
-- aligned value moves by a whole alignment; the sum with the alignment must not wrap.
pub align_up-eq-next :
    (value alignment : ℕ)
    → 0 < alignment
    → value + alignment < size_mod
    → align_up value alignment ≡ (value / alignment + 1) * alignment
unfolding align_up
align_up-eq-next v a h b = omega (arith, div-add-mod v a)

pred_mul : (q a : ℕ) → (q - 1) * a ≡ q * a - a
pred_mul zero a = omega arith
pred_mul (suc q) a = let e : suc q - 1 ≡ q = omega arith in rw e (omega arith)

-- AlignDown returns the multiple one alignment below the greatest one that fits in the value, and
-- 0 where there is none.
pub align_down-eq-previous :
    (value alignment : ℕ)
    → 0 < alignment
    → value < size_mod
    → align_down value alignment ≡ (value / alignment - 1) * alignment
unfolding align_down
align_down-eq-previous v a h b = rw whole (ground (arith, div-add-mod v a, pred_mul (v / a) a))
  where
    whole : (v + size_mod - v % a) % size_mod ≡ (v / a) * a
    whole = omega (arith, div-add-mod v a)
