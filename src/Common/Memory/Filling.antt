-- ===== src/Common/Memory/Filling.antt =====
-- MemoryUtils::Fill at every count.
use dark_core.Prelude.{
  ℕ, zero, suc, ◌+◌, ◌-◌, ◌*◌, ◌/◌, ◌%◌, ◌^◌, ◌<◌, ◌≡◌, refl, arith, ◌&&◌, ltb, leb, ◌==◌, ==_iff,
  if◌then◌else◌, bit_and_seven, bit_and_three, all_below, all_below_sound, true,
}
use dark_core.Common.Memory.{Memory, store_element, fill_loop, fill, value_long, value_word}

-- Every byte of an element is the same.
abbrev Uniform : ℕ → ℕ → ℕ → Type 0
Uniform width element byte = (k : ℕ) → k < width → element / 256 ^ k % 256 ≡ byte

-- The memory after `count` bytes have been set at once.
abbrev pub filled : ℕ → ℕ → ℕ → Memory → Memory
filled destination value count m =
    λ p. if leb destination p && ltb p (destination + count) then value else m p

store_element-filled :
    (width destination element byte : ℕ) (m : Memory) (p : ℕ)
    → Uniform width element byte
    → store_element width destination element m p ≡ filled destination byte width m p
unfolding store_element
store_element-filled w d v b m p u = ground (arith, u (p - d))

fill_loop-filled :
    (n width destination element byte count : ℕ) (m : Memory) (p : ℕ)
    → Uniform width element byte
    → n * width ≡ count
    → fill_loop n width destination element m p ≡ filled destination byte count m p
unfolding fill_loop
fill_loop-filled zero w d v b c m p u e = ground arith
fill_loop-filled (suc n) w d v b c m p u e = ground (
  arith,
  store_element-filled w d v b m p u,
  fill_loop-filled n w (d + w) v b (n * w) (store_element w d v m) p u refl,
)

long_table : all_below 256 (λ v. all_below 4 (λ k. value_long v / 256 ^ k % 256 == v)) ≡ true
unfolding all_below value_long
long_table = refl

value_long-Uniform : (v : ℕ) → v < 256 → Uniform 4 (value_long v) v
value_long-Uniform v h k l =
    (==_iff _ v).0 (all_below_sound 4 _ k (all_below_sound 256 _ v long_table h) l)

word_table : all_below 256 (λ v. all_below 2 (λ k. value_word v / 256 ^ k % 256 == v)) ≡ true
unfolding all_below value_word
word_table = refl

value_word-Uniform : (v : ℕ) → v < 256 → Uniform 2 (value_word v) v
value_word-Uniform v h k l =
    (==_iff _ v).0 (all_below_sound 2 _ k (all_below_sound 256 _ v word_table h) l)

byte-Uniform : (v : ℕ) → v < 256 → Uniform 1 v v
byte-Uniform v h zero l = omega arith
byte-Uniform v h (suc k) l = absurd (omega arith)

-- Fill sets `count` bytes from the destination on to the value, whichever element size it chooses,
-- and changes no other byte.
pub fill-filled :
    (destination value count : ℕ) (m : Memory) (p : ℕ)
    → value < 256
    → fill destination value count m p ≡ filled destination value count m p
unfolding fill
fill-filled d v c m p h = ground (
  arith,
  bit_and_seven c,
  bit_and_three c,
  fill_loop-filled (c / 4) 4 d (value_long v) v c m p (value_long-Uniform v h),
  fill_loop-filled (c / 2) 2 d (value_word v) v c m p (value_word-Uniform v h),
  fill_loop-filled c 1 d v v c m p (byte-Uniform v h),
)
