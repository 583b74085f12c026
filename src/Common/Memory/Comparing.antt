-- ===== src/Common/Memory/Comparing.antt =====
-- What MemoryUtils::Compare decides.
use dark_core.Prelude.{
  ℕ, zero, suc, ◌+◌, ◌-◌, ◌*◌, ◌/◌, ◌%◌, ◌<◌, ◌≡◌, ◌↔◌, refl, arith, bit_and_seven, bit_and_three,
  true,
}
use dark_core.Common.Memory.{Memory, load_element, compare_loop, compare}

abbrev pub IsBytes : Memory → Type 0
IsBytes m = (p : ℕ) → m p < 256

-- `count` bytes from `p` on are the same in both views.
abbrev pub Agree : ℕ → ℕ → Memory → Memory → Type 0
Agree count p first second = (k : ℕ) → k < count → first (p + k) ≡ second (p + k)

load-Agree :
    (width p : ℕ) (f g : Memory)
    → IsBytes f
    → IsBytes g
    → load_element width p f ≡ load_element width p g
    → Agree width p f g
load-Agree zero p f g hf hg e k l = absurd (omega arith)
load-Agree (suc w) p f g hf hg e zero l = ground (arith, hf p, hg p)
load-Agree (suc w) p f g hf hg e (suc k) l =
    let later : f (p + 1 + k) ≡ g (p + 1 + k) =
      load-Agree w (p + 1) f g hf hg (omega (arith, hf p, hg p)) k (omega arith) in
    ground arith

Agree-load :
    (width p : ℕ) (f g : Memory)
    → Agree width p f g
    → load_element width p f ≡ load_element width p g
Agree-load zero p f g a = refl
Agree-load (suc w) p f g a =
    ground (arith, a 0, Agree-load w (p + 1) f g (λ k l. ground (arith, a (suc k))))

module _ (f g : Memory) where
  compare_loop-Agree :
      (n width p count k : ℕ)
      → IsBytes f
      → IsBytes g
      → n * width ≡ count
      → compare_loop n width p f g ≡ true
      → k < count
      → f (p + k) ≡ g (p + k)
  unfolding compare_loop
  compare_loop-Agree zero w p c k hf hg e t l = absurd (omega arith)
  compare_loop-Agree (suc n) w p c k hf hg e t l = ground (
    arith,
    load-Agree w p f g hf hg (ground arith) k,
    compare_loop-Agree n w (p + w) (n * w) (k - w) hf hg refl,
  )

  Agree-compare_loop :
      (n width p count : ℕ)
      → n * width ≡ count
      → Agree count p f g
      → compare_loop n width p f g ≡ true
  unfolding compare_loop
  Agree-compare_loop zero w p c e a = refl
  Agree-compare_loop (suc n) w p c e a = ground (
    arith,
    Agree-load w p f g (λ k l. a k (omega arith)),
    Agree-compare_loop n w (p + w) (n * w) refl (λ k l. ground (arith, a (w + k))),
  )

-- For an even number of bytes Compare answers whether the two buffers hold the same bytes.
pub compare_even :
    (first second : Memory) (count : ℕ)
    → IsBytes first
    → IsBytes second
    → count % 2 ≡ 0
    → (compare first second count ≡ true) ↔ Agree count 0 first second
unfolding compare
compare_even f g c hf hg e = (
  λ t k l. ground (
    arith,
    bit_and_seven c,
    bit_and_three c,
    compare_loop-Agree f g (c / 4) 4 0 c k hf hg,
    compare_loop-Agree f g (c / 2) 2 0 c k hf hg,
  ),
  λ a. ground (
    arith,
    bit_and_seven c,
    bit_and_three c,
    λ (q : c / 4 * 4 ≡ c). Agree-compare_loop f g (c / 4) 4 0 c q a,
    λ (q : c / 2 * 2 ≡ c). Agree-compare_loop f g (c / 2) 2 0 c q a,
  ),
)

-- For an odd number of bytes Compare answers true whatever the buffers hold.
pub compare_odd :
    (first second : Memory) (count : ℕ) → count % 2 ≡ 1 → compare first second count ≡ true
unfolding compare
compare_odd f g c e = ground (
  arith,
  bit_and_seven c,
  bit_and_three c,
  Agree-compare_loop f f c 1 0 c (omega arith) (λ k l. refl),
)
