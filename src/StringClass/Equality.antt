-- ===== src/StringClass/Equality.antt =====
-- The comparison of two strings: `==` of library/common/string.cxx.
use dark_core.Prelude.{
  ℕ, zero, suc, ◌+◌, ◌%◌, ◌≡◌, ◌<◌, ◌↔◌, refl, ap, ap₂, arith, true, List, [], ◌∷◌, some, length,
  get_or, All,
}
use dark_core.Common.Memory.Comparing.{compare_even, compare_odd, IsBytes}
use dark_core.StringClass.{equals, bytes_of}

bytes_of-IsBytes : (s : List ℕ) → All (λ c. c < 256) s → IsBytes (bytes_of s)
bytes_of-IsBytes [] h i = omega arith
bytes_of-IsBytes (c ∷ s) h zero = h.0
bytes_of-IsBytes (c ∷ s) h (suc i) = bytes_of-IsBytes s h.1 i

same_bytes :
    (s t : List ℕ)
    → length s ≡ length t
    → ((i : ℕ) → i < length s → get_or s i 0 ≡ get_or t i 0)
    → s ≡ t
same_bytes [] [] e h = refl
same_bytes [] (y ∷ t) e h = absurd (omega arith)
same_bytes (x ∷ s) [] e h = absurd (omega arith)
same_bytes (x ∷ s) (y ∷ t) e h =
    ap₂ ◌∷◌ (h 0 (omega arith)) (same_bytes s t (omega arith) (λ i l. h (suc i) (omega arith)))

-- Two strings of bytes are equal if they hold the same text, where the length is even; of an odd
-- length they are equal whatever they hold.
pub equals-even_or_odd :
    (s t : List ℕ)
    → All (λ c. c < 256) s
    → All (λ c. c < 256) t
    → (length s % 2 ≡ 0 → (equals (some s) (some t) ≡ true) ↔ (s ≡ t))
      × (length s % 2 ≡ 1 → (equals (some s) (some t) ≡ true) ↔ (length s ≡ length t))
unfolding equals
equals-even_or_odd s t hs ht = (
  λ even.
      let same =
        compare_even (bytes_of s) (bytes_of t) (length s) (bytes_of-IsBytes s hs)
          (bytes_of-IsBytes t ht) even in
      (
        λ e.
            let lengths : length s ≡ length t = ground arith in
            same_bytes s t lengths (λ i l. ground (arith, same.0 (ground arith) i l)),
        λ e. ground (arith, ap length e, same.1 (λ k l. ap (λ x. get_or x (0 + k) 0) e)),
      ),
  λ odd. ground (arith, compare_odd (bytes_of s) (bytes_of t) (length s) odd),
)
