-- ===== src/Common/Text/Content.antt =====
-- What GetLength and Compare read of a buffer: its text.
use dark_core.Prelude.{
  ℕ, ◌≡◌, ◌↔◌, refl, arith, ◌==◌, if◌then◌else◌, true, List, [], ◌∷◌, length, All, ◌≢◌, ◌++◌,
}
use dark_core.Common.Text.{get_length, compare}

-- The bytes before the terminator.
abbrev pub text : List ℕ → List ℕ
text [] = []
text (c ∷ cs) = if c == 0 then [] else c ∷ text cs

-- GetLength counts the bytes of the text.
pub get_length-text : (buffer : List ℕ) → get_length buffer ≡ length (text buffer)
unfolding get_length
get_length-text [] = refl
get_length-text (c ∷ cs) = ground (arith, get_length-text cs)

compare_sound : (first second : List ℕ) → compare first second ≡ true → text first ≡ text second
unfolding compare
compare_sound [] [] e = refl
compare_sound [] (y ∷ ys) e = ground arith
compare_sound (x ∷ xs) [] e = ground arith
compare_sound (x ∷ xs) (y ∷ ys) e = ground (arith, compare_sound xs ys)

compare_complete : (first second : List ℕ) → text first ≡ text second → compare first second ≡ true
unfolding compare
compare_complete [] [] e = refl
compare_complete [] (y ∷ ys) e = ground arith
compare_complete (x ∷ xs) [] e = ground arith
compare_complete (x ∷ xs) (y ∷ ys) e = ground (arith, compare_complete xs ys)

-- Compare answers true exactly for buffers that hold the same text.
pub compare-text :
    (first second : List ℕ) → (compare first second ≡ true) ↔ (text first ≡ text second)
compare-text first second = (compare_sound first second, compare_complete first second)

-- A run of bytes before a terminator is the text, if none of them is one.
pub text-append : (xs rest : List ℕ) → All (λ c. c ≢ 0) xs → text (xs ++ 0 ∷ rest) ≡ xs
text-append [] rest h = refl
text-append (x ∷ xs) rest h = ground (arith, h.0, text-append xs rest h.1)
