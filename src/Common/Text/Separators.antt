-- ===== src/Common/Text/Separators.antt =====
-- FindFirstSubstr for a substring of one byte, in a text without other terminators.
use dark_core.Prelude.{
  ℕ, zero, suc, ◌+◌, ◌-◌, ◌≡◌, ◌≢◌, ◌<◌, ◌≤◌, refl, sym, ap, ◌∙◌, arith, ◌==◌, true, false, List,
  [], ◌∷◌, ◌++◌, ltb, ◌||◌, length, length-append, length-drop, drop, drop-tail, get_or-drop, All,
  wrong_index, add_size,
}
use dark_core.Common.Text.{matches_at, find_up, find_first_substr, get_length}
use dark_core.Common.Text.Content.{text, get_length-text}

-- The bytes of a text whose terminator is behind its end.
abbrev pub IsClean : List ℕ → Type 0
IsClean s = All (λ c. c ≢ 0) s

pub text-IsClean : (s : List ℕ) → IsClean s → text s ≡ s
text-IsClean [] h = refl
text-IsClean (c ∷ s) h = ground (arith, h.0, text-IsClean s h.1)

pub get_length-IsClean : (s : List ℕ) → IsClean s → get_length s ≡ length s
get_length-IsClean s h = get_length-text s ∙ ap length (text-IsClean s h)

module _ (sep : ℕ) (nonzero : sep ≢ 0) (s : List ℕ) where
  matches_hit : (o : ℕ) (ys : List ℕ) → drop o s ≡ sep ∷ ys → matches_at s o (sep ∷ []) ≡ true
  unfolding matches_at
  matches_hit o ys e = ground (arith, get_or-drop o s sep 0 ys e)

  matches_miss :
      (o c : ℕ) (ys : List ℕ) → drop o s ≡ c ∷ ys → c ≢ sep → matches_at s o (sep ∷ []) ≡ false
  unfolding matches_at
  matches_miss o c ys e h = ground (arith, get_or-drop o s c 0 ys e)

  find_up-separator :
      (n o : ℕ) (word rest : List ℕ)
      → drop o s ≡ word ++ (sep ∷ rest)
      → All (λ c. c ≢ sep) word
      → length word < n
      → find_up n s (sep ∷ []) o ≡ o + length word
  unfolding find_up
  find_up-separator zero o word rest e h l = absurd (omega arith)
  find_up-separator (suc n) o [] rest e h l = rw (matches_hit o rest e, find_up) (omega arith)
  find_up-separator (suc n) o (c ∷ word) rest e h l =
      rw (matches_miss o c (word ++ (sep ∷ rest)) e h.0, find_up)
        (find_up-separator n (o + 1) word rest
            (ap (λ k. drop k s) {y = suc o} (omega arith)
              ∙ drop-tail o s c (word ++ (sep ∷ rest)) e)
            h.1 (omega arith)
          ∙ omega arith)

  find_up-no_separator :
      (n o : ℕ) (word : List ℕ)
      → drop o s ≡ word
      → All (λ c. c ≢ sep) word
      → n ≤ length word
      → find_up n s (sep ∷ []) o ≡ wrong_index
  unfolding find_up
  find_up-no_separator zero o word e h l = refl
  find_up-no_separator (suc n) o [] e h l = absurd (omega arith)
  find_up-no_separator (suc n) o (c ∷ word) e h l =
      rw (matches_miss o c word e h.0, find_up)
        (find_up-no_separator n (o + 1) word
          (ap (λ k. drop k s) {y = suc o} (omega arith) ∙ drop-tail o s c word e) h.1 (omega arith))

  -- A word that a separator follows is passed up to the separator.
  pub find_first_substr-separator :
      (o : ℕ) (word rest : List ℕ)
      → IsClean s
      → length s < wrong_index
      → drop o s ≡ word ++ (sep ∷ rest)
      → All (λ c. c ≢ sep) word
      → find_first_substr s (sep ∷ []) o ≡ o + length word
  unfolding find_first_substr
  find_first_substr-separator o word rest clean small e h =
      let len : length s - o ≡ length word + suc (length rest) =
        sym (length-drop o s) ∙ (ap length e ∙ length-append word (sep ∷ rest)) in
      let one : get_length (sep ∷ []) ≡ 1 = get_length-IsClean (sep ∷ []) (nonzero, tt) in
      let inside : (ltb (length s) (add_size o 1) || o == wrong_index) ≡ false = ground arith in
      rw (get_length-IsClean s clean, one, inside)
        (find_up-separator (length s - 1 + 1 - o) o word rest e h (omega arith))

  -- Where no separator follows, the result is WRONG_INDEX.
  pub find_first_substr-no_separator :
      (o : ℕ) (word : List ℕ)
      → IsClean s
      → length s < wrong_index
      → o ≤ length s
      → drop o s ≡ word
      → All (λ c. c ≢ sep) word
      → find_first_substr s (sep ∷ []) o ≡ wrong_index
  unfolding find_first_substr
  find_first_substr-no_separator o word clean small inside e h =
      let one : get_length (sep ∷ []) ≡ 1 = get_length-IsClean (sep ∷ []) (nonzero, tt) in
      let len : length s - o ≡ length word = sym (length-drop o s) ∙ ap length e in
      rw (get_length-IsClean s clean, one)
        (ground (arith, find_up-no_separator (length s - 1 + 1 - o) o word e h))
