-- ===== src/Common/Text/Search.antt =====
-- Where FindFirstSubstr and FindLastSubstr find a match.
use dark_core.Prelude.{
  ℕ, zero, suc, ◌+◌, ◌-◌, ◌≡◌, ◌<◌, ◌≤◌, refl, sym, subst, arith, ◌==◌, if◌then◌else◌, true, false,
  List, ltb, ◌||◌, ◌⊎◌, inl, inr, wrong_index, Bool-cases, add_size, size_mod, ◌^◌,
}
use dark_core.Common.Text.{
  matches_at, find_up, find_first_substr, find_down, find_last_substr, get_length,
}

-- No match starts at an offset from `low` up to but not including `high`.
abbrev pub NoMatch : List ℕ → List ℕ → ℕ → ℕ → Type 0
NoMatch source substr low high = (j : ℕ) → low ≤ j → j < high → matches_at source j substr ≡ false

-- `found` is the lowest match from `low` on and below `high`, or WRONG_INDEX where there is none.
abbrev pub IsFirst : List ℕ → List ℕ → ℕ → ℕ → ℕ → Type 0
IsFirst source substr low high found =
    ((found ≡ wrong_index) × NoMatch source substr low high)
    ⊎ ((low ≤ found)
        × (found < high)
        × (matches_at source found substr ≡ true)
        × NoMatch source substr low found)

-- The same from above: the highest match that is at most `high`.
abbrev pub IsLast : List ℕ → List ℕ → ℕ → ℕ → Type 0
IsLast source substr high found =
    ((found ≡ wrong_index) × NoMatch source substr 0 (suc high))
    ⊎ ((found ≤ high)
        × (matches_at source found substr ≡ true)
        × NoMatch source substr (suc found) (suc high))

find_up-IsFirst :
    (n : ℕ) (source substr : List ℕ) (offset high : ℕ)
    → offset + n ≡ high
    → IsFirst source substr offset high (find_up n source substr offset)
unfolding find_up
find_up-IsFirst zero s t o h e = inl (refl, λ j p q. absurd (omega arith))
find_up-IsFirst (suc n) s t o h e = elim (Bool-cases (matches_at s o t)) [
  | inl hit ↦ rw hit (inr (omega arith, omega arith, hit, λ j p q. absurd (omega arith)))
  | inr miss ↦ rw miss (later miss (find_up-IsFirst n s t (o + 1) h (omega arith)))
]
  where
    extend : {k : ℕ} → matches_at s o t ≡ false → NoMatch s t (o + 1) k → NoMatch s t o k
    extend miss rest j p q = ground (arith, rest j)

    later :
        matches_at s o t ≡ false
        → IsFirst s t (o + 1) h (find_up n s t (o + 1))
        → IsFirst s t o h (find_up n s t (o + 1))
    later miss (inl (e, rest)) = inl (e, extend miss rest)
    later miss (inr (a, b, c, rest)) = inr (omega arith, b, c, extend miss rest)

find_down-IsLast :
    (index : ℕ) (source substr : List ℕ)
    → IsLast source substr index (find_down index source substr)
unfolding find_down
find_down-IsLast zero s t = elim (Bool-cases (matches_at s 0 t)) [
  | inl hit ↦ rw hit (inr (omega arith, hit, λ j p q. absurd (omega arith)))
  | inr miss ↦ rw miss (inl (refl, λ j p q. ground arith))
]
find_down-IsLast (suc i) s t = elim (Bool-cases (matches_at s (suc i) t)) [
  | inl hit ↦ rw hit (inr (omega arith, hit, λ j p q. absurd (omega arith)))
  | inr miss ↦ rw miss (later miss (find_down-IsLast i s t))
]
  where
    extend :
        {k : ℕ}
        → matches_at s (suc i) t ≡ false
        → NoMatch s t k (suc i)
        → NoMatch s t k (suc (suc i))
    extend miss rest j p q = ground (arith, rest j)

    later :
        matches_at s (suc i) t ≡ false
        → IsLast s t i (find_down i s t)
        → IsLast s t (suc i) (find_down i s t)
    later miss (inl (e, rest)) = inl (e, extend miss rest)
    later miss (inr (a, b, rest)) = inr (omega arith, b, extend miss rest)

-- For an offset from which `substr` can still fit, FindFirstSubstr returns the first match from the
-- offset on that lies within the source, or WRONG_INDEX where there is none.
pub find_first_substr-IsFirst :
    (source substr : List ℕ) (offset : ℕ)
    → offset + get_length substr ≤ get_length source
    → get_length source < wrong_index
    → IsFirst source substr offset
        (get_length source - get_length substr + 1)
        (find_first_substr source substr offset)
unfolding find_first_substr
find_first_substr-IsFirst s t o fits small =
    rw inside (find_up-IsFirst (get_length s - get_length t + 1 - o) s t o _ (omega arith))
  where
    inside : (ltb (get_length s) (add_size o (get_length t)) || o == wrong_index) ≡ false
    inside = ground arith

-- Where `substr` does not fit behind the offset, FindFirstSubstr returns WRONG_INDEX.
pub find_first_substr_beyond :
    (source substr : List ℕ) (offset : ℕ)
    → offset + get_length substr < size_mod
    → get_length source < offset + get_length substr
    → find_first_substr source substr offset ≡ wrong_index
unfolding find_first_substr
find_first_substr_beyond s t o small beyond = ground arith

-- The highest offset that FindLastSubstr tries: 0 stands for the last byte of the source.
abbrev pub last_start : List ℕ → ℕ → ℕ
last_start source offset = if offset == 0 then get_length source - 1 else offset

-- FindLastSubstr returns the last match that starts at the offset or before it, or WRONG_INDEX where
-- there is none; the source holds a byte, and neither is as long as a negative index.
pub find_last_substr-IsLast :
    (source substr : List ℕ) (offset : ℕ)
    → 0 < get_length source
    → get_length source ≤ 2 ^ 31
    → offset < 2 ^ 31
    → IsLast source substr (last_start source offset) (find_last_substr source substr offset)
unfolding find_last_substr
find_last_substr-IsLast s t o some_byte short h =
    subst (IsLast s t (last_start s o)) (sym started) (find_down-IsLast (last_start s o) s t)
  where
    started : find_last_substr s t o ≡ find_down (last_start s o) s t
    started = ground arith
