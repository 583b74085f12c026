-- ===== src/StringClass/Ending.antt =====
-- Split ends at every path.
use dark_core.Prelude.{
  ℕ, zero, suc, ◌+◌, ◌-◌, ◌≡◌, ◌<◌, ◌≤◌, ◌⊎◌, refl, arith, ◌==◌, true, false, ltb, ◌||◌, List, [],
  ◌∷◌, length, drop, length-drop, some, Bool-cases, inl, inr, wrong_index, size_mod, add_size,
}
use dark_core.Common.Text.{find_first_substr, find_up, matches_at, get_length}
use dark_core.StringClass.{Part, split, split_loop, skip_delimeters}

abbrev slash : List ℕ
slash = b'/' ∷ []

get_length-slash : get_length slash ≡ 1
unfolding get_length
get_length-slash = refl

length-at_most : (s : List ℕ) → get_length s ≤ length s
unfolding get_length
length-at_most [] = omega arith
length-at_most (c ∷ s) = ground (arith, length-at_most s)

-- A result of the search: no match, or one from an offset on and in front of another.
abbrev Between : ℕ → ℕ → ℕ → Type 0
Between low high found = (found ≡ wrong_index) ⊎ ((low ≤ found) × (found < high))

find_up-Between : (n : ℕ) (s d : List ℕ) (o : ℕ) → Between o (o + n) (find_up n s d o)
unfolding find_up
find_up-Between zero s d o = inl refl
find_up-Between (suc n) s d o = elim (Bool-cases (matches_at s o d)) [
  | inl hit ↦ rw hit (inr (omega arith, omega arith))
  | inr miss ↦ rw miss (later (find_up-Between n s d (o + 1)))
]
  where
    later :
        Between (o + 1) (o + 1 + n) (find_up n s d (o + 1))
        → Between o (o + suc n) (find_up n s d (o + 1))
    later (inl e) = inl e
    later (inr (a, b)) = inr (omega arith, omega arith)

find_first_substr-Between :
    (s : List ℕ) (o : ℕ) → Between o (length s) (find_first_substr s slash o)
unfolding find_first_substr
find_first_substr-Between s o =
    rw get_length-slash (elim (Bool-cases (ltb (get_length s) (add_size o 1) || o == wrong_index)) [
      | inl refused ↦ rw refused (inl refl)
      | inr tried ↦ rw tried (
          inside tried (find_up (get_length s - 1 + 1 - o) s slash o)
            (find_up-Between (get_length s - 1 + 1 - o) s slash o))
    ])
  where
    inside :
        (ltb (get_length s) (add_size o 1) || o == wrong_index) ≡ false
        → (r : ℕ) → Between o (o + (get_length s - 1 + 1 - o)) r
        → Between o (length s) r
    inside tried r (inl e) = inl e
    inside tried r (inr (a, b)) =
        let some_byte : 0 < get_length s = ground arith in inr (a, omega (arith, length-at_most s))

-- Where the slash stands in front there is a byte.
found_byte : (s : List ℕ) → (find_first_substr s slash 0 == 0) ≡ true → 0 < length s
found_byte s there = go (find_first_substr s slash 0) (find_first_substr-Between s 0) there
  where
    go : (r : ℕ) → Between 0 (length s) r → (r == 0) ≡ true → 0 < length s
    go r (inl e) there = absurd (ground arith)
    go r (inr (a, b)) there = omega arith

skip_delimeters-Ends :
    (fuel : ℕ) (s : List ℕ) (prev : ℕ)
    → prev ≤ length s
    → length s < fuel + prev
    → (p : ℕ) × (skip_delimeters fuel s slash prev ≡ some p) × (p ≤ length s)
unfolding skip_delimeters
skip_delimeters-Ends zero s prev h enough = absurd (omega arith)
skip_delimeters-Ends (suc fuel) s prev h enough =
    elim (Bool-cases (find_first_substr (drop prev s) slash 0 == 0)) [
      | inl there ↦
          let more : prev < length s =
            omega (arith, found_byte (drop prev s) there, length-drop prev s) in
          let (p, e, l) = skip_delimeters-Ends fuel s (prev + 1) (omega arith) (omega arith) in
          rw there (p, e, l)
      | inr away ↦ rw away (prev, refl, h)
    ]

split_loop-Ends :
    (fuel : ℕ) (s : List ℕ) (prev : ℕ)
    → length s + 1 < size_mod
    → prev ≤ length s
    → length s < fuel + prev
    → (parts : List Part) × (split_loop fuel s slash prev ≡ some parts)
unfolding split_loop
split_loop-Ends zero s prev short h enough = absurd (omega arith)
split_loop-Ends (suc fuel) s prev short h enough = elim (Bool-cases (next == wrong_index)) [
  | inl last ↦ rw (last, split_loop) (_, refl)
  | inr further ↦
      let bounds = ahead further (find_first_substr-Between s (add_size prev 1)) in
      let (parts, e) = split_loop-Ends fuel s next short (omega arith) (omega arith) in
      rw (further, e, split_loop) (_, refl)
]
  where
    next : ℕ
    next = find_first_substr s slash (add_size prev 1)

    ahead :
        (next == wrong_index) ≡ false
        → Between (add_size prev 1) (length s) next
        → (prev < next) × (next < length s)
    ahead further (inl e) = absurd (ground arith)
    ahead further (inr (a, b)) = (omega arith, b)

-- Split ends and has a result for every text with the slash as the delimeter, where the text and its
-- terminator are below 4 GiB.
pub split-Ends :
    (s : List ℕ) → length s + 1 < size_mod → (parts : List Part) × (split s slash ≡ some parts)
unfolding split
split-Ends [] short = ([], refl)
split-Ends (c ∷ cs) short =
    let (p, e, inside) =
      skip_delimeters-Ends (suc (length (c ∷ cs))) (c ∷ cs) 0 (omega arith) (omega arith) in
    let (parts, f) =
      split_loop-Ends (suc (length (c ∷ cs))) (c ∷ cs) p short inside (omega arith) in
    rw (split, e) (parts, f)
