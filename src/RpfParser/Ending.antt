-- ===== src/RpfParser/Ending.antt =====
-- Parse on any data.
use dark_core.Prelude.{
  ℕ, zero, suc, ◌-◌, ◌≡◌, ◌≤◌, ◌<◌, refl, ap, arith, Bool, true, false, ◌||◌, if◌then◌else◌, List,
  [], ◌∷◌, Option, none, some, length, drop, Bool-cases, inl, inr,
}
use dark_core.RpfParser.{
  Element, is_line_end, is_blank, skip_blanks, take_until, drop_until, skip_equals, prepend,
  is_empty, parse_step, parse_loop, parse,
}

length-skip_blanks : (s : List ℕ) → length (skip_blanks s) ≤ length s
unfolding skip_blanks
length-skip_blanks [] = omega arith
length-skip_blanks (c ∷ s) =
    let before = length-skip_blanks s in
    elim (Bool-cases (is_blank c)) [ inl e ↦ rw e (omega arith) | inr e ↦ rw e (omega arith) ]

length-drop_until : (stops : ℕ → Bool) (s : List ℕ) → length (drop_until stops s) ≤ length s
unfolding drop_until
length-drop_until stops [] = omega arith
length-drop_until stops (c ∷ s) =
    let before = length-drop_until stops s in
    elim (Bool-cases (stops c)) [ inl e ↦ rw e (omega arith) | inr e ↦ rw e (omega arith) ]

length-skip_equals : (s : List ℕ) → length (skip_equals s) ≤ length s
unfolding skip_equals
length-skip_equals [] = omega arith
length-skip_equals (c ∷ s) = ground arith

length-drop_one : (s : List ℕ) → length (drop 1 s) ≡ length s - 1
length-drop_one [] = refl
length-drop_one (c ∷ s) = omega arith

is_empty-false : (s : List ℕ) → is_empty s ≡ false → 0 < length s
is_empty-false [] h = absurd (ground arith)
is_empty-false (c ∷ s) h = omega arith

-- A round leaves fewer bytes than it was given.
abbrev Shrinks : List ℕ → Option (Element × List ℕ) → Type 0
Shrinks s none = Unit
Shrinks s (some (e, rest)) = length rest < length s

test-Shrinks :
    (b : Bool) (s : List ℕ) (e : Element) (rest : List ℕ)
    → (b ≡ false → length rest < length s)
    → Shrinks s (if b then none else some (e, rest))
test-Shrinks true s e rest h = tt
test-Shrinks false s e rest h = h refl

or-second : (a b : Bool) → (a || b) ≡ false → b ≡ false
or-second a b h = ground arith

parse_step-Shrinks : (s : List ℕ) → Shrinks s (parse_step s)
unfolding parse_step
parse_step-Shrinks s =
    let start = skip_blanks s in
    let blank = drop_until is_blank start in
    let behind = skip_blanks (drop 1 blank) in
    let value_start = skip_blanks (skip_equals behind) in
    let left = drop_until is_line_end value_start in
    test-Shrinks (is_empty start || is_empty behind) s
      (record { key = take_until is_blank start; value = take_until is_line_end value_start })
      (drop 1 left)
      (λ h.
        let some_left = is_empty-false behind (or-second (is_empty start) (is_empty behind) h) in
        let h1 = length-skip_blanks s in
        let h2 = length-drop_until is_blank start in
        let h3 = length-drop_one blank in
        let h4 = length-skip_blanks (drop 1 blank) in
        let h5 = length-skip_equals behind in
        let h6 = length-skip_blanks (skip_equals behind) in
        let h7 = length-drop_until is_line_end value_start in
        let h8 = length-drop_one left in omega arith)

prepend-some :
    (e : Element) (o : Option (List Element))
    → ((es : List Element) × (o ≡ some es))
    → (es : List Element) × (prepend e o ≡ some es)
prepend-some e o (es, h) = (e ∷ es, ap (prepend e) h)

parse_loop-Ends :
    (n : ℕ) (s : List ℕ) → length s ≤ n → (es : List Element) × (parse_loop n s ≡ some es)
unfolding parse_loop
parse_loop-Ends n [] h = ([], refl)
parse_loop-Ends zero (c ∷ cs) h = absurd (omega arith)
parse_loop-Ends (suc n) (c ∷ cs) h =
    go (parse_step (c ∷ cs)) (parse_step-Shrinks (c ∷ cs))
      (λ rest shorter. parse_loop-Ends n rest shorter)
  where
    go :
        (o : Option (Element × List ℕ))
        → Shrinks (c ∷ cs) o
        → ((rest : List ℕ) → length rest ≤ n → (es : List Element) × (parse_loop n rest ≡ some es))
        → (es : List Element) × (elim o [
          | none ↦ some []
          | some (element, rest) ↦ prepend element (parse_loop n rest)
        ]
            ≡ some es)
    go none shorter ends = ([], refl)
    go (some (e, rest)) shorter ends = prepend-some e (parse_loop n rest) (ends rest (omega arith))

-- Parse ends on all data.
pub parse-Ends : (bytes : List ℕ) → (es : List Element) × (parse bytes ≡ some es)
unfolding parse
parse-Ends bytes = parse_loop-Ends (length bytes) bytes (omega arith)
