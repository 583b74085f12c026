-- ===== src/StringClass/Paths.antt =====
-- Split of library/common/string.cxx on the paths of the file system.
use dark_core.Prelude.{
  ℕ, zero, suc, ◌+◌, ◌≡◌, ◌≢◌, ◌<◌, ◌≤◌, refl, sym, ap, ap₂, ◌∙◌, arith, ◌==◌, false, List, [], ◌∷◌,
  ◌++◌, map, some, length, length-append, length-drop, drop, drop-tail, drop-append, take-append,
  append_nil, All, All-append, All-map, wrong_index, add_size, sub_size,
}
use dark_core.Common.Text.{find_first_substr}
use dark_core.Common.Text.Separators.{
  IsClean, text-IsClean, find_first_substr-separator, find_first_substr-no_separator,
}
use dark_core.StringClass.{
  Part, split, split_loop, skip_delimeters, part_start, part_text, get_sub_string,
}

-- A byte of a name, which neither ends the text nor separates names.
abbrev pub IsNameByte : ℕ → Type 0
IsNameByte c = (c ≢ 0) × (c ≢ b'/')

abbrev pub IsName : List ℕ → Type 0
IsName name = (0 < length name) × All IsNameByte name

abbrev pub slash : List ℕ
slash = b'/' ∷ []

-- The path of the names below each other.
abbrev pub path_of : List (List ℕ) → List ℕ
path_of [] = []
path_of (name ∷ names) = b'/' ∷ (name ++ path_of names)

path_of-IsClean : (names : List (List ℕ)) → All IsName names → IsClean (path_of names)
path_of-IsClean [] h = tt
path_of-IsClean (name ∷ names) h = (
  ground arith,
  All-append (λ c. c ≢ 0) name (path_of names)
      (All-map IsNameByte (λ c. c ≢ 0) name (λ c k. k.0) h.0.1) (path_of-IsClean names h.1),
)

length-path_of : (names : List (List ℕ)) → length names ≤ length (path_of names)
length-path_of [] = omega arith
length-path_of (name ∷ names) =
    omega (arith, length-append name (path_of names), length-path_of names)

slash_free : (name : List ℕ) → All IsNameByte name → All (λ c. c ≢ b'/') name
slash_free name h = All-map IsNameByte (λ c. c ≢ b'/') name (λ c k. k.1) h

module _ (s : List ℕ) (clean : IsClean s) (small : length s < wrong_index) where
  -- Where the search for the end of a name leads, from a place within the name.
  end_of : ℕ → List ℕ → List (List ℕ) → ℕ
  end_of o name [] = wrong_index
  end_of o name (next ∷ names) = o + length name

  find-end_of :
      (o : ℕ) (name : List ℕ) (names : List (List ℕ))
      → o ≤ length s
      → drop o s ≡ name ++ path_of names
      → All IsNameByte name
      → find_first_substr s slash o ≡ end_of o name names
  unfolding end_of
  find-end_of o name [] inside e h =
      find_first_substr-no_separator b'/' (ground arith) s o name clean small inside
        (e ∙ append_nil name) (slash_free name h)
  find-end_of o name (next ∷ names) inside e h =
      find_first_substr-separator b'/' (ground arith) s o name (next ++ path_of names) clean small e
        (slash_free name h)

  -- The text of a part is the name that stands there.
  part_text-name :
      (o : ℕ) (name rest : List ℕ)
      → drop o s ≡ name ++ rest
      → IsName name
      → part_text s (record { start_offset = o; part_length = length name }) ≡ some name
  unfolding get_sub_string
  part_text-name o name rest e h =
      let used : (length name == 0) ≡ false = ground (arith, h.0) in
      rw (used, e, get_sub_string)
        (rw (take-append name rest)
          (ap some (text-IsClean name (All-map IsNameByte (λ c. c ≢ 0) name (λ c k. k.0) h.1))))

  -- The loop from a place on gives back the names.
  Splits : ℕ → ℕ → List (List ℕ) → Type 0
  Splits fuel prev names =
      (parts : List Part) × (split_loop fuel s slash prev ≡ some parts)
      × (map (part_text s) parts ≡ map some names)

  round-last :
      (fuel prev o : ℕ) (name : List ℕ)
      → part_start s slash prev ≡ o
      → find_first_substr s slash (add_size prev 1) ≡ wrong_index
      → drop o s ≡ name
      → o + length name ≡ length s
      → IsName name
      → Splits (suc fuel) prev (name ∷ [])
  unfolding Splits split_loop
  round-last fuel prev o name start next e len h =
      let last : sub_size (length s) o ≡ length name = omega arith in
      let some_left : (length name == 0) ≡ false = ground (arith, h.0) in
      (
        record { start_offset = o; part_length = length name } ∷ [],
        rw (next, start, last, some_left, split_loop) refl,
        ap (λ t. t ∷ []) (part_text-name o name [] (e ∙ sym (append_nil name)) h),
      )

  round-next :
      (fuel prev o : ℕ) (name : List ℕ) (names : List (List ℕ))
      → part_start s slash prev ≡ o
      → find_first_substr s slash (add_size prev 1) ≡ o + length name
      → drop o s ≡ name ++ path_of names
      → o + length name < length s
      → IsName name
      → Splits fuel (o + length name) names
      → Splits (suc fuel) prev (name ∷ names)
  unfolding Splits split_loop
  round-next fuel prev o name names start next e inside h rest =
      let more : (o + length name == wrong_index) ≡ false = ground arith in
      let len : sub_size (o + length name) o ≡ length name = omega arith in
      (
        record { start_offset = o; part_length = length name } ∷ rest.0,
        rw (next, start, more, rest.1, next, start, len, split_loop) refl,
        ap₂ ◌∷◌ (part_text-name o name (path_of names) e h) rest.2,
      )

  -- A part starts behind the delimeter at its place.
  part_start-slash :
      (prev : ℕ) (names : List (List ℕ)) (name : List ℕ)
      → drop prev s ≡ path_of (name ∷ names)
      → All IsName (name ∷ names)
      → prev < length s
      → part_start s slash prev ≡ prev + 1
  unfolding part_start
  part_start-slash prev names name e h inside =
      let len : length (path_of (name ∷ names)) ≤ length s =
        omega (arith, ap length e, length-drop prev s) in
      let found =
        find_first_substr-separator b'/' (ground arith) (path_of (name ∷ names)) 0 []
          (name ++ path_of names) (path_of-IsClean (name ∷ names) h) (omega arith) refl tt in
      rw (e, found) (omega arith)

  -- Behind the delimeter stands the name, and the search behind it finds the name's end.
  behind :
      (prev : ℕ) (name : List ℕ) (names : List (List ℕ))
      → drop prev s ≡ path_of (name ∷ names)
      → All IsName (name ∷ names)
      → (drop (prev + 1) s ≡ name ++ path_of names)
        × (prev + 1 + length name + length (path_of names) ≡ length s)
        × (find_first_substr s slash (add_size prev 1) ≡ end_of (prev + 1) name names)
  behind prev name names e h =
      let after : drop (prev + 1) s ≡ name ++ path_of names =
        ap (λ k. drop k s) {y = suc prev} (omega arith)
        ∙ drop-tail prev s b'/' (name ++ path_of names) e in
      let len : prev + 1 + length name + length (path_of names) ≡ length s =
        omega (arith, ap length e, length-drop prev s, length-append name (path_of names)) in
      (
        after,
        len,
        ap (find_first_substr s slash) (omega (arith, len))
            ∙ find-end_of (prev + 1) name names (omega (arith, len)) after h.0.1,
      )

  split_loop-names :
      (fuel prev : ℕ) (name : List ℕ) (names : List (List ℕ))
      → drop prev s ≡ path_of (name ∷ names)
      → All IsName (name ∷ names)
      → length names < fuel
      → Splits fuel prev (name ∷ names)
  unfolding end_of
  split_loop-names zero prev name names e h enough = absurd (omega arith)
  split_loop-names (suc fuel) prev name [] e h enough =
      let facts = behind prev name [] e h in
      round-last fuel prev (prev + 1) name
        (part_start-slash prev [] name e h (omega (arith, facts.1))) facts.2
        (facts.0 ∙ append_nil name) (omega (arith, facts.1)) h.0
  split_loop-names (suc fuel) prev name (next ∷ names) e h enough =
      let facts = behind prev name (next ∷ names) e h in
      round-next fuel prev (prev + 1) name (next ∷ names)
        (part_start-slash prev (next ∷ names) name e h (omega (arith, facts.1))) facts.2 facts.0
        (omega (arith, facts.1)) h.0
        (split_loop-names fuel (prev + 1 + length name) next names
          (drop-append (prev + 1) s name (path_of (next ∷ names)) facts.0) h.1 (omega arith))

-- A path behind its first delimeter does not start with one.
within_name :
    (c : ℕ) (cs : List ℕ) (names : List (List ℕ))
    → All IsName ((c ∷ cs) ∷ names)
    → length (path_of ((c ∷ cs) ∷ names)) < wrong_index
    → (find_first_substr ((c ∷ cs) ++ path_of names) slash 0 == 0) ≡ false
unfolding end_of
within_name c cs [] h small =
    let clean = (path_of-IsClean ((c ∷ cs) ∷ []) h).1 in
    rw (find-end_of ((c ∷ cs) ++ []) clean (omega arith) 0 (c ∷ cs) [] (omega arith) refl h.0.1)
      refl
within_name c cs (next ∷ names) h small =
    let clean = (path_of-IsClean ((c ∷ cs) ∷ next ∷ names) h).1 in
    let found =
      find-end_of ((c ∷ cs) ++ path_of (next ∷ names)) clean (omega arith) 0 (c ∷ cs) (next ∷ names)
        (omega arith) refl h.0.1 in
    rw found (ground arith)

skip_delimeters-path_of :
    (fuel c : ℕ) (cs : List ℕ) (names : List (List ℕ))
    → All IsName ((c ∷ cs) ∷ names)
    → length (path_of ((c ∷ cs) ∷ names)) < wrong_index
    → skip_delimeters (suc (suc fuel)) (path_of ((c ∷ cs) ∷ names)) slash 0 ≡ some 1
unfolding skip_delimeters
skip_delimeters-path_of fuel c cs names h small =
    let s = path_of ((c ∷ cs) ∷ names) in
    let first : find_first_substr s slash 0 ≡ 0 =
      find_first_substr-separator b'/' (ground arith) s 0 [] ((c ∷ cs) ++ path_of names)
        (path_of-IsClean ((c ∷ cs) ∷ names) h) small refl tt in
    rw (first, within_name c cs names h small, skip_delimeters) refl

-- The first round starts within the first name.
first_round :
    (fuel c : ℕ) (cs : List ℕ) (names : List (List ℕ)) (h : All IsName ((c ∷ cs) ∷ names))
    (small : length (path_of ((c ∷ cs) ∷ names)) < wrong_index)
    → length names < fuel
    → Splits
        (path_of ((c ∷ cs) ∷ names))
        (path_of-IsClean ((c ∷ cs) ∷ names) h)
        small
        (suc fuel)
        1
        ((c ∷ cs) ∷ names)
unfolding part_start end_of
first_round fuel c cs [] h small enough =
    let s = path_of ((c ∷ cs) ∷ []) in
    let clean = path_of-IsClean ((c ∷ cs) ∷ []) h in
    round-last s clean small fuel 1 1 (c ∷ cs) (rw (within_name c cs [] h small) refl)
      (find-end_of s clean small 2 cs [] (omega arith) refl h.0.1.1) (append_nil (c ∷ cs))
      (omega (arith, length-append cs [])) h.0
first_round fuel c cs (next ∷ names) h small enough =
    let s = path_of ((c ∷ cs) ∷ next ∷ names) in
    let clean = path_of-IsClean ((c ∷ cs) ∷ next ∷ names) h in
    round-next s clean small fuel 1 1 (c ∷ cs) (next ∷ names)
      (rw (within_name c cs (next ∷ names) h small) refl)
      (find-end_of s clean small 2 cs (next ∷ names) (omega arith) refl h.0.1.1 ∙ omega arith) refl
      (omega (arith, length-append cs (path_of (next ∷ names)))) h.0
      (split_loop-names s clean small fuel (1 + length (c ∷ cs)) next names
        (drop-append 1 s (c ∷ cs) (path_of (next ∷ names)) refl) h.1 (omega arith))

-- Split at "/" gives back the names of a path: the parts of "/n1/n2" and so on are the names, as long
-- as they are not empty and hold no "/", and the path is shorter than WRONG_INDEX.
pub split-path_of :
    (name : List ℕ) (names : List (List ℕ))
    → All IsName (name ∷ names)
    → length (path_of (name ∷ names)) < wrong_index
    → (parts : List Part) × (split (path_of (name ∷ names)) slash ≡ some parts)
      × (map (part_text (path_of (name ∷ names))) parts ≡ map some (name ∷ names))
unfolding split Splits
split-path_of [] names h small = absurd (omega (arith, h.0.0))
split-path_of (c ∷ cs) names h small =
    let fuel = length ((c ∷ cs) ++ path_of names) in
    let round =
      first_round (suc fuel) c cs names h small
        (omega (arith, length-path_of ((c ∷ cs) ∷ names))) in
    (round.0, rw (skip_delimeters-path_of fuel c cs names h small, split) round.1, round.2)
