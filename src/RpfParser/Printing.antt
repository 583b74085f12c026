-- ===== src/RpfParser/Printing.antt =====
-- Parse on files of lines with a key and a value.
use dark_core.Prelude.{
  ℕ, zero, suc, ◌≡◌, ◌≤◌, ◌<◌, refl, sym, ap, ◌∙◌, arith, Bool, true, false, not, ◌==◌, List, [],
  ◌∷◌, ◌++◌, none, some, length, length-append, get_or, All,
}
use dark_core.RpfParser.{
  Element, is_line_end, is_blank, skip_blanks, take_until, drop_until, skip_equals, prepend,
  is_empty, parse_step, parse_loop, parse,
}

-- The text has a first byte, which is not passed over.
abbrev pub starts : List ℕ → Bool
starts [] = false
starts (c ∷ cs) = not (is_blank c)

abbrev pub Lacks : (ℕ → Bool) → List ℕ → Type 0
Lacks stops = All (λ c. stops c ≡ false)

-- A key without blanks, and a value on one line, which does not begin with an equals sign.
pub record IsEntry (e : Element) : Type 0 where
  pub key_starts : starts e.key ≡ true
  pub key_whole : Lacks is_blank e.key
  pub value_starts : starts e.value ≡ true
  pub value_plain : (get_or e.value 0 0 == b'=') ≡ false
  pub value_whole : Lacks is_line_end e.value

-- A line of a file: the element and what stands between its key and its value, which is a first blank,
-- further ones, and where there is an equals sign the sign and the blanks behind it.
pub record Line : Type 0 where
  pub element : Element
  pub blank : ℕ
  pub gap : List ℕ
  pub equals : Bool
  pub behind : List ℕ

abbrev AllBlank : List ℕ → Type 0
AllBlank = All (λ c. is_blank c ≡ true)

pub record IsLine (l : Line) : Type 0 where
  pub entry : IsEntry l.element
  pub blank_first : is_blank l.blank ≡ true
  pub gap_blank : AllBlank l.gap
  pub behind_blank : AllBlank l.behind

abbrev sign_of : Bool → List ℕ → List ℕ → List ℕ
sign_of true behind tail = b'=' ∷ (behind ++ tail)
sign_of false behind tail = tail

abbrev pub line_of : Line → List ℕ → List ℕ
line_of l rest =
    l.element.key
    ++ (l.blank ∷ (l.gap ++ sign_of l.equals l.behind (l.element.value ++ (b'\n' ∷ rest))))

abbrev pub file_of : List Line → List ℕ
file_of [] = []
file_of (l ∷ ls) = line_of l (file_of ls)

abbrev pub elements_of : List Line → List Element
elements_of [] = []
elements_of (l ∷ ls) = l.element ∷ elements_of ls

not-true : (b : Bool) → not b ≡ true → b ≡ false
not-true b h = ground arith

skip_blanks-starts : (s r : List ℕ) → starts s ≡ true → skip_blanks (s ++ r) ≡ s ++ r
unfolding skip_blanks
skip_blanks-starts [] r h = absurd (ground arith)
skip_blanks-starts (c ∷ s) r h = rw (not-true (is_blank c) h) refl

skip_blanks-passes : (g r : List ℕ) → AllBlank g → skip_blanks (g ++ r) ≡ skip_blanks r
unfolding skip_blanks
skip_blanks-passes [] r h = refl
skip_blanks-passes (c ∷ g) r h = rw h.0 (skip_blanks-passes g r h.1)

take_until-whole :
    (stops : ℕ → Bool) (s : List ℕ) (c : ℕ) (r : List ℕ)
    → Lacks stops s
    → stops c ≡ true
    → take_until stops (s ++ (c ∷ r)) ≡ s
unfolding take_until
take_until-whole stops [] c r h e = rw e refl
take_until-whole stops (x ∷ s) c r h e = rw (h.0, take_until-whole stops s c r h.1 e) refl

drop_until-whole :
    (stops : ℕ → Bool) (s : List ℕ) (c : ℕ) (r : List ℕ)
    → Lacks stops s
    → stops c ≡ true
    → drop_until stops (s ++ (c ∷ r)) ≡ c ∷ r
unfolding drop_until
drop_until-whole stops [] c r h e = rw e refl
drop_until-whole stops (x ∷ s) c r h e = rw h.0 (drop_until-whole stops s c r h.1 e)

is_empty-append : (s : List ℕ) (c : ℕ) (r : List ℕ) → is_empty (s ++ (c ∷ r)) ≡ false
is_empty-append [] c r = refl
is_empty-append (x ∷ s) c r = refl

skip_equals-plain :
    (s r : List ℕ)
    → starts s ≡ true
    → (get_or s 0 0 == b'=') ≡ false
    → skip_equals (s ++ r) ≡ s ++ r
unfolding skip_equals
skip_equals-plain [] r h e = absurd (ground arith)
skip_equals-plain (c ∷ s) r h e = rw e refl

-- A round at a key, of which what stands behind it and the start of the value are known.
parse_step-entry :
    (e : Element) (blank : ℕ) (behind passed rest : List ℕ)
    → IsEntry e
    → is_blank blank ≡ true
    → skip_blanks behind ≡ passed
    → is_empty passed ≡ false
    → skip_blanks (skip_equals passed) ≡ e.value ++ (b'\n' ∷ rest)
    → parse_step (e.key ++ (blank ∷ behind)) ≡ some (e, rest)
unfolding parse_step is_line_end
parse_step-entry e blank behind passed rest h hk hb he hv =
    rw
      (
        skip_blanks-starts e.key (blank ∷ behind) h.key_starts,
        drop_until-whole is_blank e.key blank behind h.key_whole hk,
        take_until-whole is_blank e.key blank behind h.key_whole hk,
        is_empty-append e.key blank behind,
        hb,
        he,
        hv,
        take_until-whole is_line_end e.value b'\n' rest h.value_whole refl,
        drop_until-whole is_line_end e.value b'\n' rest h.value_whole refl,
      )
      refl

parse_step-sign :
    (e : Element) (blank : ℕ) (gap : List ℕ) (equals : Bool) (behind rest : List ℕ)
    → IsEntry e
    → is_blank blank ≡ true
    → AllBlank gap
    → AllBlank behind
    → parse_step (e.key ++ (blank ∷ (gap ++ sign_of equals behind (e.value ++ (b'\n' ∷ rest)))))
      ≡ some (e, rest)
unfolding skip_blanks skip_equals is_blank is_line_end
parse_step-sign e blank gap true behind rest h hk hg hb =
    let tail = e.value ++ (b'\n' ∷ rest) in
    parse_step-entry e blank (gap ++ (b'=' ∷ (behind ++ tail))) (b'=' ∷ (behind ++ tail)) rest h hk
      (skip_blanks-passes gap (b'=' ∷ (behind ++ tail)) hg) refl
      (skip_blanks-passes behind tail hb ∙ skip_blanks-starts e.value (b'\n' ∷ rest) h.value_starts)
parse_step-sign e blank gap false behind rest h hk hg hb =
    let tail = e.value ++ (b'\n' ∷ rest) in
    let passed = skip_blanks-starts e.value (b'\n' ∷ rest) h.value_starts in
    parse_step-entry e blank (gap ++ tail) tail rest h hk (skip_blanks-passes gap tail hg ∙ passed)
      (is_empty-append e.value b'\n' rest)
      (ap skip_blanks (skip_equals-plain e.value (b'\n' ∷ rest) h.value_starts h.value_plain)
        ∙ passed)

parse_step-line :
    (l : Line) (rest : List ℕ) → IsLine l → parse_step (line_of l rest) ≡ some (l.element, rest)
parse_step-line l rest h =
    parse_step-sign l.element l.blank l.gap l.equals l.behind rest h.entry h.blank_first h.gap_blank
      h.behind_blank

parse_step-nil : parse_step [] ≡ none
unfolding parse_step skip_blanks
parse_step-nil = refl

parse_loop-step :
    (n : ℕ) (s : List ℕ) (e : Element) (rest : List ℕ)
    → parse_step s ≡ some (e, rest)
    → parse_loop (suc n) s ≡ prepend e (parse_loop n rest)
unfolding parse_loop
parse_loop-step n [] e rest h =
    let missing : none ≡ some (e, rest) = sym parse_step-nil ∙ h in absurd (ground arith)
parse_loop-step n (c ∷ cs) e rest h = rw (parse_loop, h) refl

parse_loop-file_of :
    (ls : List Line) (n : ℕ)
    → All IsLine ls
    → length ls ≤ n
    → parse_loop n (file_of ls) ≡ some (elements_of ls)
unfolding parse_loop
parse_loop-file_of [] n h enough = refl
parse_loop-file_of (l ∷ ls) zero h enough = absurd (omega arith)
parse_loop-file_of (l ∷ ls) (suc n) h enough =
    parse_loop-step n (file_of (l ∷ ls)) l.element (file_of ls) (parse_step-line l (file_of ls) h.0)
    ∙ ap (prepend l.element) (parse_loop-file_of ls n h.1 (omega arith))

length-sign_of :
    (equals : Bool) (behind tail : List ℕ) → length tail ≤ length (sign_of equals behind tail)
length-sign_of true behind tail = omega (arith, length-append behind tail)
length-sign_of false behind tail = omega arith

length-line_of : (l : Line) (rest : List ℕ) → length rest < length (line_of l rest)
length-line_of l rest =
    let tail = l.element.value ++ (b'\n' ∷ rest) in
    let signed = sign_of l.equals l.behind tail in
    omega (
      arith,
      length-append l.element.key (l.blank ∷ (l.gap ++ signed)),
      length-append l.gap signed,
      length-sign_of l.equals l.behind tail,
      length-append l.element.value (b'\n' ∷ rest),
    )

length-file_of : (ls : List Line) → length ls ≤ length (file_of ls)
length-file_of [] = omega arith
length-file_of (l ∷ ls) = omega (arith, length-line_of l (file_of ls), length-file_of ls)

-- For a file of lines, each a key without blanks, one or more blanks behind it, perhaps an equals sign and
-- any blanks behind that, and a value that fills the rest of its line and begins neither with a blank
-- nor with an equals sign, Parse ends and returns the keys and the values in order.
pub parse-file_of : (ls : List Line) → All IsLine ls → parse (file_of ls) ≡ some (elements_of ls)
unfolding parse
parse-file_of ls h = parse_loop-file_of ls (length (file_of ls)) h (length-file_of ls)
