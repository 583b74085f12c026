-- ===== src/RpfParser.antt =====
-- RPFParser of library/common/rpf-parse.cxx. The data from an offset on is a list of bytes; `new` is
-- taken to succeed.
use dark_core.Prelude.{
  ℕ, zero, suc, Bool, true, false, ◌||◌, ◌==◌, if◌then◌else◌, List, [], ◌∷◌, Option, none, some,
  length, drop,
}
pub mod Ending
pub mod Printing

-- `RPFParser::Element`.
pub record Element : Type 0 where
  pub key : List ℕ
  pub value : List ℕ

unfoldable pub is_line_end : ℕ → Bool
is_line_end c = (c == b'\r') || (c == b'\n')

unfoldable pub is_blank : ℕ → Bool
is_blank c = is_line_end c || (c == b' ') || (c == b'\t')

-- The loop that passes what stands in front of a key or a value.
unfoldable pub skip_blanks : List ℕ → List ℕ
skip_blanks [] = []
skip_blanks (c ∷ cs) = let rest = skip_blanks cs in if is_blank c then rest else c ∷ cs

-- The bytes in front of the first one that stops the loop, and what is left from there on.
unfoldable pub take_until : (ℕ → Bool) → List ℕ → List ℕ
take_until stops [] = []
take_until stops (c ∷ cs) = let rest = take_until stops cs in if stops c then [] else c ∷ rest

unfoldable pub drop_until : (ℕ → Bool) → List ℕ → List ℕ
drop_until stops [] = []
drop_until stops (c ∷ cs) = let rest = drop_until stops cs in if stops c then c ∷ cs else rest

unfoldable pub skip_equals : List ℕ → List ℕ
skip_equals [] = []
skip_equals (c ∷ cs) = if c == b'=' then cs else c ∷ cs

abbrev pub prepend : Element → Option (List Element) → Option (List Element)
prepend e none = none
prepend e (some es) = some (e ∷ es)

abbrev pub is_empty : List ℕ → Bool
is_empty [] = true
is_empty (c ∷ cs) = false

-- A round of the loop: the element and the data behind it, or `none` where the round breaks off. The
-- key of a last line without a value is dropped.
unfoldable pub parse_step : List ℕ → Option (Element × List ℕ)
parse_step bytes =
    let start = skip_blanks bytes in
    let behind = skip_blanks (drop 1 (drop_until is_blank start)) in
    let value_start = skip_blanks (skip_equals behind) in
    let element : Element = record {
      key = take_until is_blank start;
      value = take_until is_line_end value_start;
    } in
    if is_empty start || is_empty behind
    then none
    else some (element, drop 1 (drop_until is_line_end value_start))

-- The loop over the data that are left, with fuel for the rounds.
unfoldable pub parse_loop : ℕ → List ℕ → Option (List Element)
parse_loop fuel [] = some []
parse_loop zero (c ∷ cs) = none
parse_loop (suc fuel) (c ∷ cs) = elim (parse_step (c ∷ cs)) [
  | none ↦ some []
  | some (element, rest) ↦ prepend element (parse_loop fuel rest)
]

-- A round takes a byte at least.
unfoldable pub parse : List ℕ → Option (List Element)
parse bytes = parse_loop (length bytes) bytes
