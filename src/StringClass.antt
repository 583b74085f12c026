-- ===== src/StringClass.antt =====
-- The class String of library/common/string.cxx. A string is its text, or `none` where `Source_` is
-- null; `new` is taken to succeed.
use dark_core.Prelude.{
  ℕ, zero, suc, ◌+◌, ◌-◌, Bool, true, false, not, ltb, leb, ◌==◌, if◌then◌else◌, List, [], ◌∷◌,
  ◌++◌, Option, none, some, length, get_or, take, drop, wrong_index, add_size, sub_size,
}
use dark_core.Common.Memory
use dark_core.Common.Text.{find_first_substr, find_last_substr}
use dark_core.Common.Text.Content.{text}
pub mod Ending
pub mod Equality
pub mod Paths

abbrev pub String : Type 0
String = Option (List ℕ)

-- The bytes behind a pointer to the text, its terminator included.
abbrev pub bytes_of : List ℕ → Memory.Memory
bytes_of s = λ i. get_or s i 0

unfoldable pub string_of : List ℕ → String
string_of buffer = some (text buffer)

unfoldable pub get_string_length : String → ℕ
get_string_length none = 0
get_string_length (some s) = length s

unfoldable pub append_string : String → String → String
append_string (some s) (some t) = some (s ++ t)
append_string s t = s

unfoldable pub equals : String → String → Bool
equals none t = false
equals (some s) none = false
equals (some s) (some t) =
    if length s == length t then Memory.compare (bytes_of s) (bytes_of t) (length s) else false

unfoldable pub differs : String → String → Bool
differs s t = not (equals s t)

unfoldable pub find_first_match : String → String → ℕ → ℕ
find_first_match (some s) (some t) start = find_first_substr s t start
find_first_match s t start = wrong_index

unfoldable pub find_last_match : String → String → ℕ → ℕ
find_last_match (some s) (some t) start = find_last_substr s t start
find_last_match s t start = wrong_index

-- A length of 0 asks for the rest of the string.
unfoldable pub get_sub_string : String → ℕ → ℕ → String
get_sub_string none start count = none
get_sub_string (some s) start count =
    let used = (if count == 0 then sub_size (length s) start else count) in
    some (text (take used (drop start s)))

-- `String::Part`.
pub record Part : Type 0 where
  pub start_offset : ℕ
  pub part_length : ℕ

-- The loop that passes the delimeters in front; `none` where the fuel runs out.
unfoldable pub skip_delimeters : ℕ → List ℕ → List ℕ → ℕ → Option ℕ
skip_delimeters zero s delimeter prev = none
skip_delimeters (suc fuel) s delimeter prev =
    let rest = skip_delimeters fuel s delimeter (prev + 1) in
    if find_first_substr (drop prev s) delimeter 0 == 0 then rest else some prev

unfoldable pub part_start : List ℕ → List ℕ → ℕ → ℕ
part_start s delimeter prev =
    if find_first_substr (drop prev s) delimeter 0 == 0
    then add_size prev (length delimeter)
    else prev

-- The loop over the parts.
unfoldable pub split_loop : ℕ → List ℕ → List ℕ → ℕ → Option (List Part)
split_loop zero s delimeter prev = none
split_loop (suc fuel) s delimeter prev =
    let next = find_first_substr s delimeter (add_size prev (length delimeter)) in
    let start = part_start s delimeter prev in
    let rest = split_loop fuel s delimeter next in
    let last = sub_size (length s) start in
    if next == wrong_index
    then some (if last == 0 then [] else record { start_offset = start; part_length = last } ∷ [])
    else elim rest [
      | none ↦ none
      | some parts ↦
          some (record { start_offset = start; part_length = sub_size next start } ∷ parts)
    ]

-- A round of either loop passes a byte, so that the length is fuel enough.
unfoldable pub split : List ℕ → List ℕ → Option (List Part)
split [] delimeter = some []
split (c ∷ cs) delimeter = elim (skip_delimeters (suc (length (c ∷ cs))) (c ∷ cs) delimeter 0) [
  | none ↦ none
  | some prev ↦ split_loop (suc (length (c ∷ cs))) (c ∷ cs) delimeter prev
]

-- The text of a part.
abbrev pub part_text : List ℕ → Part → String
part_text s part = get_sub_string (some s) part.start_offset part.part_length
