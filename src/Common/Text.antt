-- ===== src/Common/Text.antt =====
-- StringUtils of library/common/string-utils.cxx. A `char` buffer is a list of bytes; its text ends
-- at the first zero byte, and the terminator of a list that holds none stands at the list's end.
use dark_core.Prelude.{
  ℕ, zero, suc, ◌+◌, ◌-◌, ◌*◌, ◌/◌, ◌%◌, ◌^◌, Bool, true, false, not, ◌&&◌, ◌||◌, bit_and, bit_or,
  ltb, leb, ◌==◌, if◌then◌else◌, List, [], ◌∷◌, ◌++◌, Option, none, some, wrong_index, add_size,
  sub_size, size_mod, get_or, set, take, drop,
}
pub mod Content
pub mod Search
pub mod Separators
pub mod Numerals
pub mod Letters

abbrev pub char_at : List ℕ → ℕ → ℕ
char_at buffer i = get_or buffer i 0

unfoldable pub get_length : List ℕ → ℕ
get_length [] = 0
get_length (c ∷ cs) = if c == 0 then 0 else suc (get_length cs)

pub compare : List ℕ → List ℕ → Bool
compare [] second = char_at second 0 == 0
compare (x ∷ xs) [] = x == 0
compare (x ∷ xs) (y ∷ ys) =
    let rest = compare xs ys in if x == y then (if x == 0 then true else rest) else false

-- `substr[i]` against `source[offset + i]`, up to the end of `substr`.
unfoldable pub matches_at : List ℕ → ℕ → List ℕ → Bool
matches_at source offset [] = true
matches_at source offset (c ∷ cs) =
    let rest = matches_at source (offset + 1) cs in
    if c == 0 then true else if char_at source offset == c then rest else false

-- The loop of FindFirstSubstr over the offsets that are left.
unfoldable pub find_up : ℕ → List ℕ → List ℕ → ℕ → ℕ
find_up zero source substr offset = wrong_index
find_up (suc n) source substr offset =
    let rest = find_up n source substr (offset + 1) in
    if matches_at source offset substr then offset else rest

unfoldable pub find_first_substr : List ℕ → List ℕ → ℕ → ℕ
find_first_substr source substr offset =
    let src_length = get_length source in
    let sub_length = get_length substr in
    if ltb src_length (add_size offset sub_length) || offset == wrong_index
    then wrong_index
    else find_up (src_length - sub_length + 1 - offset) source substr offset

-- The loop of FindLastSubstr from an index down to 0.
pub find_down : ℕ → List ℕ → List ℕ → ℕ
find_down zero source substr = if matches_at source 0 substr then 0 else wrong_index
find_down (suc index) source substr =
    let rest = find_down index source substr in
    if matches_at source (suc index) substr then suc index else rest

-- An offset of 2 ^ 31 or more is a negative index, at which the loop does not start.
pub find_last_substr : List ℕ → List ℕ → ℕ → ℕ
find_last_substr source substr offset =
    let start = (if offset == 0 then sub_size (get_length source) 1 else offset) in
    if ltb start (2 ^ 31) then find_down start source substr else wrong_index

-- The bytes that Substr writes to the destination; `none` where it returns false.
pub substr : List ℕ → ℕ → ℕ → Option (List ℕ)
substr source offset count =
    let str_length = get_length source in
    if leb str_length offset
    then none
    else (let used =
          (if count == 0
            then str_length - offset
            else if ltb str_length (add_size offset count)
            then str_length - offset
            else count) in
        some (take used (drop offset source) ++ 0 ∷ []))

pub raise_letter : ℕ → ℕ
raise_letter c = if leb b'a' c && leb c b'z' then bit_and c b'_' else c

pub lower_letter : ℕ → ℕ
lower_letter c = if leb b'A' c && leb c b'Z' then bit_or c 0x20 else c

pub raise_letter_case : List ℕ → List ℕ
raise_letter_case [] = []
raise_letter_case (c ∷ cs) = if c == 0 then c ∷ cs else raise_letter c ∷ raise_letter_case cs

pub lower_letter_case : List ℕ → List ℕ
lower_letter_case [] = []
lower_letter_case (c ∷ cs) = if c == 0 then c ∷ cs else lower_letter c ∷ lower_letter_case cs

-- `Digits_`.
pub digit : ℕ → ℕ
digit d = if ltb d 10 then b'0' + d else b'A' + (d - 10)

-- `while (value /= base) ++length;`, a division a round.
pub count_digits : ℕ → ℕ → ℕ → ℕ → ℕ
count_digits zero value base digits = digits
count_digits (suc fuel) value base digits =
    let rest = count_digits fuel (value / base) base (digits + 1) in
    if value / base == 0 then digits else rest

-- A 32-bit value has at most 32 digits in a base from 2 on.
abbrev pub max_digits : ℕ
max_digits = 32

pub get_value_length : ℕ → ℕ → ℕ
get_value_length value base =
    if ltb base 2 then wrong_index else count_digits max_digits value base 1

-- The digits go into the buffer from the last to the first.
pub write_digits : ℕ → List ℕ → ℕ → ℕ → ℕ → List ℕ
write_digits zero buffer index value base = buffer
write_digits (suc fuel) buffer index value base =
    let rest =
      write_digits fuel (set buffer index (digit (value % base))) (index - 1) (value / base) base in
    if value == 0 then buffer else rest

-- The buffer after GetString; `none` where it returns false.
pub get_string : List ℕ → ℕ → ℕ → Option (List ℕ)
get_string buffer value base =
    if ltb base 2 || ltb 16 base
    then none
    else if value == 0
    then some (set (set buffer 0 b'0') 1 0)
    else (let digits = count_digits max_digits value base 1 in
        some (write_digits max_digits (set buffer digits 0) (digits - 1) value base))

-- The overloads for signed values, which are given by their 32 bits.
unfoldable pub is_negative : ℕ → Bool
is_negative value = leb (2 ^ 31) value

unfoldable pub get_signed_value_length : ℕ → ℕ → ℕ
get_signed_value_length value base =
    get_value_length (if is_negative value then sub_size 0 value else value) base

unfoldable pub get_signed_string : List ℕ → ℕ → ℕ → Option (List ℕ)
get_signed_string buffer value base =
    if is_negative value
    then (elim (get_string (drop 1 buffer) (sub_size 0 value) base) [
      | none ↦ none
      | some rest ↦ some (b'-' ∷ rest)
    ])
    else get_string buffer value base
