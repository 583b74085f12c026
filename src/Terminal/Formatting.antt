-- ===== src/Terminal/Formatting.antt =====
-- PrintFormat, PrintFormatTemplate, PrintHexData and ReadChar of library/terminal/terminal.cxx. The
-- arguments behind the format are the words of the stack, by index.
use dark_core.Prelude.{
  ℕ, zero, suc, ◌+◌, ◌-◌, ◌*◌, ◌%◌, ◌^◌, Bool, true, false, not, ◌&&◌, ◌||◌, bit_or, ltb, leb, ◌==◌,
  if◌then◌else◌, List, [], ◌∷◌, length, replicate, Option, none, some,
}
use dark_core.Common.Text.{get_string, get_signed_string}
use dark_core.Common.Text.Content.{text}
use dark_core.Terminal.{
  Terminal, symbol_backspace, symbol_new_line, symbol_carret, symbol_tabulation, put_char,
  put_string, set_color,
}
use dark_core.Terminal.Reading.{erase}
pub mod Interpolating

-- `NumberConversionBuffer_`. What earlier calls left there lies behind the terminator of the next one.
abbrev pub number_conversion_buffer : List ℕ
number_conversion_buffer = replicate 65 0

abbrev pub converted : Option (List ℕ) → List ℕ
converted none = []
converted (some buffer) = text buffer

-- The value of a digit of a color, if it is one.
unfoldable pub color_digit : ℕ → Option ℕ
color_digit c =
    if leb b'0' c && leb c b'9'
    then some (c - b'0')
    else if leb b'a' c && leb c b'f'
    then some (c - b'a' + 10)
    else if leb b'A' c && leb c b'F'
    then some (c - b'A' + 10)
    else none

-- The first digit of a color, which then moves up, and the second.
unfoldable pub set_high_digit : ℕ → Terminal → Terminal
set_high_digit c t = elim (color_digit c) [
  | none ↦ set_color (t.color * 2 ^ 4 % 2 ^ 8) t
  | some d ↦ set_color (d * 2 ^ 4 % 2 ^ 8) t
]

unfoldable pub set_low_digit : ℕ → Terminal → Terminal
set_low_digit c t = elim (color_digit c) [ none ↦ t | some d ↦ set_color (bit_or t.color d) t ]

abbrev pub takes_argument : ℕ → Bool
takes_argument d =
    (d == b'A')
    || (d == b'c')
    || (d == b's')
    || (d == b'd')
    || (d == b'u')
    || (d == b'x')
    || (d == b'o')
    || (d == b'b')

-- How far the loop of PrintFormat is within a directive.
pub data Mode : Type 0 where
  plain : Mode
  directive : Mode
  high_digit : Mode
  low_digit : Mode

-- The text at an address.
module _ (string_at : ℕ → List ℕ) where
  -- A directive other than for a color in the format.
  unfoldable pub put_argument : ℕ → ℕ → Terminal → Terminal
  put_argument d argument t =
      if d == b'%'
      then put_char b'%' t
      else if d == b'A'
      then set_color (argument % 2 ^ 8) t
      else if d == b'c'
      then put_char (argument % 2 ^ 8) t
      else if d == b's'
      then put_string (string_at argument) t
      else if d == b'd'
      then put_string (converted (get_signed_string number_conversion_buffer argument 10)) t
      else if d == b'u'
      then put_string (converted (get_string number_conversion_buffer argument 10)) t
      else if d == b'x'
      then put_string (converted (get_string number_conversion_buffer argument 16)) t
      else if d == b'o'
      then put_string (converted (get_string number_conversion_buffer argument 8)) t
      else if d == b'b'
      then put_string (converted (get_string number_conversion_buffer argument 2)) t
      else t

  -- The loop over the format, from an argument on. The result is `none` where a directive is cut off, and
  -- the call reads beyond the terminator.
  unfoldable pub print_loop : Mode → List ℕ → (ℕ → ℕ) → ℕ → Terminal → Option Terminal
  print_loop plain [] arguments k t = some t
  print_loop directive [] arguments k t = none
  print_loop high_digit [] arguments k t = none
  print_loop low_digit [] arguments k t = none
  print_loop plain (c ∷ cs) arguments k t =
      let put = print_loop plain cs arguments k (put_char c t) in
      let next = print_loop directive cs arguments k t in if c == b'%' then next else put
  print_loop directive (c ∷ cs) arguments k t =
      let color = print_loop high_digit cs arguments k t in
      let put =
        print_loop plain cs arguments (if takes_argument c then k + 1 else k)
          (put_argument c (arguments k) t) in
      if c == b'a' then color else put
  print_loop high_digit (c ∷ cs) arguments k t =
      print_loop low_digit cs arguments k (set_high_digit c t)
  print_loop low_digit (c ∷ cs) arguments k t = print_loop plain cs arguments k (set_low_digit c t)

  unfoldable pub print_format : List ℕ → (ℕ → ℕ) → Terminal → Option Terminal
  print_format format arguments t = elim (print_loop plain format arguments 0 t) [
    | none ↦ none
    | some t' ↦ some (set_color t.color t')
  ]

  -- The length of the template in front of the text, 0 where it is none.
  unfoldable pub print_format_template : List ℕ → ℕ → Terminal → ℕ × Terminal
  print_format_template [] argument t = (0, t)
  print_format_template (c ∷ []) argument t = if c == b'%' then (1, put_char b'%' t) else (0, t)
  print_format_template (c ∷ d ∷ []) argument t =
      if c == b'%' then (if d == b'a' then (0, t) else (2, put_argument d argument t)) else (0, t)
  print_format_template (c ∷ d ∷ x ∷ []) argument t =
      if c == b'%'
      then (if d == b'a' then (0, set_high_digit x t) else (2, put_argument d argument t))
      else (0, t)
  print_format_template (c ∷ d ∷ x ∷ y ∷ rest) argument t =
      if c == b'%'
      then (if d == b'a'
          then (4, set_low_digit y (set_high_digit x t))
          else (2, put_argument d argument t))
      else (0, t)

  -- A line of PrintHexData, where `%x` alone is a directive for one byte: the bytes that are left.
  unfoldable pub print_hex_line : ℕ → List ℕ → Terminal → List ℕ × Terminal
  print_hex_line zero bytes t = (bytes, t)
  print_hex_line (suc n) [] t = ([], t)
  print_hex_line (suc n) (b ∷ bytes) t =
      let t' = (if ltb b 0x10 then put_char b'0' t else t) in
      print_hex_line n bytes (put_char symbol_tabulation (put_argument b'x' b t'))

  -- The loop over the lines; `none` where it does not end.
  unfoldable pub print_hex_lines : ℕ → List ℕ → ℕ → Terminal → Option Terminal
  print_hex_lines fuel [] values_per_line t = some t
  print_hex_lines zero (b ∷ bytes) values_per_line t = none
  print_hex_lines (suc fuel) (b ∷ bytes) values_per_line t =
      let (left, t') = print_hex_line values_per_line (b ∷ bytes) t in
      let new_line = put_string (symbol_carret ∷ symbol_new_line ∷ []) t' in
      print_hex_lines fuel left values_per_line (if length left == 0 then t' else new_line)

  unfoldable pub print_hex_data : List ℕ → ℕ → Terminal → Option Terminal
  print_hex_data bytes values_per_line t = print_hex_lines (length bytes) bytes values_per_line t

-- What a character does to the one that ReadChar has read, 0 where there is none.
unfoldable pub read_char_step : ℕ → ℕ → Terminal → ℕ × Terminal
read_char_step tmp character t =
    if tmp == symbol_backspace
    then (0, erase t)
    else if character == 0
    then (tmp, put_char tmp t)
    else (character, t)

unfoldable pub read_char_loop : List ℕ → ℕ → Terminal → Option (ℕ × Terminal × List ℕ)
read_char_loop [] character t = none
read_char_loop (tmp ∷ input) character t =
    let next = read_char_step tmp character t in
    let rest = read_char_loop input next.0 next.1 in
    if (tmp == symbol_new_line) && not (character == 0) then some (character, t, input) else rest

-- The character, the terminal and the characters that are left; `none` where the call goes on waiting.
unfoldable pub read_char : List ℕ → Terminal → Option (ℕ × Terminal × List ℕ)
read_char input t = elim (read_char_loop input 0 t) [
  | none ↦ none
  | some (character, t', rest) ↦
      some (character, put_string (symbol_carret ∷ symbol_new_line ∷ []) t', rest)
]
