-- ===== src/Terminal.antt =====
-- The text screen of library/terminal/terminal.cxx: the cursor, the characters that move it, and the
-- screen buffer in memory.
use dark_core.Prelude.{
  ℕ, zero, suc, ◌+◌, ◌-◌, ◌*◌, ◌/◌, ◌%◌, ◌^◌, Bool, true, false, ltb, leb, ◌==◌, if◌then◌else◌,
  List, [], ◌∷◌, sub_size,
}
use dark_core.Common.Memory.{Memory, copy, fill}
pub mod Scrolling
pub mod Cursor
pub mod Printing
pub mod Redrawing
pub mod Reading
pub mod Formatting

abbrev pub buffer_address : ℕ
buffer_address = 0xb_8000

abbrev pub buffer_size : ℕ
buffer_size = 0xfa0

abbrev pub line_size : ℕ
line_size = 0xa0

abbrev pub width : ℕ
width = 0x50

abbrev pub height : ℕ
height = 0x19

abbrev pub tabulation_length : ℕ
tabulation_length = 4

abbrev pub symbol_backspace : ℕ
symbol_backspace = 8

abbrev pub symbol_tabulation : ℕ
symbol_tabulation = 9

abbrev pub symbol_new_line : ℕ
symbol_new_line = 10

abbrev pub symbol_carret : ℕ
symbol_carret = 13

-- `Position_` and `Color_`, with the memory that holds the screen buffer.
pub record Terminal : Type 0 where
  pub position : ℕ
  pub color : ℕ
  pub memory : Memory

-- `Buffer_[offset] = value`.
abbrev pub put_byte : ℕ → ℕ → Memory → Memory
put_byte offset value m = λ p. if p == buffer_address + offset then value else m p

-- The rounds that are left of the loop, each of which writes a cell at `i`.
unfoldable pub redraw_loop : ℕ → ℕ → ℕ → Memory → Memory
redraw_loop zero i color m = m
redraw_loop (suc n) i color m =
    redraw_loop n (i + 2) color (put_byte (i + 1) color (put_byte i 32 m))

unfoldable pub redraw : ℕ → Terminal → Terminal
redraw color t = record t { memory = redraw_loop (buffer_size / 2) 0 color t.memory }

unfoldable pub raise_last_line : Memory → Memory
raise_last_line m =
    fill (buffer_address + buffer_size - line_size) 0 line_size
      (copy buffer_address (buffer_address + line_size) (buffer_size - line_size) m)

-- Rounds enough for every line; the source's offset wraps in the last of them.
unfoldable pub lower_loop : ℕ → ℕ → ℕ → Memory → Memory
lower_loop zero destination_offset source_offset m = m
lower_loop (suc n) destination_offset source_offset m =
    let rest =
      lower_loop n (destination_offset - line_size) (sub_size source_offset line_size)
        (copy (buffer_address + destination_offset) (buffer_address + source_offset) line_size m) in
    if destination_offset == 0 then m else rest

unfoldable pub lower_last_line : Memory → Memory
lower_last_line m =
    fill buffer_address 0 line_size
      (lower_loop height (buffer_size - line_size) (buffer_size - line_size * 2) m)

unfoldable pub get_column : Terminal → ℕ
get_column t = t.position % line_size / 2 % 2 ^ 8

unfoldable pub get_line : Terminal → ℕ
get_line t = t.position / line_size % 2 ^ 8

unfoldable pub set_column : ℕ → Terminal → Bool × Terminal
set_column index t =
    if ltb index width
    then (true, record t { position = (t.position - t.position % line_size + index * 2) % 2 ^ 16 })
    else (false, t)

unfoldable pub set_line : ℕ → Terminal → Bool × Terminal
set_line index t =
    if ltb index height
    then (true, record t { position = (t.position % line_size + index * line_size) % 2 ^ 16 })
    else (false, t)

unfoldable pub set_color : ℕ → Terminal → Terminal
set_color color t = record t { color = color }

-- The screen moves up by a line, and the cursor goes to the last one.
unfoldable pub next_screen_line : Terminal → Terminal
next_screen_line t = record t {
  memory = raise_last_line t.memory;
  position = (height - 1) * line_size;
}

-- The test behind a tabulation and a new line, at the position that they move to.
unfoldable pub move_to : ℕ → Terminal → Terminal
move_to position t =
    if leb buffer_size position then next_screen_line t else record t { position = position }

unfoldable pub put_symbol : ℕ → Terminal → Terminal
put_symbol character t =
    let t' = record t {
      memory = put_byte (t.position + 1) t.color (put_byte t.position character t.memory);
    } in
    if ltb t.position buffer_size
    then record t' { position = (t.position + 2) % 2 ^ 16 }
    else next_screen_line t'

unfoldable pub tab_stop : ℕ → ℕ
tab_stop position =
    position + (tabulation_length - position % line_size / 2 % tabulation_length) * 2

unfoldable pub put_char : ℕ → Terminal → Terminal
put_char character t =
    if character == symbol_tabulation
    then move_to (tab_stop t.position % 2 ^ 16) t
    else if character == symbol_new_line
    then move_to ((t.position + line_size) % 2 ^ 16) t
    else if character == symbol_carret
    then record t { position = t.position - t.position % line_size }
    else if character == symbol_backspace
    then (if t.position == 0 then t else record t { position = t.position - 2 })
    else put_symbol character t

-- The characters in front of the terminator.
unfoldable pub put_string : List ℕ → Terminal → Terminal
put_string [] t = t
put_string (c ∷ cs) t = put_string cs (put_char c t)
