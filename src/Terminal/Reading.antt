-- ===== src/Terminal/Reading.antt =====
-- ReadString of library/terminal/terminal.cxx. The characters that the keyboard will deliver are
-- a list; the result is `none` where the call still waits when they are used up.
use dark_core.Prelude.{
  ℕ, zero, suc, ◌+◌, ◌-◌, ◌%◌, ◌^◌, Bool, true, false, not, ◌&&◌, ltb, ◌==◌, if◌then◌else◌, List,
  [], ◌∷◌, Option, none, some, wrong_index,
}
use dark_core.Common.Memory.{Memory}
use dark_core.Terminal.{
  Terminal, symbol_backspace, symbol_new_line, symbol_carret, put_char, put_string,
}
pub mod Editing
pub mod Delivering

abbrev pub store : ℕ → ℕ → Terminal → Terminal
store address value t = record t { memory = λ p. if p == address then value else t.memory p }

-- `Position_ -= 2`, in 16 bits.
abbrev pub step_back : Terminal → Terminal
step_back t = record t { position = (t.position + 2 ^ 16 - 2) % 2 ^ 16 }

unfoldable pub erase : Terminal → Terminal
erase t = if t.position == 0 then t else step_back (put_char 32 (step_back t))

-- What one character that is not the new line does to the length and the terminal.
unfoldable pub read_step : ℕ → ℕ → ℕ → ℕ → Terminal → ℕ × Terminal
read_step buffer max_length c len t =
    if (c == symbol_backspace) && not (len == 0)
    then (len - 1, erase (store (buffer + len) 32 t))
    else if not (c == symbol_backspace) && ltb len max_length
    then (len + 1, put_char c (store (buffer + len) c t))
    else (len, t)

-- The loop; a new line stores the terminator.
unfoldable pub read_loop : ℕ → ℕ → List ℕ → ℕ → Terminal → Option (Terminal × List ℕ)
read_loop buffer max_length [] len t = none
read_loop buffer max_length (c ∷ cs) len t =
    let next = read_step buffer max_length c len t in
    let rest = read_loop buffer max_length cs next.0 next.1 in
    if c == symbol_new_line then some (store (buffer + len) 0 t, cs) else rest

-- The longest text that a call asks for.
abbrev pub limit : ℕ → ℕ
limit max_length = if max_length == 0 then wrong_index else max_length

-- The terminal and the characters that are left.
unfoldable pub read_string : ℕ → ℕ → List ℕ → Terminal → Option (Terminal × List ℕ)
read_string buffer max_length input t = elim (read_loop buffer (limit max_length) input 0 t) [
  | none ↦ none
  | some (t', rest) ↦ some (put_string (symbol_carret ∷ symbol_new_line ∷ []) t', rest)
]
