-- ===== src/Tests/Screen.antt =====
-- The terminal on a few characters.
use dark_core.Prelude.{ℕ, ◌+◌, ◌*◌, ◌-◌, ◌<◌, ◌≡◌, refl, arith, List, [], ◌∷◌, some, inl}
use dark_core.Common.Memory.{Memory}
use dark_core.Terminal.{
  Terminal, buffer_address, buffer_size, line_size, height, put_char, put_string,
}
use dark_core.Terminal.Scrolling.{raised}
use dark_core.Terminal.Cursor.{IsPlaced}
use dark_core.Terminal.Printing.{Printed, put_string-Printed, put_char-beyond}
use dark_core.Terminal.Formatting.{print_format}
use dark_core.Terminal.Formatting.Interpolating.{
  literal, percent, unsigned, format_of, interpolated, print_format-interpolated,
}
use dark_core.Terminal.Reading.{read_string}
use dark_core.Terminal.Reading.Editing.{edited}
use dark_core.Terminal.Reading.Delivering.{Delivers, read_string-Delivers}

abbrev memory : Memory
memory = λ p. 32

abbrev at : ℕ → Terminal
at position = record { position = position; color = 7; memory = memory }

placed : (p : ℕ) → p * 2 < 0xfa1 → IsPlaced (at (p * 2))
placed p h = record { even = omega arith; within = omega arith }

put_string-Printed_example :
    Printed (72 ∷ 105 ∷ []) (at 0xf9c) (put_string (72 ∷ 105 ∷ []) (at 0xf9c))
put_string-Printed_example =
    put_string-Printed (72 ∷ 105 ∷ []) (at 0xf9c) (refl, (refl, tt)) (omega arith)

put_char-beyond_example :
    let t = at 0xfa0 in
    ((p : ℕ) → p < buffer_address + buffer_size → (put_char 72 t).memory p ≡ raised t.memory p)
    × ((put_char 72 t).memory (buffer_address + buffer_size) ≡ 72)
    × ((put_char 72 t).memory (buffer_address + buffer_size + 1) ≡ 7)
    × ((put_char 72 t).position ≡ (height - 1) * line_size)
put_char-beyond_example = put_char-beyond 72 (at 0xfa0) refl refl

-- The second character is taken back, the fourth finds the buffer full.
abbrev typed : List ℕ
typed = 97 ∷ 98 ∷ 8 ∷ 99 ∷ 100 ∷ 10 ∷ 101 ∷ []

edited_text : edited 2 typed [] ≡ some (97 ∷ 99 ∷ [], 101 ∷ [])
edited_text = refl

read_string-Delivers_example :
    Delivers 0x1000 2 (edited 2 typed []) (read_string 0x1000 2 typed (at (5 * 2)))
read_string-Delivers_example =
    read_string-Delivers 0x1000 2 typed (at (5 * 2)) (inl (omega arith)) (placed 5 (omega arith))

abbrev no_strings : ℕ → List ℕ
no_strings address = []

-- "n=%u%%" with 7.
print_format-interpolated_example :
    print_format no_strings
      (format_of no_strings (literal b'n' ∷ literal b'=' ∷ unsigned ∷ percent ∷ []))
      (λ k. 7)
      (at (5 * 2))
    ≡ some (
        put_string
          (interpolated no_strings
            (literal b'n' ∷ literal b'=' ∷ unsigned ∷ percent ∷ [])
            (λ k. 7)
            0)
          (at (5 * 2)))
print_format-interpolated_example =
    print_format-interpolated no_strings (literal b'n' ∷ literal b'=' ∷ unsigned ∷ percent ∷ [])
      (λ k. 7) (at (5 * 2)) (refl, (refl, (tt, (tt, tt))))
