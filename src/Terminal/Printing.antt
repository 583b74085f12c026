-- ===== src/Terminal/Printing.antt =====
-- What PutChar and PutString leave in the screen buffer and beyond it.
use dark_core.Prelude.{
  ℕ, zero, suc, ◌+◌, ◌-◌, ◌*◌, ◌≤◌, ◌<◌, ◌≡◌, ◌⊎◌, refl, ◌∙◌, ap, arith, Bool, true, false, ◌||◌,
  ltb, ◌==◌, List, [], ◌∷◌, length, get_or, All,
}
use dark_core.Common.Memory.{Memory}
use dark_core.Terminal.{
  Terminal, buffer_address, buffer_size, line_size, height, symbol_backspace, symbol_tabulation,
  symbol_new_line, symbol_carret, put_byte, next_screen_line, move_to, put_symbol, put_char,
  put_string,
}
use dark_core.Terminal.Scrolling.{raised, raise_last_line-raised}
use dark_core.Terminal.Cursor.{IsPlaced}

abbrev pub is_control : ℕ → Bool
is_control c =
    (c == symbol_tabulation)
    || (c == symbol_new_line)
    || (c == symbol_carret)
    || (c == symbol_backspace)

pub put_char-put_symbol :
    (c : ℕ) (t : Terminal) → is_control c ≡ false → put_char c t ≡ put_symbol c t
unfolding put_char
put_char-put_symbol c t h =
    let a : (c == symbol_tabulation) ≡ false = ground arith in
    let b : (c == symbol_new_line) ≡ false = ground arith in
    let d : (c == symbol_carret) ≡ false = ground arith in
    let e : (c == symbol_backspace) ≡ false = ground arith in rw (a, b, d, e) refl

-- A symbol on the screen: the cursor, its cell, and the memory around it.
pub record Shown (c : ℕ) (t t' : Terminal) : Type 0 where
  pub moved : t'.position ≡ t.position + 2
  pub same_color : t'.color ≡ t.color
  pub symbol : t'.memory (buffer_address + t.position) ≡ c
  pub attribute : t'.memory (buffer_address + t.position + 1) ≡ t.color
  pub others :
      (p : ℕ)
      → (p < buffer_address + t.position) ⊎ (buffer_address + t.position + 2 ≤ p)
      → t'.memory p ≡ t.memory p

pub put_symbol-Shown :
    (c : ℕ) (t : Terminal) → t.position < buffer_size → Shown c t (put_symbol c t)
unfolding put_symbol
put_symbol-Shown c t h =
    let fits : ltb t.position buffer_size ≡ true = ground arith in
    rw fits (record {
      moved = omega arith;
      same_color = refl;
      symbol = ground arith;
      attribute = ground arith;
      others = λ p out. ground (arith, out);
    })

-- A text on the screen from the cursor on.
pub record Printed (cs : List ℕ) (t t' : Terminal) : Type 0 where
  pub moved : t'.position ≡ t.position + 2 * length cs
  pub cells :
      (i : ℕ)
      → i < length cs
      → (t'.memory (buffer_address + t.position + 2 * i) ≡ get_or cs i 0)
        × (t'.memory (buffer_address + t.position + 2 * i + 1) ≡ t.color)
  pub others :
      (p : ℕ)
      → (p < buffer_address + t.position) ⊎ (buffer_address + t.position + 2 * length cs ≤ p)
      → t'.memory p ≡ t.memory p

Printed-cons :
    (c : ℕ) (cs : List ℕ) (t t' t'' : Terminal)
    → Shown c t t'
    → Printed cs t' t''
    → Printed (c ∷ cs) t t''
Printed-cons c cs t t' t'' one rest = record {
  moved = omega (arith, one.moved, rest.moved);
  cells = elim [ zero ↦ λ h. first | suc i ↦ λ h. later i (omega arith) ];
  others = λ p out. ground (arith, one.moved, one.others p, rest.others p, out);
}
  where
    first :
        (t''.memory (buffer_address + t.position + 2 * 0) ≡ c)
        × (t''.memory (buffer_address + t.position + 2 * 0 + 1) ≡ t.color)
    first = (
      ground (arith, one.symbol, one.moved, rest.others (buffer_address + t.position)),
      ground (arith, one.attribute, one.moved, rest.others (buffer_address + t.position + 1)),
    )

    later :
        (i : ℕ)
        → i < length cs
        → (t''.memory (buffer_address + t.position + 2 * suc i) ≡ get_or cs i 0)
          × (t''.memory (buffer_address + t.position + 2 * suc i + 1) ≡ t.color)
    later i h =
        let there : buffer_address + t.position + 2 * suc i ≡ buffer_address + t'.position + 2 * i =
          omega (arith, one.moved) in
        let (symbol, attribute) = rest.cells i h in
        (
          ap t''.memory there ∙ symbol,
          ap (λ p. t''.memory (p + 1)) there ∙ attribute ∙ one.same_color,
        )

-- A text without control characters that fits between the cursor and the end of the screen stands
-- there afterwards, in the current color, with the cursor behind it, and no other memory changes.
pub put_string-Printed :
    (cs : List ℕ) (t : Terminal)
    → All (λ c. is_control c ≡ false) cs
    → t.position + 2 * length cs ≤ buffer_size
    → Printed cs t (put_string cs t)
unfolding put_string
put_string-Printed [] t h fits = record {
  moved = omega arith;
  cells = λ i lo. absurd (omega arith);
  others = λ p out. refl;
}
put_string-Printed (c ∷ cs) t h fits = rw (put_char-put_symbol c t h.0) (
    Printed-cons c cs t (put_symbol c t) (put_string cs (put_symbol c t)) one
      (put_string-Printed cs (put_symbol c t) h.1 (omega (arith, one.moved))))
  where
    one : Shown c t (put_symbol c t)
    one = put_symbol-Shown c t (omega arith)

-- Behind the last cell a character without control meaning is written to the two bytes beyond the screen,
-- which then scrolls without it, and the cursor goes to the start of the last line.
pub put_char-beyond :
    (c : ℕ) (t : Terminal)
    → is_control c ≡ false
    → t.position ≡ buffer_size
    → ((p : ℕ) → p < buffer_address + buffer_size → (put_char c t).memory p ≡ raised t.memory p)
      × ((put_char c t).memory (buffer_address + buffer_size) ≡ c)
      × ((put_char c t).memory (buffer_address + buffer_size + 1) ≡ t.color)
      × ((put_char c t).position ≡ (height - 1) * line_size)
unfolding put_symbol next_screen_line
put_char-beyond c t h e =
    let full : ltb t.position buffer_size ≡ false = ground arith in
    rw (put_char-put_symbol c t h, full)
      (
        (λ p lo. ground (arith, raise_last_line-raised written p)),
        ground (arith, raise_last_line-raised written (buffer_address + buffer_size)),
        ground (arith, raise_last_line-raised written (buffer_address + buffer_size + 1)),
        refl,
      )
  where
    written : Memory
    written = put_byte (t.position + 1) t.color (put_byte t.position c t.memory)

-- No character changes memory outside the screen but for the two bytes behind it.
pub put_char-within :
    (c : ℕ) (t : Terminal) (p : ℕ)
    → IsPlaced t
    → (p < buffer_address) ⊎ (buffer_address + buffer_size + 2 ≤ p)
    → (put_char c t).memory p ≡ t.memory p
unfolding put_char move_to put_symbol next_screen_line
put_char-within c t p h out =
    ground
      (arith, out, h.within, raise_last_line-raised t.memory p, raise_last_line-raised written p)
  where
    written : Memory
    written = put_byte (t.position + 1) t.color (put_byte t.position c t.memory)
