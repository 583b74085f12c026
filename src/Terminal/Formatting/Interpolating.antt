-- ===== src/Terminal/Formatting/Interpolating.antt =====
-- What PrintFormat prints.
use dark_core.Prelude.{
  ℕ, ◌+◌, ◌%◌, ◌^◌, ◌≡◌, refl, sym, ap, ◌∙◌, arith, false, ◌==◌, List, [], ◌∷◌, ◌++◌, some, All,
}
use dark_core.Common.Text.{get_string, get_signed_string}
use dark_core.Terminal.{
  Terminal, put_char, put_string, put_symbol, move_to, next_screen_line, set_color,
}
use dark_core.Terminal.Formatting.{
  plain, converted, number_conversion_buffer, put_argument, print_loop, print_format,
}

-- A part of a format: a character that stands for itself, or a directive for text.
pub data Piece : Type 0 where
  literal : ℕ → Piece
  percent : Piece
  character : Piece
  string : Piece
  signed : Piece
  unsigned : Piece
  hexadecimal : Piece
  octal : Piece
  binary : Piece

abbrev pub encode : Piece → List ℕ
encode (literal c) = c ∷ []
encode percent = b'%' ∷ b'%' ∷ []
encode character = b'%' ∷ b'c' ∷ []
encode string = b'%' ∷ b's' ∷ []
encode signed = b'%' ∷ b'd' ∷ []
encode unsigned = b'%' ∷ b'u' ∷ []
encode hexadecimal = b'%' ∷ b'x' ∷ []
encode octal = b'%' ∷ b'o' ∷ []
encode binary = b'%' ∷ b'b' ∷ []

-- A literal is not the mark of a directive.
abbrev pub IsPiece : Piece → Type 0
IsPiece (literal c) = (c == b'%') ≡ false
IsPiece percent = Unit
IsPiece character = Unit
IsPiece string = Unit
IsPiece signed = Unit
IsPiece unsigned = Unit
IsPiece hexadecimal = Unit
IsPiece octal = Unit
IsPiece binary = Unit

-- The argument behind a piece.
abbrev pub after : Piece → ℕ → ℕ
after (literal c) k = k
after percent k = k
after _ k = k + 1

put_char-color : (c : ℕ) (t : Terminal) → (put_char c t).color ≡ t.color
unfolding put_char put_symbol move_to next_screen_line
put_char-color c t = ground arith

put_string-color : (s : List ℕ) (t : Terminal) → (put_string s t).color ≡ t.color
unfolding put_string
put_string-color [] t = refl
put_string-color (c ∷ s) t = put_string-color s (put_char c t) ∙ put_char-color c t

put_string-append :
    (r s : List ℕ) (t : Terminal) → put_string (r ++ s) t ≡ put_string s (put_string r t)
unfolding put_string
put_string-append [] s t = refl
put_string-append (c ∷ r) s t = put_string-append r s (put_char c t)

module _ (string_at : ℕ → List ℕ) where
  -- The text of a piece with an argument.
  abbrev pub shown : Piece → ℕ → List ℕ
  shown (literal c) argument = c ∷ []
  shown percent argument = b'%' ∷ []
  shown character argument = argument % 2 ^ 8 ∷ []
  shown string argument = string_at argument
  shown signed argument = converted (get_signed_string number_conversion_buffer argument 10)
  shown unsigned argument = converted (get_string number_conversion_buffer argument 10)
  shown hexadecimal argument = converted (get_string number_conversion_buffer argument 16)
  shown octal argument = converted (get_string number_conversion_buffer argument 8)
  shown binary argument = converted (get_string number_conversion_buffer argument 2)

  -- The format of pieces, and the text that they stand for from an argument on.
  abbrev pub format_of : List Piece → List ℕ
  format_of [] = []
  format_of (piece ∷ pieces) = encode piece ++ format_of pieces

  abbrev pub interpolated : List Piece → (ℕ → ℕ) → ℕ → List ℕ
  interpolated [] arguments k = []
  interpolated (piece ∷ pieces) arguments k =
      shown piece (arguments k) ++ interpolated pieces arguments (after piece k)

  print_loop-piece :
      (piece : Piece) (rest : List ℕ) (arguments : ℕ → ℕ) (k : ℕ) (t : Terminal)
      → IsPiece piece
      → print_loop string_at plain (encode piece ++ rest) arguments k t
        ≡ print_loop string_at plain rest arguments
            (after piece k)
            (put_string (shown piece (arguments k)) t)
  unfolding print_loop put_argument put_string
  print_loop-piece (literal c) rest arguments k t h = rw h refl
  print_loop-piece percent rest arguments k t h = refl
  print_loop-piece character rest arguments k t h = refl
  print_loop-piece string rest arguments k t h = refl
  print_loop-piece signed rest arguments k t h = refl
  print_loop-piece unsigned rest arguments k t h = refl
  print_loop-piece hexadecimal rest arguments k t h = refl
  print_loop-piece octal rest arguments k t h = refl
  print_loop-piece binary rest arguments k t h = refl

  print_loop-interpolated :
      (pieces : List Piece) (arguments : ℕ → ℕ) (k : ℕ) (t : Terminal)
      → All IsPiece pieces
      → print_loop string_at plain (format_of pieces) arguments k t
        ≡ some (put_string (interpolated pieces arguments k) t)
  unfolding print_loop put_string
  print_loop-interpolated [] arguments k t h = refl
  print_loop-interpolated (piece ∷ pieces) arguments k t h =
      print_loop-piece piece (format_of pieces) arguments k t h.0
      ∙ print_loop-interpolated pieces arguments (after piece k)
          (put_string (shown piece (arguments k)) t) h.1
      ∙ ap some (
          sym (
            put_string-append (shown piece (arguments k))
              (interpolated pieces arguments (after piece k)) t))

  -- For a format of characters and of directives for text and numbers, PrintFormat prints what PutString
  -- prints of the text with the arguments put in, each of which is taken once and in order.
  pub print_format-interpolated :
      (pieces : List Piece) (arguments : ℕ → ℕ) (t : Terminal)
      → All IsPiece pieces
      → print_format string_at (format_of pieces) arguments t
        ≡ some (put_string (interpolated pieces arguments 0) t)
  unfolding print_format set_color
  print_format-interpolated pieces arguments t h =
      let s = interpolated pieces arguments 0 in
      rw (print_loop-interpolated pieces arguments 0 t h, print_format)
        (ap (λ c. some (set_color c (put_string s t))) (sym (put_string-color s t)))
