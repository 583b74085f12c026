-- ===== src/Terminal/Cursor.antt =====
-- Where the cursor of the screen may stand.
use dark_core.Prelude.{ℕ, ◌%◌, ◌≤◌, ◌<◌, ◌≡◌, arith, true, ltb, List, [], ◌∷◌}
use dark_core.Terminal.{
  Terminal, buffer_size, width, height, get_column, get_line, set_column, set_line,
  next_screen_line, move_to, put_symbol, tab_stop, put_char, put_string,
}

-- The cursor stands on a cell or directly behind the last one.
pub record IsPlaced (t : Terminal) : Type 0 where
  pub even : t.position % 2 ≡ 0
  pub within : t.position ≤ buffer_size

put_symbol-IsPlaced : (c : ℕ) (t : Terminal) → IsPlaced t → IsPlaced (put_symbol c t)
unfolding put_symbol next_screen_line
put_symbol-IsPlaced c t h = record {
  even = ground (arith, h.even, h.within);
  within = ground (arith, h.even, h.within);
}

-- Every character leaves the cursor on a cell or directly behind the last one.
pub put_char-IsPlaced : (c : ℕ) (t : Terminal) → IsPlaced t → IsPlaced (put_char c t)
unfolding put_char move_to next_screen_line tab_stop put_symbol
put_char-IsPlaced c t h = record {
  even = ground (arith, h.even, h.within);
  within = ground (arith, h.even, h.within);
}

-- Every text leaves the cursor on a cell or directly behind the last one.
pub put_string-IsPlaced : (cs : List ℕ) (t : Terminal) → IsPlaced t → IsPlaced (put_string cs t)
unfolding put_string
put_string-IsPlaced [] t h = h
put_string-IsPlaced (c ∷ cs) t h = put_string-IsPlaced cs (put_char c t) (put_char-IsPlaced c t h)

-- SetLine and SetColumn, in this order, put the cursor on the cell that GetLine and GetColumn then
-- return, for every line and column of the screen and wherever the cursor was.
pub get_line-set_line :
    (line column : ℕ) (t : Terminal)
    → line < height
    → column < width
    → IsPlaced t
    → let t' = (set_column column (set_line line t).1).1 in
      (get_line t' ≡ line) × (get_column t' ≡ column) × IsPlaced t'
unfolding get_line get_column set_line set_column
get_line-set_line l c t hl hc h =
    let fits : ltb l height ≡ true = ground arith in
    let fits' : ltb c width ≡ true = ground arith in
    rw (fits, fits')
      (
        omega (arith, h.within),
        omega (arith, h.within),
        record { even = omega (arith, h.even, h.within); within = omega (arith, h.within) },
      )
