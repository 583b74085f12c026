-- ===== src/Terminal/Redrawing.antt =====
-- Redraw clears the screen.
use dark_core.Prelude.{
  ℕ, zero, suc, ◌+◌, ◌-◌, ◌*◌, ◌/◌, ◌%◌, ◌≡◌, arith, ◌&&◌, ltb, leb, ◌==◌, if◌then◌else◌,
}
use dark_core.Common.Memory.{Memory}
use dark_core.Terminal.{Terminal, buffer_address, buffer_size, put_byte, redraw_loop, redraw}

-- Blanks and the color in turn, in the `n` cells from `first` on.
abbrev pub cleared : ℕ → ℕ → ℕ → Memory → Memory
cleared n first color m = λ p.
    if leb first p && ltb p (first + n * 2)
    then (if (p - first) % 2 == 0 then 32 else color)
    else m p

redraw_loop-cleared :
    (n i color : ℕ) (m : Memory) (p : ℕ)
    → redraw_loop n i color m p ≡ cleared n (buffer_address + i) color m p
unfolding redraw_loop
redraw_loop-cleared zero i c m p = ground arith
redraw_loop-cleared (suc n) i c m p =
    ground (arith, redraw_loop-cleared n (i + 2) c (put_byte (i + 1) c (put_byte i 32 m)) p)

-- Redraw puts a blank of the given color into every cell and changes no other memory.
pub redraw-cleared :
    (color : ℕ) (t : Terminal) (p : ℕ)
    → (redraw color t).memory p ≡ cleared (buffer_size / 2) buffer_address color t.memory p
unfolding redraw
redraw-cleared c t p = redraw_loop-cleared (buffer_size / 2) 0 c t.memory p
