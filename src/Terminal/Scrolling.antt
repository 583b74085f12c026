-- ===== src/Terminal/Scrolling.antt =====
-- RaiseLastLine and LowerLastLine move the screen by a line.
use dark_core.Prelude.{
  ℕ, zero, suc, ◌+◌, ◌-◌, ◌*◌, ◌≤◌, ◌≡◌, ◌⊎◌, arith, false, ◌&&◌, ltb, leb, ◌==◌, if◌then◌else◌,
  inl, inr, sub_size, ◌∙◌,
}
use dark_core.Common.Memory.{Memory, copy}
use dark_core.Common.Memory.Copying.{copied, copy-copied}
use dark_core.Common.Memory.Filling.{fill-filled}
use dark_core.Terminal.{
  buffer_address, buffer_size, line_size, height, raise_last_line, lower_loop, lower_last_line,
}

-- The screen moved up by a line, the last line empty.
abbrev pub raised : Memory → Memory
raised m = λ p.
    if leb buffer_address p && ltb p (buffer_address + (buffer_size - line_size))
    then m (p + line_size)
    else if leb buffer_address p && ltb p (buffer_address + buffer_size)
    then 0
    else m p

-- RaiseLastLine moves every line of the screen up, empties the last one and changes no other memory.
pub raise_last_line-raised : (m : Memory) (p : ℕ) → raise_last_line m p ≡ raised m p
unfolding raise_last_line
raise_last_line-raised m p = ground (
  arith,
  fill-filled (buffer_address + buffer_size - line_size) 0 line_size
      (copy buffer_address (buffer_address + line_size) (buffer_size - line_size) m) p
      (omega arith),
  copy-copied buffer_address (buffer_address + line_size) (buffer_size - line_size) m p
      (inl (omega arith)),
)

-- `n` lines moved down by a line; the first stays where it was as well.
abbrev pushed : ℕ → Memory → Memory
pushed n m = λ p.
    if leb (buffer_address + line_size) p && ltb p (buffer_address + line_size + n * line_size)
    then m (p - line_size)
    else m p

lower_loop-pushed :
    (n rounds source : ℕ) (m : Memory) (p : ℕ)
    → n ≤ rounds
    → (n ≡ 0) ⊎ (source + line_size ≡ n * line_size)
    → n ≤ height
    → lower_loop rounds (n * line_size) source m p ≡ pushed n m p
unfolding lower_loop
lower_loop-pushed zero zero s m p enough e small = ground arith
lower_loop-pushed zero (suc rounds) s m p enough e small = ground arith
lower_loop-pushed (suc n) zero s m p enough e small = absurd (omega arith)
lower_loop-pushed (suc n) (suc rounds) s m p enough (inl e) small = absurd (omega arith)
lower_loop-pushed (suc n) (suc rounds) s m p enough (inr e) small =
    rw (going_on, up)
      (lower_loop-pushed n rounds (sub_size s line_size) moved p (omega arith) next (omega arith)
        ∙ here)
  where
    going_on : (suc n * line_size == 0) ≡ false
    going_on = ground arith

    up : suc n * line_size - line_size ≡ n * line_size
    up = omega arith

    moved : Memory
    moved = copy (buffer_address + suc n * line_size) (buffer_address + s) line_size m

    next : (n ≡ 0) ⊎ (sub_size s line_size + line_size ≡ n * line_size)
    next = ground arith

    copied_at :
        (q : ℕ)
        → moved q ≡ copied (buffer_address + suc n * line_size) (buffer_address + s) line_size m q
    copied_at q =
        copy-copied (buffer_address + suc n * line_size) (buffer_address + s) line_size m q
          (inr (omega arith))

    here : pushed n moved p ≡ pushed (suc n) m p
    here = ground (arith, copied_at p, copied_at (p - line_size))

-- The screen moved down by a line, the first line empty.
abbrev pub lowered : Memory → Memory
lowered m = λ p.
    if leb (buffer_address + line_size) p && ltb p (buffer_address + buffer_size)
    then m (p - line_size)
    else if leb buffer_address p && ltb p (buffer_address + line_size)
    then 0
    else m p

-- LowerLastLine moves every line of the screen down, empties the first one and changes no other
-- memory; its loop ends with the first line.
pub lower_last_line-lowered : (m : Memory) (p : ℕ) → lower_last_line m p ≡ lowered m p
unfolding lower_last_line
lower_last_line-lowered m p = ground (
  arith,
  fill-filled buffer_address 0 line_size
      (lower_loop height (buffer_size - line_size) (buffer_size - line_size * 2) m) p (omega arith),
  lower_loop-pushed 24 height (buffer_size - line_size * 2) m p (omega arith) (inr (omega arith))
      (omega arith),
)
