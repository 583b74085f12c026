-- ===== src/Common/Memory/Copying.antt =====
-- MemoryUtils::Copy at every count and for overlapping buffers.
use dark_core.Prelude.{
  ℕ, zero, suc, ◌+◌, ◌-◌, ◌*◌, ◌/◌, ◌≤◌, ◌≡◌, ◌⊎◌, inl, inr, refl, arith, ◌&&◌, ltb, leb,
  if◌then◌else◌, bit_and_seven, bit_and_three,
}
use dark_core.Common.Memory.{Memory, copy_element, copy_loop, copy}

-- The memory after `count` bytes have moved at once.
abbrev pub copied : ℕ → ℕ → ℕ → Memory → Memory
copied destination source count m = λ p.
    if leb destination p && ltb p (destination + count) then m (source + (p - destination)) else m p

-- Going up is safe where the destination is below the source, or beyond its end.
abbrev pub Forward : ℕ → ℕ → ℕ → Type 0
Forward destination source count = (destination ≤ source) ⊎ (source + count ≤ destination)

copy_loop-copied :
    (n width destination source count : ℕ) (m : Memory) (p : ℕ)
    → Forward destination source count
    → n * width ≡ count
    → copy_loop n width destination source m p ≡ copied destination source count m p
unfolding copy_loop
copy_loop-copied zero w d s c m p f e = ground arith
copy_loop-copied (suc n) w d s c m p f e =
    ground
      (arith, copy_loop-copied n w (d + w) (s + w) (n * w) (copy_element w d s m) p (later f) refl)
  where
    later : Forward d s c → Forward (d + w) (s + w) (n * w)
    later (inl h) = inl (omega arith)
    later (inr h) = inr (omega arith)

-- Copy leaves in the destination the bytes that the source held before the call, whichever element
-- size it chooses, and changes no other byte; the buffers may overlap if the destination starts
-- at or below the source.
pub copy-copied :
    (destination source count : ℕ) (m : Memory) (p : ℕ)
    → Forward destination source count
    → copy destination source count m p ≡ copied destination source count m p
unfolding copy
copy-copied d s c m p f = ground (
  arith,
  bit_and_seven c,
  bit_and_three c,
  copy_loop-copied (c / 4) 4 d s c m p f,
  copy_loop-copied (c / 2) 2 d s c m p f,
  copy_loop-copied c 1 d s c m p f,
)
