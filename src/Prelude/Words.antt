-- ===== src/Prelude/Words.antt =====
-- `size_t` and `uint32_t` of the i386 target: 32 bits, wrapping.
use Prim.Native.Nat.{ℕ, ◌+◌, ◌-◌, ◌*◌, ◌%◌, ◌^◌}

abbrev pub size_mod : ℕ
size_mod = 2 ^ 32

-- The largest `size_t`, which the source calls WRONG_INDEX.
abbrev pub wrong_index : ℕ
wrong_index = 2 ^ 32 - 1

abbrev pub add_size : ℕ → ℕ → ℕ
add_size a b = (a + b) % size_mod

abbrev pub sub_size : ℕ → ℕ → ℕ
sub_size a b = (a + size_mod - b) % size_mod

abbrev pub mul_size : ℕ → ℕ → ℕ
mul_size a b = a * b % size_mod
