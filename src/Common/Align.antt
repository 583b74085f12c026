-- ===== src/Common/Align.antt =====
-- AlignUp and AlignDown of library/common/typedefs.cxx.
use dark_core.Prelude.{ℕ, ◌-◌, ◌%◌, add_size, sub_size, ltb, if◌then◌else◌}
pub mod Multiples

unfoldable pub align_up : ℕ → ℕ → ℕ
align_up value alignment = add_size (sub_size value (value % alignment)) alignment

-- `value` as the second line of the function leaves it.
unfoldable pub align_down : ℕ → ℕ → ℕ
align_down value alignment =
    let whole = sub_size value (value % alignment) in
    if ltb whole alignment then 0 else sub_size whole alignment
