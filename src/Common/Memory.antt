-- ===== src/Common/Memory.antt =====
-- MemoryUtils of library/common/memory-utils.cxx. Memory is a function from addresses to bytes, and
-- a pointer that a function only reads through is the view of the memory from its address.
use dark_core.Prelude.{
  ℕ, zero, suc, ◌+◌, ◌-◌, ◌*◌, ◌/◌, ◌%◌, ◌^◌, Bool, true, false, not, ◌&&◌, ◌||◌, bit_and, bit_or,
  ltb, leb, ◌==◌, if◌then◌else◌,
}
pub mod Copying
pub mod Filling
pub mod Comparing

abbrev pub Memory : Type 0
Memory = ℕ → ℕ

-- `destination[i] = source[i]` for elements of `width` bytes: the element is read whole, then
-- written.
abbrev pub copy_element : ℕ → ℕ → ℕ → Memory → Memory
copy_element width destination source m = λ p.
    if leb destination p && ltb p (destination + width) then m (source + (p - destination)) else m p

pub copy_loop : ℕ → ℕ → ℕ → ℕ → Memory → Memory
copy_loop zero width destination source m = m
copy_loop (suc n) width destination source m =
    copy_loop n width (destination + width) (source + width)
      (copy_element width destination source m)

-- The tests by which all three functions choose elements of four, two or one bytes.
abbrev pub in_longs : ℕ → Bool
in_longs count = (bit_and count 7 == 4) || (bit_and count 7 == 0)

abbrev pub in_words : ℕ → Bool
in_words count = (bit_and count 3 == 2) || (bit_and count 3 == 0)

pub copy : ℕ → ℕ → ℕ → Memory → Memory
copy destination source count m =
    if in_longs count
    then copy_loop (count / 2 ^ 2) 4 destination source m
    else if in_words count
    then copy_loop (count / 2 ^ 1) 2 destination source m
    else copy_loop count 1 destination source m

-- A little-endian store of an element of `width` bytes.
pub store_element : ℕ → ℕ → ℕ → Memory → Memory
store_element width destination value m = λ p.
    if leb destination p && ltb p (destination + width)
    then value / 256 ^ (p - destination) % 256
    else m p

pub fill_loop : ℕ → ℕ → ℕ → ℕ → Memory → Memory
fill_loop zero width destination value m = m
fill_loop (suc n) width destination value m =
    fill_loop n width (destination + width) value (store_element width destination value m)

pub value_long : ℕ → ℕ
value_long value =
    bit_or (bit_or (bit_or (value * 2 ^ 24) (value * 2 ^ 16)) (value * 2 ^ 8)) value % 2 ^ 32

pub value_word : ℕ → ℕ
value_word value = bit_or (value * 2 ^ 8 % 2 ^ 16) value

pub fill : ℕ → ℕ → ℕ → Memory → Memory
fill destination value count m =
    if in_longs count
    then fill_loop (count / 2 ^ 2) 4 destination (value_long value) m
    else if in_words count
    then fill_loop (count / 2 ^ 1) 2 destination (value_word value) m
    else fill_loop count 1 destination value m

-- A little-endian load of an element of `width` bytes.
abbrev pub load_element : ℕ → ℕ → Memory → ℕ
load_element zero p m = 0
load_element (suc width) p m = m p + 256 * load_element width (p + 1) m

-- The loop returns at the first pair of elements that differ.
unfoldable pub compare_loop : ℕ → ℕ → ℕ → Memory → Memory → Bool
compare_loop zero width p first second = true
compare_loop (suc n) width p first second =
    let rest = compare_loop n width (p + width) first second in
    if load_element width p first == load_element width p second then rest else false

-- The loop over single bytes reads `first` through both of its pointers.
unfoldable pub compare : Memory → Memory → ℕ → Bool
compare first second count =
    if in_longs count
    then compare_loop (count / 2 ^ 2) 4 0 first second
    else if in_words count
    then compare_loop (count / 2 ^ 1) 2 0 first second
    else compare_loop count 1 0 first first
