-- ===== src/Common/Text/Numerals.antt =====
-- GetString writes the numeral of a value: reading it back gives the value.
use dark_core.Prelude.{
  ℕ, zero, suc, ◌+◌, ◌-◌, ◌*◌, ◌/◌, ◌%◌, ◌^◌, ◌≡◌, ◌≢◌, ◌<◌, ◌≤◌, refl, ◌∙◌, ap, arith, ◌==◌,
  if◌then◌else◌, false, List, [], ◌∷◌, ◌++◌, length, All, ltb, set, drop, drop-set, All-append,
  length-append, length-set, some, size_mod, Bool-cases, inl, inr,
}
use native.Mathlib.Nat.{div-add-mod, pow-suc}
use mathlib.Core.List.{append_assoc}
use dark_core.Common.Text.{
  digit, count_digits, get_value_length, write_digits, get_string, get_length,
}
use dark_core.Common.Text.Content.{text, text-append, get_length-text}

-- The numeral of a value, most significant digit first.
pub numeral : ℕ → ℕ → ℕ → List ℕ
numeral zero value base = []
numeral (suc fuel) value base =
    let rest = numeral fuel (value / base) base in
    (if value / base == 0 then [] else rest) ++ digit (value % base) ∷ []

-- The value of a digit, and of a numeral.
pub digit_value : ℕ → ℕ
digit_value c = if ltb c b'A' then c - b'0' else c - b'A' + 10

pub read_numeral : ℕ → ℕ → List ℕ → ℕ
read_numeral base acc [] = acc
read_numeral base acc (c ∷ cs) = read_numeral base (acc * base + digit_value c) cs

digit_value-digit : (d : ℕ) → d < 16 → digit_value (digit d) ≡ d
unfolding digit_value digit
digit_value-digit d h = ground arith

digit-ne-zero : (d : ℕ) → digit d ≢ 0
unfolding digit
digit-ne-zero d = ground arith

read_numeral-append :
    (base acc : ℕ) (xs ys : List ℕ)
    → read_numeral base acc (xs ++ ys) ≡ read_numeral base (read_numeral base acc xs) ys
unfolding read_numeral
read_numeral-append base acc [] ys = refl
read_numeral-append base acc (x ∷ xs) ys =
    read_numeral-append base (acc * base + digit_value x) xs ys

-- Division by a base from 2 on loses a bit of the bound.
halved : (value base bound : ℕ) → 2 ≤ base → value < 2 * bound → value / base < bound
halved v b k h l = grind (arith, div-add-mod v b)

rest_bound : (f v b : ℕ) → 2 ≤ b → v < 2 ^ suc f → v / b < 2 ^ f
rest_bound f v b h l = halved v b (2 ^ f) h (omega (arith, pow-suc 2 f))

read_numeral-numeral :
    (fuel value base : ℕ)
    → 2 ≤ base
    → base ≤ 16
    → value < 2 ^ fuel
    → read_numeral base 0 (numeral fuel value base) ≡ value
unfolding numeral read_numeral
read_numeral-numeral zero v b lo hi h = omega arith
read_numeral-numeral (suc f) v b lo hi h = elim (Bool-cases (v / b == 0)) [
  | inl last ↦ rw last (ground (arith, digit_value-digit (v % b), div-add-mod v b))
  | inr more ↦ rw more (
      rw (read_numeral-append b 0 (numeral f (v / b) b) (digit (v % b) ∷ [])) (
        rw (read_numeral-numeral f (v / b) b lo hi (rest_bound f v b lo h))
          (ground (arith, digit_value-digit (v % b), div-add-mod v b))))
]

count_digits-length :
    (fuel value base digits : ℕ)
    → 2 ≤ base
    → value < 2 ^ fuel
    → 0 < fuel
    → count_digits fuel value base digits + 1 ≡ digits + length (numeral fuel value base)
unfolding count_digits numeral
count_digits-length zero v b d lo h pos = absurd (omega arith)
count_digits-length (suc zero) v b d lo h pos =
    ground (arith, rest_bound 0 v b lo h, length-append [] (digit (v % b) ∷ []))
count_digits-length (suc (suc f)) v b d lo h pos = elim (Bool-cases (v / b == 0)) [
  | inl last ↦ rw last (omega arith)
  | inr more ↦ rw more (
      omega (
        arith,
        length-append (numeral (suc f) (v / b) b) (digit (v % b) ∷ []),
        count_digits-length (suc f) (v / b) b (d + 1) lo (rest_bound (suc f) v b lo h),
      ))
]

write_digits_done : (f : ℕ) (buffer : List ℕ) (i b : ℕ) → write_digits f buffer i 0 b ≡ buffer
unfolding write_digits
write_digits_done zero buffer i b = refl
write_digits_done (suc f) buffer i b = refl

-- One digit more in front of what is already there.
place_digit :
    (buffer : List ℕ) (i d : ℕ) (front : List ℕ)
    → 0 < i
    → i < length buffer
    → front ++ drop (suc (i - 1)) (set buffer i d) ≡ (front ++ d ∷ []) ++ drop (suc i) buffer
place_digit buffer i d front pos l =
    let here : suc (i - 1) ≡ i = omega arith in rw (here, drop-set buffer i d l, append_assoc)

length-numeral_pos : (f v b : ℕ) → v ≢ 0 → v < 2 ^ f → 0 < length (numeral f v b)
unfolding numeral
length-numeral_pos zero v b ne h = absurd (omega arith)
length-numeral_pos (suc f) v b ne h =
    ground
      (arith, length-append (if v / b == 0 then [] else numeral f (v / b) b) (digit (v % b) ∷ []))

-- The loop leaves the numeral before what the buffer held from `index + 1` on.
write_digits-numeral :
    (fuel : ℕ) (buffer : List ℕ) (index value base : ℕ)
    → 2 ≤ base
    → value < 2 ^ fuel
    → value ≢ 0
    → length (numeral fuel value base) ≡ suc index
    → index < length buffer
    → write_digits fuel buffer index value base ≡ numeral fuel value base ++ drop (suc index) buffer
unfolding write_digits numeral
write_digits-numeral zero buffer i v b lo h ne e l = absurd (omega arith)
write_digits-numeral (suc f) buffer i v b lo h ne e l =
    let some_value : (v == 0) ≡ false = ground arith in
    let d = digit (v % b) in
    rw some_value (elim (Bool-cases (v / b == 0)) [
      | inl last ↦
          let first : i ≡ 0 = omega (arith, rw last at e) in
          let gone : v / b ≡ 0 = ground arith in
          rw (last, gone, first) (rw (write_digits_done f) (drop-set buffer 0 d (omega arith)))
      | inr more ↦
          let shape : length (numeral f (v / b) b) + 1 ≡ suc i =
            omega (arith, rw more at e, length-append (numeral f (v / b) b) (d ∷ [])) in
          let next : 0 < length (numeral f (v / b) b) =
            length-numeral_pos f (v / b) b (ground arith) (rest_bound f v b lo h) in
          rw more (
            write_digits-numeral f (set buffer i d) (i - 1) (v / b) b lo (rest_bound f v b lo h)
              (ground arith) (omega arith) (omega (arith, length-set buffer i d))
            ∙ place_digit buffer i d (numeral f (v / b) b) (omega arith) l)
    ])

-- No digit is the terminator.
numeral-All : (fuel value base : ℕ) → All (λ c. c ≢ 0) (numeral fuel value base)
unfolding numeral
numeral-All zero v b = tt
numeral-All (suc f) v b = elim (Bool-cases (v / b == 0)) [
  | inl last ↦ rw last (digit-ne-zero (v % b), tt)
  | inr more ↦
      rw more
        (All-append _ (numeral f (v / b) b) _ (numeral-All f (v / b) b) (digit-ne-zero (v % b), tt))
]

length-numeral_le : (fuel value base : ℕ) → length (numeral fuel value base) ≤ fuel
unfolding numeral
length-numeral_le zero v b = omega arith
length-numeral_le (suc f) v b = ground (
  arith,
  length-append (if v / b == 0 then [] else numeral f (v / b) b) (digit (v % b) ∷ []),
  length-numeral_le f (v / b) b,
)

count_digits-zero : (f b d : ℕ) → 2 ≤ b → count_digits (suc f) 0 b d ≡ d
unfolding count_digits
count_digits-zero f b d lo = let none_left : 0 / b ≡ 0 = omega arith in rw none_left

read_numeral-zero : (b : ℕ) → read_numeral b 0 (b'0' ∷ []) ≡ 0
unfolding read_numeral digit_value
read_numeral-zero b = omega arith

-- In a base from 2 to 16 and with room for 32 digits and the terminator, GetString succeeds; the
-- numeral that it writes reads back as the value, and is as long as GetValueLength says.
pub get_string-reads_back :
    (buffer : List ℕ) (value base : ℕ)
    → 2 ≤ base
    → base ≤ 16
    → value < size_mod
    → 33 ≤ length buffer
    → (after : List ℕ) × (get_string buffer value base ≡ some after)
      × (read_numeral base 0 (text after) ≡ value)
      × (get_length after ≡ get_value_length value base)
unfolding get_string get_value_length
get_string-reads_back [] v b lo hi small room = absurd (omega arith)
get_string-reads_back (x ∷ []) v b lo hi small room = absurd (omega arith)
get_string-reads_back (x ∷ y ∷ rest) zero b lo hi small room = (
  b'0' ∷ 0 ∷ rest,
  ground arith,
  read_numeral-zero b,
  ground (arith, get_length-text (b'0' ∷ 0 ∷ rest), count_digits-zero 31 b 1 lo),
)
get_string-reads_back (x ∷ y ∷ rest) (suc n) b lo hi small room = (
  ds ++ 0 ∷ drop (suc count) buffer,
  ground (arith, written),
  rw (text-append ds (drop (suc count) buffer) (numeral-All 32 v b))
      (read_numeral-numeral 32 v b lo hi small),
  ground (
    arith,
    get_length-text (ds ++ 0 ∷ drop (suc count) buffer),
    ap length (text-append ds (drop (suc count) buffer) (numeral-All 32 v b)),
    counted,
  ),
)
  where
    v : ℕ
    v = suc n

    buffer : List ℕ
    buffer = x ∷ y ∷ rest

    count : ℕ
    count = count_digits 32 v b 1

    ds : List ℕ
    ds = numeral 32 v b

    counted : count ≡ length ds
    counted = omega (arith, count_digits-length 32 v b 1 lo small (omega arith))

    fits : count < length buffer
    fits = omega (arith, counted, length-numeral_le 32 v b)

    pos : 0 < count
    pos = omega (arith, counted, length-numeral_pos 32 v b (omega arith) small)

    next : suc (count - 1) ≡ count
    next = omega (arith, pos)

    written :
        write_digits 32 (set buffer count 0) (count - 1) v b ≡ ds ++ 0 ∷ drop (suc count) buffer
    written =
        write_digits-numeral 32 (set buffer count 0) (count - 1) v b lo small (omega arith)
          (omega (arith, counted, pos)) (omega (arith, length-set buffer count 0, fits))
        ∙ ap (λ k. ds ++ drop k (set buffer count 0)) next
        ∙ ap (◌++◌ ds) (drop-set buffer count 0 fits)
