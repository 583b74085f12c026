-- ===== src/Tests/Arrays.antt =====
-- The dynamic array on a few numbers.
use dark_core.Prelude.{
  ℕ, ◌+◌, ◌<◌, ◌≡◌, ◌⊎◌, refl, arith, true, false, Option, none, some, ◌%◌, ◌≤◌,
}
use dark_core.DynamicArray.{DynamicArray, count_allocate, remove}
use dark_core.DynamicArray.Blocks.{elements, remove_at}
use dark_core.DynamicArray.Growing.{array, Becomes}
use dark_core.DynamicArray.Removing.{remove-Keeps, remove_overflows}

abbrev numbers : ℕ → ℕ
numbers i = i

abbrev fresh : Option (ℕ → ℕ)
fresh = some (λ i. 0)

abbrev full : DynamicArray ℕ
full = array numbers 10 10

remove-Keeps_example :
    (3 < 10
      → (((remove 3 fresh full).0 ≡ true)
          × Becomes (remove_at 3 (elements 10 numbers)) (remove 3 fresh full).1)
        ⊎ (((remove 3 fresh full).0 ≡ false) × (10 % (count_allocate + 1) ≡ 0) × (fresh ≡ none)))
    × (10 ≤ 3 → remove 3 fresh full ≡ (false, full))
remove-Keeps_example =
    remove-Keeps numbers 10 10 fresh 3 (omega arith) (omega arith) (λ e. absurd (omega arith))

abbrev twenty_two : DynamicArray ℕ
twenty_two = array numbers 22 30

remove_overflows_example :
    (remove 0 fresh twenty_two).1.allocated_elements_count
    < (remove 0 fresh twenty_two).1.elements_count
remove_overflows_example =
    remove_overflows numbers 22 30 fresh 0 2 (λ i. 0) (omega arith) (omega arith) refl refl
      (omega arith) refl
