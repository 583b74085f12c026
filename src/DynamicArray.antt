-- ===== src/DynamicArray.antt =====
-- The class template List of library/common/list.hxx. A block of memory is a function from indices to
-- elements, which says nothing about its size: what lies in bounds is told by the count of
-- allocated elements. Where the code calls `new`, an argument holds what it returns: the fresh block,
-- or `none` for a null pointer.
use dark_core.Prelude.{
  ℕ, zero, suc, ◌+◌, ◌-◌, ◌*◌, ◌%◌, Bool, true, false, ◌&&◌, ltb, leb, ◌==◌, if◌then◌else◌, Option,
  none, some, add_size, sub_size,
}
pub mod Blocks
pub mod Growing
pub mod Removing

abbrev pub count_allocate : ℕ
count_allocate = 10

-- `Data_`, `ElementsCount_` and `AllocatedElementsCount_`.
pub record DynamicArray {ℓ} (A : Type ℓ) : Type ℓ where
  pub data_block : Option (ℕ → A)
  pub elements_count : ℕ
  pub allocated_elements_count : ℕ

module _ {ℓ} {A : Type ℓ} where
  -- `Data_[index] = value`.
  abbrev pub write : ℕ → A → (ℕ → A) → ℕ → A
  write index value block = λ i. if i == index then value else block i

  -- MemoryUtils::Copy of `count` elements to a fresh block.
  abbrev pub copy_elements : ℕ → (ℕ → A) → (ℕ → A) → ℕ → A
  copy_elements count block fresh = λ i. if ltb i count then block i else fresh i

  -- The loop of Insert that moves the elements from the end down to the index, `n` of them.
  unfoldable pub shift_up : ℕ → ℕ → (ℕ → A) → ℕ → A
  shift_up zero i block = block
  shift_up (suc n) i block = shift_up n (i - 1) (write i (block (i - 1)) block)

  -- The loop of Remove that moves `n` elements to the front from the index on.
  unfoldable pub shift_down : ℕ → ℕ → (ℕ → A) → ℕ → A
  shift_down zero i block = block
  shift_down (suc n) i block = shift_down n (i + 1) (write i (block (i + 1)) block)

  -- The constructor without arguments.
  unfoldable pub empty_array : Option (ℕ → A) → DynamicArray A
  empty_array none = record { data_block = none; elements_count = 0; allocated_elements_count = 0 }
  empty_array (some fresh) = record {
    data_block = some fresh;
    elements_count = 0;
    allocated_elements_count = count_allocate;
  }

  -- The constructor from an array of values.
  unfoldable pub from_values : Option (ℕ → A) → (ℕ → A) → ℕ → DynamicArray A
  from_values none values count = record {
    data_block = none;
    elements_count = 0;
    allocated_elements_count = 0;
  }
  from_values (some fresh) values count = record {
    data_block = some (copy_elements count values fresh);
    elements_count = count;
    allocated_elements_count = add_size (count - count % count_allocate) count_allocate;
  }

  -- What Append and Insert do first where no element is left: the block that they go on with, or
  -- `none` where `new` failed.
  unfoldable pub make_room : Option (ℕ → A) → (ℕ → A) → DynamicArray A → Option (DynamicArray A)
  make_room fresh block a =
      if a.elements_count == a.allocated_elements_count
      then elim fresh [
        | none ↦ none
        | some tmp ↦ some (record a {
          data_block = some (copy_elements a.elements_count block tmp);
          allocated_elements_count = add_size a.allocated_elements_count count_allocate;
        })
      ]
      else some a

  -- `Data_`, which is not null any more.
  abbrev pub block_of : (ℕ → A) → DynamicArray A → ℕ → A
  block_of block a = elim a.data_block [ none ↦ block | some current ↦ current ]

  unfoldable pub append : A → Option (ℕ → A) → DynamicArray A → Bool × DynamicArray A
  append value fresh a = elim a.data_block [
    | none ↦ (false, a)
    | some block ↦ elim (make_room fresh block a) [
      | none ↦ (false, a)
      | some a' ↦ (
        true,
        record a' {
          data_block = some (write a.elements_count value (block_of block a'));
          elements_count = add_size a.elements_count 1;
        },
      )
    ]
  ]

  unfoldable pub insert : A → ℕ → Option (ℕ → A) → DynamicArray A → Bool × DynamicArray A
  insert value index fresh a = elim a.data_block [
    | none ↦ (false, a)
    | some block ↦
        if ltb a.elements_count index then (false, a) else elim (make_room fresh block a) [
          | none ↦ (false, a)
          | some a' ↦ (
            true,
            record a' {
              data_block = some (
                  write index value
                    (shift_up (a.elements_count - index) a.elements_count (block_of block a')));
              elements_count = add_size a.elements_count 1;
            },
          )
        ]
  ]

  -- The copy of Remove, with the room of the fresh block: the code copies all of the elements, and those
  -- for which the block has no room lie beyond it and are lost.
  abbrev pub copy_within : ℕ → ℕ → (ℕ → A) → (ℕ → A) → ℕ → A
  copy_within room count block fresh = λ i. if ltb i count && ltb i room then block i else fresh i

  -- The elements have moved before `new` may fail.
  unfoldable pub remove : ℕ → Option (ℕ → A) → DynamicArray A → Bool × DynamicArray A
  remove index fresh a = elim a.data_block [
    | none ↦ (false, a)
    | some block ↦
        if leb a.elements_count index
        then (false, a)
        else (let moved = shift_down (a.elements_count - 1 - index) index block in
            if a.elements_count % (count_allocate + 1) == 0
            then elim fresh [
              | none ↦ (false, record a { data_block = some moved })
              | some tmp ↦ (
                true,
                record {
                  data_block = some (
                      copy_within (sub_size a.allocated_elements_count count_allocate)
                        a.elements_count moved tmp);
                  elements_count = a.elements_count - 1;
                  allocated_elements_count = sub_size a.allocated_elements_count count_allocate;
                },
              )
            ]
            else (
              true,
              record a { data_block = some moved; elements_count = a.elements_count - 1 },
            ))
  ]
