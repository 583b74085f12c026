-- ===== src/DynamicArray/Removing.antt =====
-- Remove against lists, and when it outgrows its block.
use dark_core.Prelude.{
  ℕ, suc, ◌+◌, ◌-◌, ◌*◌, ◌/◌, ◌%◌, ◌≤◌, ◌<◌, ◌≡◌, ◌⊎◌, refl, ◌∙◌, ap, arith, Bool, true, false, ltb,
  leb, ◌==◌, Option, none, some, Bool-cases, inl, inr, ◌&&◌, sub_size, size_mod,
}
use dark_core.DynamicArray.{DynamicArray, count_allocate, copy_within, shift_down, remove}
use dark_core.DynamicArray.Blocks.{
  elements, remove_at, elements_agree, elements-remove_at, shift_down_below, shift_down_moved,
}
use dark_core.DynamicArray.Growing.{array, Becomes}

module _ {ℓ} {A : Type ℓ} where
  module _ (f : ℕ → A) (count allocated : ℕ) (fresh : Option (ℕ → A)) where
    abbrev before : DynamicArray A
    before = array f count allocated

    moved_contents :
        (index : ℕ)
        → index < count
        → elements (count - 1) (shift_down (count - 1 - index) index f)
          ≡ remove_at index (elements count f)
    moved_contents index h =
        elements-remove_at (count - 1) index f (shift_down (count - 1 - index) index f)
          (omega arith) (λ i lo. shift_down_below (count - 1 - index) index f i lo)
          (λ i hi lo. shift_down_moved (count - 1 - index) index f i hi (omega arith))
        ∙ (let e : suc (count - 1) ≡ count = omega arith in
            ap (λ n. remove_at index (elements n f)) e)

    -- Where all elements are in bounds of a block for less than 2 ^ 32, and a count that is a multiple
    -- of 11 leaves room for all of them in the block with ten places fewer, Remove takes out the
    -- element at the index with the others in bounds, except where it asks for the smaller block and
    -- gets none; an index that holds no element is refused.
    pub remove-Keeps :
        (index : ℕ)
        → count ≤ allocated
        → allocated < size_mod
        → (count % (count_allocate + 1) ≡ 0 → count + count_allocate ≤ allocated)
        → (index < count
            → (((remove index fresh before).0 ≡ true)
                × Becomes (remove_at index (elements count f)) (remove index fresh before).1)
              ⊎ (((remove index fresh before).0 ≡ false)
                  × (count % (count_allocate + 1) ≡ 0)
                  × (fresh ≡ none)))
          × (count ≤ index → remove index fresh before ≡ (false, before))
    unfolding remove
    remove-Keeps index inside_block small roomy = (
      (λ inside.
          let e : leb count index ≡ false = ground arith in
          rw e (elim (Bool-cases (count % (count_allocate + 1) == 0)) [
            | inl shrinks ↦ rw shrinks (go inside (roomy (ground arith)) (ground arith) fresh)
            | inr stays ↦ rw stays (
                inl (
                  refl,
                  record {
                    new_block = shift_down (count - 1 - index) index f;
                    block = refl;
                    in_bounds = omega arith;
                    contents = moved_contents index inside;
                  },
                ))
          ])),
      (λ beyond. let e : leb count index ≡ true = ground arith in rw e refl),
    )
      where
        result : Option (ℕ → A) → Bool × DynamicArray A
        result fresh = elim fresh [
          | none ↦ (false, array (shift_down (count - 1 - index) index f) count allocated)
          | some tmp ↦ (
            true,
            array
                (copy_within (sub_size allocated count_allocate) count
                  (shift_down (count - 1 - index) index f) tmp)
                (count - 1) (sub_size allocated count_allocate),
          )
        ]

        go :
            index < count
            → count + count_allocate ≤ allocated
            → count % (count_allocate + 1) ≡ 0
            → (fresh : Option (ℕ → A))
            → (((result fresh).0 ≡ true)
                × Becomes (remove_at index (elements count f)) (result fresh).1)
              ⊎ (((result fresh).0 ≡ false) × (count % (count_allocate + 1) ≡ 0) × (fresh ≡ none))
        go inside room shrinks none = inr (refl, shrinks, refl)
        go inside room shrinks (some tmp) = inl (
          refl,
          record {
            new_block =
                copy_within (sub_size allocated count_allocate) count
                  (shift_down (count - 1 - index) index f) tmp;
            block = refl;
            in_bounds = omega arith;
            contents =
                elements_agree (count - 1)
                  (copy_within (sub_size allocated count_allocate) count
                    (shift_down (count - 1 - index) index f) tmp)
                  (shift_down (count - 1 - index) index f)
                  (λ i lo.
                    let e : (ltb i count && ltb i (sub_size allocated count_allocate)) ≡ true =
                      ground arith in
                    rw e refl)
                ∙ moved_contents index inside;
          },
        )

    -- With 22, 33 and so on to 110 elements in the blocks that Append has given them, a removal that gets
    -- its smaller block keeps more elements than the block has room for.
    pub remove_overflows :
        (index k : ℕ) (tmp : ℕ → A)
        → 2 ≤ k
        → k ≤ 10
        → count ≡ 11 * k
        → allocated ≡ (count + 9) / 10 * 10
        → index < count
        → fresh ≡ some tmp
        → (remove index fresh before).1.allocated_elements_count
          < (remove index fresh before).1.elements_count
    unfolding remove
    remove_overflows index k tmp lo hi e e' inside got =
        let a : leb count index ≡ false = ground arith in
        let b : (count % (count_allocate + 1) == 0) ≡ true = ground arith in
        rw (a, b, got) (omega arith)
