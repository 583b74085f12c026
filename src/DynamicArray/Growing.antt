-- ===== src/DynamicArray/Growing.antt =====
-- Append and Insert against lists.
use dark_core.Prelude.{
  ℕ, suc, ◌+◌, ◌≤◌, ◌<◌, ◌≡◌, ◌⊎◌, refl, ◌∙◌, ap, arith, Bool, true, false, ltb, ◌==◌, List, [],
  ◌∷◌, ◌++◌, Option, none, some, Bool-cases, inl, inr, add_size, size_mod,
}
use dark_core.DynamicArray.{
  DynamicArray, count_allocate, write, copy_elements, make_room, block_of, append,
}
use dark_core.DynamicArray.Blocks.{
  elements, elements_agree, elements-append, write_here, write_elsewhere,
}

module _ {ℓ} {A : Type ℓ} where
  -- An array with a block: its elements, and how many are allocated.
  abbrev pub array : (ℕ → A) → ℕ → ℕ → DynamicArray A
  array f count allocated = record {
    data_block = some f;
    elements_count = count;
    allocated_elements_count = allocated;
  }

  -- An array with the expected elements, all of them in bounds.
  pub record Becomes (expected : List A) (a : DynamicArray A) : Type ℓ where
    pub new_block : ℕ → A
    pub block : a.data_block ≡ some new_block
    pub in_bounds : a.elements_count ≤ a.allocated_elements_count
    pub contents : elements a.elements_count new_block ≡ expected

  -- A call that succeeds with these elements, or fails for want of memory and changes nothing.
  abbrev pub GrowsTo : List A → Option (ℕ → A) → DynamicArray A → Bool × DynamicArray A → Type ℓ
  GrowsTo expected fresh a (done, a') =
      ((done ≡ true) × Becomes expected a') ⊎ ((done ≡ false) × (a' ≡ a) × (fresh ≡ none))

  -- The elements in a block with room for one more.
  record Roomy (f : ℕ → A) (count : ℕ) (a : DynamicArray A) : Type ℓ where
    new_block : ℕ → A
    allocated : ℕ
    is_array : a ≡ array new_block count allocated
    room : count < allocated
    small : allocated < size_mod
    same : (i : ℕ) → i < count → new_block i ≡ f i

  abbrev Prepared : (ℕ → A) → ℕ → Option (ℕ → A) → Option (DynamicArray A) → Type ℓ
  Prepared f count fresh none = fresh ≡ none
  Prepared f count fresh (some a) = Roomy f count a

  module _ (f : ℕ → A) (count allocated : ℕ) (fresh : Option (ℕ → A)) where
    abbrev before : DynamicArray A
    before = array f count allocated

    make_room-Prepared :
        count ≤ allocated
        → allocated + count_allocate < size_mod
        → Prepared f count fresh (make_room fresh f before)
    unfolding make_room
    make_room-Prepared h small = elim (Bool-cases (count == allocated)) [
      | inl full ↦ rw full (go fresh full)
      | inr room ↦ rw room (record {
        new_block = f;
        allocated = allocated;
        is_array = refl;
        room = ground arith;
        small = omega arith;
        same = λ i lo. refl;
      })
    ]
      where
        go :
            (fresh : Option (ℕ → A))
            → (count == allocated) ≡ true
            → Prepared f count fresh (elim fresh [
              | none ↦ none
              | some tmp ↦
                  some (array (copy_elements count f tmp) count (add_size allocated count_allocate))
            ])
        go none full = refl
        go (some tmp) full = record {
          new_block = copy_elements count f tmp;
          allocated = add_size allocated count_allocate;
          is_array = refl;
          room = ground arith;
          small = omega arith;
          same = λ i lo. let e : ltb i count ≡ true = ground arith in rw e refl;
        }

    -- Append puts the value behind the elements, with all of them in bounds, or fails for want of
    -- memory and changes nothing; the count of allocated elements must not be about to wrap.
    pub append-GrowsTo :
        (value : A)
        → count ≤ allocated
        → allocated + count_allocate < size_mod
        → GrowsTo (elements count f ++ (value ∷ [])) fresh before (append value fresh before)
    unfolding append
    append-GrowsTo v h small = go (make_room fresh f before) (make_room-Prepared h small)
      where
        go :
            (o : Option (DynamicArray A))
            → Prepared f count fresh o
            → GrowsTo (elements count f ++ (v ∷ [])) fresh before (elim o [
              | none ↦ (false, before)
              | some a' ↦ (
                true,
                record a' {
                  data_block = some (write count v (block_of f a'));
                  elements_count = add_size count 1;
                },
              )
            ])
        go none e = inr (refl, refl, e)
        go (some a') r = rw r.is_array (
            inl (
              refl,
              record {
                new_block = write count v r.new_block;
                block = refl;
                in_bounds = omega (arith, r.room, r.small);
                contents = next (add_size count 1) (omega (arith, r.room, r.small));
              },
            ))
          where
            next :
                (n : ℕ)
                → n ≡ suc count
                → elements n (write count v r.new_block) ≡ elements count f ++ (v ∷ [])
            next n e =
                ap (λ k. elements k (write count v r.new_block)) e
                ∙ elements-append count (write count v r.new_block)
                ∙ (λ i.
                    elements_agree count (write count v r.new_block) f
                      (λ p lo. write_elsewhere count v r.new_block p (ground arith) ∙ r.same p lo) i
                    ++ (write_here count v r.new_block i ∷ []))
