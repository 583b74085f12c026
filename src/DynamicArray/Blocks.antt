-- ===== src/DynamicArray/Blocks.antt =====
-- The elements of a block as a list, and what the two loops make of them.
use dark_core.Prelude.{
  ℕ, zero, suc, ◌+◌, ◌-◌, ◌≤◌, ◌<◌, ◌≡◌, refl, ◌∙◌, ap, arith, true, false, ◌==◌, List, [], ◌∷◌,
  ◌++◌, Bool-cases, inl, inr,
}
use dark_core.DynamicArray.{write, shift_up, shift_down}

module _ {ℓ} {A : Type ℓ} where
  abbrev pub elements : ℕ → (ℕ → A) → List A
  elements zero f = []
  elements (suc n) f = f 0 ∷ elements n (λ i. f (suc i))

  -- The list with a value in front of position `i`.
  abbrev pub insert_at : ℕ → A → List A → List A
  insert_at zero v xs = v ∷ xs
  insert_at (suc i) v [] = v ∷ []
  insert_at (suc i) v (x ∷ xs) = x ∷ insert_at i v xs

  -- The list without position `i`.
  abbrev pub remove_at : ℕ → List A → List A
  remove_at i [] = []
  remove_at zero (x ∷ xs) = xs
  remove_at (suc i) (x ∷ xs) = x ∷ remove_at i xs

  pub elements_agree :
      (n : ℕ) (f g : ℕ → A) → ((i : ℕ) → i < n → f i ≡ g i) → elements n f ≡ elements n g
  elements_agree zero f g h = refl
  elements_agree (suc n) f g h = λ k.
      h 0 (omega arith) k
      ∷ elements_agree n (λ i. f (suc i)) (λ i. g (suc i)) (λ i lo. h (suc i) (omega arith)) k

  pub elements-append : (n : ℕ) (f : ℕ → A) → elements (suc n) f ≡ elements n f ++ (f n ∷ [])
  elements-append zero f = refl
  elements-append (suc n) f = ap (◌∷◌ (f 0)) (elements-append n (λ i. f (suc i)))

  pub elements-insert_at :
      (n k : ℕ) (v : A) (f g : ℕ → A)
      → k ≤ n
      → ((i : ℕ) → i < k → g i ≡ f i)
      → g k ≡ v
      → ((i : ℕ) → k ≤ i → i < n → g (suc i) ≡ f i)
      → elements (suc n) g ≡ insert_at k v (elements n f)
  elements-insert_at n zero v f g h before here behind =
      λ j. here j ∷ elements_agree n (λ i. g (suc i)) f (λ i lo. behind i (omega arith) lo) j
  elements-insert_at zero (suc k) v f g h before here behind = absurd (omega arith)
  elements-insert_at (suc n) (suc k) v f g h before here behind = λ j.
      before 0 (omega arith) j
      ∷ elements-insert_at n k v (λ i. f (suc i)) (λ i. g (suc i)) (omega arith)
          (λ i lo. before (suc i) (omega arith)) here
          (λ i hi lo. behind (suc i) (omega arith) (omega arith)) j

  pub elements-remove_at :
      (n k : ℕ) (f g : ℕ → A)
      → k ≤ n
      → ((i : ℕ) → i < k → g i ≡ f i)
      → ((i : ℕ) → k ≤ i → i < n → g i ≡ f (suc i))
      → elements n g ≡ remove_at k (elements (suc n) f)
  elements-remove_at n zero f g h before behind =
      elements_agree n g (λ i. f (suc i)) (λ i lo. behind i (omega arith) lo)
  elements-remove_at zero (suc k) f g h before behind = absurd (omega arith)
  elements-remove_at (suc n) (suc k) f g h before behind = λ j.
      before 0 (omega arith) j
      ∷ elements-remove_at n k (λ i. f (suc i)) (λ i. g (suc i)) (omega arith)
          (λ i lo. before (suc i) (omega arith))
          (λ i hi lo. behind (suc i) (omega arith) (omega arith)) j

  pub write_there : (i : ℕ) (v : A) (f : ℕ → A) (p : ℕ) → (p == i) ≡ true → write i v f p ≡ v
  write_there i v f p e = rw e refl

  pub write_here : (i : ℕ) (v : A) (f : ℕ → A) → write i v f i ≡ v
  write_here i v f = let e : (i == i) ≡ true = ground arith in rw e refl

  pub write_elsewhere : (i : ℕ) (v : A) (f : ℕ → A) (p : ℕ) → (p == i) ≡ false → write i v f p ≡ f p
  write_elsewhere i v f p e = rw e refl

  -- Insert's loop: what lies above its start or below its end stays, the rest moves up.
  pub shift_up_above : (n i : ℕ) (f : ℕ → A) (p : ℕ) → i < p → shift_up n i f p ≡ f p
  unfolding shift_up
  shift_up_above zero i f p h = refl
  shift_up_above (suc n) i f p h =
      shift_up_above n (i - 1) (write i (f (i - 1)) f) p (omega arith)
      ∙ write_elsewhere i (f (i - 1)) f p (ground arith)

  pub shift_up_below : (n i : ℕ) (f : ℕ → A) (p : ℕ) → p + n ≤ i → shift_up n i f p ≡ f p
  unfolding shift_up
  shift_up_below zero i f p h = refl
  shift_up_below (suc n) i f p h =
      shift_up_below n (i - 1) (write i (f (i - 1)) f) p (omega arith)
      ∙ write_elsewhere i (f (i - 1)) f p (ground arith)

  pub shift_up_moved :
      (n i : ℕ) (f : ℕ → A) (p : ℕ) → i ≤ p + n → p < i → shift_up n i f (suc p) ≡ f p
  unfolding shift_up
  shift_up_moved zero i f p lo hi = absurd (omega arith)
  shift_up_moved (suc n) i f p lo hi = elim (Bool-cases (suc p == i)) [
    | inl last ↦
        shift_up_above n (i - 1) (write i (f (i - 1)) f) (suc p) (ground arith)
        ∙ write_there i (f (i - 1)) f (suc p) last
        ∙ ap f (ground arith)
    | inr below ↦
        shift_up_moved n (i - 1) (write i (f (i - 1)) f) p (omega arith) (ground arith)
        ∙ write_elsewhere i (f (i - 1)) f p (ground arith)
  ]

  pub shift_down_below : (n i : ℕ) (f : ℕ → A) (p : ℕ) → p < i → shift_down n i f p ≡ f p
  unfolding shift_down
  shift_down_below zero i f p h = refl
  shift_down_below (suc n) i f p h =
      shift_down_below n (i + 1) (write i (f (i + 1)) f) p (omega arith)
      ∙ write_elsewhere i (f (i + 1)) f p (ground arith)

  pub shift_down_moved :
      (n i : ℕ) (f : ℕ → A) (p : ℕ) → i ≤ p → p < i + n → shift_down n i f p ≡ f (suc p)
  unfolding shift_down
  shift_down_moved zero i f p h lo = absurd (omega arith)
  shift_down_moved (suc n) i f p h lo = elim (Bool-cases (p == i)) [
    | inl first ↦
        let e : p ≡ i = ground arith in
        rw e (
          shift_down_below n (i + 1) (write i (f (i + 1)) f) i (omega arith)
          ∙ write_here i (f (i + 1)) f
          ∙ ap f (omega arith))
    | inr behind ↦
        shift_down_moved n (i + 1) (write i (f (i + 1)) f) p (ground arith) (omega arith)
        ∙ write_elsewhere i (f (i + 1)) f (suc p) (ground arith)
  ]
