-- ===== src/Pmm/Zone/Buffers.antt =====
-- How many frames of a table have their buffer at an address.
use dark_core.Prelude.{
  ℕ, zero, suc, ◌+◌, ◌≤◌, ◌<◌, ◌≡◌, refl, arith, List, [], ◌∷◌, length, true, if◌then◌else◌, ◌==◌,
  get_or,
}
use dark_core.Pmm.Zone.{Frame, no_frame}
use dark_core.Pmm.Zone.Runs.{at_address}

unfoldable pub occurrences : ℕ → List Frame → ℕ
occurrences address [] = 0
occurrences address (f ∷ fs) =
    (if f.buffer_address == address then 1 else 0) + occurrences address fs

pub occurs_once :
    (address : ℕ) (fs : List Frame) (j : ℕ)
    → j < length fs
    → at_address address fs j ≡ true
    → 1 ≤ occurrences address fs
unfolding occurrences
occurs_once a [] j h e = absurd (omega arith)
occurs_once a (f ∷ fs) zero h e = ground arith
occurs_once a (f ∷ fs) (suc j) h e = ground (arith, occurs_once a fs j)

pub occurs_twice :
    (address : ℕ) (fs : List Frame) (i j : ℕ)
    → i < j
    → j < length fs
    → at_address address fs i ≡ true
    → at_address address fs j ≡ true
    → 2 ≤ occurrences address fs
unfolding occurrences
occurs_twice a [] i j l h e e' = absurd (omega arith)
occurs_twice a (f ∷ fs) i zero l h e e' = absurd (omega arith)
occurs_twice a (f ∷ fs) zero (suc j) l h e e' = ground (arith, occurs_once a fs j)
occurs_twice a (f ∷ fs) (suc i) (suc j) l h e e' = ground (arith, occurs_twice a fs i j)

-- Tables of the same length with the same buffers have as many.
pub occurrences_same :
    (address : ℕ) (fs gs : List Frame)
    → length fs ≡ length gs
    → ((k : ℕ) → (get_or fs k no_frame).buffer_address ≡ (get_or gs k no_frame).buffer_address)
    → occurrences address fs ≡ occurrences address gs
unfolding occurrences
occurrences_same a [] [] e same = refl
occurrences_same a [] (g ∷ gs) e same = absurd (omega arith)
occurrences_same a (f ∷ fs) [] e same = absurd (omega arith)
occurrences_same a (f ∷ fs) (g ∷ gs) e same =
    ground (arith, same 0, occurrences_same a fs gs (omega arith) (λ k. same (suc k)))
