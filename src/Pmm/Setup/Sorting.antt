-- ===== src/Pmm/Setup/Sorting.antt =====
-- SortRegionDescriptors sorts.
use mathlib.Core.List.{Perm, append-nil}
use mathlib.Core.List.Perm
use dark_core.Prelude.{
  ℕ, zero, suc, ◌≤◌, ◌≡◌, refl, arith, List, [], ◌∷◌, ◌++◌, length, All, All-zip, ap, subst, ltb,
  ◌==◌, Bool-cases, inl, inr,
}
use dark_core.Pmm.Region.{Region}
use dark_core.Pmm.Setup.{bubble, sort_rounds, sort_region_descriptors}

-- Each address is at most those behind it.
abbrev pub IsSorted : List Region → Type 0
IsSorted [] = Unit
IsSorted (r ∷ rs) = All (λ s. r.address ≤ s.address) rs × IsSorted rs

pub bubble-perm : (m : ℕ) (rs : List Region) → Perm (bubble m rs) rs
unfolding bubble
bubble-perm zero rs = Perm.refl rs
bubble-perm (suc m) [] = Perm.refl []
bubble-perm (suc m) (a ∷ []) = Perm.refl (a ∷ [])
bubble-perm (suc m) (a ∷ b ∷ rs) = elim (Bool-cases (ltb b.address a.address)) [
  | inl swap ↦ rw swap (Perm.trans (Perm.cons b (bubble-perm m (a ∷ rs))) (Perm.swap a b rs))
  | inr keep ↦ rw keep (Perm.cons a (bubble-perm m (b ∷ rs)))
]

sort_rounds-perm : (n : ℕ) (rs : List Region) → Perm (sort_rounds n rs) rs
unfolding sort_rounds
sort_rounds-perm zero rs = Perm.refl rs
sort_rounds-perm (suc n) rs =
    Perm.trans (sort_rounds-perm n (bubble (suc n) rs)) (bubble-perm (suc n) rs)

-- Every address of the first table is at most every address of the second.
abbrev Below : List Region → List Region → Type 0
Below rs ss = All (λ r. All (λ s. r.address ≤ s.address) ss) rs

-- What a round does to the `m + 1` descriptors in front of a tail: the greatest moves to their end.
record Bubbled (m : ℕ) (front tail : List Region) : Type 1 where
  rest : List Region
  greatest : Region
  split : bubble m (front ++ tail) ≡ rest ++ greatest ∷ tail
  shorter : length rest ≡ m
  top : All (λ r. r.address ≤ greatest.address) front
  rest_keeps : (P : Region → Type 0) → All P front → All P rest
  greatest_keeps : (P : Region → Type 0) → All P front → P greatest

bubbled : (m : ℕ) (front tail : List Region) → length front ≡ suc m → Bubbled m front tail
unfolding bubble
bubbled m [] tail e = absurd (omega arith)
bubbled zero (a ∷ []) tail e = record {
  rest = [];
  greatest = a;
  split = refl;
  shorter = refl;
  top = (omega arith, tt);
  rest_keeps = λ P h. tt;
  greatest_keeps = λ P h. h.0;
}
bubbled zero (a ∷ b ∷ front) tail e = absurd (omega arith)
bubbled (suc m) (a ∷ []) tail e = absurd (omega arith)
bubbled (suc m) (a ∷ b ∷ front) tail e = elim (Bool-cases (ltb b.address a.address)) [
  | inl swap ↦
      let ih = bubbled m (a ∷ front) tail (omega arith) in
      record {
        rest = b ∷ ih.rest;
        greatest = ih.greatest;
        split = rw swap (ap (◌∷◌ b) ih.split);
        shorter = ap suc ih.shorter;
        top = (ih.top.0, (ground (arith, ih.top.0), ih.top.1));
        rest_keeps = λ P h. (h.1.0, ih.rest_keeps P (h.0, h.1.1));
        greatest_keeps = λ P h. ih.greatest_keeps P (h.0, h.1.1);
      }
  | inr keep ↦
      let ih = bubbled m (b ∷ front) tail (omega arith) in
      record {
        rest = a ∷ ih.rest;
        greatest = ih.greatest;
        split = rw keep (ap (◌∷◌ a) ih.split);
        shorter = ap suc ih.shorter;
        top = (ground (arith, ih.top.0), ih.top);
        rest_keeps = λ P h. (h.0, ih.rest_keeps P h.1);
        greatest_keeps = λ P h. ih.greatest_keeps P h.1;
      }
]

-- Behind the descriptors that are still to be sorted stand the greatest ones, sorted.
sort_rounds-IsSorted :
    (n : ℕ) (front tail : List Region)
    → length front ≡ suc n
    → IsSorted tail
    → Below front tail
    → IsSorted (sort_rounds n (front ++ tail))
unfolding sort_rounds
sort_rounds-IsSorted n [] tail e sorted below = absurd (omega arith)
sort_rounds-IsSorted zero (a ∷ []) tail e sorted below = (below.0, sorted)
sort_rounds-IsSorted zero (a ∷ b ∷ front) tail e sorted below = absurd (omega arith)
sort_rounds-IsSorted (suc n) (a ∷ front) tail e sorted below =
    let step = bubbled (suc n) (a ∷ front) tail e in
    rw step.split (
      sort_rounds-IsSorted n step.rest (step.greatest ∷ tail) step.shorter
        (step.greatest_keeps (λ r. All (λ s. r.address ≤ s.address) tail) below, sorted)
        (step.rest_keeps (λ r. All (λ s. r.address ≤ s.address) (step.greatest ∷ tail))
          (All-zip _ _ (a ∷ front) step.top below)))

Below-nil : (rs : List Region) → Below rs []
Below-nil [] = tt
Below-nil (r ∷ rs) = (tt, Below-nil rs)

sort_region_descriptors-cons :
    (r : Region) (rs : List Region)
    → sort_region_descriptors (r ∷ rs) ≡ sort_rounds (length rs) (r ∷ rs)
unfolding sort_region_descriptors
sort_region_descriptors-cons r rs = elim (Bool-cases (suc (length rs) == 0)) [
  | inl e ↦ absurd (ground arith)
  | inr e ↦ rw e (ap (λ n. sort_rounds n (r ∷ rs)) (omega arith))
]

-- SortRegionDescriptors leaves the table sorted by address, and holding the same descriptors.
pub sort_region_descriptors-IsSorted :
    (rs : List Region)
    → IsSorted (sort_region_descriptors rs) × Perm (sort_region_descriptors rs) rs
unfolding sort_region_descriptors
sort_region_descriptors-IsSorted [] = (tt, Perm.refl [])
sort_region_descriptors-IsSorted (r ∷ rs) = rw (sort_region_descriptors-cons r rs) (
  subst (λ ss. IsSorted (sort_rounds (length rs) ss)) (append-nil (r ∷ rs))
      (sort_rounds-IsSorted (length rs) (r ∷ rs) [] refl tt (Below-nil (r ∷ rs))),
  sort_rounds-perm (length rs) (r ∷ rs),
)
