-- ===== src/Pmm/Setup/Fuel.antt =====
-- The outer loop of RemoveExtraRegions ends: a cut uses up an extra region that lies within the
-- descriptor.
use mathlib.Core.List.{Memᴰ}
use dark_core.Prelude.{
  All-map, subst, ℕ, suc, ◌+◌, ◌≤◌, ◌<◌, ◌≡◌, refl, arith, ◌&&◌, leb, ◌==◌, if◌then◌else◌, List, [],
  ◌∷◌, Option, none, some, length, All, Bool-cases, inl, inr,
}
use dark_core.Pmm.Region.{Region, get_region_overlap_type}
use dark_core.Pmm.Setup.{cut_one, cut_all, insert_behind, remove_fuel}
use dark_core.Pmm.Setup.Cutting.{IsUnwrapped, cut_one-IsUnwrapped}

-- 1 where the extra region has bytes and lies within the descriptor.
abbrev pub holds : Region → Region → ℕ
holds r e =
    if leb 1 e.extent
      && leb r.address e.address
      && leb (e.address + e.extent) (r.address + r.extent)
    then 1
    else 0

abbrev pub held : Region → List Region → ℕ
held r [] = 0
held r (e ∷ es) = holds r e + held r es

-- The rounds that a descriptor may cost.
abbrev pub cost : Region → List Region → ℕ
cost r extra = suc (held r extra)

abbrev pub cost_all : List Region → List Region → ℕ
cost_all [] extra = 0
cost_all (r ∷ rs) extra = cost r extra + cost_all rs extra

abbrev part_cost : Option Region → List Region → ℕ
part_cost none extra = 0
part_cost (some r) extra = cost r extra

abbrev part_holds : Option Region → Region → ℕ
part_holds none e = 0
part_holds (some r) e = holds r e

abbrev is_part : Option Region → ℕ
is_part none = 0
is_part (some r) = 1

cut_one-holds :
    (r e f : Region)
    → IsUnwrapped r
    → IsUnwrapped e
    → 0 < e.extent
    → holds (cut_one r e).0 f + part_holds (cut_one r e).1 f ≤ holds r f
unfolding cut_one get_region_overlap_type
cut_one-holds r e f hr he h = ground arith

cut_one-uses_up :
    (r e : Region)
    → IsUnwrapped r
    → IsUnwrapped e
    → 0 < e.extent
    → is_part (cut_one r e).1 + holds (cut_one r e).0 e + part_holds (cut_one r e).1 e ≤ holds r e
unfolding cut_one get_region_overlap_type
cut_one-uses_up r e hr he h = ground arith

abbrev part_held : Option Region → List Region → ℕ
part_held part [] = 0
part_held part (e ∷ es) = part_holds part e + part_held part es

part_cost-held :
    (part : Option Region) (extra : List Region)
    → part_cost part extra ≡ is_part part + part_held part extra
part_cost-held none [] = refl
part_cost-held none (e ∷ es) = omega (arith, part_cost-held none es)
part_cost-held (some r) [] = refl
part_cost-held (some r) (e ∷ es) = omega (arith, part_cost-held (some r) es)

cut_one-held :
    (r e : Region) (extra : List Region)
    → IsUnwrapped r
    → IsUnwrapped e
    → 0 < e.extent
    → held (cut_one r e).0 extra + part_held (cut_one r e).1 extra ≤ held r extra
cut_one-held r e [] hr he h = omega arith
cut_one-held r e (f ∷ extra) hr he h =
    omega (arith, cut_one-holds r e f hr he h, cut_one-held r e extra hr he h)

cut_one-held_less :
    (r e : Region) (extra : List Region)
    → IsUnwrapped r
    → IsUnwrapped e
    → 0 < e.extent
    → Memᴰ e extra
    → is_part (cut_one r e).1 + held (cut_one r e).0 extra + part_held (cut_one r e).1 extra
      ≤ held r extra
cut_one-held_less r e [] hr he h among = elim among [ ]
cut_one-held_less r e (f ∷ extra) hr he h (Memᴰ.head same) = omega (
  arith,
  subst
      (λ f.
        is_part (cut_one r e).1 + holds (cut_one r e).0 f + part_holds (cut_one r e).1 f
        ≤ holds r f)
      same (cut_one-uses_up r e hr he h),
  cut_one-held r e extra hr he h,
)
cut_one-held_less r e (f ∷ extra) hr he h (Memᴰ.tail behind) =
    omega (arith, cut_one-holds r e f hr he h, cut_one-held_less r e extra hr he h behind)

cost_all-insert_behind :
    (part : Option Region) (rest extra : List Region)
    → cost_all (insert_behind part rest) extra ≡ part_cost part extra + cost_all rest extra
cost_all-insert_behind none rest extra = omega arith
cost_all-insert_behind (some r) rest extra = omega arith

pub cut_all-cost :
    (r : Region) (es rest extra : List Region)
    → IsUnwrapped r
    → All IsUnwrapped es
    → All (λ e. Memᴰ e extra) es
    → cost_all ((cut_all r es rest).0 ∷ (cut_all r es rest).1) extra ≤ cost_all (r ∷ rest) extra
unfolding cut_all
cut_all-cost r [] rest extra hr hes among = omega arith
cut_all-cost r (e ∷ es) rest extra hr hes among = elim (Bool-cases (e.extent == 0)) [
  | inl empty ↦ rw empty (cut_all-cost r es rest extra hr hes.1 among.1)
  | inr some_bytes ↦
      let (r', part) = cut_one r e in
      rw some_bytes (
        omega (
          arith,
          cut_all-cost r' es (insert_behind part rest) extra
              (cut_one-IsUnwrapped r e hr hes.0 (ground arith)).0 hes.1 among.1,
          cost_all-insert_behind part rest extra,
          part_cost-held part extra,
          cut_one-held_less r e extra hr hes.0 (ground arith) among.0,
        ))
]

pub All-members : (extra : List Region) → All (λ e. Memᴰ e extra) extra
All-members [] = tt
All-members (e ∷ es) = (
  Memᴰ.head refl,
  All-map (λ x. Memᴰ x es) (λ x. Memᴰ x (e ∷ es)) es (λ x. Memᴰ.tail) (All-members es),
)

held-at_most : (r : Region) (extra : List Region) → held r extra ≤ length extra
held-at_most r [] = omega arith
held-at_most r (e ∷ es) = ground (arith, held-at_most r es)

pub cost_all-at_most : (rs extra : List Region) → cost_all rs extra ≤ remove_fuel rs extra
cost_all-at_most [] extra = omega arith
cost_all-at_most (r ∷ rs) extra = omega (arith, held-at_most r extra, cost_all-at_most rs extra)
