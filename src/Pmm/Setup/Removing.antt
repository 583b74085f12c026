-- ===== src/Pmm/Setup/Removing.antt =====
-- RemoveExtraRegions as a whole: it ends, and takes exactly the extra regions off the table.
use dark_core.Prelude.{
  ℕ, zero, suc, ◌≤◌, ◌≡◌, refl, arith, true, false, ◌&&◌, not, List, [], ◌∷◌, some, All, Bool-cases,
  inl, inr, ap,
}
use dark_core.Pmm.Region.{Region, is_available}
use dark_core.Pmm.Setup.{cut_descriptor, remove_loop, remove_fuel, remove_extra_regions}
use dark_core.Pmm.Setup.Cutting.{
  IsUnwrapped, contains, taken, offers, offers_one, cut_all-IsUnwrapped, cut_all-keeps,
  cut_all-clears,
}
use dark_core.Pmm.Setup.Fuel.{cost_all, cut_all-cost, cost_all-at_most, All-members}

-- A round leaves regions that do not wrap, costs no more than there was to cost, keeps what no extra
-- region takes and offers nothing of the rest.
record Rounds (r : Region) (rs extra : List Region) (r' : Region) (rs' : List Region) : Type 0 where
  unwrapped : IsUnwrapped r' × All IsUnwrapped rs'
  cheap : cost_all (r' ∷ rs') extra ≤ cost_all (r ∷ rs) extra
  keeps : (x : ℕ) → taken extra x ≡ false → offers (r' ∷ rs') x ≡ offers (r ∷ rs) x
  clears : (x : ℕ) → taken extra x ≡ true → offers_one r' x ≡ false

cut_descriptor-Rounds :
    (r : Region) (rs extra : List Region)
    → All IsUnwrapped (r ∷ rs)
    → All IsUnwrapped extra
    → Rounds r rs extra (cut_descriptor r rs extra).0 (cut_descriptor r rs extra).1
unfolding cut_descriptor
cut_descriptor-Rounds r rs extra h he = elim (Bool-cases (is_available r)) [
  | inl free ↦ rw free (record {
    unwrapped = cut_all-IsUnwrapped r extra rs h.0 he h.1;
    cheap = cut_all-cost r extra rs extra h.0 he (All-members extra);
    keeps = λ x. cut_all-keeps r extra rs x h.0 he;
    clears = λ x. cut_all-clears r extra rs x h.0 he;
  })
  | inr kept ↦ rw kept (record {
    unwrapped = (h.0, h.1);
    cheap = omega arith;
    keeps = λ x out. refl;
    clears = λ x within. ap (λ b. b && contains r x) kept;
  })
]

-- What RemoveExtraRegions is to do to a table.
record Removed (rs extra done : List Region) : Type 0 where
  unwrapped : All IsUnwrapped done
  offered : (x : ℕ) → offers done x ≡ (offers rs x && not (taken extra x))

loop_step :
    (fuel : ℕ) (r : Region) (rs extra done : List Region)
    → remove_loop fuel (cut_descriptor r rs extra).1 extra ≡ some done
    → remove_loop (suc fuel) (r ∷ rs) extra ≡ some ((cut_descriptor r rs extra).0 ∷ done)
unfolding remove_loop
loop_step fuel r rs extra done e = rw (e, remove_loop) refl

offered_step :
    (r : Region) (rs extra done : List Region) (r' : Region) (rs' : List Region)
    → Rounds r rs extra r' rs'
    → Removed rs' extra done
    → (x : ℕ) → offers (r' ∷ done) x ≡ (offers (r ∷ rs) x && not (taken extra x))
offered_step r rs extra done r' rs' one rest x = elim (Bool-cases (taken extra x)) [
  | inl within ↦ ground (arith, rest.offered x, one.clears x within, within)
  | inr out ↦ ground (arith, rest.offered x, one.keeps x out, out)
]

remove_loop-Removed :
    (fuel : ℕ) (rs extra : List Region)
    → All IsUnwrapped rs
    → All IsUnwrapped extra
    → cost_all rs extra ≤ fuel
    → (done : List Region) × (remove_loop fuel rs extra ≡ some done) × Removed rs extra done
unfolding remove_loop
remove_loop-Removed zero [] extra h he enough =
    ([], refl, record { unwrapped = tt; offered = λ x. refl })
remove_loop-Removed (suc fuel) [] extra h he enough =
    ([], refl, record { unwrapped = tt; offered = λ x. refl })
remove_loop-Removed zero (r ∷ rs) extra h he enough = absurd (omega arith)
remove_loop-Removed (suc fuel) (r ∷ rs) extra h he enough =
    let one = cut_descriptor-Rounds r rs extra h he in
    let (done, e, rest) =
      remove_loop-Removed fuel (cut_descriptor r rs extra).1 extra one.unwrapped.1 he
        (omega (arith, one.cheap)) in
    (
      (cut_descriptor r rs extra).0 ∷ done,
      loop_step fuel r rs extra done e,
      record {
        unwrapped = (one.unwrapped.0, rest.unwrapped);
        offered = offered_step r rs extra done _ _ one rest;
      },
    )

-- Where neither the regions nor the extra regions wrap, RemoveExtraRegions ends, its table holds
-- regions that do not wrap, and a byte is in an available region of the new table exactly if it was
-- in one of the old and is in no extra region.
pub remove_extra_regions-offers :
    (rs extra : List Region)
    → All IsUnwrapped rs
    → All IsUnwrapped extra
    → (done : List Region) × (remove_extra_regions rs extra ≡ some done)
      × All IsUnwrapped done
      × ((x : ℕ) → offers done x ≡ (offers rs x && not (taken extra x)))
unfolding remove_extra_regions
remove_extra_regions-offers rs extra h he =
    let (done, e, removed) =
      remove_loop-Removed (remove_fuel rs extra) rs extra h he (cost_all-at_most rs extra) in
    (done, e, removed.unwrapped, removed.offered)
