-- ===== src/Pmm/Setup/Cutting.antt =====
-- What RemoveExtraRegions leaves on offer: the bytes of available regions less the extra regions.
use dark_core.Prelude.{
  ℕ, ◌+◌, ◌<◌, ◌≡◌, refl, arith, Bool, true, false, ◌&&◌, ◌||◌, ltb, leb, ◌==◌, List, [], ◌∷◌, All,
  Option, none, some, Bool-cases, inl, inr, ◌∙◌, ap,
}
use dark_core.Pmm.Region.{Region, is_available, get_region_overlap_type, long_mod}
use dark_core.Pmm.Setup.{cut_one, cut_all, insert_behind}

abbrev pub IsUnwrapped : Region → Type 0
IsUnwrapped r = r.address + r.extent < long_mod

abbrev pub contains : Region → ℕ → Bool
contains r x = leb r.address x && ltb x (r.address + r.extent)

-- Is the byte in some region of the list?
abbrev pub taken : List Region → ℕ → Bool
taken [] x = false
taken (e ∷ es) x = contains e x || taken es x

abbrev pub offers_one : Region → ℕ → Bool
offers_one r x = is_available r && contains r x

-- Is the byte in some available region of the table?
abbrev pub offers : List Region → ℕ → Bool
offers [] x = false
offers (r ∷ rs) x = offers_one r x || offers rs x

abbrev offers_part : Option Region → ℕ → Bool
offers_part none x = false
offers_part (some r) x = offers_one r x

abbrev UnwrappedPart : Option Region → Type 0
UnwrappedPart none = Unit
UnwrappedPart (some r) = IsUnwrapped r

pub cut_one-IsUnwrapped :
    (r e : Region)
    → IsUnwrapped r
    → IsUnwrapped e
    → 0 < e.extent
    → IsUnwrapped (cut_one r e).0 × UnwrappedPart (cut_one r e).1
unfolding cut_one get_region_overlap_type
cut_one-IsUnwrapped r e hr he h = ground arith

cut_one-keeps :
    (r e : Region) (x : ℕ)
    → IsUnwrapped r
    → IsUnwrapped e
    → 0 < e.extent
    → contains e x ≡ false
    → (offers_one (cut_one r e).0 x || offers_part (cut_one r e).1 x) ≡ offers_one r x
unfolding cut_one get_region_overlap_type
cut_one-keeps r e x hr he h out = ground arith

cut_one-clears :
    (r e : Region) (x : ℕ)
    → IsUnwrapped r
    → IsUnwrapped e
    → 0 < e.extent
    → contains e x ≡ true
    → offers_one (cut_one r e).0 x ≡ false
unfolding cut_one get_region_overlap_type
cut_one-clears r e x hr he h within = ground arith

cut_one-shrinks :
    (r e : Region) (x : ℕ)
    → IsUnwrapped r
    → IsUnwrapped e
    → 0 < e.extent
    → offers_one r x ≡ false
    → offers_one (cut_one r e).0 x ≡ false
unfolding cut_one get_region_overlap_type
cut_one-shrinks r e x hr he h out = ground arith

pub insert_behind-IsUnwrapped :
    (part : Option Region) (rest : List Region)
    → UnwrappedPart part
    → All IsUnwrapped rest
    → All IsUnwrapped (insert_behind part rest)
insert_behind-IsUnwrapped none rest hp hr = hr
insert_behind-IsUnwrapped (some r) rest hp hr = (hp, hr)

offers-insert_behind :
    (r : Region) (part : Option Region) (rest : List Region) (x : ℕ)
    → offers (r ∷ insert_behind part rest) x
      ≡ ((offers_one r x || offers_part part x) || offers rest x)
offers-insert_behind r none rest x = ground arith
offers-insert_behind r (some s) rest x = ground arith

pub cut_all-IsUnwrapped :
    (r : Region) (es rest : List Region)
    → IsUnwrapped r
    → All IsUnwrapped es
    → All IsUnwrapped rest
    → IsUnwrapped (cut_all r es rest).0 × All IsUnwrapped (cut_all r es rest).1
unfolding cut_all
cut_all-IsUnwrapped r [] rest hr hes hrest = (hr, hrest)
cut_all-IsUnwrapped r (e ∷ es) rest hr hes hrest = elim (Bool-cases (e.extent == 0)) [
  | inl empty ↦ rw empty (cut_all-IsUnwrapped r es rest hr hes.1 hrest)
  | inr some_bytes ↦
      let cut = cut_one-IsUnwrapped r e hr hes.0 (ground arith) in
      rw some_bytes (
        cut_all-IsUnwrapped (cut_one r e).0 es (insert_behind (cut_one r e).1 rest) cut.0 hes.1
          (insert_behind-IsUnwrapped (cut_one r e).1 rest cut.1 hrest))
]

-- A byte that no extra region takes stays on offer.
pub cut_all-keeps :
    (r : Region) (es rest : List Region) (x : ℕ)
    → IsUnwrapped r
    → All IsUnwrapped es
    → taken es x ≡ false
    → offers ((cut_all r es rest).0 ∷ (cut_all r es rest).1) x ≡ offers (r ∷ rest) x
unfolding cut_all
cut_all-keeps r [] rest x hr hes out = refl
cut_all-keeps r (e ∷ es) rest x hr hes out = elim (Bool-cases (e.extent == 0)) [
  | inl empty ↦ rw empty (cut_all-keeps r es rest x hr hes.1 (ground (arith, out)))
  | inr some_bytes ↦
      let cut = cut_one-IsUnwrapped r e hr hes.0 (ground arith) in
      rw some_bytes (
        cut_all-keeps (cut_one r e).0 es (insert_behind (cut_one r e).1 rest) x cut.0 hes.1
          (ground (arith, out))
        ∙ offers-insert_behind (cut_one r e).0 (cut_one r e).1 rest x
        ∙ ap (λ b. b || offers rest x)
            (cut_one-keeps r e x hr hes.0 (ground arith) (ground (arith, out))))
]

cut_all-shrinks :
    (r : Region) (es rest : List Region) (x : ℕ)
    → IsUnwrapped r
    → All IsUnwrapped es
    → offers_one r x ≡ false
    → offers_one (cut_all r es rest).0 x ≡ false
unfolding cut_all
cut_all-shrinks r [] rest x hr hes out = out
cut_all-shrinks r (e ∷ es) rest x hr hes out = elim (Bool-cases (e.extent == 0)) [
  | inl empty ↦ rw empty (cut_all-shrinks r es rest x hr hes.1 out)
  | inr some_bytes ↦ rw some_bytes (
      cut_all-shrinks (cut_one r e).0 es (insert_behind (cut_one r e).1 rest) x
        (cut_one-IsUnwrapped r e hr hes.0 (ground arith)).0 hes.1
        (cut_one-shrinks r e x hr hes.0 (ground arith) out))
]

-- A byte that an extra region takes is not on offer where the descriptor stood.
pub cut_all-clears :
    (r : Region) (es rest : List Region) (x : ℕ)
    → IsUnwrapped r
    → All IsUnwrapped es
    → taken es x ≡ true
    → offers_one (cut_all r es rest).0 x ≡ false
unfolding cut_all
cut_all-clears r [] rest x hr hes within = absurd (ground (arith, within))
cut_all-clears r (e ∷ es) rest x hr hes within = elim (Bool-cases (e.extent == 0)) [
  | inl empty ↦ rw empty (cut_all-clears r es rest x hr hes.1 (ground (arith, within)))
  | inr some_bytes ↦
      let cut = cut_one-IsUnwrapped r e hr hes.0 (ground arith) in
      let behind = insert_behind (cut_one r e).1 rest in
      rw some_bytes (elim (Bool-cases (contains e x)) [
        | inl here ↦
            cut_all-shrinks (cut_one r e).0 es behind x cut.0 hes.1
              (cut_one-clears r e x hr hes.0 (ground arith) here)
        | inr later ↦
            cut_all-clears (cut_one r e).0 es behind x cut.0 hes.1 (ground (arith, within, later))
      ])
]
