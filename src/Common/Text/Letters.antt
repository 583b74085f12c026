-- ===== src/Common/Text/Letters.antt =====
-- RaiseLetterCase and LowerLetterCase.
use dark_core.Prelude.{
  ℕ, ◌≡◌, ◌≢◌, ◌<◌, refl, arith, ◌==◌, true, List, [], ◌∷◌, Bool, All, all_below, all_below_sound,
  ◌&&◌, ◌||◌, not,
}
use dark_core.Common.Text.{raise_letter, lower_letter, raise_letter_case, lower_letter_case}

-- On one byte: the later change of case wins, and only the terminator is 0 afterwards.
abbrev same_letter : ℕ → Bool
same_letter c =
    (lower_letter (raise_letter c) == lower_letter c)
    && (raise_letter (lower_letter c) == raise_letter c)
    && ((c == 0) || (not (raise_letter c == 0) && not (lower_letter c == 0)))

letters_table : all_below 256 same_letter ≡ true
unfolding all_below raise_letter lower_letter
letters_table = refl

record Letter (c : ℕ) : Type 0 where
  lowered : lower_letter (raise_letter c) ≡ lower_letter c
  raised : raise_letter (lower_letter c) ≡ raise_letter c
  raise_ne : c ≢ 0 → raise_letter c ≢ 0
  lower_ne : c ≢ 0 → lower_letter c ≢ 0

byte-Letter : (c : ℕ) → c < 256 → Letter c
byte-Letter c h =
    let t = all_below_sound 256 same_letter c letters_table h in
    record {
      lowered = ground arith;
      raised = ground arith;
      raise_ne = ground arith;
      lower_ne = ground arith;
    }

-- On a buffer of bytes each change of case undoes what the other did: lowering after raising gives
-- what lowering alone gives, and raising after lowering what raising alone gives.
pub letter_case_absorbs :
    (buffer : List ℕ)
    → All (λ c. c < 256) buffer
    → (lower_letter_case (raise_letter_case buffer) ≡ lower_letter_case buffer)
      × (raise_letter_case (lower_letter_case buffer) ≡ raise_letter_case buffer)
unfolding raise_letter_case lower_letter_case
letter_case_absorbs [] h = (refl, refl)
letter_case_absorbs (c ∷ cs) h = ground (arith, byte-Letter c h.0, letter_case_absorbs cs h.1)
