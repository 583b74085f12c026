-- ===== src/Terminal/Reading/Editing.antt =====
-- What a call of ReadString leaves in its buffer: the text as it was edited.
use dark_core.Prelude.{
  get_or-append_left, get_or-append_end, ℕ, zero, suc, ◌+◌, ◌-◌, ◌≤◌, ◌<◌, ◌≡◌, ◌⊎◌, refl, ◌∙◌,
  arith, true, false, ltb, ◌==◌, if◌then◌else◌, List, [], ◌∷◌, ◌++◌, length, get_or, take,
  length-take, length-append, Option, none, some, Bool-cases, inl, inr,
}
use dark_core.Terminal.{
  Terminal, buffer_address, buffer_size, symbol_backspace, symbol_new_line, put_char,
}
use dark_core.Terminal.Cursor.{IsPlaced, put_char-IsPlaced}
use dark_core.Terminal.Printing.{Shown, put_char-put_symbol, put_symbol-Shown, put_char-within}
use dark_core.Terminal.Reading.{store, step_back, erase, read_step}

-- A line editor with a limit: what one character makes of the text.
abbrev pub edit : ℕ → ℕ → List ℕ → List ℕ
edit max_length c text =
    if c == symbol_backspace
    then take (length text - 1) text
    else if ltb (length text) max_length
    then text ++ (c ∷ [])
    else text

-- The text up to the new line, and the characters behind it.
abbrev pub edited : ℕ → List ℕ → List ℕ → Option (List ℕ × List ℕ)
edited max_length [] text = none
edited max_length (c ∷ cs) text =
    let rest = edited max_length cs (edit max_length c text) in
    if c == symbol_new_line then some (text, cs) else rest

-- The screen and the two bytes behind it are not part of the buffer.
abbrev pub Apart : ℕ → ℕ → Type 0
Apart buffer max_length =
    (buffer + max_length < buffer_address) ⊎ (buffer_address + buffer_size + 2 ≤ buffer)

-- The buffer holds the text.
pub record Holds (buffer max_length : ℕ) (text : List ℕ) (len : ℕ) (t : Terminal) : Type 0 where
  pub counted : length text ≡ len
  pub limited : len ≤ max_length
  pub content : (i : ℕ) → i < len → t.memory (buffer + i) ≡ get_or text i 0
  pub placed : IsPlaced t

-- The blank that wipes out the symbol to the left of the cursor.
blank :
    (t : Terminal)
    → IsPlaced t
    → (t.position == 0) ≡ false
    → Shown 32 (step_back t) (put_char 32 (step_back t))
blank t h ahead =
    rw (put_char-put_symbol 32 (step_back t) refl)
      (put_symbol-Shown 32 (step_back t) (ground (arith, h.even, h.within)))

step_back-IsPlaced :
    (t : Terminal) → IsPlaced t → (t.position == 0) ≡ false → IsPlaced (step_back t)
step_back-IsPlaced t h ahead = record {
  even = ground (arith, h.even, h.within);
  within = ground (arith, h.even, h.within);
}

erase-IsPlaced : (t : Terminal) → IsPlaced t → IsPlaced (erase t)
unfolding erase
erase-IsPlaced t h = elim (Bool-cases (t.position == 0)) [
  | inl start ↦ rw start h
  | inr ahead ↦ rw ahead (
      step_back-IsPlaced (put_char 32 (step_back t))
        (put_char-IsPlaced 32 (step_back t) (step_back-IsPlaced t h ahead))
        (ground (arith, (blank t h ahead).moved)))
]

erase-within :
    (t : Terminal) (p : ℕ)
    → IsPlaced t
    → (p < buffer_address) ⊎ (buffer_address + buffer_size + 2 ≤ p)
    → (erase t).memory p ≡ t.memory p
unfolding erase
erase-within t p h out = elim (Bool-cases (t.position == 0)) [
  | inl start ↦ rw start refl
  | inr ahead ↦ rw ahead (put_char-within 32 (step_back t) p (step_back-IsPlaced t h ahead) out)
]

get_or-take : (n : ℕ) (xs : List ℕ) (i : ℕ) → i < n → get_or (take n xs) i 0 ≡ get_or xs i 0
get_or-take zero xs i h = absurd (omega arith)
get_or-take (suc n) [] i h = refl
get_or-take (suc n) (x ∷ xs) zero h = refl
get_or-take (suc n) (x ∷ xs) (suc i) h = get_or-take n xs i (omega arith)

pub Apart-at :
    (b max i : ℕ)
    → Apart b max
    → i ≤ max
    → (b + i < buffer_address) ⊎ (buffer_address + buffer_size + 2 ≤ b + i)
Apart-at b max i (inl below) h = inl (omega arith)
Apart-at b max i (inr above) h = inr (omega arith)

wiped :
    (b max len : ℕ) (text : List ℕ) (t : Terminal)
    → Apart b max
    → Holds b max text len t
    → Holds b max (take (length text - 1) text) (len - 1) (erase (store (b + len) 32 t))
wiped b max len text t apart h = record {
  counted = omega (arith, length-take (length text - 1) text, h.counted);
  limited = omega (arith, h.limited);
  content = λ i lo.
      erase-within stored (b + i) stored_placed (Apart-at b max i apart (omega (arith, h.limited)))
      ∙ ground (arith, h.content i, get_or-take (length text - 1) text i, h.counted);
  placed = erase-IsPlaced stored stored_placed;
}
  where
    stored : Terminal
    stored = store (b + len) 32 t

    stored_placed : IsPlaced stored
    stored_placed = record { even = h.placed.even; within = h.placed.within }

appended :
    (b max c len : ℕ) (text : List ℕ) (t : Terminal)
    → Apart b max
    → len < max
    → Holds b max text len t
    → Holds b max (text ++ (c ∷ [])) (len + 1) (put_char c (store (b + len) c t))
appended b max c len text t apart room h = record {
  counted = omega (arith, length-append text (c ∷ []), h.counted);
  limited = omega arith;
  content = λ i lo.
      put_char-within c stored (b + i) stored_placed (Apart-at b max i apart (omega arith))
      ∙ kept i lo;
  placed = put_char-IsPlaced c stored stored_placed;
}
  where
    stored : Terminal
    stored = store (b + len) c t

    stored_placed : IsPlaced stored
    stored_placed = record { even = h.placed.even; within = h.placed.within }

    kept : (i : ℕ) → i < len + 1 → stored.memory (b + i) ≡ get_or (text ++ (c ∷ [])) i 0
    kept i lo = elim (Bool-cases (i == len)) [
      | inl last ↦
          let e : i ≡ length text = ground (arith, h.counted) in
          rw e (ground (arith, get_or-append_end text c 0, h.counted))
      | inr earlier ↦ ground (arith, h.content i, get_or-append_left text (c ∷ []) i 0, h.counted)
    ]

pub read_step-Holds :
    (b max c len : ℕ) (text : List ℕ) (t : Terminal)
    → Apart b max
    → Holds b max text len t
    → Holds b max (edit max c text) (read_step b max c len t).0 (read_step b max c len t).1
unfolding read_step
read_step-Holds b max c len text t apart h = elim (Bool-cases (c == symbol_backspace)) [
  | inl back ↦ elim (Bool-cases (len == 0)) [
    | inl empty ↦ rw (back, empty) (nothing_wiped empty)
    | inr some_text ↦ rw (back, some_text) (wiped b max len text t apart h)
  ]
  | inr other ↦ elim (Bool-cases (ltb len max)) [
    | inl room ↦
        let room' : ltb (length text) max ≡ true = rw (h.counted) room in
        rw (other, room, room') (appended b max c len text t apart (ground arith) h)
    | inr full ↦
        let full' : ltb (length text) max ≡ false = rw (h.counted) full in rw (other, full, full') h
  ]
]
  where
    nothing_wiped : (len == 0) ≡ true → Holds b max (take (length text - 1) text) len t
    nothing_wiped empty = record {
      counted = ground (arith, length-take (length text - 1) text, h.counted);
      limited = h.limited;
      content = λ i lo. absurd (ground arith);
      placed = h.placed;
    }
