-- ===== src/Terminal/Reading/Delivering.antt =====
-- ReadString delivers the edited text in its buffer.
use dark_core.Prelude.{
  ℕ, ◌+◌, ◌≤◌, ◌<◌, ◌≡◌, refl, ◌∙◌, arith, ◌==◌, List, [], ◌∷◌, length, get_or, Option, none, some,
  Bool-cases, inl, inr,
}
use dark_core.Terminal.{Terminal, symbol_new_line, symbol_carret, put_char, put_string}
use dark_core.Terminal.Cursor.{IsPlaced, put_char-IsPlaced}
use dark_core.Terminal.Printing.{put_char-within}
use dark_core.Terminal.Reading.{read_step, read_loop, limit, read_string}
use dark_core.Terminal.Reading.Editing.{edit, edited, Apart, Holds, Apart-at, read_step-Holds}

-- The buffer holds the text with its terminator, and the characters behind the new line are left.
pub record Delivered (buffer max_length : ℕ) (text rest : List ℕ) (t : Terminal) (left : List ℕ)
    : Type 0 where
  pub limited : length text ≤ max_length
  pub content : (i : ℕ) → i < length text → t.memory (buffer + i) ≡ get_or text i 0
  pub terminated : t.memory (buffer + length text) ≡ 0
  pub placed : IsPlaced t
  pub unread : left ≡ rest

-- What the call delivers for what the editor makes of the characters; it waits exactly if the editor
-- does.
abbrev pub Delivers : ℕ → ℕ → Option (List ℕ × List ℕ) → Option (Terminal × List ℕ) → Type 0
Delivers buffer max_length none none = Unit
Delivers buffer max_length none (some result) = ⊥
Delivers buffer max_length (some result) none = ⊥
Delivers buffer max_length (some (text, rest)) (some (t, left)) =
    Delivered buffer max_length text rest t left

read_loop-Delivers :
    (b max : ℕ) (cs : List ℕ) (len : ℕ) (text : List ℕ) (t : Terminal)
    → Apart b max
    → Holds b max text len t
    → Delivers b max (edited max cs text) (read_loop b max cs len t)
unfolding read_loop
read_loop-Delivers b max [] len text t apart h = tt
read_loop-Delivers b max (c ∷ cs) len text t apart h = elim (Bool-cases (c == symbol_new_line)) [
  | inl ends ↦ rw ends (record {
    limited = omega (arith, h.counted, h.limited);
    content = λ i lo. ground (arith, h.content i, h.counted);
    terminated = ground (arith, h.counted);
    placed = record { even = h.placed.even; within = h.placed.within };
    unread = refl;
  })
  | inr more ↦
      let next = read_step b max c len t in
      rw more (
        read_loop-Delivers b max cs next.0 (edit max c text) next.1 apart
          (read_step-Holds b max c len text t apart h))
]

-- The carriage return and the new line at the end leave the buffer as it is.
ended :
    (b max : ℕ) (text rest : List ℕ) (t : Terminal) (left : List ℕ)
    → Apart b max
    → Delivered b max text rest t left
    → Delivered b max text rest (put_string (symbol_carret ∷ symbol_new_line ∷ []) t) left
unfolding put_string
ended b max text rest t left apart d = record {
  limited = d.limited;
  content = λ i lo. kept i (omega (arith, d.limited)) ∙ d.content i lo;
  terminated = kept (length text) d.limited ∙ d.terminated;
  placed = put_char-IsPlaced symbol_new_line t' placed';
  unread = d.unread;
}
  where
    t' : Terminal
    t' = put_char symbol_carret t

    placed' : IsPlaced t'
    placed' = put_char-IsPlaced symbol_carret t d.placed

    kept : (i : ℕ) → i ≤ max → (put_char symbol_new_line t').memory (b + i) ≡ t.memory (b + i)
    kept i h =
        put_char-within symbol_new_line t' (b + i) placed' (Apart-at b max i apart h)
        ∙ put_char-within symbol_carret t (b + i) d.placed (Apart-at b max i apart h)

-- For a buffer that has room for the limit and the terminator apart from the screen, ReadString leaves
-- there what a line editor makes of the characters up to the new line, with a terminator, within
-- the limit, and the cursor on the screen; it goes on waiting only if there is no new line.
pub read_string-Delivers :
    (buffer max_length : ℕ) (input : List ℕ) (t : Terminal)
    → Apart buffer (limit max_length)
    → IsPlaced t
    → Delivers buffer
        (limit max_length)
        (edited (limit max_length) input [])
        (read_string buffer max_length input t)
unfolding read_string
read_string-Delivers b max input t apart placed =
    go (edited (limit max) input []) (read_loop b (limit max) input 0 t) (
      read_loop-Delivers b (limit max) input 0 [] t apart (record {
        counted = refl;
        limited = omega arith;
        content = λ i lo. absurd (omega arith);
        placed = placed;
      }))
  where
    go :
        (expected : Option (List ℕ × List ℕ)) (o : Option (Terminal × List ℕ))
        → Delivers b (limit max) expected o
        → Delivers b (limit max) expected (elim o [
          | none ↦ none
          | some (t', rest) ↦ some (put_string (symbol_carret ∷ symbol_new_line ∷ []) t', rest)
        ])
    go none none d = tt
    go none (some result) d = d
    go (some result) none d = d
    go (some (text, rest)) (some (t', left)) d = ended b (limit max) text rest t' left apart d
