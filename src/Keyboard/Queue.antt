-- ===== src/Keyboard/Queue.antt =====
-- The keyboard's buffer is a queue.
use mathlib.Core.List.{append-nil, append_assoc}
use dark_core.Prelude.{
  ℕ, zero, suc, ◌+◌, ◌-◌, ◌≤◌, ◌<◌, ◌≡◌, refl, sym, subst, ◌∙◌, ap, arith, false, ltb, ◌==◌, none,
  some, List, [], ◌∷◌, ◌++◌, length, length-append, get_or, get_or-append_left, get_or-append_end,
  Bool-cases, inl, inr,
}
use dark_core.DynamicArray.{write, shift_up}
use dark_core.DynamicArray.Blocks.{write_here, write_elsewhere, shift_up_above, shift_up_moved}
use dark_core.Keyboard.{Keyboard, max_buffer_length, irq_handler, read_buffer_last_byte}

-- The bytes that wait in the buffer, the one that came first in front.
pub record Waits (bytes : List ℕ) (k : Keyboard) : Type 0 where
  pub counted : length bytes ≡ k.buffer_length
  pub order : (i : ℕ) → i < k.buffer_length → k.buffer (k.buffer_length - 1 - i) ≡ get_or bytes i 0

-- The interrupt handler puts the byte behind those that wait, as long as the buffer is not overfull.
pub irq_handler-Waits :
    (byte : ℕ) (bytes : List ℕ) (k : Keyboard)
    → Waits bytes k
    → k.buffer_length ≤ max_buffer_length
    → Waits (bytes ++ (byte ∷ [])) (irq_handler byte k)
unfolding irq_handler
irq_handler-Waits b bs k w h =
    let e : ltb max_buffer_length k.buffer_length ≡ false = ground arith in
    rw e (record {
      counted = omega (arith, length-append bs (b ∷ []), w.counted);
      order = λ i lo. entry i (omega (arith, lo));
    })
  where
    moved : ℕ → ℕ
    moved = shift_up k.buffer_length k.buffer_length k.buffer

    older :
        (i : ℕ)
        → i < k.buffer_length
        → write 0 b moved (suc (k.buffer_length - 1 - i)) ≡ get_or (bs ++ (b ∷ [])) i 0
    older i lo =
        write_elsewhere 0 b moved (suc (k.buffer_length - 1 - i)) (ground arith)
        ∙ shift_up_moved k.buffer_length k.buffer_length k.buffer (k.buffer_length - 1 - i)
            (omega arith) (omega arith)
        ∙ w.order i lo
        ∙ sym (get_or-append_left bs (b ∷ []) i 0 (omega (arith, w.counted)))

    newest : (i : ℕ) → i ≡ length bs → write 0 b moved 0 ≡ get_or (bs ++ (b ∷ [])) i 0
    newest i e = rw e (write_here 0 b moved ∙ sym (get_or-append_end bs b 0))

    entry :
        (i : ℕ)
        → i < k.buffer_length + 1
        → write 0 b moved (k.buffer_length + 1 - 1 - i) ≡ get_or (bs ++ (b ∷ [])) i 0
    entry i lo = elim (Bool-cases (i == k.buffer_length)) [
      | inl last ↦
          let z : k.buffer_length + 1 - 1 - i ≡ 0 = ground arith in
          ap (write 0 b moved) z ∙ newest i (ground (arith, w.counted))
      | inr before ↦
          let below : i < k.buffer_length = ground arith in
          let z : k.buffer_length + 1 - 1 - i ≡ suc (k.buffer_length - 1 - i) = omega arith in
          ap (write 0 b moved) z ∙ older i below
    ]

-- The shift and caps lock state of two keyboards agree.
pub record SameKeys (k k' : Keyboard) : Type 0 where
  pub index : k'.scan_code_map_index ≡ k.scan_code_map_index
  pub shift : k'.shift_pressed ≡ k.shift_pressed
  pub caps : k'.caps_lock_pressed ≡ k.caps_lock_pressed

-- The read takes the byte that came first.
pub read_buffer_last_byte-Waits :
    (byte : ℕ) (bytes : List ℕ) (k : Keyboard)
    → Waits (byte ∷ bytes) k
    → (k' : Keyboard) × (read_buffer_last_byte k ≡ some (byte, k')) × Waits bytes k' × SameKeys k k'
unfolding read_buffer_last_byte
read_buffer_last_byte-Waits b bs k w =
    let some_bytes : (k.buffer_length == 0) ≡ false = ground (arith, w.counted) in
    let first : k.buffer (k.buffer_length - 1) ≡ b =
      ap k.buffer (omega arith) ∙ w.order 0 (omega (arith, w.counted)) in
    rw some_bytes (
      record k { buffer_length = k.buffer_length - 1 },
      (λ i. some (first i, record k { buffer_length = k.buffer_length - 1 })),
      record {
        counted = omega (arith, w.counted);
        order = λ i lo.
            let z : k.buffer_length - 1 - 1 - i ≡ k.buffer_length - 1 - suc i = omega arith in
            ap k.buffer z ∙ w.order (suc i) (omega arith);
      },
      record { index = refl; shift = refl; caps = refl },
    )

-- Bytes that arrive one after the other.
abbrev pub receive : List ℕ → Keyboard → Keyboard
receive [] k = k
receive (b ∷ bs) k = receive bs (irq_handler b k)

-- Reads until the buffer is empty, as many as there are rounds.
abbrev pub drain : ℕ → Keyboard → List ℕ
drain zero k = []
drain (suc n) k = elim (read_buffer_last_byte k) [ none ↦ [] | some (byte, k') ↦ byte ∷ drain n k' ]

drain-Waits : (bytes : List ℕ) (k : Keyboard) → Waits bytes k → drain (length bytes) k ≡ bytes
drain-Waits [] k w = refl
drain-Waits (b ∷ bs) k w =
    let (k', e, w', same) = read_buffer_last_byte-Waits b bs k w in
    rw (e, drain) (ap (◌∷◌ b) (drain-Waits bs k' w'))

pub receive-Waits :
    (bytes waiting : List ℕ) (k : Keyboard)
    → Waits waiting k
    → length waiting + length bytes ≤ suc max_buffer_length
    → Waits (waiting ++ bytes) (receive bytes k)
receive-Waits [] ws k w h = rw (append-nil ws) w
receive-Waits (b ∷ bs) ws k w h =
    subst (λ all. Waits all (receive bs (irq_handler b k))) (append_assoc ws (b ∷ []) bs)
      (receive-Waits bs (ws ++ (b ∷ [])) (irq_handler b k)
        (irq_handler-Waits b ws k w (omega (arith, w.counted)))
        (omega (arith, length-append ws (b ∷ []))))

-- Bytes that arrive at an empty buffer, at most the 128 that the array holds, are read in the order in
-- which they came.
pub drain-receive :
    (bytes : List ℕ) (k : Keyboard)
    → k.buffer_length ≡ 0
    → length bytes ≤ max_buffer_length
    → drain (length bytes) (receive bytes k) ≡ bytes
drain-receive bytes k empty h = drain-Waits bytes (receive bytes k) (
    receive-Waits bytes [] k
      (record { counted = sym empty; order = λ i lo. absurd (omega (arith, empty)) }) (omega arith))

-- However many bytes arrive, the length stays at most one above the size of the buffer, and the
-- handler writes at most one byte beyond it.
pub irq_handler-within :
    (byte : ℕ) (k : Keyboard)
    → ((irq_handler byte k).buffer_length ≤ suc max_buffer_length)
      × ((p : ℕ) → max_buffer_length < p → (irq_handler byte k).buffer p ≡ k.buffer p)
unfolding irq_handler
irq_handler-within b k = elim (Bool-cases (ltb max_buffer_length k.buffer_length)) [
  | inl over ↦ rw over (omega arith, beyond max_buffer_length (omega arith))
  | inr fits ↦ rw fits (ground arith, beyond k.buffer_length (ground arith))
]
  where
    beyond :
        (len : ℕ)
        → len ≤ max_buffer_length
        → (p : ℕ) → max_buffer_length < p
        → write 0 b (shift_up len len k.buffer) p ≡ k.buffer p
    beyond len h p hi =
        write_elsewhere 0 b (shift_up len len k.buffer) p (ground arith)
        ∙ shift_up_above len len k.buffer p (omega arith)
