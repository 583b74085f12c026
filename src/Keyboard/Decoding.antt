-- ===== src/Keyboard/Decoding.antt =====
-- GetInput decodes what the keyboard sends for a key.
use dark_core.Prelude.{
  ℕ, suc, ◌+◌, ◌*◌, ◌^◌, ◌≤◌, ◌<◌, ◌≡◌, refl, sym, subst, ◌∙◌, ap, ap₂, arith, Bool, true, false,
  ltb, ◌==◌, if◌then◌else◌, not, ◌&&◌, ◌||◌, Option, some, List, [], ◌∷◌, ◌++◌, Bool-cases, inl,
  inr, bit_or, all_below, all_below_sound, ==_iff,
}
use dark_core.Keyboard.{
  Keyboard, InputResult, max_buffer_length, scan_code_extended, scan_code_released,
  scan_code_left_shift, scan_code_right_shift, scan_code_caps_lock, read_tail, read_scan_code,
  scan_code_map_index_of, press, get_input,
}
use dark_core.Keyboard.Queue.{Waits, SameKeys, read_buffer_last_byte-Waits}

-- The bytes of a key in scan code set 2: the prefix of an extended key, the mark of a release, the code.
abbrev pub encode : Bool → Bool → ℕ → List ℕ
encode extended released code =
    if extended
    then (if released
        then scan_code_extended ∷ scan_code_released ∷ code ∷ []
        else scan_code_extended ∷ code ∷ [])
    else (if released then scan_code_released ∷ code ∷ [] else code ∷ [])

abbrev pub full_code : Bool → ℕ → ℕ
full_code extended code = if extended then scan_code_extended * 2 ^ 8 + code else code

-- A code is a byte that is neither the prefix nor the mark.
pub record IsCode (code : ℕ) : Type 0 where
  pub byte : code < 256
  pub no_prefix : (code == scan_code_extended) ≡ false
  pub no_mark : (code == scan_code_released) ≡ false

extended_table :
    all_below 256 (λ v. bit_or (scan_code_extended * 2 ^ 8) v == scan_code_extended * 2 ^ 8 + v)
    ≡ true
unfolding all_below
extended_table = refl

plain_table : all_below 256 (λ v. bit_or 0 v == v) ≡ true
unfolding all_below
plain_table = refl

bit_or-extended :
    (v : ℕ) → v < 256 → bit_or (scan_code_extended * 2 ^ 8) v ≡ scan_code_extended * 2 ^ 8 + v
bit_or-extended v h = (==_iff _ _).0 (all_below_sound 256 _ v extended_table h)

bit_or-plain : (v : ℕ) → v < 256 → bit_or 0 v ≡ v
bit_or-plain v h = (==_iff _ _).0 (all_below_sound 256 _ v plain_table h)

-- What a read of a scan code comes to: the code and the mark, and the bytes that go on waiting.
abbrev Reads : Keyboard → ℕ → Bool → List ℕ → Option ((ℕ × Bool) × Keyboard) → Type 0
Reads before code released rest o =
    (k : Keyboard) × (o ≡ some ((code, released), k)) × Waits rest k × SameKeys before k

SameKeys-trans : (a b c : Keyboard) → SameKeys a b → SameKeys b c → SameKeys a c
SameKeys-trans a b c one two = record {
  index = two.index ∙ one.index;
  shift = two.shift ∙ one.shift;
  caps = two.caps ∙ one.caps;
}

after :
    (k k' : Keyboard) (code : ℕ) (released : Bool) (rest : List ℕ)
    (o : Option ((ℕ × Bool) × Keyboard))
    → SameKeys k k'
    → Reads k' code released rest o
    → Reads k code released rest o
after k k' code released rest o one (k'', e, w, two) = (k'', e, w, SameKeys-trans k k' k'' one two)

read_tail_code :
    (prefix code : ℕ) (released : Bool) (rest : List ℕ) (k : Keyboard)
    → IsCode code
    → Waits (code ∷ rest) k
    → Reads k (bit_or prefix code) released rest (read_tail prefix released k)
unfolding read_tail
read_tail_code p c r rest k code w =
    let (k', e, w', same) = read_buffer_last_byte-Waits c rest k w in
    rw (e, read_tail, code.no_mark) (k', refl, w', same)

read_tail_mark :
    (prefix code : ℕ) (released : Bool) (rest : List ℕ) (k : Keyboard)
    → Waits (scan_code_released ∷ code ∷ rest) k
    → Reads k (bit_or prefix code) true rest (read_tail prefix released k)
unfolding read_tail
read_tail_mark p c r rest k w =
    let (k', e, w', same) = read_buffer_last_byte-Waits scan_code_released (c ∷ rest) k w in
    let (k'', e', w'', same') = read_buffer_last_byte-Waits c rest k' w' in
    rw (e, read_tail, e') (k'', refl, w'', SameKeys-trans k k' k'' same same')

read_scan_code-Reads :
    (extended released : Bool) (code : ℕ) (rest : List ℕ) (k : Keyboard)
    → IsCode code
    → k.buffer_length ≤ suc max_buffer_length
    → Waits (encode extended released code ++ rest) k
    → Reads k (full_code extended code) released rest (read_scan_code k)
unfolding read_scan_code
read_scan_code-Reads false false c rest k code h w =
    let sane : ltb 0xff_ffff k.buffer_length ≡ false = ground arith in
    let (k', e, w', same) = read_buffer_last_byte-Waits c rest k w in
    rw (sane, e, code.no_prefix, code.no_mark) (k', refl, w', same)
read_scan_code-Reads false true c rest k code h w =
    let sane : ltb 0xff_ffff k.buffer_length ≡ false = ground arith in
    let (k', e, w', same) = read_buffer_last_byte-Waits scan_code_released (c ∷ rest) k w in
    let plain = bit_or-plain c code.byte in
    rw (sane, e)
      (subst (λ v. Reads k v true rest (read_tail 0 true k')) plain
        (after k k' _ _ _ _ same (read_tail_code 0 c true rest k' code w')))
read_scan_code-Reads true false c rest k code h w =
    let sane : ltb 0xff_ffff k.buffer_length ≡ false = ground arith in
    let (k', e, w', same) = read_buffer_last_byte-Waits scan_code_extended (c ∷ rest) k w in
    rw (sane, e)
      (subst (λ v. Reads k v false rest (read_tail (scan_code_extended * 2 ^ 8) false k'))
        (bit_or-extended c code.byte)
        (after k k' _ _ _ _ same
          (read_tail_code (scan_code_extended * 2 ^ 8) c false rest k' code w')))
read_scan_code-Reads true true c rest k code h w =
    let sane : ltb 0xff_ffff k.buffer_length ≡ false = ground arith in
    let (k', e, w', same) =
      read_buffer_last_byte-Waits scan_code_extended (scan_code_released ∷ c ∷ rest) k w in
    rw (sane, e)
      (subst (λ v. Reads k v true rest (read_tail (scan_code_extended * 2 ^ 8) false k'))
        (bit_or-extended c code.byte)
        (after k k' _ _ _ _ same (read_tail_mark (scan_code_extended * 2 ^ 8) c false rest k' w')))

-- The key changes the shift or the caps lock state.
abbrev modifies : ℕ → Bool → Bool
modifies code released =
    ((code == scan_code_left_shift) || (code == scan_code_right_shift))
    || ((code == scan_code_caps_lock) && not released)

press-Waits :
    (code : ℕ) (released : Bool) (bytes : List ℕ) (k : Keyboard)
    → Waits bytes k
    → Waits bytes (press code released k)
unfolding press
press-Waits c r bs k w = elim (Bool-cases (modifies c r)) [
  | inl acts ↦ rw acts (record { counted = w.counted; order = w.order })
  | inr idle ↦ rw idle w
]

-- The map index is the one for the shift and caps lock state.
abbrev pub IsMapped : Keyboard → Type 0
IsMapped k = k.scan_code_map_index ≡ scan_code_map_index_of k.shift_pressed k.caps_lock_pressed

press-IsMapped :
    (code : ℕ) (released : Bool) (k : Keyboard) → IsMapped k → IsMapped (press code released k)
unfolding press
press-IsMapped c r k h = elim (Bool-cases (modifies c r)) [
  | inl acts ↦ rw acts refl
  | inr idle ↦ rw idle h
]

-- What a key makes of the shift and the caps lock state.
abbrev pub shift_after : ℕ → Bool → Bool → Bool
shift_after code released shift =
    if (code == scan_code_left_shift) || (code == scan_code_right_shift)
    then not released
    else shift

abbrev pub caps_after : ℕ → Bool → Bool → Bool
caps_after code released caps =
    if code == scan_code_caps_lock then (if released then caps else not caps) else caps

press-keys :
    (code : ℕ) (released : Bool) (k : Keyboard)
    → ((press code released k).shift_pressed ≡ shift_after code released k.shift_pressed)
      × ((press code released k).caps_lock_pressed ≡ caps_after code released k.caps_lock_pressed)
unfolding press
press-keys c r k = (ground arith, ground arith)

-- Where the bytes of a key wait in front of others, GetInput returns its code and whether it was
-- released, with the map index for the shift and caps lock state that the key leads to, and leaves
-- the other bytes waiting; the state before must have had its map index as well.
pub get_input-encode :
    (extended released : Bool) (code : ℕ) (rest : List ℕ) (k : Keyboard)
    → IsCode code
    → k.buffer_length ≤ suc max_buffer_length
    → IsMapped k
    → Waits (encode extended released code ++ rest) k
    → (r : InputResult) × (k' : Keyboard) × (get_input k ≡ some (r, k'))
      × (r.scan_code ≡ full_code extended code)
      × (r.released ≡ released)
      × (r.map_index ≡ k'.scan_code_map_index)
      × IsMapped k'
      × (k'.shift_pressed ≡ shift_after (full_code extended code) released k.shift_pressed)
      × (k'.caps_lock_pressed ≡ caps_after (full_code extended code) released k.caps_lock_pressed)
      × Waits rest k'
unfolding get_input
get_input-encode x r c rest k code h mapped w =
    let (k', e, w', same) = read_scan_code-Reads x r c rest k code h w in
    let keys = press-keys (full_code x c) r k' in
    let mapped' : IsMapped k' =
      same.index ∙ mapped ∙ ap₂ scan_code_map_index_of (sym same.shift) (sym same.caps) in
    rw (e, get_input)
      (
        _,
        _,
        refl,
        refl,
        refl,
        refl,
        press-IsMapped (full_code x c) r k' mapped',
        keys.0 ∙ ap (shift_after (full_code x c) r) same.shift,
        keys.1 ∙ ap (caps_after (full_code x c) r) same.caps,
        press-Waits (full_code x c) r rest k' w',
      )
