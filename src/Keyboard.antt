-- ===== src/Keyboard.antt =====
-- The keyboard of library/ps2/ps2-keyboard.cxx: the buffer that the interrupt handler fills, and GetInput,
-- which decodes scan codes from it. A call that waits for a byte on an empty buffer returns `none`.
use dark_core.Prelude.{
  ℕ, zero, suc, ◌+◌, ◌-◌, ◌*◌, ◌^◌, Bool, true, false, not, ◌&&◌, ◌||◌, ltb, leb, ◌==◌,
  if◌then◌else◌, Option, none, some, List, [], ◌∷◌, bit_or,
}
use dark_core.DynamicArray.{write, shift_up, shift_down}
pub mod Queue
pub mod Decoding
pub mod Characters
pub mod Commands

abbrev pub max_buffer_length : ℕ
max_buffer_length = 0x80

abbrev pub scan_code_extended : ℕ
scan_code_extended = 0xe0

abbrev pub scan_code_released : ℕ
scan_code_released = 0xf0

abbrev pub scan_code_left_shift : ℕ
scan_code_left_shift = 0x12

abbrev pub scan_code_right_shift : ℕ
scan_code_right_shift = 0x59

abbrev pub scan_code_caps_lock : ℕ
scan_code_caps_lock = 0x58

-- The buffer is memory from `Buffer_` on: the array is in front of the index 0x80, where the handler can
-- write the byte behind it.
pub record Keyboard : Type 0 where
  pub buffer : ℕ → ℕ
  pub buffer_length : ℕ
  pub scan_code_map_index : ℕ
  pub shift_pressed : Bool
  pub caps_lock_pressed : Bool

-- The handler, with the byte that the port delivers.
unfoldable pub irq_handler : ℕ → Keyboard → Keyboard
irq_handler byte k =
    let len =
      if ltb max_buffer_length k.buffer_length then max_buffer_length else k.buffer_length in
    record k { buffer = write 0 byte (shift_up len len k.buffer); buffer_length = len + 1 }

unfoldable pub read_buffer_first_byte : Keyboard → Option (ℕ × Keyboard)
read_buffer_first_byte k =
    if k.buffer_length == 0
    then none
    else some (
      k.buffer 0,
      record k {
        buffer = shift_down k.buffer_length 0 k.buffer;
        buffer_length = k.buffer_length - 1;
      },
    )

unfoldable pub read_buffer_last_byte : Keyboard → Option (ℕ × Keyboard)
read_buffer_last_byte k =
    if k.buffer_length == 0
    then none
    else some (k.buffer (k.buffer_length - 1), record k { buffer_length = k.buffer_length - 1 })

pub record InputResult : Type 0 where
  pub scan_code : ℕ
  pub released : Bool
  pub map_index : ℕ

-- The part of the loop behind a prefix, with the scan code and the mark read so far: a byte that is
-- not the mark ends it, else one more byte does.
unfoldable pub read_tail : ℕ → Bool → Keyboard → Option ((ℕ × Bool) × Keyboard)
read_tail code released k = elim (read_buffer_last_byte k) [
  | none ↦ none
  | some (value, k') ↦
      if value == scan_code_released
      then elim (read_buffer_last_byte k') [
        | none ↦ none
        | some (last, k'') ↦ some ((bit_or code last, true), k'')
      ]
      else some ((bit_or code value, released), k')
]

-- The loop: a buffer beyond any length that it can have is emptied, which leaves the call waiting.
unfoldable pub read_scan_code : Keyboard → Option ((ℕ × Bool) × Keyboard)
read_scan_code k = if ltb 0xff_ffff k.buffer_length then none else elim (read_buffer_last_byte k) [
  | none ↦ none
  | some (value, k') ↦
      if value == scan_code_extended
      then read_tail (scan_code_extended * 2 ^ 8) false k'
      else if value == scan_code_released
      then read_tail 0 true k'
      else some ((value, false), k')
]

unfoldable pub scan_code_map_index_of : Bool → Bool → ℕ
scan_code_map_index_of shift caps =
    if not shift && not caps
    then 0
    else if shift && not caps
    then 1
    else if not shift && caps
    then 2
    else 3

-- What a key does to the shift and caps lock state.
unfoldable pub press : ℕ → Bool → Keyboard → Keyboard
press code released k =
    let shift_action = (code == scan_code_left_shift) || (code == scan_code_right_shift) in
    let caps_lock_action = (code == scan_code_caps_lock) && not released in
    let shift = if shift_action then not released else k.shift_pressed in
    let caps =
      if shift_action
      then k.caps_lock_pressed
      else (if caps_lock_action then not k.caps_lock_pressed else k.caps_lock_pressed) in
    if shift_action || caps_lock_action
    then record k {
      shift_pressed = shift;
      caps_lock_pressed = caps;
      scan_code_map_index = scan_code_map_index_of shift caps;
    }
    else k

unfoldable pub get_input : Keyboard → Option (InputResult × Keyboard)
get_input k = elim (read_scan_code k) [
  | none ↦ none
  | some ((code, released), k') ↦
      let k'' = press code released k' in
      some
        (record { scan_code = code; released = released; map_index = k''.scan_code_map_index }, k'')
]
