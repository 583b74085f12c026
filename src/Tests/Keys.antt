-- ===== src/Tests/Keys.antt =====
-- The keyboard on the bytes of two keys.
use dark_core.Prelude.{
  ℕ, suc, ◌≤◌, ◌<◌, ◌≡◌, refl, arith, true, false, some, List, [], ◌∷◌, ◌++◌, replicate,
}
use dark_core.Keyboard.{
  Keyboard, InputResult, max_buffer_length, irq_handler, get_input, scan_code_map_index_of,
}
use dark_core.Keyboard.Queue.{
  Waits, receive, drain, receive-Waits, drain-receive, irq_handler-within,
}
use dark_core.Keyboard.Decoding.{
  IsCode, IsMapped, encode, full_code, shift_after, caps_after, get_input-encode,
}
use dark_core.Keyboard.Commands.{send_byte, answer_ack, answer_resend, resend_times_count}
use dark_core.Keyboard.Commands.Resending.{answered, send_byte-resends}

abbrev quiet : Keyboard
quiet = record {
  buffer = λ p. 0;
  buffer_length = 0;
  scan_code_map_index = 0;
  shift_pressed = false;
  caps_lock_pressed = false;
}

-- The left shift goes down, then a cursor key comes up.
abbrev bytes : List ℕ
bytes = encode false false 0x12 ++ encode true true 0x6b

quiet-Waits : Waits [] quiet
quiet-Waits = record { counted = refl; order = λ i lo. absurd (omega arith) }

drain-receive_example : drain 4 (receive bytes quiet) ≡ bytes
drain-receive_example = drain-receive bytes quiet refl (omega arith)

irq_handler-within_example :
    ((irq_handler 7 quiet).buffer_length ≤ suc max_buffer_length)
    × ((p : ℕ) → max_buffer_length < p → (irq_handler 7 quiet).buffer p ≡ quiet.buffer p)
irq_handler-within_example = irq_handler-within 7 quiet

received-small : (receive bytes quiet).buffer_length ≤ suc max_buffer_length
unfolding irq_handler
received-small = omega arith

received-IsMapped : IsMapped (receive bytes quiet)
unfolding irq_handler scan_code_map_index_of
received-IsMapped = refl

left_shift-IsCode : IsCode 0x12
left_shift-IsCode = record { byte = omega arith; no_prefix = refl; no_mark = refl }

get_input-encode_example :
    let k = receive bytes quiet in
    (r : InputResult) × (k' : Keyboard) × (get_input k ≡ some (r, k'))
    × (r.scan_code ≡ full_code false 0x12)
    × (r.released ≡ false)
    × (r.map_index ≡ k'.scan_code_map_index)
    × IsMapped k'
    × (k'.shift_pressed ≡ shift_after (full_code false 0x12) false k.shift_pressed)
    × (k'.caps_lock_pressed ≡ caps_after (full_code false 0x12) false k.caps_lock_pressed)
    × Waits (encode true true 0x6b) k'
get_input-encode_example =
    get_input-encode false false 0x12 (encode true true 0x6b) (receive bytes quiet)
      left_shift-IsCode received-small received-IsMapped
      (receive-Waits bytes [] quiet quiet-Waits (omega arith))

-- The echo command, with the line as it is before any command.
send_byte-resends_example :
    ((k : ℕ)
      → k ≤ resend_times_count
      → send_byte 0xee
          (record { answers = replicate k answer_resend ++ (answer_ack ∷ 0xee ∷ []); sent = [] })
        ≡ answered true (0xee ∷ []) (replicate (suc k) 0xee ++ []))
    × (send_byte 0xee (record { answers = replicate 6 answer_resend ++ (0xee ∷ []); sent = [] })
        ≡ answered false (0xee ∷ []) (replicate 6 0xee ++ []))
send_byte-resends_example = send_byte-resends 0xee (0xee ∷ []) []
