-- ===== src/Keyboard/Commands.antt =====
-- The commands to the keyboard of library/ps2/ps2-keyboard.cxx. Each answer is the byte that
-- ReadBufferLastByte returns next; a call that waits for one that does not come returns `none`.
use dark_core.Prelude.{
  ℕ, zero, suc, ◌+◌, ◌-◌, ◌%◌, ◌^◌, Bool, true, false, ◌&&◌, ◌||◌, ltb, leb, ◌==◌, if◌then◌else◌,
  List, [], ◌∷◌, Option, none, some,
}
pub mod Resending

abbrev pub command_echo : ℕ
command_echo = 0xee

abbrev pub command_get_set_scan_code_set : ℕ
command_get_set_scan_code_set = 0xf0

abbrev pub command_identify : ℕ
command_identify = 0xf2

abbrev pub command_enable_scanning : ℕ
command_enable_scanning = 0xf4

abbrev pub command_disable_scanning : ℕ
command_disable_scanning = 0xf5

abbrev pub command_reset : ℕ
command_reset = 0xff

abbrev pub answer_reset_done : ℕ
answer_reset_done = 0xaa

abbrev pub answer_echo : ℕ
answer_echo = 0xee

abbrev pub answer_ack : ℕ
answer_ack = 0xfa

abbrev pub answer_resend : ℕ
answer_resend = 0xfe

abbrev pub scan_code_set_unknown : ℕ
scan_code_set_unknown = 0xff

abbrev pub type_unknown : ℕ
type_unknown = 0xff

abbrev pub resend_times_count : ℕ
resend_times_count = 5

-- The answers to come, and the bytes that were sent, the last one first.
pub record Line : Type 0 where
  pub answers : List ℕ
  pub sent : List ℕ

-- What a command returns and leaves.
abbrev pub Answered : Type 0 → Type 0
Answered A = Option (A × Line)

abbrev pub next_answer : List ℕ → List ℕ → Answered ℕ
next_answer [] sent = none
next_answer (a ∷ rest) sent = some (a, record { answers = rest; sent = sent })

unfoldable pub read_answer : Line → Answered ℕ
read_answer line = next_answer line.answers line.sent

-- The loop of SendByte, with the resends that are left.
unfoldable pub send_loop : ℕ → ℕ → List ℕ → List ℕ → Answered Bool
send_loop value times [] sent = none
send_loop value times (a ∷ rest) sent =
    let again = send_loop value (times - 1) rest (value ∷ sent) in
    let after : Line = record { answers = rest; sent = sent } in
    if a == answer_resend
    then (if times == 0 then some (false, after) else again)
    else some (a == answer_ack, after)

unfoldable pub send_byte : ℕ → Line → Answered Bool
send_byte value line = send_loop value resend_times_count line.answers (value ∷ line.sent)

-- A command whose answer behind the acknowledgement must be a given one.
unfoldable pub expect : ℕ → Answered Bool → Answered Bool
expect answer none = none
expect answer (some (false, line)) = some (false, line)
expect answer (some (true, line)) = elim (read_answer line) [
  | none ↦ none
  | some (a, after) ↦ some (a == answer, after)
]

unfoldable pub echo : Line → Answered Bool
echo line = expect answer_echo (send_byte command_echo line)

unfoldable pub reset : Line → Answered Bool
reset line = expect answer_reset_done (send_byte command_reset line)

unfoldable pub lock_input : Line → Answered Bool
lock_input line = send_byte command_disable_scanning line

unfoldable pub unlock_input : Line → Answered Bool
unlock_input line = send_byte command_enable_scanning line

-- The number of a scan code set for an answer; real hardware translates it.
unfoldable pub scan_code_set_of : ℕ → ℕ
scan_code_set_of a =
    if a == 0x43
    then 1
    else if a == 0x41
    then 2
    else if a == 0x3f
    then 3
    else if leb 1 a && leb a 3
    then a
    else scan_code_set_unknown

unfoldable pub get_scan_code_set : Line → Answered ℕ
get_scan_code_set line = elim (send_byte command_get_set_scan_code_set line) [
  | none ↦ none
  | some (false, after) ↦ some (scan_code_set_unknown, after)
  | some (true, after) ↦ elim (send_byte 0 after) [
    | none ↦ none
    | some (false, last) ↦ some (scan_code_set_unknown, last)
    | some (true, last) ↦ elim (read_answer last) [
      | none ↦ none
      | some (a, final) ↦ some (scan_code_set_of a, final)
    ]
  ]
]

unfoldable pub set_scan_code_set : ℕ → Line → Answered Bool
set_scan_code_set index line =
    if (index == 0) || ltb 3 index
    then some (false, line)
    else elim (send_byte command_get_set_scan_code_set line) [
      | none ↦ none
      | some (false, after) ↦ some (false, after)
      | some (true, after) ↦ send_byte (index % 2 ^ 8) after
    ]

-- The type behind the prefix of its answer.
unfoldable pub type_of : ℕ → ℕ
type_of a = if a == 0x83 then 1 else if (a == 0x41) || (a == 0xc1) then 2 else type_unknown

unfoldable pub identify : Line → Answered ℕ
identify line = elim (send_byte command_identify line) [
  | none ↦ none
  | some (false, after) ↦ some (0, after)
  | some (true, after) ↦ elim (read_answer after) [
    | none ↦ none
    | some (prefix, last) ↦
        if prefix == 0xab
        then elim (read_answer last) [ none ↦ none | some (a, final) ↦ some (type_of a, final) ]
        else some (type_unknown, last)
  ]
]

abbrev then_unlock : Answered ℕ → Answered ℕ
then_unlock none = none
then_unlock (some (value, line)) = elim (unlock_input line) [
  | none ↦ none
  | some (unlocked, after) ↦ some (value, after)
]

unfoldable pub get_type : Line → Answered ℕ
get_type line = elim (lock_input line) [
  | none ↦ none
  | some (false, after) ↦ then_unlock (some (type_unknown, after))
  | some (true, after) ↦ then_unlock (identify after)
]
