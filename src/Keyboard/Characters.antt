-- ===== src/Keyboard/Characters.antt =====
-- The maps from scan codes to characters of library/ps2/ps2-keyboard.hxx, and ReadChar of
-- library/ps2/ps2-keyboard.cxx.
use dark_core.Prelude.{
  ℕ, zero, suc, ◌||◌, leb, ◌==◌, if◌then◌else◌, List, [], ◌∷◌, Option, none, some, get_or,
}
use dark_core.Keyboard.{Keyboard, InputResult, scan_code_caps_lock, get_input}

abbrev pub scan_code_map_no_shift_no_caps_lock : List ℕ
scan_code_map_no_shift_no_caps_lock =
    0 ∷ 0 ∷ 0 ∷ 0 ∷ 0 ∷ 0 ∷ 0 ∷ 0 ∷ 0 ∷ 0 ∷ 0 ∷ 0 ∷ 0 ∷ 9 ∷ 96 ∷ 0 ∷ 0 ∷ 0 ∷ 0 ∷ 0 ∷ 0 ∷ 113 ∷ 49
    ∷ 0 ∷ 0 ∷ 0 ∷ 122 ∷ 115 ∷ 97 ∷ 119 ∷ 50 ∷ 0 ∷ 0 ∷ 99 ∷ 120 ∷ 100 ∷ 101 ∷ 52 ∷ 51 ∷ 0 ∷ 0 ∷ 32
    ∷ 118 ∷ 102 ∷ 116 ∷ 114 ∷ 53 ∷ 0 ∷ 0 ∷ 110 ∷ 98 ∷ 104 ∷ 103 ∷ 121 ∷ 54 ∷ 0 ∷ 0 ∷ 0 ∷ 109 ∷ 106
    ∷ 117 ∷ 55 ∷ 56 ∷ 0 ∷ 0 ∷ 44 ∷ 107 ∷ 105 ∷ 111 ∷ 48 ∷ 57 ∷ 0 ∷ 0 ∷ 46 ∷ 47 ∷ 108 ∷ 59 ∷ 112 ∷ 45
    ∷ 0 ∷ 0 ∷ 0 ∷ 39 ∷ 0 ∷ 91 ∷ 61 ∷ 0 ∷ 0 ∷ 0 ∷ 0 ∷ 10 ∷ 93 ∷ 0 ∷ 92 ∷ 0 ∷ 0 ∷ 0 ∷ 0 ∷ 0 ∷ 0 ∷ 0
    ∷ 0 ∷ 8 ∷ 0 ∷ 0 ∷ 49 ∷ 0 ∷ 52 ∷ 55 ∷ 0 ∷ 0 ∷ 0 ∷ 48 ∷ 46 ∷ 50 ∷ 53 ∷ 54 ∷ 56 ∷ 0 ∷ 0 ∷ 0 ∷ 43
    ∷ 51 ∷ 45 ∷ 42 ∷ 57 ∷ 0 ∷ 0 ∷ []

abbrev pub scan_code_map_shift_no_caps_lock : List ℕ
scan_code_map_shift_no_caps_lock =
    0 ∷ 0 ∷ 0 ∷ 0 ∷ 0 ∷ 0 ∷ 0 ∷ 0 ∷ 0 ∷ 0 ∷ 0 ∷ 0 ∷ 0 ∷ 9 ∷ 126 ∷ 0 ∷ 0 ∷ 0 ∷ 0 ∷ 0 ∷ 0 ∷ 81 ∷ 33
    ∷ 0 ∷ 0 ∷ 0 ∷ 90 ∷ 83 ∷ 65 ∷ 87 ∷ 64 ∷ 0 ∷ 0 ∷ 67 ∷ 88 ∷ 68 ∷ 69 ∷ 36 ∷ 35 ∷ 0 ∷ 0 ∷ 32 ∷ 86
    ∷ 70 ∷ 84 ∷ 82 ∷ 37 ∷ 0 ∷ 0 ∷ 78 ∷ 66 ∷ 72 ∷ 71 ∷ 89 ∷ 94 ∷ 0 ∷ 0 ∷ 0 ∷ 77 ∷ 74 ∷ 85 ∷ 38 ∷ 42
    ∷ 0 ∷ 0 ∷ 60 ∷ 75 ∷ 73 ∷ 79 ∷ 41 ∷ 40 ∷ 0 ∷ 0 ∷ 46 ∷ 47 ∷ 76 ∷ 59 ∷ 112 ∷ 45 ∷ 0 ∷ 0 ∷ 0 ∷ 34
    ∷ 0 ∷ 123 ∷ 43 ∷ 0 ∷ 0 ∷ 0 ∷ 0 ∷ 10 ∷ 125 ∷ 0 ∷ 124 ∷ 0 ∷ 0 ∷ 0 ∷ 0 ∷ 0 ∷ 0 ∷ 0 ∷ 0 ∷ 8 ∷ 0 ∷ 0
    ∷ 49 ∷ 0 ∷ 52 ∷ 55 ∷ 0 ∷ 0 ∷ 0 ∷ 48 ∷ 46 ∷ 50 ∷ 53 ∷ 54 ∷ 56 ∷ 0 ∷ 0 ∷ 0 ∷ 43 ∷ 51 ∷ 45 ∷ 42
    ∷ 57 ∷ 0 ∷ 0 ∷ []

abbrev pub scan_code_map_no_shift_caps_lock : List ℕ
scan_code_map_no_shift_caps_lock =
    0 ∷ 0 ∷ 0 ∷ 0 ∷ 0 ∷ 0 ∷ 0 ∷ 0 ∷ 0 ∷ 0 ∷ 0 ∷ 0 ∷ 0 ∷ 9 ∷ 96 ∷ 0 ∷ 0 ∷ 0 ∷ 0 ∷ 0 ∷ 0 ∷ 81 ∷ 49 ∷ 0
    ∷ 0 ∷ 0 ∷ 90 ∷ 83 ∷ 65 ∷ 87 ∷ 50 ∷ 0 ∷ 0 ∷ 67 ∷ 88 ∷ 68 ∷ 69 ∷ 52 ∷ 51 ∷ 0 ∷ 0 ∷ 32 ∷ 86 ∷ 70
    ∷ 84 ∷ 82 ∷ 53 ∷ 0 ∷ 0 ∷ 78 ∷ 66 ∷ 72 ∷ 71 ∷ 89 ∷ 54 ∷ 0 ∷ 0 ∷ 0 ∷ 77 ∷ 74 ∷ 85 ∷ 55 ∷ 56 ∷ 0
    ∷ 0 ∷ 44 ∷ 75 ∷ 73 ∷ 79 ∷ 48 ∷ 57 ∷ 0 ∷ 0 ∷ 46 ∷ 47 ∷ 76 ∷ 59 ∷ 80 ∷ 45 ∷ 0 ∷ 0 ∷ 0 ∷ 39 ∷ 0
    ∷ 91 ∷ 61 ∷ 0 ∷ 0 ∷ 0 ∷ 0 ∷ 10 ∷ 93 ∷ 0 ∷ 92 ∷ 0 ∷ 0 ∷ 0 ∷ 0 ∷ 0 ∷ 0 ∷ 0 ∷ 0 ∷ 8 ∷ 0 ∷ 0 ∷ 49
    ∷ 0 ∷ 52 ∷ 55 ∷ 0 ∷ 0 ∷ 0 ∷ 48 ∷ 46 ∷ 50 ∷ 53 ∷ 54 ∷ 56 ∷ 0 ∷ 0 ∷ 0 ∷ 43 ∷ 51 ∷ 45 ∷ 42 ∷ 57 ∷ 0
    ∷ 0 ∷ []

abbrev pub scan_code_map_shift_caps_lock : List ℕ
scan_code_map_shift_caps_lock =
    0 ∷ 0 ∷ 0 ∷ 0 ∷ 0 ∷ 0 ∷ 0 ∷ 0 ∷ 0 ∷ 0 ∷ 0 ∷ 0 ∷ 0 ∷ 9 ∷ 126 ∷ 0 ∷ 0 ∷ 0 ∷ 0 ∷ 0 ∷ 0 ∷ 113 ∷ 33
    ∷ 0 ∷ 0 ∷ 0 ∷ 122 ∷ 115 ∷ 97 ∷ 119 ∷ 64 ∷ 0 ∷ 0 ∷ 99 ∷ 120 ∷ 100 ∷ 101 ∷ 36 ∷ 35 ∷ 0 ∷ 0 ∷ 32
    ∷ 118 ∷ 102 ∷ 116 ∷ 114 ∷ 37 ∷ 0 ∷ 0 ∷ 110 ∷ 98 ∷ 104 ∷ 103 ∷ 121 ∷ 94 ∷ 0 ∷ 0 ∷ 0 ∷ 109 ∷ 106
    ∷ 117 ∷ 38 ∷ 42 ∷ 0 ∷ 0 ∷ 60 ∷ 107 ∷ 105 ∷ 111 ∷ 41 ∷ 40 ∷ 0 ∷ 0 ∷ 62 ∷ 63 ∷ 108 ∷ 58 ∷ 112 ∷ 95
    ∷ 0 ∷ 0 ∷ 0 ∷ 34 ∷ 0 ∷ 123 ∷ 43 ∷ 0 ∷ 0 ∷ 0 ∷ 0 ∷ 10 ∷ 125 ∷ 0 ∷ 124 ∷ 0 ∷ 0 ∷ 0 ∷ 0 ∷ 0 ∷ 0 ∷ 0
    ∷ 0 ∷ 8 ∷ 0 ∷ 0 ∷ 49 ∷ 0 ∷ 52 ∷ 55 ∷ 0 ∷ 0 ∷ 0 ∷ 48 ∷ 46 ∷ 50 ∷ 53 ∷ 54 ∷ 56 ∷ 0 ∷ 0 ∷ 0 ∷ 43
    ∷ 51 ∷ 45 ∷ 42 ∷ 57 ∷ 0 ∷ 0 ∷ []

unfoldable pub get_scan_code_map_by_index : ℕ → Option (List ℕ)
get_scan_code_map_by_index index =
    if index == 0
    then some scan_code_map_no_shift_no_caps_lock
    else if index == 1
    then some scan_code_map_shift_no_caps_lock
    else if index == 2
    then some scan_code_map_no_shift_caps_lock
    else if index == 3
    then some scan_code_map_shift_caps_lock
    else none

-- The character of a key, 0 for a result that ReadChar passes over.
unfoldable pub character_of : InputResult → List ℕ → ℕ
character_of result scan_code_map =
    if result.released || (result.scan_code == scan_code_caps_lock) || leb 0x80 result.scan_code
    then 0
    else get_or scan_code_map result.scan_code 0

-- The loop, with a bound on the keys; `none` where the call goes on waiting. A map is there for every
-- index that GetInput gives.
unfoldable pub read_char_keys : ℕ → Keyboard → Option (ℕ × Keyboard)
read_char_keys zero k = none
read_char_keys (suc n) k = elim (get_input k) [
  | none ↦ none
  | some (result, k') ↦ elim (get_scan_code_map_by_index result.map_index) [
    | none ↦ none
    | some scan_code_map ↦
        let c = character_of result scan_code_map in
        let rest = read_char_keys n k' in if c == 0 then rest else some (c, k')
  ]
]

-- Each key takes a byte of the buffer at least.
unfoldable pub read_key_char : Keyboard → Option (ℕ × Keyboard)
read_key_char k = read_char_keys k.buffer_length k
