-- ===== src/Tests/Common.antt =====
-- Alignment, memory and text on small inputs.
use dark_core.Prelude.{ℕ, ◌%◌, ◌≡◌, arith, List, [], ◌∷◌, inl, some, replicate}
use dark_core.Common.Memory.{Memory, copy}
use dark_core.Common.Memory.Copying.{copied, copy-copied}
use dark_core.Common.Text.{get_length, get_string, get_value_length}
use dark_core.Common.Text.Content.{text, get_length-text}
use dark_core.Common.Text.Numerals.{read_numeral, get_string-reads_back}

abbrev counting : Memory
counting = λ p. p % 256

-- Six bytes, down by two: the buffers overlap.
copy-copied_example : copy 10 12 6 counting 11 ≡ copied 10 12 6 counting 11
copy-copied_example = copy-copied 10 12 6 counting 11 (inl (omega arith))

abbrev zeros : Memory
zeros = λ p. 0

abbrev path : List ℕ
path = b'a' ∷ b'/' ∷ b'b' ∷ b'/' ∷ b'c' ∷ 0 ∷ b'/' ∷ []

abbrev slash : List ℕ
slash = b'/' ∷ []

get_length-text_example : get_length path ≡ 5
get_length-text_example = get_length-text path

path_length : get_length path ≡ 5
path_length = get_length-text path

slash_length : get_length slash ≡ 1
slash_length = get_length-text slash

get_string-reads_back_example :
    (after : List ℕ) × (get_string (replicate 65 0) 0xbeef 16 ≡ some after)
    × (read_numeral 16 0 (text after) ≡ 0xbeef)
    × (get_length after ≡ get_value_length 0xbeef 16)
get_string-reads_back_example =
    get_string-reads_back (replicate 65 0) 0xbeef 16 (omega arith) (omega arith) (omega arith)
      (omega arith)
