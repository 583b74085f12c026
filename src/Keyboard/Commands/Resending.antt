-- ===== src/Keyboard/Commands/Resending.antt =====
-- How often SendByte sends a byte.
use dark_core.Prelude.{
  ℕ, zero, suc, ◌-◌, ◌≡◌, ◌≤◌, refl, ap, ◌∙◌, arith, Bool, true, false, ◌==◌, List, ◌∷◌, ◌++◌, some,
  replicate,
}
use dark_core.Keyboard.Commands.{
  Answered, send_byte, send_loop, answer_ack, answer_resend, resend_times_count,
}

-- A result with the answers that are left and the bytes that were sent.
abbrev pub answered : Bool → List ℕ → List ℕ → Answered Bool
answered result rest sent = some (result, record { answers = rest; sent = sent })

replicate-append : (n a : ℕ) (xs : List ℕ) → replicate n a ++ (a ∷ xs) ≡ a ∷ (replicate n a ++ xs)
replicate-append zero a xs = refl
replicate-append (suc n) a xs = ap (◌∷◌ a) (replicate-append n a xs)

send_loop-acknowledged :
    (k value times : ℕ) (rest sent : List ℕ)
    → k ≤ times
    → send_loop value times (replicate k answer_resend ++ (answer_ack ∷ rest)) sent
      ≡ answered true rest (replicate k value ++ sent)
unfolding send_loop
send_loop-acknowledged zero value times rest sent h = refl
send_loop-acknowledged (suc k) value times rest sent h =
    let more : (times == 0) ≡ false = ground arith in
    rw more (
      send_loop-acknowledged k value (times - 1) rest (value ∷ sent) (omega arith)
      ∙ ap (answered true rest) (replicate-append k value sent))

send_loop-refused :
    (times value : ℕ) (rest sent : List ℕ)
    → send_loop value times (replicate (suc times) answer_resend ++ rest) sent
      ≡ answered false rest (replicate times value ++ sent)
unfolding send_loop
send_loop-refused zero value rest sent = refl
send_loop-refused (suc times) value rest sent =
    let more : (suc times == 0) ≡ false = ground arith in
    let one : suc times - 1 ≡ times = omega arith in
    rw (more, one)
      (send_loop-refused times value rest (value ∷ sent)
        ∙ ap (answered false rest) (replicate-append times value sent))

-- SendByte sends a byte once more for each of up to five requests in front of the acknowledgement and
-- then succeeds; at the sixth request it fails, with the byte sent six times.
pub send_byte-resends :
    (value : ℕ) (rest sent : List ℕ)
    → ((k : ℕ)
        → k ≤ resend_times_count
        → send_byte value
            (record { answers = replicate k answer_resend ++ (answer_ack ∷ rest); sent = sent })
          ≡ answered true rest (replicate (suc k) value ++ sent))
      × (send_byte value (record { answers = replicate 6 answer_resend ++ rest; sent = sent })
          ≡ answered false rest (replicate 6 value ++ sent))
unfolding send_byte
send_byte-resends value rest sent = (
  λ k h.
      send_loop-acknowledged k value resend_times_count rest (value ∷ sent) h
      ∙ ap (answered true rest) (replicate-append k value sent),
  send_loop-refused 5 value rest (value ∷ sent),
)
