-- ===== src/Pmm/Zone/Runs.antt =====
-- The loops over a run of frames, one frame at a time and by index.
use dark_core.Prelude.{
  ℕ, zero, suc, ◌+◌, ◌-◌, ◌^◌, ◌≤◌, ◌<◌, ◌≡◌, refl, ◌∙◌, length-modify, get_or-modify_self,
  get_or-modify_ne, arith, Bool, true, false, List, ◌∷◌, length, get_or, modify, bit_and, bit_or,
  if◌then◌else◌, ltb, leb, ◌&&◌, bit_and-one, bit_or_low, bit_and_low, Option, some, none,
  Bool-cases, inl, inr, ◌==◌,
}
use dark_core.Pmm.Zone.{
  Frame, no_frame, is_busy, set_busy, clear_busy, frames_free, mark_busy, mark_free, find_run,
  find_frame, take_run, release_run, set_count,
}

pub is_busy-set_busy : (f : Frame) → is_busy (set_busy f) ≡ true
unfolding is_busy set_busy
is_busy-set_busy f = ground (arith, bit_and-one (bit_or f.flags 1), bit_or_low f.flags 1)

pub is_busy-clear_busy : (f : Frame) → is_busy (clear_busy f) ≡ false
unfolding is_busy clear_busy
is_busy-clear_busy f =
    ground (arith, bit_and-one (bit_and f.flags (2 ^ 32 - 2)), bit_and_low f.flags (2 ^ 32 - 2))

-- The loops skip the frames in front of the run.
pub frames_free-cons :
    (n k : ℕ) (f : Frame) (fs : List Frame) → frames_free n (suc k) (f ∷ fs) ≡ frames_free n k fs
unfolding frames_free
frames_free-cons zero k f fs = refl
frames_free-cons (suc n) k f fs = rw (frames_free-cons n (suc k) f fs)

pub mark_busy-cons :
    (n k : ℕ) (f : Frame) (fs : List Frame) → mark_busy n (suc k) (f ∷ fs) ≡ f ∷ mark_busy n k fs
unfolding mark_busy
mark_busy-cons zero k f fs = refl
mark_busy-cons (suc n) k f fs = mark_busy-cons n (suc k) f (modify fs k set_busy)

pub mark_free-cons :
    (n k : ℕ) (f : Frame) (fs : List Frame) → mark_free n (suc k) (f ∷ fs) ≡ f ∷ mark_free n k fs
unfolding mark_free
mark_free-cons zero k f fs = refl
mark_free-cons (suc n) k f fs = mark_free-cons n (suc k) f (modify fs k clear_busy)

-- The flag of a frame, and whether an index lies in a run.
abbrev pub busy_at : List Frame → ℕ → Bool
busy_at frames i = is_busy (get_or frames i no_frame)

abbrev pub in_run : ℕ → ℕ → ℕ → Bool
in_run start count i = leb start i && ltb i (start + count)

pub length-mark_busy :
    (n k : ℕ) (frames : List Frame) → length (mark_busy n k frames) ≡ length frames
unfolding mark_busy
length-mark_busy zero k fs = refl
length-mark_busy (suc n) k fs =
    length-mark_busy n (suc k) (modify fs k set_busy) ∙ length-modify fs k set_busy

pub length-mark_free :
    (n k : ℕ) (frames : List Frame) → length (mark_free n k frames) ≡ length frames
unfolding mark_free
length-mark_free zero k fs = refl
length-mark_free (suc n) k fs =
    length-mark_free n (suc k) (modify fs k clear_busy) ∙ length-modify fs k clear_busy

-- Marking a run changes the flags of its frames and nothing else.
pub get_or-mark_busy :
    (n k : ℕ) (frames : List Frame) (i : ℕ)
    → k + n ≤ length frames
    → get_or (mark_busy n k frames) i no_frame
      ≡ (if in_run k n i then set_busy (get_or frames i no_frame) else get_or frames i no_frame)
unfolding mark_busy
get_or-mark_busy zero k fs i h = ground arith
get_or-mark_busy (suc n) k fs i h = ground (
  arith,
  length-modify fs k set_busy,
  get_or-mark_busy n (suc k) (modify fs k set_busy) i,
  get_or-modify_self fs k set_busy no_frame,
  get_or-modify_ne fs k i set_busy no_frame,
)

pub get_or-mark_free :
    (n k : ℕ) (frames : List Frame) (i : ℕ)
    → k + n ≤ length frames
    → get_or (mark_free n k frames) i no_frame
      ≡ (if in_run k n i then clear_busy (get_or frames i no_frame) else get_or frames i no_frame)
unfolding mark_free
get_or-mark_free zero k fs i h = ground arith
get_or-mark_free (suc n) k fs i h = ground (
  arith,
  length-modify fs k clear_busy,
  get_or-mark_free n (suc k) (modify fs k clear_busy) i,
  get_or-modify_self fs k clear_busy no_frame,
  get_or-modify_ne fs k i clear_busy no_frame,
)

-- The test of a run looks at each of its frames.
pub frames_free-busy_at :
    (n k : ℕ) (frames : List Frame) (i : ℕ)
    → frames_free n k frames ≡ true
    → k ≤ i
    → i < k + n
    → busy_at frames i ≡ false
unfolding frames_free
frames_free-busy_at zero k fs i e lo hi = absurd (omega arith)
frames_free-busy_at (suc n) k fs i e lo hi = ground (arith, frames_free-busy_at n (suc k) fs i)

pub busy_at-frames_free :
    (n k : ℕ) (frames : List Frame)
    → ((i : ℕ) → k ≤ i → i < k + n → busy_at frames i ≡ false)
    → frames_free n k frames ≡ true
unfolding frames_free
busy_at-frames_free zero k fs all = refl
busy_at-frames_free (suc n) k fs all =
    ground (
      arith,
      all k,
      busy_at-frames_free n (suc k) fs (λ i lo hi. all i (omega arith) (omega arith)),
    )

-- What the search for a run answers: the first index from `j` on, of `rounds`, where one starts.
abbrev pub FindsRun : ℕ → ℕ → ℕ → List Frame → Option ℕ → Type 0
FindsRun rounds j count frames none =
    (i : ℕ) → j ≤ i → i < j + rounds → frames_free count i frames ≡ false
FindsRun rounds j count frames (some found) =
    (j ≤ found)
    × (found < j + rounds)
    × (frames_free count found frames ≡ true)
    × ((i : ℕ) → j ≤ i → i < found → frames_free count i frames ≡ false)

pub find_run-FindsRun :
    (rounds j count : ℕ) (frames : List Frame)
    → FindsRun rounds j count frames (find_run rounds j count frames)
unfolding find_run
find_run-FindsRun zero j count fs = λ i lo hi. absurd (omega arith)
find_run-FindsRun (suc r) j count fs = elim (Bool-cases (frames_free count j fs)) [
  | inl hit ↦ rw hit (omega arith, omega arith, hit, λ i lo hi. absurd (omega arith))
  | inr miss ↦
      rw miss (later miss (find_run r (suc j) count fs) (find_run-FindsRun r (suc j) count fs))
]
  where
    later :
        frames_free count j fs ≡ false
        → (o : Option ℕ) → FindsRun r (suc j) count fs o
        → FindsRun (suc r) j count fs o
    later miss none f = λ i lo hi. ground (arith, f i)
    later miss (some k) f = (omega arith, omega arith, f.2, λ i lo hi. ground (arith, f.3 i))

-- What the search for a frame answers: the first index from `j` on, of `rounds`, with the address.
abbrev pub at_address : ℕ → List Frame → ℕ → Bool
at_address address frames i = (get_or frames i no_frame).buffer_address == address

abbrev pub FindsFrame : ℕ → ℕ → ℕ → List Frame → Option ℕ → Type 0
FindsFrame rounds j address frames none =
    (i : ℕ) → j ≤ i → i < j + rounds → at_address address frames i ≡ false
FindsFrame rounds j address frames (some found) =
    (j ≤ found)
    × (found < j + rounds)
    × (at_address address frames found ≡ true)
    × ((i : ℕ) → j ≤ i → i < found → at_address address frames i ≡ false)

pub find_frame-FindsFrame :
    (rounds j address : ℕ) (frames : List Frame)
    → FindsFrame rounds j address frames (find_frame rounds j address frames)
unfolding find_frame
find_frame-FindsFrame zero j a fs = λ i lo hi. absurd (omega arith)
find_frame-FindsFrame (suc r) j a fs = elim (Bool-cases (at_address a fs j)) [
  | inl hit ↦ rw hit (omega arith, omega arith, hit, λ i lo hi. absurd (omega arith))
  | inr miss ↦
      rw miss (later miss (find_frame r (suc j) a fs) (find_frame-FindsFrame r (suc j) a fs))
]
  where
    later :
        at_address a fs j ≡ false
        → (o : Option ℕ) → FindsFrame r (suc j) a fs o
        → FindsFrame (suc r) j a fs o
    later miss none f = λ i lo hi. ground (arith, f i)
    later miss (some k) f = (omega arith, omega arith, f.2, λ i lo hi. ground (arith, f.3 i))

pub length-take_run : (j n : ℕ) (frames : List Frame) → length (take_run j n frames) ≡ length frames
unfolding take_run
length-take_run j n fs =
    length-mark_busy n j (modify fs j (set_count n)) ∙ length-modify fs j (set_count n)

pub length-release_run :
    (j : ℕ) (frames : List Frame) → length (release_run j frames) ≡ length frames
unfolding release_run
length-release_run j fs =
    length-mark_free (get_or fs j no_frame).busy_count j (modify fs j (set_count 0))
    ∙ length-modify fs j (set_count 0)
