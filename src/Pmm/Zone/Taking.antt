-- ===== src/Pmm/Zone/Taking.antt =====
-- The frames of a zone after a run of them has been taken or released.
use dark_core.Prelude.{
  ℕ, ◌+◌, ◌≤◌, ◌<◌, ◌≡◌, refl, arith, List, length, true, false, if◌then◌else◌, ◌==◌, get_or,
  modify, length-modify, get_or-modify_self, get_or-modify_ne,
}
use dark_core.Pmm.Zone.{
  Frame, no_frame, set_count, set_busy, clear_busy, is_busy, take_run, release_run,
}
use dark_core.Pmm.Zone.Runs.{
  busy_at, in_run, get_or-mark_busy, get_or-mark_free, is_busy-set_busy, is_busy-clear_busy,
}

is_busy-set_count : (n : ℕ) (f : Frame) → is_busy (set_count n f) ≡ is_busy f
unfolding is_busy
is_busy-set_count n f = refl

-- The frames of a zone when the run of `n` frames from `j` on has been taken: these are busy and
-- no other flag has changed; the first one holds the length; no buffer has moved.
pub record Taken (n j : ℕ) (before after : List Frame) : Type 0 where
  pub run_busy : (k : ℕ) → busy_at after k ≡ (if in_run j n k then true else busy_at before k)
  pub run_length : (get_or after j no_frame).busy_count ≡ n
  pub same_buffers :
      (k : ℕ) → (get_or after k no_frame).buffer_address ≡ (get_or before k no_frame).buffer_address

same_buffer : (f : Frame) → (set_busy f).buffer_address ≡ f.buffer_address
unfolding set_busy
same_buffer f = refl

same_count : (f : Frame) → (set_busy f).busy_count ≡ f.busy_count
unfolding set_busy
same_count f = refl

module _ (n j : ℕ) (fs : List Frame) (pos : 0 < n) (h : j + n ≤ length fs) where
  -- A frame of the table when the run has been taken.
  read :
      (k : ℕ)
      → get_or (take_run j n fs) k no_frame ≡ (
          if in_run j n k
          then set_busy
              (if j == k then set_count n (get_or fs k no_frame) else get_or fs k no_frame)
          else get_or fs k no_frame)
  unfolding take_run
  read k = ground (
    arith,
    length-modify fs j (set_count n),
    get_or-mark_busy n j (modify fs j (set_count n)) k,
    get_or-modify_self fs j (set_count n) no_frame,
    get_or-modify_ne fs j k (set_count n) no_frame,
  )

  pub take_run-Taken : Taken n j fs (take_run j n fs)
  take_run-Taken = record {
    run_busy = λ k. ground (
      arith,
      read k,
      is_busy-set_busy (get_or fs k no_frame),
      is_busy-set_busy (set_count n (get_or fs k no_frame)),
    );
    run_length = ground (arith, read j, same_count (set_count n (get_or fs j no_frame)));
    same_buffers = λ k. ground (
      arith,
      read k,
      same_buffer (get_or fs k no_frame),
      same_buffer (set_count n (get_or fs k no_frame)),
    );
  }

-- The frames of a zone when the run of `n` frames from `j` on has been released.
pub record Released (n j : ℕ) (before after : List Frame) : Type 0 where
  pub run_free : (k : ℕ) → busy_at after k ≡ (if in_run j n k then false else busy_at before k)
  pub run_length : (get_or after j no_frame).busy_count ≡ 0
  pub same_buffers :
      (k : ℕ) → (get_or after k no_frame).buffer_address ≡ (get_or before k no_frame).buffer_address

cleared_buffer : (f : Frame) → (clear_busy f).buffer_address ≡ f.buffer_address
unfolding clear_busy
cleared_buffer f = refl

cleared_count : (f : Frame) → (clear_busy f).busy_count ≡ f.busy_count
unfolding clear_busy
cleared_count f = refl

module _ (n j : ℕ) (fs : List Frame) (e : (get_or fs j no_frame).busy_count ≡ n)
    (in_table : j < length fs) (h : j + n ≤ length fs) where
  read_released :
      (k : ℕ)
      → get_or (release_run j fs) k no_frame ≡ (
          if in_run j n k
          then clear_busy
              (if j == k then set_count 0 (get_or fs k no_frame) else get_or fs k no_frame)
          else (if j == k then set_count 0 (get_or fs k no_frame) else get_or fs k no_frame))
  unfolding release_run
  read_released k = rw e (
      ground (
        arith,
        length-modify fs j (set_count 0),
        get_or-mark_free n j (modify fs j (set_count 0)) k,
        get_or-modify_self fs j (set_count 0) no_frame,
        get_or-modify_ne fs j k (set_count 0) no_frame,
      ))

  pub release_run-Released : Released n j fs (release_run j fs)
  release_run-Released = record {
    run_free = λ k. ground (
      arith,
      read_released k,
      is_busy-clear_busy (get_or fs k no_frame),
      is_busy-set_count 0 (get_or fs k no_frame),
      is_busy-clear_busy (set_count 0 (get_or fs k no_frame)),
    );
    run_length =
        ground (arith, read_released j, cleared_count (set_count 0 (get_or fs j no_frame)));
    same_buffers = λ k. ground (
      arith,
      read_released k,
      cleared_buffer (get_or fs k no_frame),
      cleared_buffer (set_count 0 (get_or fs k no_frame)),
    );
  }
