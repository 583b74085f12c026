-- ===== src/Pmm/Zone.antt =====
-- The frame descriptors of one region, as the loops of AllocatePhysicalMemory and
-- FreePhysicalMemory read and write them. Indices stay below the frame count plus one, so that none
-- of them wraps.
use dark_core.Prelude.{
  ℕ, zero, suc, ◌+◌, ◌-◌, ◌^◌, Bool, true, false, ltb, leb, ◌==◌, if◌then◌else◌, List, [], ◌∷◌,
  Option, none, some, get_or, modify, bit_and, bit_or, not,
}
pub mod Runs
pub mod Buffers
pub mod Taking
pub mod Tiling

pub record Frame : Type 0 where
  pub buffer_address : ℕ
  pub busy_count : ℕ
  pub flags : ℕ

abbrev pub frame_busy : ℕ
frame_busy = 1

-- A descriptor beyond the table, which the loops do not reach.
abbrev pub no_frame : Frame
no_frame = record { buffer_address = 0; busy_count = 0; flags = 0 }

unfoldable pub is_busy : Frame → Bool
is_busy f = not (bit_and f.flags frame_busy == 0)

unfoldable pub set_busy : Frame → Frame
set_busy f = record f { flags = bit_or f.flags frame_busy }

unfoldable pub clear_busy : Frame → Frame
clear_busy f = record f { flags = bit_and f.flags (2 ^ 32 - 1 - frame_busy) }

abbrev pub set_count : ℕ → Frame → Frame
set_count n f = record f { busy_count = n }

-- The inner loop over `k`: are the `n` frames from `k` on free?
unfoldable pub frames_free : ℕ → ℕ → List Frame → Bool
frames_free zero k frames = true
frames_free (suc n) k frames =
    let rest = frames_free n (suc k) frames in
    if is_busy (get_or frames k no_frame) then false else rest

unfoldable pub mark_busy : ℕ → ℕ → List Frame → List Frame
mark_busy zero k frames = frames
mark_busy (suc n) k frames = mark_busy n (suc k) (modify frames k set_busy)

unfoldable pub mark_free : ℕ → ℕ → List Frame → List Frame
mark_free zero k frames = frames
mark_free (suc n) k frames = mark_free n (suc k) (modify frames k clear_busy)

-- The loop over `j`, with the rounds that are left: the first run of `count` free frames.
unfoldable pub find_run : ℕ → ℕ → ℕ → List Frame → Option ℕ
find_run zero j count frames = none
find_run (suc rounds) j count frames =
    let rest = find_run rounds (suc j) count frames in
    if frames_free count j frames then some j else rest

-- `frameDescriptors[j].BusyCount = count`, then the flags.
unfoldable pub take_run : ℕ → ℕ → List Frame → List Frame
take_run j count frames = mark_busy count j (modify frames j (set_count count))

-- The loop of FreePhysicalMemory over `j`: the first frame whose buffer is at the address.
unfoldable pub find_frame : ℕ → ℕ → ℕ → List Frame → Option ℕ
find_frame zero j address frames = none
find_frame (suc rounds) j address frames =
    let rest = find_frame rounds (suc j) address frames in
    if (get_or frames j no_frame).buffer_address == address then some j else rest

-- `BusyCount = 0`, then the flags of as many frames as it said.
unfoldable pub release_run : ℕ → List Frame → List Frame
release_run j frames =
    mark_free (get_or frames j no_frame).busy_count j (modify frames j (set_count 0))
