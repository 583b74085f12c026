-- ===== src/Pmm/Allocator/Wrapping.antt =====
-- AllocatePhysicalMemory where AlignUp wraps.
use dark_core.Prelude.{
  ℕ, suc, ◌+◌, ◌-◌, ◌≤◌, ◌<◌, ◌≡◌, refl, ap, ◌∙◌, arith, List, ◌∷◌, some, size_mod, true, leb,
  get_or, modify,
}
use dark_core.Common.Align.{align_up}
use dark_core.Pmm.Region.{is_available, get_region_frames_count, frame_size}
use dark_core.Pmm.Zone.{no_frame, set_count, find_run, frames_free, take_run, mark_busy}
use dark_core.Pmm.Allocator.{
  Zone, allocate_in, allocate_zones, allocate_physical_memory, frames_for,
}

frames_for-wraps :
    (count : ℕ) → count < size_mod → size_mod ≤ count + frame_size → frames_for count ≡ 0
unfolding align_up
frames_for-wraps count small wraps = omega arith

find_run-nothing : (rounds : ℕ) (z : Zone) → find_run (suc rounds) 0 0 z.frames ≡ some 0
unfolding find_run frames_free
find_run-nothing rounds z = refl

take_run-nothing : (z : Zone) → take_run 0 0 z.frames ≡ modify z.frames 0 (set_count 0)
unfolding take_run mark_busy
take_run-nothing z = refl

-- What a request for no frames makes of a zone.
abbrev emptied : Zone → Zone
emptied z = record z { frames = modify z.frames 0 (set_count 0) }

allocate_in-nothing :
    (z : Zone)
    → is_available z.region ≡ true
    → allocate_in 0 z ≡ some ((get_or z.frames 0 no_frame).buffer_address, emptied z)
unfolding allocate_in
allocate_in-nothing z usable =
    let n = get_region_frames_count z.region in
    let nothing_needed : leb 0 n ≡ true = ground arith in
    let rounds : n - 0 + 1 ≡ suc n = omega arith in
    rw (usable, nothing_needed, rounds, find_run-nothing n z, take_run-nothing z) refl

allocate_zones-nothing :
    (z : Zone) (zs : List Zone)
    → is_available z.region ≡ true
    → allocate_zones 0 (z ∷ zs) ≡ some ((get_or z.frames 0 no_frame).buffer_address, emptied z ∷ zs)
unfolding allocate_zones
allocate_zones-nothing z zs usable = rw (allocate_in-nothing z usable, allocate_zones) refl

-- For a count of bytes that AlignUp wraps to 0, which is below 2 ^ 32 by 0x1000 or less,
-- AllocatePhysicalMemory returns the first buffer of the first region if that is available, whether or not
-- the buffer is busy, and sets the recorded length of the run at its frame to 0.
pub allocate_physical_memory-wraps :
    (count : ℕ) (z : Zone) (zs : List Zone)
    → count < size_mod
    → size_mod ≤ count + frame_size
    → is_available z.region ≡ true
    → allocate_physical_memory count (z ∷ zs) ≡ (
      (get_or z.frames 0 no_frame).buffer_address,
      record z { frames = modify z.frames 0 (set_count 0) } ∷ zs,
    )
unfolding allocate_physical_memory
allocate_physical_memory-wraps count z zs small wraps usable =
    let granted =
      ap (λ n. allocate_zones n (z ∷ zs)) (frames_for-wraps count small wraps)
      ∙ allocate_zones-nothing z zs usable in
    rw (allocate_physical_memory, granted) refl
