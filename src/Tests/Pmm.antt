-- ===== src/Tests/Pmm.antt =====
-- The physical memory manager on a table of two regions.
use dark_core.Prelude.{ℕ, ◌≡◌, ◌⊎◌, refl, arith, List, [], ◌∷◌, inl, inr}
use dark_core.Common.Memory.{Memory}
use dark_core.Common.Align.{align_up, align_down}
use dark_core.Pmm.Region.{Region, get_region_frames_count}
use dark_core.Pmm.Zone.{
  Frame, is_busy, set_busy, clear_busy, frames_free, mark_busy, mark_free, find_run, take_run,
  find_frame, release_run,
}
use dark_core.Pmm.Zone.Buffers.{occurrences}
use dark_core.Pmm.Allocator.{
  Zone, allocate_in, allocate_zones, allocate_physical_memory, frames_for, free_in,
  free_physical_memory, reallocate_physical_memory,
}
use dark_core.Pmm.Allocator.Validity.{
  IsValid, allocate_physical_memory-IsValid, free_physical_memory-IsValid,
  reallocate_physical_memory-IsValid,
}
use dark_core.Pmm.Allocator.Grants.{Granted, Exhausted, allocate_physical_memory-answers}
use dark_core.Pmm.Allocator.Inverse.{SameBusy, buffers_at, free-allocate}

abbrev low : Region
low = record { address = 0x1000; extent = 0x3000; kind = 2 }

-- Six pages: three frames behind the table of their descriptors.
abbrev high : Region
high = record { address = 0x10_0000; extent = 0x6000; kind = 1 }

abbrev frame : ℕ → ℕ → ℕ → Frame
frame address count flags = record { buffer_address = address; busy_count = count; flags = flags }

-- The first frame is busy.
abbrev zones : List Zone
zones =
    record { region = low; frames = [] }
    ∷ record {
      region = high;
      frames = frame 0x10_1000 1 1 ∷ frame 0x10_2000 0 0 ∷ frame 0x10_3000 0 0 ∷ [];
    }
    ∷ []

zones-IsValid : IsValid zones
unfolding get_region_frames_count align_up align_down is_busy
zones-IsValid = (
  record { complete = λ usable. refl; tiled = refl },
  (
    record {
      complete = λ usable. refl;
      tiled = inr (refl, omega arith, inl (refl, refl, inl (refl, refl, refl)));
    },
    tt,
  ),
)

-- Two pages and a byte take three frames, which are not there; one byte takes the second frame.
allocate_one : (allocate_physical_memory 1 zones).0 ≡ 0x10_2000
unfolding allocate_physical_memory allocate_zones allocate_in get_region_frames_count align_up
    align_down find_run frames_free is_busy take_run mark_busy set_busy
allocate_one = refl

allocate_too_much : (allocate_physical_memory 0x2001 zones).0 ≡ 0
unfolding allocate_physical_memory allocate_zones allocate_in get_region_frames_count align_up
    align_down find_run frames_free is_busy take_run mark_busy set_busy
allocate_too_much = refl

free_first : (free_physical_memory 0x10_1000 zones).0 ≡ 1
unfolding free_physical_memory free_in get_region_frames_count align_up align_down find_frame
    release_run mark_free clear_busy
free_first = refl

one_buffer : buffers_at 0x10_2000 zones ≡ 1
unfolding buffers_at occurrences
one_buffer = refl

free-allocate_example :
    let (address, zs) = allocate_physical_memory 1 zones in
    let (freed, zs') = free_physical_memory address zs in
    (freed ≡ frames_for 1) × SameBusy zones zs'
free-allocate_example =
    free-allocate 1 zones (omega arith) zones-IsValid (omega (arith, allocate_one))
      (rw allocate_one (omega (arith, one_buffer)))

allocate_physical_memory-answers_example :
    let (address, zs) = allocate_physical_memory 0x2001 zones in
    ((i : ℕ) × (j : ℕ) × Granted (frames_for 0x2001) i j zones address zs)
    ⊎ ((address ≡ 0) × (zs ≡ zones) × Exhausted (frames_for 0x2001) zones)
allocate_physical_memory-answers_example =
    allocate_physical_memory-answers 0x2001 zones (omega arith) zones-IsValid

allocate_physical_memory-IsValid_example : IsValid (allocate_physical_memory 1 zones).1
allocate_physical_memory-IsValid_example =
    allocate_physical_memory-IsValid 1 zones (omega arith) zones-IsValid

free_physical_memory-IsValid_example : IsValid (free_physical_memory 0x10_1000 zones).1
free_physical_memory-IsValid_example = free_physical_memory-IsValid 0x10_1000 zones zones-IsValid

abbrev memory : Memory
memory = λ p. 7

reallocate_physical_memory-IsValid_example :
    IsValid (reallocate_physical_memory 0x10_1000 1 memory zones).2
reallocate_physical_memory-IsValid_example =
    reallocate_physical_memory-IsValid 0x10_1000 1 memory zones (omega arith) zones-IsValid

abbrev two_pages : Region
two_pages = record { address = 0; extent = 0x2fff; kind = 1 }
