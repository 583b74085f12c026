-- ===== src/Pmm/Allocator.antt =====
-- AllocatePhysicalMemory, FreePhysicalMemory and ReallocatePhysicalMemory of library/pmm/pmm.cxx.
-- The state is the table of regions, each with the frame descriptors that lie at its start.
use dark_core.Prelude.{
  ℕ, zero, suc, ◌+◌, ◌-◌, ◌/◌, Bool, true, false, ltb, leb, ◌==◌, if◌then◌else◌, List, [], ◌∷◌,
  Option, none, some, get_or,
}
use dark_core.Common.Align.{align_up}
use dark_core.Common.Memory.{Memory, copy}
use dark_core.Pmm.Region.{Region, is_available, get_region_frames_count, frame_size}
use dark_core.Pmm.Zone.{Frame, no_frame, find_run, take_run, find_frame, release_run}
pub mod Validity
pub mod Effects
pub mod Grants
pub mod Inverse
pub mod Wrapping

pub record Zone : Type 0 where
  pub region : Region
  pub frames : List Frame

-- The body of the outer loop: the first run in a region that is free and long enough.
unfoldable pub allocate_in : ℕ → Zone → Option (ℕ × Zone)
allocate_in count z =
    let frames_count = get_region_frames_count z.region in
    if is_available z.region
    then (if leb count frames_count
        then elim (find_run (frames_count - count + 1) 0 count z.frames) [
          | none ↦ none
          | some j ↦ some (
            (get_or z.frames j no_frame).buffer_address,
            record z { frames = take_run j count z.frames },
          )
        ]
        else none)
    else none

unfoldable pub allocate_zones : ℕ → List Zone → Option (ℕ × List Zone)
allocate_zones count [] = none
allocate_zones count (z ∷ zs) =
    let rest = allocate_zones count zs in
    elim (allocate_in count z) [
      | some (address, z') ↦ some (address, z' ∷ zs)
      | none ↦ elim rest [ none ↦ none | some (address, zs') ↦ some (address, z ∷ zs') ]
    ]

-- The number of frames for a number of bytes.
abbrev pub frames_for : ℕ → ℕ
frames_for count = align_up count frame_size / frame_size

-- The address is 0 where no run was found.
unfoldable pub allocate_physical_memory : ℕ → List Zone → ℕ × List Zone
allocate_physical_memory count zs = elim (allocate_zones (frames_for count) zs) [
  | none ↦ (0, zs)
  | some (address, zs') ↦ (address, zs')
]

unfoldable pub free_in : ℕ → Zone → Option (ℕ × Zone)
free_in memory z =
    if is_available z.region
    then elim (find_frame (get_region_frames_count z.region) 0 memory z.frames) [
      | none ↦ none
      | some j ↦
          some
            ((get_or z.frames j no_frame).busy_count, record z { frames = release_run j z.frames })
    ]
    else none

-- The number of frames that were freed, 0 where no frame has its buffer at the address.
unfoldable pub free_physical_memory : ℕ → List Zone → ℕ × List Zone
free_physical_memory memory [] = (0, [])
free_physical_memory memory (z ∷ zs) =
    let rest = free_physical_memory memory zs in
    elim (free_in memory z) [ some (count, z') ↦ (count, z' ∷ zs) | none ↦ (rest.0, z ∷ rest.1) ]

-- The zones and the memory that they manage.
unfoldable pub reallocate_physical_memory : ℕ → ℕ → Memory → List Zone → ℕ × Memory × List Zone
reallocate_physical_memory memory count m zs =
    let (reallocated, zs') = allocate_physical_memory count zs in
    if reallocated == 0
    then (0, m, zs')
    else (let m' = copy reallocated memory count m in
        let (freed, zs'') = free_physical_memory memory zs' in
        if freed == 0
        then (0, m', (free_physical_memory reallocated zs'').1)
        else (reallocated, m', zs''))
