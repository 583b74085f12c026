-- ===== src/Pmm/Region/Overlap.antt =====
-- GetRegionOverlapType against intervals.
use dark_core.Prelude.{◌+◌, ◌≤◌, ◌<◌, ◌≡◌, ◌⊎◌, arith}
use dark_core.Pmm.Region.{
  Region, OverlapType, overlap_none, overlap_start, overlap_end, overlap_inside, overlap_outside,
  get_region_overlap_type, long_mod,
}

-- A region that is not empty and does not wrap.
pub record IsProper (r : Region) : Type 0 where
  pub some_bytes : 0 < r.extent
  pub no_wrap : r.address + r.extent < long_mod

-- What each answer says of the two intervals.
abbrev pub Overlaps : Region → Region → OverlapType → Type 0
Overlaps r o overlap_none = (o.address + o.extent ≤ r.address) ⊎ (r.address + r.extent ≤ o.address)
Overlaps r o overlap_start =
    (o.address ≤ r.address)
    × (r.address < o.address + o.extent)
    × (o.address + o.extent < r.address + r.extent)
Overlaps r o overlap_end =
    (r.address < o.address)
    × (o.address < r.address + r.extent)
    × (r.address + r.extent ≤ o.address + o.extent)
Overlaps r o overlap_inside =
    ((r.address < o.address) × (o.address + o.extent < r.address + r.extent))
    ⊎ ((r.address ≡ o.address) × (o.extent ≡ r.extent))
Overlaps r o overlap_outside =
    (o.address ≤ r.address) × (r.address + r.extent ≤ o.address + o.extent)

-- GetRegionOverlapType tells how two regions lie that are neither empty nor wrap: apart, or with
-- the second over the start, over the end, inside or around the first.
pub get_region_overlap_type-Overlaps :
    (region overlapping : Region)
    → IsProper region
    → IsProper overlapping
    → Overlaps region overlapping (get_region_overlap_type region overlapping)
unfolding get_region_overlap_type
get_region_overlap_type-Overlaps r o hr ho = ground arith
