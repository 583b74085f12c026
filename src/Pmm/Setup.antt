-- ===== src/Pmm/Setup.antt =====
-- How the table of regions is made ready: TweakRegionDescriptors, SortRegionDescriptors,
-- RemoveSimilarRegionDescriptors, RemoveExtraRegions and Initialize of library/pmm/pmm.cxx. A table
-- and its count are a list.
use dark_core.Prelude.{
  ℕ, zero, suc, ◌+◌, ◌-◌, ◌*◌, ◌%◌, ◌^◌, Bool, true, false, not, ◌&&◌, ◌||◌, ltb, leb, ◌==◌,
  if◌then◌else◌, List, [], ◌∷◌, Option, none, some, length, map, add_size, mul_size, sub_size,
  size_mod,
}
use dark_core.Common.Align.{align_up, align_down}
use dark_core.Pmm.Region.{
  Region, OverlapType, overlap_none, overlap_start, overlap_end, overlap_inside, overlap_outside,
  is_available, region_end, region_reserved, frame_size, descriptor_size, get_region_frames_count,
  get_region_overlap_type, long_mod,
}
use dark_core.Pmm.Zone.{Frame}
use dark_core.Pmm.Allocator.{Zone}
pub mod Sorting
pub mod Cutting
pub mod Fuel
pub mod Removing
pub mod Aligning
pub mod Start

pub is_addressable : Region → Bool
is_addressable r = ltb r.address (2 ^ 32) && leb (region_end r) (2 ^ 32)

pub tweak_region_descriptors : List Region → List Region
tweak_region_descriptors [] = []
tweak_region_descriptors (r ∷ rs) =
    let rest = tweak_region_descriptors rs in if is_addressable r then r ∷ rest else rest

-- The inner loop: `m` comparisons of neighbours.
pub bubble : ℕ → List Region → List Region
bubble zero rs = rs
bubble (suc m) [] = []
bubble (suc m) (a ∷ []) = a ∷ []
bubble (suc m) (a ∷ b ∷ rs) =
    if ltb b.address a.address then b ∷ bubble m (a ∷ rs) else a ∷ bubble m (b ∷ rs)

-- The outer loop with the rounds that are left; a round makes one comparison fewer than the last.
pub sort_rounds : ℕ → List Region → List Region
sort_rounds zero rs = rs
sort_rounds (suc n) rs = sort_rounds n (bubble (suc n) rs)

pub sort_region_descriptors : List Region → List Region
sort_region_descriptors rs = if length rs == 0 then rs else sort_rounds (length rs - 1) rs

-- What is left of two neighbours with the same address.
unfoldable pub merge_similar : Region → Region → Region
merge_similar a b =
    if (a.kind == b.kind) && ltb a.extent b.extent
    then record a { extent = b.extent }
    else if is_available a
    then b
    else a

-- The loop goes on behind the merged descriptor.
unfoldable pub remove_similar_region_descriptors : List Region → List Region
remove_similar_region_descriptors [] = []
remove_similar_region_descriptors (a ∷ []) = a ∷ []
remove_similar_region_descriptors (a ∷ b ∷ rs) =
    if a.address == b.address
    then merge_similar a b ∷ remove_similar_region_descriptors rs
    else a ∷ remove_similar_region_descriptors (b ∷ rs)

-- 64-bit subtraction.
abbrev pub sub_long : ℕ → ℕ → ℕ
sub_long a b = (a + long_mod - b) % long_mod

-- One extra region against descriptor `i`: what stands at `i` afterwards, and the descriptor that
-- was inserted behind it.
unfoldable pub cut_one : Region → Region → Region × Option Region
cut_one r e = elim (get_region_overlap_type r e) [
  | overlap_none ↦ (r, none)
  | overlap_start ↦ (
    record r {
      address = region_end e;
      extent = sub_long r.extent (sub_long (region_end e) r.address);
    },
    none,
  )
  | overlap_end ↦ (record r { extent = sub_long e.address r.address }, none)
  | overlap_inside ↦ (
    record r { extent = sub_long e.address r.address },
    some (record {
      address = region_end e;
      extent = sub_long (region_end r) (region_end e);
      kind = r.kind;
    }),
  )
  | overlap_outside ↦ (record r { kind = region_reserved }, none)
]

abbrev pub insert_behind : Option Region → List Region → List Region
insert_behind none rest = rest
insert_behind (some right) rest = right ∷ rest

-- The loop over the extra regions for descriptor `i`, with the descriptors behind it.
unfoldable pub cut_all : Region → List Region → List Region → Region × List Region
cut_all r [] rest = (r, rest)
cut_all r (e ∷ es) rest =
    if e.extent == 0
    then cut_all r es rest
    else cut_all (cut_one r e).0 es (insert_behind (cut_one r e).1 rest)

-- The body of the outer loop: descriptor `i` and the descriptors behind it.
unfoldable pub cut_descriptor : Region → List Region → List Region → Region × List Region
cut_descriptor r rs extra = if is_available r then cut_all r extra rs else (r, rs)

-- The outer loop, over a table that may grow; `none` where the fuel runs out.
unfoldable pub remove_loop : ℕ → List Region → List Region → Option (List Region)
remove_loop fuel [] extra = some []
remove_loop zero (r ∷ rs) extra = none
remove_loop (suc fuel) (r ∷ rs) extra =
    let (r', rest) = cut_descriptor r rs extra in
    elim (remove_loop fuel rest extra) [ none ↦ none | some done ↦ some (r' ∷ done) ]

-- Each descriptor can be split once by each extra region.
abbrev pub remove_fuel : List Region → List Region → ℕ
remove_fuel rs extra = length rs * suc (length extra)

unfoldable pub remove_extra_regions : List Region → List Region → Option (List Region)
remove_extra_regions rs extra = remove_loop (remove_fuel rs extra) rs extra

-- `sizeof(RegionDescriptor)`, packed.
abbrev region_descriptor_size : ℕ
region_descriptor_size = 20

-- What Initialize sets aside for the table of regions, from the page behind its start on.
unfoldable pub table_region : ℕ → ℕ → Region
table_region table count = record {
  address = align_up table frame_size;
  extent =
      sub_size (align_up (add_size table (mul_size (count + 2) region_descriptor_size)) frame_size)
        table;
  kind = region_reserved;
}

unfoldable pub align_region : Region → Region
align_region r = record r {
  address = align_up (r.address % size_mod) frame_size;
  extent = align_down (r.extent % size_mod) frame_size;
}

-- The loop that drops regions without frames goes on behind the descriptor that moved up.
unfoldable pub drop_empty : List Region → List Region
drop_empty [] = []
drop_empty (r ∷ []) = if get_region_frames_count r == 0 then [] else r ∷ []
drop_empty (r ∷ s ∷ rs) =
    if get_region_frames_count r == 0 then s ∷ drop_empty rs else r ∷ drop_empty (s ∷ rs)

-- The descriptors of `n` free frames, the first with its buffer at the address.
pub free_frames : ℕ → ℕ → List Frame
free_frames zero address = []
free_frames (suc n) address =
    record { buffer_address = address; busy_count = 0; flags = 0 }
    ∷ free_frames n (add_size address frame_size)

pub first_buffer : Region → ℕ
first_buffer r =
    add_size (r.address % size_mod)
      (align_up (mul_size (get_region_frames_count r) descriptor_size) frame_size)

pub start_zone : Region → Zone
start_zone r = record {
  region = r;
  frames = if is_available r then free_frames (get_region_frames_count r) (first_buffer r) else [];
}

-- Initialize writes the frame descriptors of a region to its start. The model keeps them beside the region,
-- which is right where no descriptors are written beyond their region, as a frame count of 2 ^ 32 - 1
-- does, nor into another one.
unfoldable pub holds_table : Region → Bool
holds_table r = not (is_available r) || leb (get_region_frames_count r * descriptor_size) r.extent

unfoldable pub is_apart : Region → Region → Bool
is_apart r s =
    not (is_available r && is_available s)
    || leb (r.address + r.extent) s.address
    || leb (s.address + s.extent) r.address

unfoldable pub are_apart : Region → List Region → Bool
are_apart r [] = true
are_apart r (s ∷ ss) = is_apart r s && are_apart r ss

unfoldable pub lays_out : List Region → Bool
lays_out [] = true
lays_out (r ∷ rs) = holds_table r && are_apart r rs && lays_out rs

-- The regions whose frame descriptors Initialize writes.
unfoldable pub final_regions : List Region → List Region
final_regions cut = drop_empty (map align_region cut)

-- `none` where the descriptors overwrite other memory.
pub initialize : ℕ → List Region → Option (List Zone)
initialize table rs = elim (remove_extra_regions rs (table_region table (length rs) ∷ [])) [
  | none ↦ none
  | some cut ↦
      if lays_out (final_regions cut) then some (map start_zone (final_regions cut)) else none
]
