-- ===== src/Pmm/Region.antt =====
-- Region descriptors of library/pmm/pmm.cxx and pmm.hxx: what a descriptor is, how many frames its
-- region holds, and how two regions overlap.
use dark_core.Prelude.{
  ℕ, ◌+◌, ◌-◌, ◌*◌, ◌/◌, ◌%◌, ◌^◌, Bool, true, false, ◌&&◌, ◌||◌, ltb, leb, ◌==◌, if◌then◌else◌,
  sub_size, size_mod,
}
use dark_core.Common.Align.{align_up, align_down}
pub mod Frames
pub mod Overlap

-- Address and length are 64 bits wide.
pub record Region : Type 0 where
  pub address : ℕ
  pub extent : ℕ
  pub kind : ℕ

abbrev pub region_usable : ℕ
region_usable = 1

abbrev pub region_reserved : ℕ
region_reserved = 2

abbrev pub region_reclaimable : ℕ
region_reclaimable = 3

-- The test that every loop over the regions makes.
abbrev pub is_available : Region → Bool
is_available r = (r.kind == region_usable) || (r.kind == region_reclaimable)

abbrev pub frame_size : ℕ
frame_size = 0x1000

-- `sizeof(FrameDescriptor)`: three words.
abbrev pub descriptor_size : ℕ
descriptor_size = 12

abbrev pub long_mod : ℕ
long_mod = 2 ^ 64

unfoldable pub get_region_frames_count : Region → ℕ
get_region_frames_count r =
    if ltb r.extent (align_up (frame_size + descriptor_size) frame_size)
    then 0
    else sub_size (align_down (r.extent % size_mod) frame_size / (frame_size + descriptor_size)) 1

pub data OverlapType : Type 0 where
  overlap_none overlap_start overlap_end overlap_inside overlap_outside : OverlapType

abbrev pub region_end : Region → ℕ
region_end r = (r.address + r.extent) % long_mod

unfoldable pub get_region_overlap_type : Region → Region → OverlapType
get_region_overlap_type region overlapping =
    let overlap_stop = region_end overlapping in
    let region_stop = region_end region in
    if leb overlapping.address region.address
      && ltb region.address overlap_stop
      && ltb overlap_stop region_stop
    then overlap_start
    else if ltb overlapping.address region_stop
        && ltb region.address overlapping.address
        && leb region_stop overlap_stop
    then overlap_end
    else if leb region.address overlapping.address && leb overlap_stop region_stop
    then overlap_inside
    else if leb overlapping.address region.address && leb region_stop overlap_stop
    then overlap_outside
    else overlap_none
