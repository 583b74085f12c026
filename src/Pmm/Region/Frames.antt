-- ===== src/Pmm/Region/Frames.antt =====
-- GetRegionFramesCount: when the frames and their descriptors fit, and when the count wraps.
use dark_core.Prelude.{ℕ, ◌+◌, ◌-◌, ◌*◌, ◌/◌, ◌%◌, ◌^◌, ◌≤◌, ◌<◌, ◌≡◌, arith, size_mod}
use dark_core.Common.Align.{align_up}
use dark_core.Common.Align.Multiples.{align_up-eq-next, align_down-eq-previous}
use dark_core.Pmm.Region.{Region, get_region_frames_count, frame_size, descriptor_size}

threshold : align_up (frame_size + descriptor_size) frame_size ≡ 0x2000
threshold = align_up-eq-next (frame_size + descriptor_size) frame_size (omega arith) (omega arith)

-- The frame count of a region below 4 GiB in closed form, with the decrement that may wrap.
frames_count_closed :
    (r : Region)
    → 0x2000 ≤ r.extent
    → r.extent < size_mod
    → get_region_frames_count r
      ≡ ((r.extent / 0x1000 - 1) * 0x1000 / 0x100c + size_mod - 1) % size_mod
unfolding get_region_frames_count
frames_count_closed r big small =
    let whole : r.extent % size_mod ≡ r.extent = omega arith in
    rw (threshold, whole)
      (ground (arith, align_down-eq-previous r.extent frame_size (omega arith) small))

-- A region of three pages or more, below 4 GiB, has room for its frames behind the table of their
-- descriptors, as Initialize lays them out: the table from the start of the region on, rounded up
-- by AlignUp, and a page for each frame.
pub frames_fit :
    (r : Region)
    → 0x3000 ≤ r.extent
    → r.extent < size_mod
    → align_up (get_region_frames_count r * descriptor_size) frame_size
        + get_region_frames_count r * frame_size
      ≤ r.extent
frames_fit r big small =
    rw (align_up-eq-next (n * descriptor_size) frame_size (omega arith) (omega (arith, closed)))
      (omega (arith, closed))
  where
    n : ℕ
    n = get_region_frames_count r

    closed :
        get_region_frames_count r
        ≡ ((r.extent / 0x1000 - 1) * 0x1000 / 0x100c + size_mod - 1) % size_mod
    closed = frames_count_closed r (omega arith) small

-- A region of two pages, but less than three, gets a frame count of 2 ^ 32 - 1.
pub frames_count_wraps :
    (r : Region) → 0x2000 ≤ r.extent → r.extent < 0x3000 → get_region_frames_count r ≡ 2 ^ 32 - 1
frames_count_wraps r big small = omega (arith, frames_count_closed r big (omega arith))

-- A region of less than two pages has no frames.
pub frames_count_small : (r : Region) → r.extent < 0x2000 → get_region_frames_count r ≡ 0
unfolding get_region_frames_count
frames_count_small r small = rw threshold (ground arith)
