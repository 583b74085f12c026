-- ===== src/Tests/Setup.antt =====
-- The set-up of the physical memory manager on small tables.
use mathlib.Core.List.{Memᴰ, Perm}
use dark_core.Prelude.{
  ℕ, ◌+◌, ◌*◌, ◌≤◌, ◌≡◌, refl, arith, true, false, ◌==◌, ◌&&◌, not, List, [], ◌∷◌, some, All,
  get_or,
}
use dark_core.Common.Align.{align_up, align_down}
use dark_core.Pmm.Region.{
  Region, get_region_overlap_type, get_region_frames_count, frame_size, descriptor_size,
}
use dark_core.Pmm.Zone.{no_frame, is_busy}
use dark_core.Pmm.Allocator.{Zone}
use dark_core.Pmm.Allocator.Validity.{IsValid}
use dark_core.Pmm.Setup.{
  sort_region_descriptors, merge_similar, remove_similar_region_descriptors, remove_extra_regions,
  drop_empty, start_zone, initialize, remove_loop, cut_descriptor, cut_all, cut_one, table_region,
  lays_out, final_regions, holds_table, are_apart, is_apart, align_region,
}
use dark_core.Pmm.Setup.Sorting.{IsSorted, sort_region_descriptors-IsSorted}
use dark_core.Pmm.Setup.Cutting.{IsUnwrapped, offers, taken}
use dark_core.Pmm.Setup.Removing.{remove_extra_regions-offers}
use dark_core.Pmm.Setup.Start.{start_zone-buffers, BuffersPass, is_offered, initialize-starts}

abbrev region : ℕ → ℕ → ℕ → Region
region address extent kind = record { address = address; extent = extent; kind = kind }

abbrev table : List Region
table = region 0x10_0000 0x8000 1 ∷ region 0 0x9_fc00 1 ∷ region 0xf_0000 0x1_0000 2 ∷ []

abbrev extra : List Region
extra = region 0x1000 0x1000 2 ∷ region 0x10_4000 0 2 ∷ region 0x10_0000 0x2000 2 ∷ []

sort_region_descriptors-IsSorted_example :
    IsSorted (sort_region_descriptors table) × Perm (sort_region_descriptors table) table
sort_region_descriptors-IsSorted_example = sort_region_descriptors-IsSorted table

remove_extra_regions-offers_example :
    (done : List Region) × (remove_extra_regions table extra ≡ some done)
    × All IsUnwrapped done
    × ((x : ℕ) → offers done x ≡ (offers table x && not (taken extra x)))
remove_extra_regions-offers_example =
    remove_extra_regions-offers table extra (omega arith, (omega arith, (omega arith, tt)))
      (omega arith, (omega arith, (omega arith, tt)))

frames_in_eight_pages : get_region_frames_count (region 0x10_0000 0x8000 1) ≡ 5
unfolding get_region_frames_count align_up align_down
frames_in_eight_pages = refl

-- The longer of two available regions at one address gives way to the shorter.
merge_loses :
    remove_similar_region_descriptors (region 0 0x8000 1 ∷ region 0 0x4000 1 ∷ [])
    ≡ region 0 0x4000 1 ∷ []
unfolding remove_similar_region_descriptors merge_similar
merge_loses = refl

-- Of two regions without frames in a row, the second stays.
drop_empty_skips :
    drop_empty (region 0 0x1000 1 ∷ region 0x1000 0x1000 1 ∷ []) ≡ region 0x1000 0x1000 1 ∷ []
unfolding drop_empty get_region_frames_count align_up align_down
drop_empty_skips = refl

start_zone-buffers_example :
    let r = region 0x10_0000 0x8000 1 in
    let buffer = (get_or (start_zone r).frames 1 no_frame).buffer_address in
    (buffer ≡ (get_or (start_zone r).frames 0 no_frame).buffer_address + 1 * frame_size)
    × (0x10_0000 + get_region_frames_count r * descriptor_size ≤ buffer)
    × (buffer + frame_size ≤ 0x10_0000 + 0x8000)
start_zone-buffers_example =
    start_zone-buffers (region 0x10_0000 0x8000 1) 1 refl (omega arith) (omega arith) (omega arith)
      (omega (arith, frames_in_eight_pages))

-- The table at 0x5000, for which a page is taken out of the second region.
abbrev cut : List Region
cut =
    region 0x10_0000 0x8000 1
    ∷ region 0 0x6000 1
    ∷ region 0x7000 0x9_8c00 1
    ∷ region 0xf_0000 0x1_0000 2
    ∷ []

cut-made : remove_extra_regions table (table_region 0x5000 3 ∷ []) ≡ some cut
unfolding remove_extra_regions remove_loop cut_descriptor cut_all cut_one get_region_overlap_type
    table_region align_up
cut-made = refl

cut-lays_out : lays_out (final_regions cut) ≡ true
unfolding lays_out final_regions holds_table are_apart is_apart drop_empty align_region
    get_region_frames_count align_up align_down
cut-lays_out = refl

initialize-starts_example :
    (zs : List Zone) × (initialize 0x5000 table ≡ some zs)
    × IsValid zs
    × All (λ z. All (λ f. is_busy f ≡ false) z.frames) zs
    × All (BuffersPass (is_offered 0x5000 table)) zs
    × ((r : Region)
        → Memᴰ r cut
        → (get_region_frames_count (align_region r) == 0) ≡ false
        → Memᴰ (start_zone (align_region r)) zs)
initialize-starts_example =
    initialize-starts 0x5000 table cut (omega arith, (omega arith, (omega arith, tt))) cut-made
      cut-lays_out
