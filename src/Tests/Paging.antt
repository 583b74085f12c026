-- ===== src/Tests/Paging.antt =====
-- Page tables over the physical memory manager: a directory with two tables.
use dark_core.Prelude.{
  ℕ, suc, ◌+◌, ◌*◌, ◌^◌, ◌<◌, ◌≡◌, ◌↔◌, true, false, refl, arith, ◌==◌, if◌then◌else◌, List, [],
}
use dark_core.Common.Align.{align_up}
use dark_core.Pmm.Allocator.{Zone, allocate_physical_memory}
use dark_core.Vmm.Searching.{
  is_busy, block_in_table, block_from, find_page, find_table, find_free_pages_block_page_index,
}
use dark_core.Vmm.Searching.First.{
  IsFirstOrWrong, PagesFree, find_free_pages_block_page_index-IsFirst, block_from-PagesFree,
  block_from-overlooks,
}
use dark_core.Vmm.Freeing.{is_closing, free_virtual_memory, free_directory}
use dark_core.Vmm.Freeing.Blocks.{
  Block, Emptied, released, free_virtual_memory-Emptied, free_directory-effect,
}
use dark_core.Vmm.Allocating.{allocate_virtual_memory, pages_count_from_bytes_count}
use dark_core.Vmm.Allocating.Blocks.{RoundTrip, free_virtual_memory-allocate_virtual_memory}
use dark_core.Vmm.{
  Frames, change, is_allocated, map_pages, get_physical_address, page_index_from_address,
}
use dark_core.Vmm.Mapping.{Ready, get_physical_address-map_pages}

abbrev frames : Frames
frames = λ g j.
    if g == 0x100
    then record { flags = 0x803; physical_page_index = 0x101 + j }
    else record { flags = 0; physical_page_index = 0 }

abbrev frame : ℕ → ℕ
frame t = 0x101 + t

frames-Ready : Ready 0 2 0x100 frame frames
unfolding is_allocated
frames-Ready = record {
  present = λ t lo up. refl;
  located = λ t lo up. refl;
  apart = λ t lo up. ground arith;
  distinct = λ t u lo up lo' up' ne. ground arith;
}

abbrev no_zones : List Zone
no_zones = []

-- Four pages over the border between the tables; the last of them.
get_physical_address-map_pages_example :
    get_physical_address 0x100
      ((1022 + 3) * 0x1000 + 5)
      (map_pages allocate_physical_memory 0x100 1022 0x50_0000 4 3 no_zones frames).2
    ≡ (page_index_from_address 0x50_0000 + 3) * 0x1000 + 5
get_physical_address-map_pages_example =
    get_physical_address-map_pages allocate_physical_memory 0x100 2 3 frame no_zones 1022 0x50_0000
      4 3 5 frames (omega arith) (omega arith) (omega arith) frames-Ready (omega arith)
      (omega arith)

find_free_pages_block_page_index-IsFirst_example :
    IsFirstOrWrong 0x100 2 frames 0 (2 ^ 20) (find_free_pages_block_page_index 0x100 2 frames)
find_free_pages_block_page_index-IsFirst_example =
    find_free_pages_block_page_index-IsFirst 0x100 2 frames (omega arith)

block_from-PagesFree_example :
    (block_from (suc 0) 0x100 0 5 3 frames ≡ true) ↔ PagesFree 0x101 5 3 frames
unfolding is_allocated
block_from-PagesFree_example = block_from-PagesFree 0 0x100 0 5 3 frames refl (omega arith)

-- The second table with its first page busy.
abbrev busy_frames : Frames
busy_frames = change 0x102 0 (λ e. record { flags = 0x200; physical_page_index = 0 }) frames

-- A block of 30 pages from page 1000 on goes over that page.
block_from-overlooks_example :
    block_from 2 0x100 0 1000 30 frames ≡ block_from 2 0x100 0 1000 30 busy_frames
block_from-overlooks_example =
    block_from-overlooks 2 0x100 0 1000 30 frames busy_frames (λ t. refl) (λ g j h. ground arith)

abbrev free_nothing : ℕ → ℕ → ℕ × ℕ
free_nothing address p = (1, p)

-- Pages 5 to 7 of the first table are a block.
abbrev block_frames : Frames
block_frames = change 0x101 7 (λ e. record { flags = 0xe03; physical_page_index = 9 }) frames

block_frames-Block : Block 0x101 5 2 block_frames
unfolding is_closing
block_frames-Block = record { unclosed = λ k l. ground arith; closed = refl }

free_virtual_memory-Emptied_example :
    let r = free_virtual_memory free_nothing 0x100 ((0 * 1024 + 5) * 0x1000 + 3) 0 block_frames in
    (r.0 ≡ true) × Emptied free_nothing 0x101 5 3 0 block_frames (r.1, r.2)
unfolding is_allocated
free_virtual_memory-Emptied_example =
    free_virtual_memory-Emptied free_nothing 0x100 0 5 2 3 0 block_frames (omega arith)
      (omega arith) (omega arith) refl block_frames-Block

free_directory-effect_example :
    let r = free_directory free_nothing 0x100 0 frames in
    (r.0 ≡ released free_nothing 1024 0x100 0 frames 0)
    × ((t : ℕ) → t < 1024 → is_allocated (r.1 0x100 t) ≡ false)
    × ((g j : ℕ) → (g == 0x100) ≡ false → r.1 g j ≡ frames g j)
free_directory-effect_example = free_directory-effect free_nothing 0x100 0 frames

-- A manager of physical memory that gives out frame after frame.
abbrev next_frame : ℕ → ℕ → ℕ × ℕ
next_frame count p = (0x40_0000 + p * 0x1000, suc p)

first_pages-found : find_free_pages_block_page_index 0x100 3 frames ≡ 0 * 1024 + 0
unfolding find_free_pages_block_page_index find_table find_page block_from block_in_table is_busy
    is_allocated
first_pages-found = refl

three_pages : pages_count_from_bytes_count 0x2fff ≡ 3
unfolding align_up
three_pages = refl

-- An allocation of three pages, and its release.
free_virtual_memory-allocate_virtual_memory_example :
    RoundTrip next_frame free_nothing 0x100
      (0 * 1024 + 0)
      3
      0x101
      frames
      (allocate_virtual_memory next_frame free_nothing 0x100 0x2fff 7 0 frames)
unfolding is_allocated is_closing
free_virtual_memory-allocate_virtual_memory_example =
    free_virtual_memory-allocate_virtual_memory next_frame free_nothing 0x100 0 0 2 0x2fff 7 0
      frames (omega arith) (omega arith) refl refl three_pages first_pages-found
      (refl, (refl, (refl, tt))) refl (λ k l. ground arith)
