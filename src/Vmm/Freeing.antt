-- ===== src/Vmm/Freeing.antt =====
-- What takes pages and tables away: FreeTables, FreePages, FreeDirectory, UnmapPages and
-- FreeVirtualMemory of library/vmm/vmm.cxx.
use dark_core.Prelude.{
  ℕ, zero, suc, ◌+◌, ◌-◌, ◌*◌, ◌/◌, ◌%◌, ◌^◌, Bool, true, false, not, ltb, ◌==◌, if◌then◌else◌,
  bit_and, size_mod,
}
use dark_core.Vmm.{
  Entry, Frames, change, is_allocated, flag_allocated, flag_busy, flag_closing, pages_count,
  tables_count, address_from_page_index, page_index_from_address,
}
pub mod Blocks

abbrev pub clear_flag : ℕ → Entry → Entry
clear_flag flag e = record e { flags = bit_and e.flags (0xfff - flag) }

abbrev pub empty_entry : Entry
empty_entry = record { flags = 0; physical_page_index = 0 }

unfoldable pub is_closing : Entry → Bool
is_closing e = not (bit_and e.flags flag_closing == 0)

-- The inner loop of UnmapPages, with the pages of the table that are left.
unfoldable pub unmap_table : ℕ → ℕ → ℕ → ℕ → Frames → ℕ × Frames
unmap_table zero table page count m = (count, m)
unmap_table (suc n) table page count m =
    let rest =
      unmap_table n table (page + 1) (count - 1)
        (change table page (λ e. clear_flag flag_closing (clear_flag flag_busy e)) m) in
    if count == 0 then (count, m) else rest

-- The outer loop. A table that is not there is passed without a page being counted.
unfoldable pub unmap_tables : ℕ → ℕ → ℕ → ℕ → ℕ → Frames → Frames
unmap_tables zero directory table_index page count m = m
unmap_tables (suc n) directory table_index page count m =
    let (left, m') =
      unmap_table (pages_count - page) (m directory table_index).physical_page_index page count m in
    let passed = unmap_tables n directory (table_index + 1) page count m in
    let rest = unmap_tables n directory (table_index + 1) 0 left m' in
    if count == 0 then m else if is_allocated (m directory table_index) then rest else passed

unfoldable pub unmap_pages : ℕ → ℕ → ℕ → Frames → Bool × Frames
unmap_pages directory page_index count m =
    let unmapped =
      unmap_tables (tables_count - page_index / pages_count) directory (page_index / pages_count)
        (page_index % pages_count) count m in
    if ltb (0x1000 * 0x1000) page_index then (false, m) else (true, unmapped)

-- The search of FreeVirtualMemory for the last page of a block, in one table: whether it is there, and
-- the pages that were counted.
unfoldable pub count_table : ℕ → ℕ → ℕ → ℕ → Frames → Bool × ℕ
count_table zero table page counted m = (false, counted)
count_table (suc n) table page counted m =
    let rest = count_table n table (page + 1) (counted + 1) m in
    if is_closing (m table page) then (true, counted + 1) else rest

unfoldable pub count_tables : ℕ → ℕ → ℕ → ℕ → ℕ → Frames → Bool × ℕ
count_tables zero directory table_index page counted m = (false, counted)
count_tables (suc n) directory table_index page counted m =
    let here =
      count_table (pages_count - page) (m directory table_index).physical_page_index page counted
        m in
    let rest = count_tables n directory (table_index + 1) 0 here.1 m in
    if is_allocated (m directory table_index)
    then (if here.0 then here else rest)
    else (false, counted)

-- The physical memory manager: what FreePhysicalMemory does at an address to a state.
module _ {ℓ} {P : Type ℓ} (free_physical_memory : ℕ → P → ℕ × P) where
  -- An entry gives back the memory behind it, if it was allocated for it.
  abbrev pub release : Entry → P → P
  release e p =
      if is_allocated e
      then (free_physical_memory (address_from_page_index e.physical_page_index) p).1
      else p

  unfoldable pub free_tables_loop : ℕ → ℕ → ℕ → P → Frames → P × Frames
  free_tables_loop zero directory table_index p m = (p, m)
  free_tables_loop (suc n) directory table_index p m =
      free_tables_loop n directory (table_index + 1) (release (m directory table_index) p) (
        change directory table_index
          (λ e. if is_allocated e then clear_flag flag_allocated e else e) m)

  unfoldable pub free_tables : ℕ → ℕ → ℕ → P → Frames → Bool × P × Frames
  free_tables directory table_index count p m =
      let freed = free_tables_loop count directory table_index p m in
      if ltb tables_count ((table_index + count) % size_mod)
      then (false, p, m)
      else (true, freed.0, freed.1)

  -- The inner loop of FreePages, with the pages of the table that are left.
  unfoldable pub free_table_pages : ℕ → ℕ → ℕ → ℕ → P → Frames → ℕ × P × Frames
  free_table_pages zero table page count p m = (count, p, m)
  free_table_pages (suc n) table page count p m =
      let rest =
        free_table_pages n table (page + 1) (count - 1) (release (m table page) p)
          (change table page (λ e. empty_entry) m) in
      if count == 0 then (count, p, m) else rest

  -- The outer loop. It goes through the frame that a table's entry names, also where there is no table.
  unfoldable pub free_pages_loop : ℕ → ℕ → ℕ → ℕ → ℕ → P → Frames → P × Frames
  free_pages_loop zero directory table_index page count p m = (p, m)
  free_pages_loop (suc n) directory table_index page count p m =
      let done =
        free_table_pages (pages_count - page) (m directory table_index).physical_page_index page
          count p m in
      let rest = free_pages_loop n directory (table_index + 1) 0 done.0 done.1 done.2 in
      if count == 0 then (p, m) else rest

  unfoldable pub free_pages : ℕ → ℕ → ℕ → P → Frames → Bool × P × Frames
  free_pages directory page_index count p m =
      let freed =
        free_pages_loop (tables_count - page_index / pages_count) directory
          (page_index / pages_count) (page_index % pages_count) count p m in
      if ltb (0x1000 * pages_count) ((page_index + count) % size_mod)
      then (false, p, m)
      else (true, freed.0, freed.1)

  -- FreePages is called with directory 0 and all pages.
  unfoldable pub free_directory : ℕ → P → Frames → P × Frames
  free_directory directory p m =
      let pages = free_pages 0 0 (0x1000 * 0x1000) p m in
      let tables = free_tables directory 0 tables_count pages.1 pages.2 in (tables.1, tables.2)

  unfoldable pub free_virtual_memory : ℕ → ℕ → P → Frames → Bool × P × Frames
  free_virtual_memory directory memory p m =
      let page_index = page_index_from_address memory in
      let counted =
        count_tables (tables_count - page_index / pages_count) directory (page_index / pages_count)
          (page_index % pages_count) 0 m in
      if counted.0 then free_pages directory page_index counted.1 p m else (false, p, m)
