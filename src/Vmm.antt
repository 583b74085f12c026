-- ===== src/Vmm.antt =====
-- The page tables of library/vmm/vmm.cxx. Memory is seen as frames of 1024 entries, so that
-- the directory and its tables are frames, and two of them may be the same one. The switch of the
-- processor to physical addresses around each function is left out.
use dark_core.Prelude.{
  ℕ, zero, suc, ◌+◌, ◌-◌, ◌*◌, ◌/◌, ◌%◌, ◌^◌, Bool, true, false, not, ◌&&◌, ltb, leb, ◌==◌,
  if◌then◌else◌, bit_and, bit_or,
}
pub mod Filling
pub mod Mapping
pub mod Freeing
pub mod Searching
pub mod Allocating
pub mod Reallocating

abbrev pub pages_count : ℕ
pages_count = 0x400

abbrev pub tables_count : ℕ
tables_count = 0x400

-- An entry of a directory or of a table: the twelve bits of flags, and `PhysicalPageIndex`.
pub record Entry : Type 0 where
  pub flags : ℕ
  pub physical_page_index : ℕ

abbrev pub flag_busy : ℕ
flag_busy = 0x200

abbrev pub flag_closing : ℕ
flag_closing = 0x400

abbrev pub flag_allocated : ℕ
flag_allocated = 0x800

abbrev pub add_flags : ℕ → Entry → Entry
add_flags flags e = record e { flags = bit_or e.flags (flags % 0x1000) }

unfoldable pub is_allocated : Entry → Bool
is_allocated e = not (bit_and e.flags flag_allocated == 0)

-- The entries of every frame, by the page index of the frame.
abbrev pub Frames : Type 0
Frames = ℕ → ℕ → Entry

abbrev pub change : ℕ → ℕ → (Entry → Entry) → Frames → Frames
change frame i f m = λ g j. if (g == frame) && (j == i) then f (m g j) else m g j

abbrev pub page_index_from_address : ℕ → ℕ
page_index_from_address address = address / 0x1000

abbrev pub address_from_page_index : ℕ → ℕ
address_from_page_index page_index = page_index * 0x1000 % 2 ^ 32

-- `MapPages` on one page.
unfoldable pub map_entry : ℕ → ℕ → Entry → Entry
map_entry physical flags e = record (add_flags flags (add_flags flag_busy e)) {
  physical_page_index = physical % 2 ^ 20;
}

-- The inner loop over the pages of one table, with the pages of the table that are left; it ends early when
-- no page is left to map.
unfoldable pub map_table : ℕ → ℕ → ℕ → ℕ → ℕ → ℕ → Frames → ℕ × ℕ × Frames
map_table zero table page count physical flags m = (count, physical, m)
map_table (suc n) table page count physical flags m =
    let rest =
      map_table n table (page + 1) (count - 1) (physical + 1) flags
        (change table page (map_entry physical flags) m) in
    if count == 0 then (count, physical, m) else rest

-- A frame that `MemoryUtils::Fill` has cleared.
abbrev pub clear_frame : ℕ → Frames → Frames
clear_frame frame m =
    λ g j. if g == frame then record { flags = 0; physical_page_index = 0 } else m g j

abbrev pub table_flags : ℕ
table_flags = 3

-- The physical memory manager: what AllocatePhysicalMemory does with a count of bytes to a state.
module _ {ℓ} {P : Type ℓ} (allocate_physical_memory : ℕ → P → ℕ × P) where
  -- The loop of CreateTables over the tables, with the count that was created; it ends at the
  -- first table for which there is no memory.
  unfoldable pub create_tables_loop : ℕ → ℕ → ℕ → ℕ → ℕ → P → Frames → ℕ × P × Frames
  create_tables_loop zero directory table_index flags created p m = (created, p, m)
  create_tables_loop (suc n) directory table_index flags created p m =
      let (block, p') = allocate_physical_memory 0x1000 p in
      let m' =
        change directory table_index
          (λ e. record (add_flags flags (add_flags flag_allocated e)) {
            physical_page_index = page_index_from_address block % 2 ^ 20;
          })
          (clear_frame (page_index_from_address block) m) in
      let made = create_tables_loop n directory (table_index + 1) flags (created + 1) p' m' in
      let passed = create_tables_loop n directory (table_index + 1) flags created p m in
      if is_allocated (m directory table_index)
      then passed
      else (if block == 0 then (created, p', m) else made)

  unfoldable pub create_tables : ℕ → ℕ → ℕ → ℕ → P → Frames → ℕ × P × Frames
  create_tables directory table_index count flags p m =
      if ltb tables_count (table_index + count)
      then (0, p, m)
      else create_tables_loop count directory table_index flags 0 p m

  -- A table that the directory lacks is created first.
  unfoldable pub ensure_table : ℕ → ℕ → P → Frames → P × Frames
  ensure_table directory table_index p m =
      let (created, p', m') = create_tables directory table_index 1 table_flags p m in
      if is_allocated (m directory table_index) then (p, m) else (p', m')

  -- The outer loop, with the tables that are left.
  unfoldable pub map_tables : ℕ → ℕ → ℕ → ℕ → ℕ → ℕ → ℕ → P → Frames → P × Frames
  map_tables zero directory table_index page count physical flags p m = (p, m)
  map_tables (suc n) directory table_index page count physical flags p m =
      let (p', m') = ensure_table directory table_index p m in
      let table = (m' directory table_index).physical_page_index in
      let done = map_table (pages_count - page) table page count physical flags m' in
      let rest = map_tables n directory (table_index + 1) 0 done.0 done.1 flags p' done.2 in
      if count == 0 then (p, m) else rest

  unfoldable pub map_pages : ℕ → ℕ → ℕ → ℕ → ℕ → P → Frames → Bool × P × Frames
  map_pages directory page_index address count flags p m =
      let mapped =
        map_tables (tables_count - page_index / pages_count) directory (page_index / pages_count)
          (page_index % pages_count) count (page_index_from_address address) flags p m in
      if ltb (0x1000 * 0x1000) page_index then (false, p, m) else (true, mapped.0, mapped.1)

unfoldable pub get_physical_address : ℕ → ℕ → Frames → ℕ
get_physical_address directory address m =
    let page = address / 0x1000 in
    let table = (m directory (page / pages_count)).physical_page_index in
    (address_from_page_index (m table (page % pages_count)).physical_page_index + address % 0x1000)
    % 2 ^ 32
