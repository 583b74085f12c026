-- ===== src/Vmm/Searching.antt =====
-- FindFreePagesBlockPageIndex of library/vmm/vmm.cxx.
use dark_core.Prelude.{
  ℕ, zero, suc, ◌+◌, ◌-◌, ◌*◌, ◌/◌, ◌%◌, Bool, true, false, not, ltb, ◌==◌, if◌then◌else◌, bit_and,
  Option, none, some, wrong_index,
}
use dark_core.Vmm.{Entry, Frames, is_allocated, flag_busy, pages_count, tables_count}
pub mod First

unfoldable pub is_busy : Entry → Bool
is_busy e = not (bit_and e.flags flag_busy == 0)

-- The loop over the pages of one table that are left: the pages that are still to be found, or `none`
-- at a page that is busy.
unfoldable pub block_in_table : ℕ → ℕ → ℕ → ℕ → Frames → Option ℕ
block_in_table zero table page count m = some count
block_in_table (suc n) table page count m =
    let rest = block_in_table n table (page + 1) (count - 1) m in
    if count == 0 then some count else if is_busy (m table page) then none else rest

-- The loop over the tables that are left: whether the pages are free. Each table is looked at from
-- the same page on, and one that is not there stands for a whole table of free pages.
unfoldable pub block_from : ℕ → ℕ → ℕ → ℕ → ℕ → Frames → Bool
block_from zero directory table_index page count m = count == 0
block_from (suc n) directory table_index page count m = elim (count == 0) [
  | true ↦ true
  | false ↦ elim (is_allocated (m directory table_index)) [
    | true ↦
        elim (block_in_table (pages_count - page) (m directory table_index).physical_page_index page
          count m) [
            | none ↦ false
            | some left ↦ block_from n directory (table_index + 1) page left m
          ]
    | false ↦ block_from n directory (table_index + 1) page (count - pages_count) m
  ]
]

-- The loops over the places at which a block can start.
unfoldable pub find_page : ℕ → ℕ → ℕ → ℕ → ℕ → Frames → Option ℕ
find_page zero directory table_index page count m = none
find_page (suc n) directory table_index page count m =
    let rest = find_page n directory table_index (page + 1) count m in
    if block_from (tables_count - table_index) directory table_index page count m
    then some (table_index * pages_count + page)
    else rest

unfoldable pub find_table : ℕ → ℕ → ℕ → ℕ → Frames → ℕ
find_table zero directory table_index count m = wrong_index
find_table (suc n) directory table_index count m =
    elim (find_page pages_count directory table_index 0 count m) [
      | none ↦ find_table n directory (table_index + 1) count m
      | some q ↦ q
    ]

unfoldable pub find_free_pages_block_page_index : ℕ → ℕ → Frames → ℕ
find_free_pages_block_page_index directory count m =
    let found = find_table tables_count directory 0 count m in
    if ltb (0x1000 * 0x1000) count then wrong_index else found
