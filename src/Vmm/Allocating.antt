-- ===== src/Vmm/Allocating.antt =====
-- What gives out pages: CreateDirectory, CreatePages, AllocateVirtualMemory, AllocateVirtualMemoryToPage,
-- ReallocateVirtualMemory and the operators new and delete of library/vmm/vmm.cxx.
use dark_core.Prelude.{
  ℕ, zero, suc, ◌+◌, ◌-◌, ◌*◌, ◌/◌, ◌%◌, ◌^◌, Bool, true, false, not, ◌||◌, ◌&&◌, ltb, ◌==◌,
  if◌then◌else◌, bit_or, wrong_index, size_mod,
}
use dark_core.Common.Align.{align_up}
use dark_core.Common.Memory.{Memory, copy}
use dark_core.Vmm.{
  Entry, Frames, add_flags, change, clear_frame, is_allocated, flag_allocated, flag_busy,
  flag_closing, pages_count, tables_count, address_from_page_index, page_index_from_address,
  table_flags, create_tables, ensure_table, map_pages, get_physical_address,
}
use dark_core.Vmm.Freeing.{free_pages, free_tables, free_virtual_memory}
use dark_core.Vmm.Searching.{is_busy, find_free_pages_block_page_index}
pub mod Blocks

abbrev pub pages_count_from_bytes_count : ℕ → ℕ
pages_count_from_bytes_count count = align_up count 0x1000 / 0x1000

-- An entry that CreatePages fills, and one that AllocateVirtualMemory fills.
unfoldable pub create_entry : ℕ → ℕ → Entry → Entry
create_entry block flags e = record (add_flags flags (add_flags flag_allocated e)) {
  physical_page_index = page_index_from_address block % 2 ^ 20;
}

unfoldable pub allocate_entry : ℕ → ℕ → Entry → Entry
allocate_entry block flags e =
    record (add_flags flags (add_flags flag_busy (add_flags flag_allocated e))) {
      physical_page_index = page_index_from_address block % 2 ^ 20;
    }

-- The entry in front of a place in a table: behind the first place lies the frame before it.
abbrev pub change_before : ℕ → ℕ → (Entry → Entry) → Frames → Frames
change_before table page f m =
    if page == 0 then change (table - 1) (pages_count - 1) f m else change table (page - 1) f m

-- How a loop over pages ended: without memory, or with the pages that are left, the table, and the page
-- behind the last one.
pub data Pages {ℓ} (P : Type ℓ) : Type ℓ where
  without_memory : P → Frames → Pages P
  with_pages : ℕ → ℕ → ℕ → P → Frames → Pages P

-- The check of AllocateVirtualMemoryToPage in one table: whether the pages are free, the page where it
-- ended, and the pages that are left.
unfoldable pub check_table : ℕ → ℕ → ℕ → ℕ → Frames → Bool × ℕ × ℕ
check_table zero table page count m = (true, page, count)
check_table (suc n) table page count m =
    let rest = check_table n table (page + 1) (count - 1) m in
    if count == 0
    then (true, page, count)
    else if is_busy (m table page)
    then (false, page, count)
    else rest

-- What AllocatePhysicalMemory does with a count of bytes to a state.
module _ {ℓ} {P : Type ℓ} (allocate_physical_memory : ℕ → P → ℕ × P) where
  -- The inner loop of CreatePages.
  unfoldable pub create_table_pages : ℕ → ℕ → ℕ → ℕ → ℕ → P → Frames → Pages P
  create_table_pages zero table page count flags p m = with_pages count table page p m
  create_table_pages (suc n) table page count flags p m =
      let (block, p') = allocate_physical_memory 0x1000 p in
      let passed = create_table_pages n table (page + 1) (count - 1) flags p m in
      let made =
        create_table_pages n table (page + 1) (count - 1) flags p'
          (change table page (create_entry block flags) m) in
      if count == 0
      then with_pages count table page p m
      else if is_allocated (m table page)
      then passed
      else if block == 0
      then without_memory p' m
      else made

  unfoldable pub create_pages_loop : ℕ → ℕ → ℕ → ℕ → ℕ → ℕ → P → Frames → Bool × P × Frames
  create_pages_loop zero directory table_index page count flags p m = (true, p, m)
  create_pages_loop (suc n) directory table_index page count flags p m = elim (count == 0) [
    | true ↦ (true, p, m)
    | false ↦
        let ready = ensure_table allocate_physical_memory directory table_index p m in
        elim (create_table_pages (pages_count - page)
          (ready.1 directory table_index).physical_page_index page count flags ready.0 ready.1) [
            | without_memory p' m' ↦ (false, p', m')
            | with_pages left table after p' m' ↦
                create_pages_loop n directory (table_index + 1) 0 left flags p' m'
          ]
  ]

  unfoldable pub create_pages : ℕ → ℕ → ℕ → ℕ → P → Frames → Bool × P × Frames
  create_pages directory page_index count flags p m =
      let created =
        create_pages_loop (tables_count - page_index / pages_count) directory
          (page_index / pages_count) (page_index % pages_count) count flags p m in
      if ltb (0x1000 * pages_count) ((page_index + count) % size_mod)
      then (false, p, m)
      else created

  -- The inner loop of AllocateVirtualMemory.
  unfoldable pub allocate_table_pages : ℕ → ℕ → ℕ → ℕ → ℕ → P → Frames → Pages P
  allocate_table_pages zero table page count flags p m = with_pages count table page p m
  allocate_table_pages (suc n) table page count flags p m =
      let (block, p') = allocate_physical_memory 0x1000 p in
      let rest =
        allocate_table_pages n table (page + 1) (count - 1) flags p'
          (change table page (allocate_entry block flags) m) in
      if count == 0
      then with_pages count table page p m
      else if block == 0
      then without_memory p' m
      else rest

  -- The check of AllocateVirtualMemoryToPage, which creates the tables that are missing: whether all
  -- pages are free, and the table and the page where it ended.
  unfoldable pub check_tables :
      ℕ → ℕ → ℕ → ℕ → ℕ → Bool → ℕ → P → Frames → (Bool × ℕ × ℕ) × P × Frames
  check_tables zero directory table_index page count free table p m =
      ((free && (count == 0), table, page), p, m)
  check_tables (suc n) directory table_index page count free table p m = elim (count == 0) [
    | true ↦ ((free, table, page), p, m)
    | false ↦
        let ready = ensure_table allocate_physical_memory directory table_index p m in
        let table' = (ready.1 directory table_index).physical_page_index in
        let checked = check_table (pages_count - page) table' page count ready.1 in
        elim (checked.2 == 0) [
          | true ↦ ((free && checked.0, table', checked.1), ready.0, ready.1)
          | false ↦
              check_tables n directory (table_index + 1) 0 checked.2 (free && checked.0) table'
                ready.0 ready.1
        ]
  ]

  unfoldable pub allocate_virtual_memory_to_page : ℕ → ℕ → ℕ → ℕ → P → Frames → Bool × P × Frames
  allocate_virtual_memory_to_page directory page_index bytes_count flags p m =
      let count = pages_count_from_bytes_count bytes_count in
      let (checked, p', m') =
        check_tables (tables_count - page_index / pages_count) directory (page_index / pages_count)
          (page_index % pages_count) count true 0 p m in
      let (result, p'', m'') =
        create_pages directory page_index count (bit_or flags flag_busy) p' m' in
      if checked.0
      then (if result
          then (true, p'', change_before checked.1 checked.2 (add_flags flag_closing) m'')
          else (false, p'', m''))
      else (false, p', m')

  -- What FreePhysicalMemory does at an address to a state.
  module _ (free_physical_memory : ℕ → P → ℕ × P) where
    -- CreateDirectory returns 0 where it fails. MapPages with page 0 does not fail.
    unfoldable pub create_directory : P → Frames → ℕ × P × Frames
    create_directory p m =
        let (dir, p') = allocate_physical_memory 0x1000 p in
        let cleared = clear_frame (page_index_from_address dir) m in
        let (mapped, p'', m'') =
          map_pages allocate_physical_memory (page_index_from_address dir) 0 dir
            (pages_count_from_bytes_count 0x1000) 3 p' cleared in
        if dir == 0
        then (0, p', m)
        else (if mapped then (dir, p'', m'') else (0, (free_physical_memory dir p'').1, m''))

    -- The loop at the failure of AllocateVirtualMemory, over the tables up to the one that it reached.
    unfoldable pub free_each_table : ℕ → ℕ → ℕ → P → Frames → P × Frames
    free_each_table zero directory table_index p m = (p, m)
    free_each_table (suc n) directory table_index p m =
        let freed = free_tables free_physical_memory directory table_index 1 p m in
        free_each_table n directory (table_index + 1) freed.1 freed.2

    unfoldable pub give_up : ℕ → ℕ → ℕ → ℕ → P → Frames → P × Frames
    give_up directory first count table_index p m =
        let freed = free_pages free_physical_memory directory first count p m in
        free_each_table (table_index + 1 - first / pages_count) directory (first / pages_count)
          freed.1 freed.2

    -- The loop of AllocateVirtualMemory over the tables that are left.
    unfoldable pub allocate_tables : ℕ → ℕ → ℕ → ℕ → ℕ → ℕ → ℕ → ℕ → ℕ → P → Frames → Pages P
    allocate_tables zero directory first total table_index page count flags table p m =
        with_pages count table page p m
    allocate_tables (suc n) directory first total table_index page count flags table p m =
        elim (count == 0) [
          | true ↦ with_pages count table page p m
          | false ↦
              let ready = ensure_table allocate_physical_memory directory table_index p m in
              elim (allocate_table_pages (pages_count - page)
                (ready.1 directory table_index).physical_page_index page count flags ready.0
                ready.1) [
                  | without_memory p' m' ↦
                      let freed = give_up directory first total table_index p' m' in
                      without_memory freed.0 freed.1
                  | with_pages left table' after p' m' ↦ elim (left == 0) [
                    | true ↦ with_pages left table' after p' m'
                    | false ↦
                        allocate_tables n directory first total (table_index + 1) 0 left flags
                          table' p' m'
                  ]
                ]
        ]

    -- A count of bytes gives a page at least, unless it wraps. The address is WRONG_INDEX where the call
    -- fails.
    unfoldable pub allocate_virtual_memory : ℕ → ℕ → ℕ → P → Frames → ℕ × P × Frames
    allocate_virtual_memory directory bytes_count flags p m =
        let count = pages_count_from_bytes_count bytes_count in
        let first = find_free_pages_block_page_index directory count m in
        elim (first == wrong_index) [
          | true ↦ (wrong_index, p, m)
          | false ↦
              elim (allocate_tables (tables_count - first / pages_count) directory first count
                (first / pages_count) (first % pages_count) count flags 0 p m) [
                  | without_memory p' m' ↦ (wrong_index, p', m')
                  | with_pages left table page p' m' ↦ (
                    address_from_page_index first,
                    p',
                    change_before table page (add_flags flag_closing) m',
                  )
                ]
        ]
