-- ===== src/Vmm/Freeing/Blocks.antt =====
-- What FreeVirtualMemory and FreeDirectory free.
use dark_core.Prelude.{
  ℕ, zero, suc, ◌+◌, ◌-◌, ◌*◌, ◌/◌, ◌%◌, ◌^◌, ◌≡◌, ◌≤◌, ◌<◌, inl, inr, refl, ap, ◌∙◌, arith, true,
  false, ◌&&◌, ltb, leb, ◌==◌, if◌then◌else◌, Bool-cases, has_flag-bit_and,
}
use dark_core.Vmm.{Entry, Frames, change, is_allocated, pages_count, tables_count, flag_allocated}
use dark_core.Vmm.Freeing.{
  is_closing, count_table, count_tables, release, free_table_pages, free_pages_loop, free_pages,
  free_virtual_memory, free_tables_loop, free_tables, free_directory, empty_entry, clear_flag,
}

-- The page after `behind` others closes a block, and none of these does.
pub record Block (table page behind : ℕ) (m : Frames) : Type 0 where
  pub unclosed : (k : ℕ) → k < behind → is_closing (m table (page + k)) ≡ false
  pub closed : is_closing (m table (page + behind)) ≡ true

Block-later :
    (table page behind : ℕ) (m : Frames)
    → Block table page (suc behind) m
    → Block table (page + 1) behind m
Block-later table page b m block = record {
  unclosed =
      λ k l. ap (λ q. is_closing (m table q)) (omega arith) ∙ block.unclosed (suc k) (omega arith);
  closed = ap (λ q. is_closing (m table q)) (omega arith) ∙ block.closed;
}

count_table-Block :
    (n table page counted behind : ℕ) (m : Frames)
    → Block table page behind m
    → behind < n
    → count_table n table page counted m ≡ (true, counted + behind + 1)
unfolding count_table
count_table-Block zero table page c b m block h = absurd (omega arith)
count_table-Block (suc n) table page c zero m block h =
    let here : is_closing (m table page) ≡ true =
      ap (λ q. is_closing (m table q)) (omega arith) ∙ block.closed in
    rw here (ap (λ k. (true, k)) (omega arith))
count_table-Block (suc n) table page c (suc b) m block h =
    let here : is_closing (m table page) ≡ false =
      ap (λ q. is_closing (m table q)) (omega arith) ∙ block.unclosed 0 (omega arith) in
    rw here (
      count_table-Block n table (page + 1) (c + 1) b m (Block-later table page b m block)
        (omega arith)
      ∙ ap (λ k. (true, k)) (omega arith))

-- The memory after so many entries of a table were emptied.
abbrev pub emptied : ℕ → ℕ → ℕ → Frames → Frames
emptied table page count m =
    λ g j. if (g == table) && (leb page j && ltb j (page + count)) then empty_entry else m g j

emptied-first :
    (table page count : ℕ) (m : Frames) (g j : ℕ)
    → emptied table (page + 1) count (change table page (λ e. empty_entry) m) g j
      ≡ emptied table page (suc count) m g j
emptied-first table page c m g j = ground arith

cleared : (e : Entry) → is_allocated (clear_flag flag_allocated e) ≡ false
unfolding is_allocated
cleared e = ground (arith, has_flag-bit_and 11 e.flags 0x7ff)

unmarked :
    (e : Entry) → is_allocated (if is_allocated e then clear_flag flag_allocated e else e) ≡ false
unmarked e = elim (Bool-cases (is_allocated e)) [ inl h ↦ rw h (cleared e) | inr h ↦ rw h h ]

module _ {ℓ} {P : Type ℓ} (free : ℕ → P → ℕ × P) where
  -- The physical memory after so many entries of a table gave theirs back, in their order.
  unfoldable pub released : ℕ → ℕ → ℕ → Frames → P → P
  released zero table page m p = p
  released (suc n) table page m p = released n table (page + 1) m (release free (m table page) p)

  released-change :
      (n table page i : ℕ) (f : Entry → Entry) (m : Frames) (p : P)
      → i < page
      → released n table page (change table i f m) p ≡ released n table page m p
  unfolding released
  released-change zero table page i f m p h = refl
  released-change (suc n) table page i f m p h =
      let same : change table i f m table page ≡ m table page = ground arith in
      rw same
        (released-change n table (page + 1) i f m (release free (m table page) p) (omega arith))

  free_table_pages-emptied :
      (n table page count : ℕ) (p : P) (m : Frames)
      → count ≤ n
      → let r = free_table_pages free n table page count p m in
        (r.0 ≡ 0)
        × (r.1 ≡ released count table page m p)
        × ((g j : ℕ) → r.2 g j ≡ emptied table page count m g j)
  unfolding free_table_pages released
  free_table_pages-emptied zero table page zero p m h = (refl, refl, λ g j. ground arith)
  free_table_pages-emptied zero table page (suc c) p m h = absurd (omega arith)
  free_table_pages-emptied (suc n) table page zero p m h = (refl, refl, λ g j. ground arith)
  free_table_pages-emptied (suc n) table page (suc c) p m h =
      let one : suc c - 1 ≡ c = omega arith in
      let more : (suc c == 0) ≡ false = ground arith in
      let rest =
        free_table_pages-emptied n table (page + 1) c (release free (m table page) p)
          (change table page (λ e. empty_entry) m) (omega arith) in
      rw (more, one)
        (
          rest.0,
          rest.1
              ∙ released-change c table (page + 1) page (λ e. empty_entry) m
                  (release free (m table page) p) (omega arith),
          λ g j. rest.2 g j ∙ emptied-first table page c m g j,
        )

  free_pages_loop-nothing :
      (n directory t page : ℕ) (p : P) (m : Frames)
      → free_pages_loop free n directory t page 0 p m ≡ (p, m)
  unfolding free_pages_loop
  free_pages_loop-nothing zero directory t page p m = refl
  free_pages_loop-nothing (suc n) directory t page p m = refl

  count_tables-Block :
      (n directory t page behind : ℕ) (m : Frames)
      → is_allocated (m directory t) ≡ true
      → Block (m directory t).physical_page_index page behind m
      → page + behind < pages_count
      → count_tables (suc n) directory t page 0 m ≡ (true, suc behind)
  unfolding count_tables
  count_tables-Block n directory t page b m present block h =
      let counted =
        count_table-Block (pages_count - page) (m directory t).physical_page_index page 0 b m block
          (omega arith) in
      rw (present, counted, count_tables) (ap (λ k. (true, k)) (omega arith))

  -- Where the pages lie in one table, FreePages empties their entries.
  abbrev pub Emptied : ℕ → ℕ → ℕ → P → Frames → P × Frames → Type ℓ
  Emptied table page count p m r =
      (r.0 ≡ released count table page m p) × ((g j : ℕ) → r.1 g j ≡ emptied table page count m g j)

  free_pages_loop-Emptied :
      (n directory t page count : ℕ) (p : P) (m : Frames)
      → page + suc count ≤ pages_count
      → Emptied
          (m directory t).physical_page_index
          page
          (suc count)
          p
          m
          (free_pages_loop free (suc n) directory t page (suc count) p m)
  unfolding free_pages_loop
  free_pages_loop-Emptied n directory t page c p m h =
      let table = (m directory t).physical_page_index in
      let done =
        free_table_pages-emptied (pages_count - page) table page (suc c) p m (omega arith) in
      let r = free_table_pages free (pages_count - page) table page (suc c) p m in
      let stops : free_pages_loop free n directory (t + 1) 0 r.0 r.1 r.2 ≡ (r.1, r.2) =
        rw done.0 (free_pages_loop-nothing n directory (t + 1) 0 r.1 r.2) in
      let more : (suc c == 0) ≡ false = ground arith in rw (more, stops) (done.1, done.2)

  -- FreeVirtualMemory at an address in the first page of a block that lies in one table succeeds,
  -- empties the entries of the block and no other, and gives back the memory of those that were
  -- allocated, in their order.
  pub free_virtual_memory-Emptied :
      (directory t page behind offset : ℕ) (p : P) (m : Frames)
      → t < tables_count
      → page + behind < pages_count
      → offset < 0x1000
      → is_allocated (m directory t) ≡ true
      → Block (m directory t).physical_page_index page behind m
      → let r =
          free_virtual_memory free directory ((t * pages_count + page) * 0x1000 + offset) p m in
        (r.0 ≡ true) × Emptied (m directory t).physical_page_index page (suc behind) p m (r.1, r.2)
  unfolding free_virtual_memory free_pages
  free_virtual_memory-Emptied directory t page b offset p m top h small present block =
      let index : ((t * pages_count + page) * 0x1000 + offset) / 0x1000 ≡ t * pages_count + page =
        omega arith in
      let table : (t * pages_count + page) / pages_count ≡ t = omega arith in
      let place : (t * pages_count + page) % pages_count ≡ page = omega arith in
      let left : tables_count - t ≡ suc (1023 - t) = omega arith in
      let counted = count_tables-Block (1023 - t) directory t page b m present block h in
      let legal : ltb (0x1000 * pages_count) ((t * pages_count + page + suc b) % 2 ^ 32) ≡ false =
        ground arith in
      let freed = free_pages_loop-Emptied (1023 - t) directory t page b p m (omega arith) in
      rw (index, table, place, left, counted, legal, free_virtual_memory, free_pages) (refl, freed)

  -- The physical memory after the tables of a directory gave theirs back.
  tables_loop-effect :
      (n directory t : ℕ) (p : P) (m : Frames)
      → let r = free_tables_loop free n directory t p m in
        (r.0 ≡ released n directory t m p)
        × ((g j : ℕ)
            → r.1 g j ≡ (
                if (g == directory) && (leb t j && ltb j (t + n))
                then (if is_allocated (m g j) then clear_flag flag_allocated (m g j) else m g j)
                else m g j))
  unfolding free_tables_loop released
  tables_loop-effect zero directory t p m = (refl, λ g j. ground arith)
  tables_loop-effect (suc n) directory t p m =
      let f : Entry → Entry = λ e. if is_allocated e then clear_flag flag_allocated e else e in
      let rest =
        tables_loop-effect n directory (t + 1) (release free (m directory t) p)
          (change directory t f m) in
      (
        rest.0
            ∙ released-change n directory (t + 1) t f m (release free (m directory t) p)
                (omega arith),
        λ g j. rest.1 g j ∙ ground arith,
      )

  -- FreeDirectory gives back the memory of the directory's tables, in their order, and marks them as
  -- not allocated; it gives back the memory of no page and changes no other entry, since its call of
  -- FreePages is refused.
  pub free_directory-effect :
      (directory : ℕ) (p : P) (m : Frames)
      → let r = free_directory free directory p m in
        (r.0 ≡ released tables_count directory 0 m p)
        × ((t : ℕ) → t < tables_count → is_allocated (r.1 directory t) ≡ false)
        × ((g j : ℕ) → (g == directory) ≡ false → r.1 g j ≡ m g j)
  unfolding free_directory free_pages free_tables
  free_directory-effect directory p m =
      let done = tables_loop-effect tables_count directory 0 p m in
      (
        done.0,
        λ t h.
            let here : ((directory == directory) && (leb 0 t && ltb t (0 + tables_count))) ≡ true =
              ground arith in
            ap is_allocated (done.1 directory t) ∙ rw here (unmarked (m directory t)),
        λ g j out. done.1 g j ∙ rw out refl,
      )
