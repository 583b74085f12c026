-- ===== src/Vmm/Allocating/Blocks.antt =====
-- AllocateVirtualMemory and FreeVirtualMemory on a block within one table.
use dark_core.Prelude.{
  ℕ, zero, suc, ◌+◌, ◌-◌, ◌*◌, ◌/◌, ◌%◌, ◌^◌, ◌≡◌, ◌≤◌, ◌<◌, inl, inr, refl, sym, ap, subst, ◌∙◌,
  arith, true, false, ◌&&◌, ltb, leb, ◌==◌, Bool-cases, bit_or, has_flag, has_flag-bit_or,
  wrong_index,
}
use dark_core.Vmm.{
  Entry, Frames, add_flags, change, is_allocated, pages_count, tables_count, flag_closing,
  ensure_table, address_from_page_index,
}
use dark_core.Vmm.Freeing.{is_closing, free_virtual_memory}
use dark_core.Vmm.Freeing.Blocks.{Block, emptied, free_virtual_memory-Emptied}
use dark_core.Vmm.Searching.{find_free_pages_block_page_index}
use dark_core.Vmm.Allocating.{
  Pages, with_pages, allocate_entry, allocate_table_pages, allocate_tables, allocate_virtual_memory,
  pages_count_from_bytes_count, change_before,
}

-- Pages of a table were filled by AllocateVirtualMemory, and no other entry changed.
pub record Filled (count table page flags : ℕ) (m m' : Frames) : Type 0 where
  pub hits :
      (k : ℕ)
      → k < count
      → (block : ℕ) × (m' table (page + k) ≡ allocate_entry block flags (m table (page + k)))
  pub misses :
      (g j : ℕ) → ((g == table) && (leb page j && ltb j (page + count))) ≡ false → m' g j ≡ m g j

Filled-first :
    (count table page flags block : ℕ) (m m' : Frames)
    → Filled count table (page + 1) flags (change table page (allocate_entry block flags) m) m'
    → Filled (suc count) table page flags m m'
Filled-first c table page flags block m m' rest = record {
  hits = hits;
  misses = λ g j out. rest.misses g j (ground arith) ∙ ground arith;
}
  where
    first :
        change table page (allocate_entry block flags) m table page
        ≡ allocate_entry block flags (m table page)
    first = ground arith

    hits :
        (k : ℕ)
        → k < suc c
        → (b : ℕ) × (m' table (page + k) ≡ allocate_entry b flags (m table (page + k)))
    hits zero l = (
      block,
      ap (m' table) {y = page} (omega arith)
          ∙ rest.misses table page (ground arith)
          ∙ first
          ∙ ap (λ j. allocate_entry block flags (m table j)) (omega arith),
    )
    hits (suc k) l =
        let later = rest.hits k (omega arith) in
        let same : change table page (allocate_entry block flags) m table (page + 1 + k)
            ≡ m table (page + 1 + k) =
          ground arith in
        (
          later.0,
          ap (m' table) {y = page + 1 + k} (omega arith)
              ∙ later.1
              ∙ ap (allocate_entry later.0 flags) (same ∙ ap (m table) (omega arith)),
        )

is_closing-allocate_entry :
    (block flags : ℕ) (e : Entry)
    → has_flag 10 (flags % 0x1000) ≡ false
    → is_closing e ≡ false
    → is_closing (allocate_entry block flags e) ≡ false
unfolding is_closing allocate_entry
is_closing-allocate_entry block flags e h open_before = ground (
  arith,
  has_flag-bit_or 10 (bit_or (bit_or e.flags 0x800) 0x200) (flags % 0x1000),
  has_flag-bit_or 10 (bit_or e.flags 0x800) 0x200,
  has_flag-bit_or 10 e.flags 0x800,
)

is_closing-add_flags : (e : Entry) → is_closing (add_flags flag_closing e) ≡ true
unfolding is_closing
is_closing-add_flags e = ground (arith, has_flag-bit_or 10 e.flags 0x400)

-- The last of the pages was marked as the end of the block.
abbrev pub closed_at : ℕ → ℕ → ℕ → Frames → Frames
closed_at table page count m = change_before table (page + count) (add_flags flag_closing) m

module _ (c table page flags : ℕ) (m m' : Frames)
    (filled : Filled (suc c) table page flags m m') where
  private_place : (page + suc c == 0) ≡ false
  private_place = ground arith

  closed_at-hit :
      closed_at table page (suc c) m' table (page + c)
      ≡ add_flags flag_closing (m' table (page + c))
  closed_at-hit =
      let last : page + suc c - 1 ≡ page + c = omega arith in
      rw (private_place, last) (ground arith)

  closed_at-miss :
      (g j : ℕ)
      → ((g == table) && (j == page + c)) ≡ false
      → closed_at table page (suc c) m' g j ≡ m' g j
  closed_at-miss g j out =
      let last : page + suc c - 1 ≡ page + c = omega arith in rw (private_place, last, out) refl

  -- The pages are a block then.
  Filled-Block :
      has_flag 10 (flags % 0x1000) ≡ false
      → ((k : ℕ) → k < suc c → is_closing (m table (page + k)) ≡ false)
      → Block table page c (closed_at table page (suc c) m')
  Filled-Block h before = record {
    unclosed = λ k l.
        let hit = filled.hits k (omega arith) in
        ap is_closing (closed_at-miss table (page + k) (ground arith) ∙ hit.1)
        ∙ is_closing-allocate_entry hit.0 flags (m table (page + k)) h (before k (omega arith));
    closed = ap is_closing closed_at-hit ∙ is_closing-add_flags (m' table (page + c));
  }

  Filled-emptied :
      (g j : ℕ)
      → emptied table page (suc c) (closed_at table page (suc c) m') g j
        ≡ emptied table page (suc c) m g j
  Filled-emptied g j = elim (Bool-cases ((g == table) && (leb page j && ltb j (page + suc c)))) [
    | inl h ↦ rw h refl
    | inr h ↦ rw h (closed_at-miss g j (ground arith) ∙ filled.misses g j h)
  ]

  Filled-elsewhere : (g j : ℕ) → (g == table) ≡ false → closed_at table page (suc c) m' g j ≡ m g j
  Filled-elsewhere g j out = closed_at-miss g j (rw out refl) ∙ filled.misses g j (rw out refl)

module _ {ℓ} {P : Type ℓ} (allocate : ℕ → P → ℕ × P) where
  -- The physical memory manager grants so many frames, one after the other.
  abbrev pub Grants : ℕ → P → Type 0
  Grants zero p = Unit
  Grants (suc n) p = ((allocate 0x1000 p).0 == 0) ≡ false × Grants n (allocate 0x1000 p).1

  -- The loop over a table fills the pages.
  abbrev AllFilled : ℕ → ℕ → ℕ → ℕ → Frames → Pages P → Type ℓ
  AllFilled count table page flags m r =
      (p' : P) × (m' : Frames) × (r ≡ with_pages 0 table (page + count) p' m')
      × Filled count table page flags m m'

  fill_step :
      (n table page c flags : ℕ) (p : P) (m : Frames)
      → ((allocate 0x1000 p).0 == 0) ≡ false
      → allocate_table_pages allocate (suc n) table page (suc c) flags p m
        ≡ allocate_table_pages allocate n table
            (page + 1)
            c
            flags
            (allocate 0x1000 p).1
            (change table page (allocate_entry (allocate 0x1000 p).0 flags) m)
  unfolding allocate_table_pages
  fill_step n table page c flags p m granted =
      let one : suc c - 1 ≡ c = omega arith in
      let more : (suc c == 0) ≡ false = ground arith in rw (more, granted, one) refl

  allocate_table_pages-AllFilled :
      (n table page count flags : ℕ) (p : P) (m : Frames)
      → count ≤ n
      → Grants count p
      → AllFilled count table page flags m
          (allocate_table_pages allocate n table page count flags p m)
  unfolding allocate_table_pages
  allocate_table_pages-AllFilled zero table page zero flags p m h grants = (
    p,
    m,
    ap (λ k. with_pages 0 table k p m) (omega arith),
    record { hits = λ k l. absurd (omega arith); misses = λ g j out. refl },
  )
  allocate_table_pages-AllFilled zero table page (suc c) flags p m h grants = absurd (omega arith)
  allocate_table_pages-AllFilled (suc n) table page zero flags p m h grants = (
    p,
    m,
    ap (λ k. with_pages 0 table k p m) (omega arith),
    record { hits = λ k l. absurd (omega arith); misses = λ g j out. refl },
  )
  allocate_table_pages-AllFilled (suc n) table page (suc c) flags p m h grants =
      let rest =
        allocate_table_pages-AllFilled n table (page + 1) c flags (allocate 0x1000 p).1
          (change table page (allocate_entry (allocate 0x1000 p).0 flags) m) (omega arith)
          grants.1 in
      (
        rest.0,
        rest.1,
        fill_step n table page c flags p m grants.0
            ∙ rest.2
            ∙ ap (λ k. with_pages 0 table k rest.0 rest.1) (omega arith),
        Filled-first c table page flags (allocate 0x1000 p).0 m rest.1 rest.3,
      )

  module _ (free : ℕ → P → ℕ × P) where
    module _ (directory t page c bytes_count flags : ℕ) (p : P) (m : Frames) where
      table_step :
          (n : ℕ) (p' : P) (m' : Frames)
          → is_allocated (m directory t) ≡ true
          → allocate_table_pages allocate
              (pages_count - page)
              (m directory t).physical_page_index
              page
              (suc c)
              flags
              p
              m
            ≡ with_pages 0 (m directory t).physical_page_index (page + suc c) p' m'
          → allocate_tables allocate free
              (suc n)
              directory
              (t * pages_count + page)
              (suc c)
              t
              page
              (suc c)
              flags
              0
              p
              m
            ≡ with_pages 0 (m directory t).physical_page_index (page + suc c) p' m'
      unfolding allocate_tables ensure_table
      table_step n p' m' present e =
          let more : (suc c == 0) ≡ false = ground arith in
          rw (more, present, e, allocate_tables) refl

      allocate_step :
          (left table after : ℕ) (p' : P) (m' : Frames)
          → t < tables_count
          → page < pages_count
          → pages_count_from_bytes_count bytes_count ≡ suc c
          → find_free_pages_block_page_index directory (suc c) m ≡ t * pages_count + page
          → allocate_tables allocate free
              (suc (1023 - t))
              directory
              (t * pages_count + page)
              (suc c)
              t
              page
              (suc c)
              flags
              0
              p
              m
            ≡ with_pages left table after p' m'
          → allocate_virtual_memory allocate free directory bytes_count flags p m ≡ (
            address_from_page_index (t * pages_count + page),
            p',
            change_before table after (add_flags flag_closing) m',
          )
      unfolding allocate_virtual_memory
      allocate_step left table after p' m' top inside pages found e =
          let some_found : (t * pages_count + page == wrong_index) ≡ false = ground arith in
          let table_eq : (t * pages_count + page) / pages_count ≡ t = omega arith in
          let place : (t * pages_count + page) % pages_count ≡ page = omega arith in
          let tables : tables_count - t ≡ suc (1023 - t) = omega arith in
          rw
            (
              pages, found, some_found, pages, found, table_eq, place, tables, e, pages, found,
              allocate_virtual_memory,
            )
            refl

    -- An allocation returned the address of a page, and to free it empties so many entries.
    abbrev pub RoundTrip : ℕ → ℕ → ℕ → ℕ → Frames → ℕ × P × Frames → Type 0
    RoundTrip directory q count table m r =
        let f = free_virtual_memory free directory r.0 r.1 r.2 in
        (r.0 ≡ q * 0x1000)
        × (f.0 ≡ true)
        × ((g j : ℕ) → f.2 g j ≡ emptied table (q % pages_count) count m g j)

    Filled-RoundTrip :
        (directory t page c flags : ℕ) (p' : P) (m m' : Frames)
        → t < tables_count
        → page + suc c ≤ pages_count
        → is_allocated (m directory t) ≡ true
        → (directory == (m directory t).physical_page_index) ≡ false
        → has_flag 10 (flags % 0x1000) ≡ false
        → ((k : ℕ)
            → k < suc c
            → is_closing (m (m directory t).physical_page_index (page + k)) ≡ false)
        → Filled (suc c) (m directory t).physical_page_index page flags m m'
        → RoundTrip directory
            (t * pages_count + page)
            (suc c)
            (m directory t).physical_page_index
            m
            (
              address_from_page_index (t * pages_count + page),
              p',
              closed_at (m directory t).physical_page_index page (suc c) m',
            )
    Filled-RoundTrip directory t page c flags p' m m' top fits present apart unmarked before
          filled =
        let table = (m directory t).physical_page_index in
        let after = closed_at table page (suc c) m' in
        let entry : after directory t ≡ m directory t =
          Filled-elsewhere c table page flags m m' filled directory t apart in
        let index : (after directory t).physical_page_index ≡ table =
          ap (λ e. e.physical_page_index) entry in
        let freed =
          free_virtual_memory-Emptied free directory t page c 0 p' after top (omega arith)
            (omega arith) (ap is_allocated entry ∙ present)
            (subst (λ f. Block f page c after) (sym index)
              (Filled-Block c table page flags m m' filled unmarked before)) in
        let address : (t * pages_count + page) * 0x1000 % 2 ^ 32
            ≡ (t * pages_count + page) * 0x1000 + 0 =
          omega arith in
        let place : (t * pages_count + page) % pages_count ≡ page = omega arith in
        rw (address, place)
          (
            omega arith,
            freed.0,
            λ g j.
                freed.1.1 g j
                ∙ ap (λ f. emptied f page (suc c) after g j) index
                ∙ Filled-emptied c table page flags m m' filled g j,
          )

    -- Where FindFreePagesBlockPageIndex finds a block that lies in one table, whose frame is not the
    -- directory's, and each page gets a frame, AllocateVirtualMemory returns the address of the block, and
    -- FreeVirtualMemory at this address succeeds and leaves the entries of the block empty and all
    -- others as they were before; none of the block's entries or of the flags may have the mark of an end.
    pub free_virtual_memory-allocate_virtual_memory :
        (directory t page c bytes_count flags : ℕ) (p : P) (m : Frames)
        → t < tables_count
        → page + suc c ≤ pages_count
        → is_allocated (m directory t) ≡ true
        → (directory == (m directory t).physical_page_index) ≡ false
        → pages_count_from_bytes_count bytes_count ≡ suc c
        → find_free_pages_block_page_index directory (suc c) m ≡ t * pages_count + page
        → Grants (suc c) p
        → has_flag 10 (flags % 0x1000) ≡ false
        → ((k : ℕ)
            → k < suc c
            → is_closing (m (m directory t).physical_page_index (page + k)) ≡ false)
        → RoundTrip directory
            (t * pages_count + page)
            (suc c)
            (m directory t).physical_page_index
            m
            (allocate_virtual_memory allocate free directory bytes_count flags p m)
    free_virtual_memory-allocate_virtual_memory directory t page c bytes flags p m top fits present
          apart pages found grants unmarked before =
        let table = (m directory t).physical_page_index in
        let done =
          allocate_table_pages-AllFilled (pages_count - page) table page (suc c) flags p m
            (omega arith) grants in
        subst (RoundTrip directory (t * pages_count + page) (suc c) table m)
          (sym (
            allocate_step directory t page c bytes flags p m 0 table (page + suc c) done.0 done.1
              top (omega arith) pages found
              (table_step directory t page c bytes flags p m (1023 - t) done.0 done.1 present
                done.2)))
          (Filled-RoundTrip directory t page c flags done.0 m done.1 top fits present apart unmarked
            before done.3)
