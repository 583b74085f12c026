-- ===== src/Vmm/Mapping.antt =====
-- MapPages, and what GetPhysicalAddress then finds.
use dark_core.Prelude.{
  ℕ, zero, suc, ◌+◌, ◌-◌, ◌*◌, ◌/◌, ◌%◌, ◌^◌, ◌≤◌, ◌<◌, ◌≡◌, inl, inr, refl, sym, subst, ◌∙◌, ap,
  arith, true, false, ltb, ◌==◌, Bool-cases,
}
use dark_core.Vmm.{
  Entry, Frames, pages_count, tables_count, map_entry, map_table, is_allocated, ensure_table,
  map_tables, map_pages, page_index_from_address, get_physical_address,
}
use dark_core.Vmm.Filling.{TableDone, map_table-TableDone}

-- The directory has the tables from `lo` up to `hi`, each in a frame of its own.
pub record Ready (lo hi directory : ℕ) (frame : ℕ → ℕ) (m : Frames) : Type 0 where
  pub present : (t : ℕ) → lo ≤ t → t < hi → is_allocated (m directory t) ≡ true
  pub located : (t : ℕ) → lo ≤ t → t < hi → (m directory t).physical_page_index ≡ frame t
  pub apart : (t : ℕ) → lo ≤ t → t < hi → (directory == frame t) ≡ false
  pub distinct :
      (t u : ℕ)
      → lo ≤ t
      → t < hi
      → lo ≤ u
      → u < hi
      → (t == u) ≡ false
      → (frame t == frame u) ≡ false

-- The entry of a page, which counts through all tables.
abbrev pub page_entry : (ℕ → ℕ) → ℕ → Frames → Entry
page_entry frame q m = m (frame (q / pages_count)) (q % pages_count)

record TablesDone (first count physical flags lo hi : ℕ) (frame : ℕ → ℕ) (m m' : Frames)
    : Type 0 where
  hits :
      (k : ℕ)
      → k < count
      → page_entry frame (first + k) m'
        ≡ map_entry (physical + k) flags (page_entry frame (first + k) m)
  misses : (g j : ℕ) → ((t : ℕ) → lo ≤ t → t < hi → (g == frame t) ≡ false) → m' g j ≡ m g j

module _ {ℓ} {P : Type ℓ} (allocate : ℕ → P → ℕ × P) (directory hi flags : ℕ) (frame : ℕ → ℕ)
    (p : P) where
  step :
      (n t page count physical : ℕ) (m : Frames)
      → (count == 0) ≡ false
      → is_allocated (m directory t) ≡ true
      → (m directory t).physical_page_index ≡ frame t
      → let done = map_table (pages_count - page) (frame t) page count physical flags m in
        map_tables allocate (suc n) directory t page count physical flags p m
        ≡ map_tables allocate n directory (t + 1) 0 done.0 done.1 flags p done.2
  unfolding map_tables ensure_table
  step n t page count physical m some_pages present located = rw (some_pages, present, located) refl

  Ready-next :
      (t page count physical n : ℕ) (m : Frames) (r : ℕ × ℕ × Frames)
      → t < hi
      → Ready t hi directory frame m
      → TableDone n (frame t) page count physical flags m r
      → Ready (t + 1) hi directory frame r.2
  Ready-next t page count physical n m r h ready done = record {
    present = λ u lo up. ap is_allocated (same u) ∙ ready.present u (omega arith) up;
    located =
        λ u lo up. ap (λ e. e.physical_page_index) (same u) ∙ ready.located u (omega arith) up;
    apart = λ u lo up. ready.apart u (omega arith) up;
    distinct = λ u v lo up lo' up'. ready.distinct u v (omega arith) up (omega arith) up';
  }
    where
      same : (u : ℕ) → r.2 directory u ≡ m directory u
      same u = let other = ready.apart t (omega arith) h in done.misses directory u (rw other refl)

  join :
      (t page count physical : ℕ) (m m' : Frames) (r : ℕ × ℕ × Frames)
      → t < hi
      → page < pages_count
      → t * pages_count + page + count ≤ hi * pages_count
      → Ready t hi directory frame m
      → TableDone (pages_count - page) (frame t) page count physical flags m r
      → TablesDone ((t + 1) * pages_count) r.0 r.1 flags (t + 1) hi frame r.2 m'
      → TablesDone (t * pages_count + page) count physical flags t hi frame m m'
  join t page count physical m m' r h small fits ready done rest = record {
    hits = λ k lo. elim (Bool-cases (ltb (page + k) pages_count)) [
      | inl here ↦ in_table k lo (ground arith)
      | inr later ↦ behind k lo (ground arith)
    ];
    misses = λ g j out.
        rest.misses g j (λ u lo up. out u (omega arith) up)
        ∙ done.misses g j (let e = out t (omega arith) h in rw e refl);
  }
    where
      expected : (k : ℕ) → Entry
      expected k = map_entry (physical + k) flags (page_entry frame (t * pages_count + page + k) m)

      in_table :
          (k : ℕ)
          → k < count
          → page + k < pages_count
          → page_entry frame (t * pages_count + page + k) m' ≡ expected k
      in_table k lo in_range =
          entry m'
          ∙ rest.misses (frame t) (page + k)
              (λ u from up. ready.distinct t u (omega arith) h (omega arith) up (ground arith))
          ∙ done.hits (frame t) (page + k) (ground arith)
          ∙ (λ i. map_entry (number i) flags (sym (entry m) i))
        where
          table : (t * pages_count + page + k) / pages_count ≡ t
          table = omega arith

          place : (t * pages_count + page + k) % pages_count ≡ page + k
          place = omega arith

          number : physical + (page + k - page) ≡ physical + k
          number = omega arith

          entry :
              (v : Frames)
              → page_entry frame (t * pages_count + page + k) v ≡ v (frame t) (page + k)
          entry v = λ i. v (frame (table i)) (place i)

      behind :
          (k : ℕ)
          → k < count
          → pages_count ≤ page + k
          → page_entry frame (t * pages_count + page + k) m' ≡ expected k
      behind k lo beyond =
          ap (λ q. page_entry frame q m') same_page
          ∙ rest.hits k' (ground (arith, done.left))
          ∙ (λ i. map_entry (number i) flags (untouched i))
        where
          k' : ℕ
          k' = page + k - pages_count

          same_page : t * pages_count + page + k ≡ (t + 1) * pages_count + k'
          same_page = omega arith

          number : r.1 + k' ≡ physical + k
          number = ground (arith, done.next)

          u : ℕ
          u = ((t + 1) * pages_count + k') / pages_count

          untouched :
              page_entry frame ((t + 1) * pages_count + k') r.2
              ≡ page_entry frame (t * pages_count + page + k) m
          untouched =
              done.misses (frame u) (((t + 1) * pages_count + k') % pages_count) (
                let e =
                  ready.distinct u t (omega arith) (omega arith) (omega arith) h (ground arith) in
                rw e refl)
              ∙ ap (λ q. page_entry frame q m) (sym same_page)

  map_tables-TablesDone :
      (n t page count physical : ℕ) (m : Frames)
      → t + n ≡ tables_count
      → hi ≤ tables_count
      → page < pages_count
      → t * pages_count + page + count ≤ hi * pages_count
      → Ready t hi directory frame m
      → TablesDone
          (t * pages_count + page)
          count
          physical
          flags
          t
          hi
          frame
          m
          (map_tables allocate n directory t page count physical flags p m).1
  unfolding map_tables
  map_tables-TablesDone zero t page count physical m e top small fits ready = record {
    hits = λ k lo. absurd (omega arith);
    misses = λ g j out. refl;
  }
  map_tables-TablesDone (suc n) t page count physical m e top small fits ready =
      elim (Bool-cases (count == 0)) [
        | inl nothing ↦
            rw nothing (record { hits = λ k lo. absurd (ground arith); misses = λ g j out. refl })
        | inr some_pages ↦
            let h : t < hi = ground arith in
            let r = map_table (pages_count - page) (frame t) page count physical flags m in
            let done =
              map_table-TableDone (pages_count - page) (frame t) page count physical flags m in
            let rest =
              map_tables-TablesDone n (t + 1) 0 r.0 r.1 r.2 (omega arith) top (omega arith)
                (ground (arith, done.left))
                (Ready-next t page count physical (pages_count - page) m r h ready done) in
            let start : (t + 1) * pages_count + 0 ≡ (t + 1) * pages_count = omega arith in
            let after = (map_tables allocate n directory (t + 1) 0 r.0 r.1 flags p r.2).1 in
            subst (λ s. TablesDone (t * pages_count + page) count physical flags t hi frame m s.1)
              (sym (
                step n t page count physical m some_pages (ready.present t (omega arith) h)
                  (ready.located t (omega arith) h)))
              (join t page count physical m after r h small fits ready done
                (subst (λ q. TablesDone q r.0 r.1 flags (t + 1) hi frame r.2 after) start rest))
      ]

  translate :
      (q offset physical : ℕ) (m : Frames)
      → offset < 0x1000
      → physical < 2 ^ 20
      → (m directory (q / pages_count)).physical_page_index ≡ frame (q / pages_count)
      → (page_entry frame q m).physical_page_index ≡ physical
      → get_physical_address directory (q * 0x1000 + offset) m ≡ physical * 0x1000 + offset
  unfolding get_physical_address
  translate q offset physical m small low located e =
      let page : (q * 0x1000 + offset) / 0x1000 ≡ q = omega arith in
      rw (page, located, e) (omega arith)

  -- After MapPages on a directory whose tables are there, in frames apart from each other and from
  -- the directory, GetPhysicalAddress takes each byte of the pages to the same byte of the physical pages
  -- from the given address on; the pages must lie within the tables and below 4 GiB.
  pub get_physical_address-map_pages :
      (page_index address count k offset : ℕ) (m : Frames)
      → hi ≤ tables_count
      → page_index + count ≤ hi * pages_count
      → page_index_from_address address + count ≤ 2 ^ 20
      → Ready (page_index / pages_count) hi directory frame m
      → k < count
      → offset < 0x1000
      → get_physical_address directory
          ((page_index + k) * 0x1000 + offset)
          (map_pages allocate directory page_index address count flags p m).2
        ≡ (page_index_from_address address + k) * 0x1000 + offset
  unfolding map_pages map_entry
  get_physical_address-map_pages page_index address count k offset m top fits low ready lo small =
      let legal : ltb (0x1000 * 0x1000) page_index ≡ false = ground arith in
      rw legal (
        translate (page_index + k) offset (page_index_from_address address + k) after small
          (omega arith)
          (ap (λ e. e.physical_page_index) same_table ∙ ready.located u (omega arith) (omega arith))
          (ap (λ q. (page_entry frame q after).physical_page_index) (sym here)
            ∙ ap (λ e. e.physical_page_index) (done.hits k lo)
            ∙ omega arith))
    where
      u : ℕ
      u = (page_index + k) / pages_count

      t : ℕ
      t = page_index / pages_count

      done :
          TablesDone
            (t * pages_count + page_index % pages_count)
            count
            (page_index_from_address address)
            flags
            t
            hi
            frame
            m
            (map_tables allocate
              (tables_count - t)
              directory
              t
              (page_index % pages_count)
              count
              (page_index_from_address address)
              flags
              p
              m).1
      done =
          map_tables-TablesDone (tables_count - t) t (page_index % pages_count) count
            (page_index_from_address address) m (omega arith) top (omega arith) (omega arith) ready

      after : Frames
      after =
          (map_tables allocate (tables_count - t) directory t (page_index % pages_count) count
            (page_index_from_address address) flags p m).1

      same_table : after directory u ≡ m directory u
      same_table = done.misses directory u (λ v from up. ready.apart v from up)

      here : t * pages_count + page_index % pages_count + k ≡ page_index + k
      here = omega arith
