-- ===== src/Vmm/Searching/First.antt =====
-- What FindFreePagesBlockPageIndex finds.
use dark_core.Prelude.{
  ℕ, zero, suc, ◌+◌, ◌-◌, ◌*◌, ◌/◌, ◌%◌, ◌^◌, ◌≡◌, ◌≤◌, ◌<◌, ◌↔◌, ◌⊎◌, inl, inr, refl, sym, subst,
  ap, ap₂, ◌∙◌, arith, Bool, true, false, ltb, ◌==◌, if◌then◌else◌, Option, none, some, wrong_index,
  Bool-cases, Option-cases,
}
use dark_core.Vmm.{Frames, is_allocated, pages_count, tables_count}
use dark_core.Vmm.Searching.{
  is_busy, block_in_table, block_from, find_page, find_table, find_free_pages_block_page_index,
}

module _ (directory count : ℕ) (m : Frames) where
  -- The test at a page, which counts through all tables.
  abbrev pub free_at : ℕ → Bool
  free_at q =
      block_from (tables_count - q / pages_count) directory (q / pages_count) (q % pages_count)
        count m

  -- No block starts from a page on and before another.
  abbrev pub NoneFree : ℕ → ℕ → Type 0
  NoneFree low high = (q : ℕ) → low ≤ q → q < high → free_at q ≡ false

  -- The result is the first page of the range where the test holds, or there is none.
  abbrev pub IsFirst : ℕ → ℕ → Option ℕ → Type 0
  IsFirst low high none = NoneFree low high
  IsFirst low high (some q) = (low ≤ q) × (q < high) × (free_at q ≡ true) × NoneFree low q

  NoneFree-join :
      (low middle high : ℕ) → NoneFree low middle → NoneFree middle high → NoneFree low high
  NoneFree-join low middle high a b q p r = elim (Bool-cases (ltb q middle)) [
    | inl h ↦ a q p (ground arith)
    | inr h ↦ b q (ground arith) r
  ]

  NoneFree-one : (q : ℕ) → free_at q ≡ false → NoneFree q (q + 1)
  NoneFree-one q h r p l = let same : q ≡ r = omega arith in sym (ap free_at same) ∙ h

  IsFirst-later :
      (low middle high : ℕ) (o : Option ℕ)
      → low ≤ middle
      → NoneFree low middle
      → IsFirst middle high o
      → IsFirst low high o
  IsFirst-later low middle high none le before later = NoneFree-join low middle high before later
  IsFirst-later low middle high (some q) le before (a, b, c, d) =
      (omega arith, b, c, NoneFree-join low middle q before d)

  find_page-IsFirst :
      (n t page : ℕ)
      → page + n ≡ pages_count
      → IsFirst
          (t * pages_count + page)
          ((t + 1) * pages_count)
          (find_page n directory t page count m)
  unfolding find_page
  find_page-IsFirst zero t page e = λ q p r. absurd (omega arith)
  find_page-IsFirst (suc n) t page e =
      let table : (t * pages_count + page) / pages_count ≡ t = omega arith in
      let place : (t * pages_count + page) % pages_count ≡ page = omega arith in
      let here : free_at (t * pages_count + page)
          ≡ block_from (tables_count - t) directory t page count m =
        ap₂ (λ x y. block_from (tables_count - x) directory x y count m) table place in
      elim (Bool-cases (block_from (tables_count - t) directory t page count m)) [
        | inl h ↦ rw h (omega arith, omega arith, here ∙ h, λ q p r. absurd (omega arith))
        | inr h ↦
            let next : t * pages_count + (page + 1) ≡ t * pages_count + page + 1 = omega arith in
            rw h (
              IsFirst-later (t * pages_count + page) (t * pages_count + page + 1)
                ((t + 1) * pages_count) (find_page n directory t (page + 1) count m) (omega arith)
                (NoneFree-one (t * pages_count + page) (here ∙ h))
                (subst
                  (λ x.
                    IsFirst x ((t + 1) * pages_count) (find_page n directory t (page + 1) count m))
                  next (find_page-IsFirst n t (page + 1) (omega arith))))
      ]

  -- The same of a page or WRONG_INDEX.
  abbrev pub IsFirstOrWrong : ℕ → ℕ → ℕ → Type 0
  IsFirstOrWrong low high found =
      ((found ≡ wrong_index) × NoneFree low high) ⊎ IsFirst low high (some found)

  find_table-IsFirst :
      (n t : ℕ)
      → t + n ≡ tables_count
      → IsFirstOrWrong (t * pages_count) (2 ^ 20) (find_table n directory t count m)
  unfolding find_table
  find_table-IsFirst zero t e = inl (refl, λ q p r. absurd (omega arith))
  find_table-IsFirst (suc n) t e =
      let start : t * pages_count + 0 ≡ t * pages_count = omega arith in
      let in_table =
        subst (λ x. IsFirst x ((t + 1) * pages_count) (find_page pages_count directory t 0 count m))
          start (find_page-IsFirst pages_count t 0 (omega arith)) in
      go (find_page pages_count directory t 0 count m) in_table
        (find_table-IsFirst n (t + 1) (omega arith))
    where
      go :
          (o : Option ℕ)
          → IsFirst (t * pages_count) ((t + 1) * pages_count) o
          → IsFirstOrWrong ((t + 1) * pages_count) (2 ^ 20) (find_table n directory (t + 1) count m)
          → IsFirstOrWrong
              (t * pages_count)
              (2 ^ 20)
              (elim o [ none ↦ find_table n directory (t + 1) count m | some q ↦ q ])
      go (some q) (a, b, c, d) rest = inr (a, omega arith, c, d)
      go none before (inl (wrong, after)) =
          inl (wrong, NoneFree-join (t * pages_count) ((t + 1) * pages_count) (2 ^ 20) before after)
      go none before (inr (a, b, c, d)) = inr (
        omega arith,
        b,
        c,
        NoneFree-join (t * pages_count) ((t + 1) * pages_count)
            (find_table n directory (t + 1) count m) before d,
      )

  -- For a count of pages that an address space has, FindFreePagesBlockPageIndex returns the first page
  -- at which its test holds, or WRONG_INDEX where it holds nowhere.
  pub find_free_pages_block_page_index-IsFirst :
      count ≤ 2 ^ 24
      → IsFirstOrWrong 0 (2 ^ 20) (find_free_pages_block_page_index directory count m)
  unfolding find_free_pages_block_page_index
  find_free_pages_block_page_index-IsFirst h =
      let legal : ltb (0x1000 * 0x1000) count ≡ false = ground arith in
      rw legal (find_table-IsFirst tables_count 0 (omega arith))

-- The pages that a test within one table looks at are not busy.
abbrev pub PagesFree : ℕ → ℕ → ℕ → Frames → Type 0
PagesFree table page count m = (k : ℕ) → k < count → is_busy (m table (page + k)) ≡ false

PagesFree-later :
    (table page count : ℕ) (m : Frames)
    → is_busy (m table page) ≡ false
    → PagesFree table (page + 1) (count - 1) m
    → PagesFree table page count m
PagesFree-later table page c m here rest zero l = ap (λ q. is_busy (m table q)) (omega arith) ∙ here
PagesFree-later table page c m here rest (suc k) l =
    ap (λ q. is_busy (m table q)) (omega arith) ∙ rest k (omega arith)

PagesFree-first :
    (table page count : ℕ) (m : Frames)
    → 0 < count
    → PagesFree table page count m
    → is_busy (m table page) ≡ false
PagesFree-first table page c m h f = ap (λ q. is_busy (m table q)) (omega arith) ∙ f 0 h

PagesFree-tail :
    (table page count : ℕ) (m : Frames)
    → PagesFree table page count m
    → PagesFree table (page + 1) (count - 1) m
PagesFree-tail table page c m f k l =
    ap (λ q. is_busy (m table q)) (omega arith) ∙ f (suc k) (omega arith)

-- The loop over one table passes exactly over pages that are not busy.
block_in_table-PagesFree :
    (n table page count : ℕ) (m : Frames)
    → count ≤ n
    → (PagesFree table page count m × (block_in_table n table page count m ≡ some 0))
      ⊎ ((PagesFree table page count m → ⊥) × (block_in_table n table page count m ≡ none))
unfolding block_in_table
block_in_table-PagesFree zero table page c m h = inl (λ k l. absurd (omega arith), ground arith)
block_in_table-PagesFree (suc n) table page c m h = elim (Bool-cases (c == 0)) [
  | inl z ↦ inl (λ k l. absurd (ground arith), ground arith)
  | inr more ↦ elim (Bool-cases (is_busy (m table page))) [
    | inl busy ↦ inr (
      λ f. absurd (ground (arith, PagesFree-first table page c m (ground arith) f)),
      rw (more, busy, block_in_table) refl,
    )
    | inr idle ↦ elim (block_in_table-PagesFree n table (page + 1) (c - 1) m (omega arith)) [
      | inl (f, e) ↦
          inl (PagesFree-later table page c m idle f, rw (more, idle, e, block_in_table) refl)
      | inr (f, e) ↦
          inr (λ g. f (PagesFree-tail table page c m g), rw (more, idle, e, block_in_table) refl)
    ]
  ]
]

block_from-nothing :
    (n directory table_index page : ℕ) (m : Frames)
    → block_from n directory table_index page 0 m ≡ true
unfolding block_from
block_from-nothing zero directory t page m = refl
block_from-nothing (suc n) directory t page m = refl

-- Within a table that is there the test of FindFreePagesBlockPageIndex holds exactly if none of the
-- pages is busy.
pub block_from-PagesFree :
    (n directory table_index page count : ℕ) (m : Frames)
    → is_allocated (m directory table_index) ≡ true
    → page + count ≤ pages_count
    → (block_from (suc n) directory table_index page count m ≡ true)
      ↔ PagesFree (m directory table_index).physical_page_index page count m
unfolding block_from
block_from-PagesFree n directory t page c m present fits = elim (Bool-cases (c == 0)) [
  | inl z ↦ (λ e k l. absurd (ground arith), λ f. rw (z, block_from) refl)
  | inr more ↦
      elim (block_in_table-PagesFree (pages_count - page) (m directory t).physical_page_index page c
        m (omega arith)) [
          | inl (f, e) ↦ (
            λ q. f,
            λ g. rw (more, present, e, block_from) (block_from-nothing n directory (t + 1) page m),
          )
          | inr (f, e) ↦ (λ q. absurd (refused more e q), λ g. absurd (f g))
        ]
]
  where
    refused :
        (c == 0) ≡ false
        → block_in_table (pages_count - page) (m directory t).physical_page_index page c m ≡ none
        → block_from (suc n) directory t page c m ≡ true
        → ⊥
    refused more e q =
        let stops : block_from (suc n) directory t page c m ≡ false =
          rw (more, present, e, block_from) refl in
        ground (arith, stops, q)

block_in_table-ap :
    (n table page count : ℕ) (m m' : Frames)
    → ((j : ℕ) → page ≤ j → m table j ≡ m' table j)
    → block_in_table n table page count m ≡ block_in_table n table page count m'
unfolding block_in_table
block_in_table-ap zero table page c m m' h = refl
block_in_table-ap (suc n) table page c m m' h =
    ap₂ (λ e rest. if c == 0 then some c else if is_busy e then none else rest)
      (h page (omega arith))
      (block_in_table-ap n table (page + 1) (c - 1) m m' (λ j l. h j (omega arith)))

-- The test at a page looks at no page before it of any table: pages of a block behind the border of
-- its table that lie there may be busy.
pub block_from-overlooks :
    (n directory table_index page count : ℕ) (m m' : Frames)
    → ((t : ℕ) → m directory t ≡ m' directory t)
    → ((g j : ℕ) → page ≤ j → m g j ≡ m' g j)
    → block_from n directory table_index page count m
      ≡ block_from n directory table_index page count m'
unfolding block_from
block_from-overlooks zero directory t page c m m' tables pages = refl
block_from-overlooks (suc n) directory t page c m m' tables pages = elim (Bool-cases (c == 0)) [
  | inl z ↦ rw (z, block_from) refl
  | inr z ↦ elim (Bool-cases (is_allocated (m directory t))) [
    | inr out ↦
        let out' : is_allocated (m' directory t) ≡ false = ap is_allocated (sym (tables t)) ∙ out in
        rw (z, out, out', block_from)
          (block_from-overlooks n directory (t + 1) page (c - pages_count) m m' tables pages)
    | inl here ↦
        let here' : is_allocated (m' directory t) ≡ true =
          ap is_allocated (sym (tables t)) ∙ here in
        let f = (m directory t).physical_page_index in
        let same : block_in_table (pages_count - page) (m' directory t).physical_page_index page c
              m'
            ≡ block_in_table (pages_count - page) f page c m =
          ap (λ e. block_in_table (pages_count - page) e.physical_page_index page c m')
            (sym (tables t))
          ∙ sym (block_in_table-ap (pages_count - page) f page c m m' (pages f)) in
        elim (Option-cases (block_in_table (pages_count - page) f page c m)) [
          | inl e ↦ rw (z, here, here', same, e, block_from) refl
          | inr (left, e) ↦
              rw (z, here, here', same, e, block_from)
                (block_from-overlooks n directory (t + 1) page left m m' tables pages)
        ]
  ]
]
