-- ===== src/Pmm/Setup/Start.antt =====
-- What Initialize hands over to the allocator.
use mathlib.Core.List.{Memᴰ}
use dark_core.Prelude.{
  ℕ, zero, suc, ◌+◌, ◌*◌, ◌%◌, ◌≤◌, ◌<◌, ◌≡◌, refl, sym, subst, ◌∙◌, ◌==◌, arith, Bool, true, false,
  ◌&&◌, not, ltb, List, [], ◌∷◌, some, All, All-map, Bool-cases, inl, inr, length, get_or, map, ap,
  size_mod, add_size, mul_size,
}
use dark_core.Common.Align.{align_up}
use dark_core.Common.Align.Multiples.{align_up-eq-next}
use dark_core.Pmm.Region.{
  Region, is_available, get_region_frames_count, frame_size, descriptor_size,
}
use dark_core.Pmm.Region.Frames.{frames_fit, frames_count_small, frames_count_wraps}
use dark_core.Pmm.Zone.{no_frame, is_busy}
use dark_core.Pmm.Zone.Tiling.{Tiled}
use dark_core.Pmm.Allocator.{Zone}
use dark_core.Pmm.Allocator.Validity.{IsZone, IsValid}
use dark_core.Pmm.Setup.{
  free_frames, first_buffer, start_zone, initialize, align_region, table_region, lays_out,
  holds_table, final_regions, remove_extra_regions,
}
use dark_core.Pmm.Setup.Cutting.{IsUnwrapped, offers, taken}
use dark_core.Pmm.Setup.Aligning.{
  IsBelow, Within, IsAligned, offers-IsBelow, offers-Within, align_region-IsAligned, drop_empty-All,
  drop_empty-keeps, Memᴰ-map, All-map_of,
}
use dark_core.Pmm.Setup.Removing.{remove_extra_regions-offers}

length-free_frames : (n a : ℕ) → length (free_frames n a) ≡ n
unfolding free_frames
length-free_frames zero a = refl
length-free_frames (suc n) a = ap suc (length-free_frames n (add_size a frame_size))

free_frames-Tiled : (n a : ℕ) → Tiled 0 (free_frames n a)
unfolding free_frames is_busy
free_frames-Tiled zero a = refl
free_frames-Tiled (suc n) a = inl (refl, refl, free_frames-Tiled n (add_size a frame_size))

free_frames-free : (n a : ℕ) → All (λ f. is_busy f ≡ false) (free_frames n a)
unfolding free_frames is_busy
free_frames-free zero a = tt
free_frames-free (suc n) a = (refl, free_frames-free n (add_size a frame_size))

-- A zone as Initialize leaves it.
pub record IsFresh (z : Zone) : Type 0 where
  pub is_zone : IsZone z
  pub all_free : All (λ f. is_busy f ≡ false) z.frames

length-frames :
    (r : Region) → is_available r ≡ true → length (start_zone r).frames ≡ get_region_frames_count r
unfolding start_zone
length-frames r usable = rw usable (length-free_frames (get_region_frames_count r) (first_buffer r))

start_zone-IsFresh : (r : Region) → IsFresh (start_zone r)
unfolding start_zone
start_zone-IsFresh r = elim (Bool-cases (is_available r)) [
  | inl usable ↦ rw usable (record {
    is_zone = record {
      complete = λ u. length-free_frames (get_region_frames_count r) (first_buffer r);
      tiled = free_frames-Tiled (get_region_frames_count r) (first_buffer r);
    };
    all_free = free_frames-free (get_region_frames_count r) (first_buffer r);
  })
  | inr not_usable ↦ rw not_usable (record {
    is_zone = record { complete = λ u. absurd (ground arith); tiled = refl };
    all_free = tt;
  })
]

All-IsFresh : (rs : List Region) → All IsFresh (map start_zone rs)
All-IsFresh [] = tt
All-IsFresh (r ∷ rs) = (start_zone-IsFresh r, All-IsFresh rs)

free_frames-buffer :
    (n a j : ℕ)
    → j < n
    → a + n * frame_size ≤ size_mod
    → (get_or (free_frames n a) j no_frame).buffer_address ≡ a + j * frame_size
unfolding free_frames
free_frames-buffer zero a j h fits = absurd (omega arith)
free_frames-buffer (suc n) a zero h fits = omega arith
free_frames-buffer (suc n) a (suc j) h fits =
    let next : add_size a frame_size ≡ a + frame_size = omega arith in
    rw next (omega (arith, free_frames-buffer n (a + frame_size) j (omega arith) (omega arith)))

-- In an available region of three pages or more that ends at 4 GiB or below, each buffer lies within
-- the region, one page after the other, behind the table of the frame descriptors.
pub start_zone-buffers :
    (r : Region) (j : ℕ)
    → is_available r ≡ true
    → 0x3000 ≤ r.extent
    → r.extent < size_mod
    → r.address + r.extent ≤ size_mod
    → j < get_region_frames_count r
    → let buffer = (get_or (start_zone r).frames j no_frame).buffer_address in
      (buffer ≡ (get_or (start_zone r).frames 0 no_frame).buffer_address + j * frame_size)
      × (r.address + get_region_frames_count r * descriptor_size ≤ buffer)
      × (buffer + frame_size ≤ r.address + r.extent)
unfolding start_zone first_buffer
start_zone-buffers r j usable big small fits h =
    let n = get_region_frames_count r in
    let table = align_up (n * descriptor_size) frame_size in
    let room = frames_fit r big small in
    let above : n * descriptor_size ≤ table =
      omega
        (arith, align_up-eq-next (n * descriptor_size) frame_size (omega arith) (omega arith)) in
    let whole : mul_size n descriptor_size ≡ n * descriptor_size = omega arith in
    let start : add_size (r.address % size_mod) (align_up (mul_size n descriptor_size) frame_size)
        ≡ r.address + table =
      rw whole (omega arith) in
    let top : r.address + table + n * frame_size ≤ size_mod = omega arith in
    rw
      (
        usable,
        start,
        free_frames-buffer n (r.address + table) j h top,
        free_frames-buffer n (r.address + table) 0 (omega arith) top,
      )
      (omega arith, omega arith, omega arith)

initialize_step :
    (table : ℕ) (rs cut : List Region)
    → remove_extra_regions rs (table_region table (length rs) ∷ []) ≡ some cut
    → lays_out (final_regions cut) ≡ true
    → initialize table rs ≡ some (map start_zone (final_regions cut))
unfolding initialize
initialize_step table rs cut e sound = rw (e, sound, initialize) refl

table_region-IsUnwrapped : (table count : ℕ) → IsUnwrapped (table_region table count)
unfolding table_region align_up
table_region-IsUnwrapped table count = omega arith

-- Every byte of a buffer of the zone passes a test.
abbrev pub BuffersPass : (ℕ → Bool) → Zone → Type 0
BuffersPass test z =
    is_available z.region ≡ true
    → (j : ℕ) → j < length z.frames
    → (x : ℕ) → (get_or z.frames j no_frame).buffer_address ≤ x
    → x < (get_or z.frames j no_frame).buffer_address + frame_size
    → test x ≡ true

-- A frame count that the table of descriptors has room for has not wrapped.
long_enough :
    (r : Region) (j : ℕ)
    → is_available r ≡ true
    → r.extent < size_mod
    → holds_table r ≡ true
    → j < get_region_frames_count r
    → 0x3000 ≤ r.extent
unfolding holds_table
long_enough r j usable small holds h = elim (Bool-cases (ltb r.extent 0x2000)) [
  | inl short ↦ absurd (omega (arith, frames_count_small r (ground arith), h))
  | inr two_pages ↦ elim (Bool-cases (ltb r.extent 0x3000)) [
    | inl wraps ↦
        let count = frames_count_wraps r (ground arith) (ground arith) in
        let room : get_region_frames_count r * descriptor_size ≤ r.extent = ground arith in
        absurd (omega (arith, count, room))
    | inr three_pages ↦ ground arith
  ]
]

start_zone-BuffersPass :
    (test : ℕ → Bool) (r : Region)
    → IsAligned test r
    → holds_table r ≡ true
    → BuffersPass test (start_zone r)
unfolding start_zone
start_zone-BuffersPass test r a holds usable j h x lo hi =
    let count : length (start_zone r).frames ≡ get_region_frames_count r = length-frames r usable in
    let inside : j < get_region_frames_count r = omega arith in
    let big = long_enough r j usable a.small holds inside in
    let (after, above, within) =
      start_zone-buffers r j usable big a.small (a.below usable (omega arith)) inside in
    a.within x (ground arith)

lays_out-holds : (rs : List Region) → lays_out rs ≡ true → All (λ r. holds_table r ≡ true) rs
unfolding lays_out
lays_out-holds [] h = tt
lays_out-holds (r ∷ rs) h = (ground arith, lays_out-holds rs (ground arith))

All-BuffersPass :
    (test : ℕ → Bool) (rs : List Region)
    → All (IsAligned test) rs
    → All (λ r. holds_table r ≡ true) rs
    → All (BuffersPass test) (map start_zone rs)
All-BuffersPass test [] a h = tt
All-BuffersPass test (r ∷ rs) a h =
    (start_zone-BuffersPass test r a.0 h.0, All-BuffersPass test rs a.1 h.1)

-- The byte lies in an available region and not in what Initialize sets aside for the table.
abbrev pub is_offered : ℕ → List Region → ℕ → Bool
is_offered table rs x = offers rs x && not (taken (table_region table (length rs) ∷ []) x)

-- Where the regions lie below 4 GiB and, once they are cut and aligned, are apart and hold their frame
-- descriptors, Initialize ends and leaves the allocator's invariant and no frame busy; every byte of
-- every buffer lay in an available region and not in what is set aside for the table of regions; and
-- every region that has a frame after the cut and the alignment is there.
pub initialize-starts :
    (table : ℕ) (rs cut : List Region)
    → All IsBelow rs
    → remove_extra_regions rs (table_region table (length rs) ∷ []) ≡ some cut
    → lays_out (final_regions cut) ≡ true
    → (zs : List Zone) × (initialize table rs ≡ some zs)
      × IsValid zs
      × All (λ z. All (λ f. is_busy f ≡ false) z.frames) zs
      × All (BuffersPass (is_offered table rs)) zs
      × ((r : Region)
          → Memᴰ r cut
          → (get_region_frames_count (align_region r) == 0) ≡ false
          → Memᴰ (start_zone (align_region r)) zs)
unfolding final_regions
initialize-starts table rs cut below e sound =
    let (done, e', unwrapped, offered) =
      remove_extra_regions-offers rs (table_region table (length rs) ∷ [])
        (All-map IsBelow IsUnwrapped rs (λ r h. omega arith) below)
        (table_region-IsUnwrapped table (length rs), tt) in
    let both : some done ≡ some cut = sym e' ∙ e in
    let same : done ≡ cut = cc in
    let passes : (x : ℕ) → offers cut x ≡ is_offered table rs x =
      subst (λ c. (x : ℕ) → offers c x ≡ is_offered table rs x) same offered in
    let low : (x : ℕ) → is_offered table rs x ≡ true → x < size_mod =
      λ x h. offers-IsBelow rs x below (ground arith) in
    let regions = final_regions cut in
    let within : All (Within (is_offered table rs)) cut =
      All-map (Within (offers cut)) (Within (is_offered table rs)) cut
        (λ r w x h. sym (passes x) ∙ w x h) (offers-Within cut) in
    let aligned : All (IsAligned (is_offered table rs)) regions =
      drop_empty-All (IsAligned (is_offered table rs)) (map align_region cut) (
        All-map_of (IsAligned (is_offered table rs)) align_region cut (
          All-map (Within (is_offered table rs)) _ cut
            (λ r w. align_region-IsAligned (is_offered table rs) r low w) within)) in
    (
      map start_zone regions,
      initialize_step table rs cut e sound,
      All-map IsFresh IsZone (map start_zone regions) (λ z. IsFresh.is_zone) (All-IsFresh regions),
      All-map IsFresh _ (map start_zone regions) (λ z. IsFresh.all_free) (All-IsFresh regions),
      All-BuffersPass (is_offered table rs) regions aligned (lays_out-holds regions sound),
      λ r among some_frames. Memᴰ-map start_zone regions (align_region r) (
          drop_empty-keeps (map align_region cut) (align_region r)
            (Memᴰ-map align_region cut r among) some_frames),
    )
