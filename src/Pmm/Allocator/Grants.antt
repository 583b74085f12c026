-- ===== src/Pmm/Allocator/Grants.antt =====
-- AllocatePhysicalMemory against the frames that are free: what it grants, and when it refuses.
use dark_core.Prelude.{
  ℕ, zero, suc, ◌+◌, ◌≤◌, ◌<◌, ◌≡◌, ◌≢◌, refl, ap, arith, List, [], ◌∷◌, Option, none, some, All,
  length, true, false, inl, inr, ◌⊎◌, size_mod, get_or,
}
use dark_core.Pmm.Region.{get_region_frames_count, frame_size, is_available}
use dark_core.Pmm.Zone.{no_frame, take_run, frames_free}
use dark_core.Pmm.Zone.Runs.{busy_at, frames_free-busy_at}
use dark_core.Pmm.Zone.Taking.{Taken, take_run-Taken}
use dark_core.Pmm.Allocator.{
  Zone, allocate_in, allocate_zones, allocate_physical_memory, frames_for,
}
use dark_core.Pmm.Allocator.Effects.{Takes, Fits, allocate_in-Takes}
use dark_core.Pmm.Allocator.Validity.{IsValid, frames_for_pos}

-- What stands at an index beyond the table.
abbrev pub no_zone : Zone
no_zone = record { region = record { address = 0; extent = 0; kind = 0 }; frames = [] }

abbrev pub zone_at : List Zone → ℕ → Zone
zone_at zs i = get_or zs i no_zone

-- A run of `n` frames from frame `j` of region `i` on is granted: it lies in the table of an
-- available region and was free, its first buffer is the address, and nothing else changes.
pub record Granted (n i j : ℕ) (zs : List Zone) (address : ℕ) (zs' : List Zone) : Type 0 where
  pub in_table : i < length zs
  pub usable : is_available (zone_at zs i).region ≡ true
  pub fits : j + n ≤ get_region_frames_count (zone_at zs i).region
  pub was_free : (k : ℕ) → j ≤ k → k < j + n → busy_at (zone_at zs i).frames k ≡ false
  pub first_buffer : address ≡ (get_or (zone_at zs i).frames j no_frame).buffer_address
  pub same_region : (zone_at zs' i).region ≡ (zone_at zs i).region
  pub taken : Taken n j (zone_at zs i).frames (zone_at zs' i).frames
  pub others : (k : ℕ) → k ≢ i → zone_at zs' k ≡ zone_at zs k

-- No available region has a run of `n` free frames.
abbrev pub Exhausted : ℕ → List Zone → Type 0
Exhausted n zs =
    All
      (λ z.
        is_available z.region ≡ true
        → (j : ℕ) → j + n ≤ get_region_frames_count z.region
        → frames_free n j z.frames ≡ false)
      zs

abbrev pub Answers : ℕ → List Zone → Option (ℕ × List Zone) → Type 0
Answers n zs none = Exhausted n zs
Answers n zs (some (address, zs')) = (i : ℕ) × (j : ℕ) × Granted n i j zs address zs'

allocate_zones-Answers :
    (n : ℕ) (zs : List Zone) → 0 < n → IsValid zs → Answers n zs (allocate_zones n zs)
unfolding allocate_zones
allocate_zones-Answers n [] pos v = tt
allocate_zones-Answers n (z ∷ zs) pos v =
    go (allocate_in n z) (allocate_in-Takes n z) (allocate_zones n zs)
      (allocate_zones-Answers n zs pos v.1)
  where
    head_granted :
        (j : ℕ)
        → is_available z.region ≡ true
        → Fits n j z
        → frames_free n j z.frames ≡ true
        → Granted n 0 j
            (z ∷ zs)
            (get_or z.frames j no_frame).buffer_address
            (record z { frames = take_run j n z.frames } ∷ zs)
    head_granted j usable fits free = record {
      in_table = omega arith;
      usable = usable;
      fits = fits;
      was_free = λ k lo hi. frames_free-busy_at n j z.frames k free lo hi;
      first_buffer = refl;
      same_region = refl;
      taken = take_run-Taken n j z.frames pos (omega (arith, v.0.complete usable));
      others = elim [ zero ↦ λ ne. absurd (ne refl) | suc k ↦ λ ne. refl ];
    }

    tail_granted :
        (i j address : ℕ) (zs' : List Zone)
        → Granted n i j zs address zs'
        → Granted n (suc i) j (z ∷ zs) address (z ∷ zs')
    tail_granted i j a zs' g = record {
      in_table = omega (arith, g.in_table);
      usable = g.usable;
      fits = g.fits;
      was_free = g.was_free;
      first_buffer = g.first_buffer;
      same_region = g.same_region;
      taken = g.taken;
      others = elim [ zero ↦ λ ne. refl | suc k ↦ λ ne. g.others k (λ e. ne (ap suc e)) ];
    }

    go :
        (o : Option (ℕ × Zone))
        → Takes n z o
        → (r : Option (ℕ × List Zone)) → Answers n zs r
        → Answers n (z ∷ zs) (elim o [
          | some (address, z') ↦ some (address, z' ∷ zs)
          | none ↦ elim r [ none ↦ none | some (address, zs') ↦ some (address, z ∷ zs') ]
        ])
    go none t none k = (t, k)
    go none t (some (a, zs')) (i, j, g) = (suc i, j, tail_granted i j a zs' g)
    go (some (a, z')) (j, usable, fits, free, first, e, same) r k =
        (0, j, rw (e, same) (head_granted j usable fits free))

-- Under the invariant, for a count of bytes with count + 0x1000 below 2 ^ 32, so that AlignUp does not
-- wrap, AllocatePhysicalMemory either grants a run of as many frames as the bytes need, with the buffer of
-- its first frame as the address, or it returns 0, changes nothing, and no available region has
-- a run of that many free frames.
pub allocate_physical_memory-answers :
    (count : ℕ) (zs : List Zone)
    → count + frame_size < size_mod
    → IsValid zs
    → let (address, zs') = allocate_physical_memory count zs in
      ((i : ℕ) × (j : ℕ) × Granted (frames_for count) i j zs address zs')
      ⊎ ((address ≡ 0) × (zs' ≡ zs) × Exhausted (frames_for count) zs)
unfolding allocate_physical_memory
allocate_physical_memory-answers c zs h v =
    go (allocate_zones (frames_for c) zs)
      (allocate_zones-Answers (frames_for c) zs (frames_for_pos c h) v)
  where
    go :
        (o : Option (ℕ × List Zone))
        → Answers (frames_for c) zs o
        → let r = elim o as (λ _. ℕ × List Zone) [ none ↦ (0, zs) | some (a, zs') ↦ (a, zs') ] in
          ((i : ℕ) × (j : ℕ) × Granted (frames_for c) i j zs r.0 r.1)
          ⊎ ((r.0 ≡ 0) × (r.1 ≡ zs) × Exhausted (frames_for c) zs)
    go none k = inr (refl, refl, k)
    go (some (a, zs')) k = inl k
