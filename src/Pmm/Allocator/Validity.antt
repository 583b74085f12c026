-- ===== src/Pmm/Allocator/Validity.antt =====
-- The invariant of the allocator, and that every operation keeps it.
use dark_core.Prelude.{
  ℕ, ◌+◌, ◌<◌, ◌≡◌, sym, subst, ◌∙◌, arith, List, [], ◌∷◌, Option, none, some, All, length, true,
  Bool-cases, inl, inr, ◌==◌, size_mod,
}
use dark_core.Common.Memory.{Memory}
use dark_core.Common.Align.Multiples.{align_up-eq-next}
use dark_core.Pmm.Region.{is_available, get_region_frames_count, frame_size}
use dark_core.Pmm.Zone.{take_run, release_run, frames_free}
use dark_core.Pmm.Zone.Runs.{length-take_run, length-release_run}
use dark_core.Pmm.Zone.Tiling.{Tiled, take_run-Tiled, release_run-Tiled}
use dark_core.Pmm.Allocator.{
  Zone, allocate_in, allocate_zones, allocate_physical_memory, frames_for, free_in,
  free_physical_memory, reallocate_physical_memory,
}
use dark_core.Pmm.Allocator.Effects.{Takes, Releases, Fits, allocate_in-Takes, free_in-Releases}

-- An available region has a descriptor for each frame, and the runs that are allocated tile them.
pub record IsZone (z : Zone) : Type 0 where
  pub complete : is_available z.region ≡ true → length z.frames ≡ get_region_frames_count z.region
  pub tiled : Tiled 0 z.frames

abbrev pub IsValid : List Zone → Type 0
IsValid zs = All IsZone zs

pub take-IsZone :
    (count j : ℕ) (z : Zone)
    → 0 < count
    → IsZone z
    → is_available z.region ≡ true
    → Fits count j z
    → frames_free count j z.frames ≡ true
    → IsZone (record z { frames = take_run j count z.frames })
take-IsZone n j z pos v usable fits free = record {
  complete = λ u. length-take_run j n z.frames ∙ v.complete u;
  tiled = take_run-Tiled j n 0 z.frames pos (omega (arith, v.complete usable)) free v.tiled;
}

release-IsZone :
    (j : ℕ) (z : Zone)
    → IsZone z
    → is_available z.region ≡ true
    → j < get_region_frames_count z.region
    → IsZone (record z { frames = release_run j z.frames })
release-IsZone j z v usable h = record {
  complete = λ u. length-release_run j z.frames ∙ v.complete u;
  tiled = release_run-Tiled j 0 z.frames (omega (arith, v.complete usable)) v.tiled;
}

abbrev Kept : Option (ℕ × List Zone) → Type 0
Kept none = Unit
Kept (some (address, zs)) = IsValid zs

allocate_zones-Kept :
    (count : ℕ) (zs : List Zone) → 0 < count → IsValid zs → Kept (allocate_zones count zs)
unfolding allocate_zones
allocate_zones-Kept n [] pos v = tt
allocate_zones-Kept n (z ∷ zs) pos v =
    go (allocate_in n z) (allocate_in-Takes n z) (allocate_zones n zs)
      (allocate_zones-Kept n zs pos v.1)
  where
    go :
        (o : Option (ℕ × Zone))
        → Takes n z o
        → (r : Option (ℕ × List Zone)) → Kept r
        → Kept (elim o [
          | some (address, z') ↦ some (address, z' ∷ zs)
          | none ↦ elim r [ none ↦ none | some (address, zs') ↦ some (address, z ∷ zs') ]
        ])
    go none t none k = tt
    go none t (some (a, zs')) k = (v.0, k)
    go (some (a, z')) (j, usable, fits, free, first, e, same) r k =
        (subst IsZone (sym same) (take-IsZone n j z pos v.0 usable fits free), v.1)

-- A count of bytes that AlignUp does not wrap asks for one frame or more.
pub frames_for_pos : (count : ℕ) → count + frame_size < size_mod → 0 < frames_for count
frames_for_pos c h = omega (arith, align_up-eq-next c frame_size (omega arith) h)

-- For a count of bytes with count + 0x1000 below 2 ^ 32, so that AlignUp does not wrap,
-- AllocatePhysicalMemory keeps the invariant, whether or not it finds memory.
pub allocate_physical_memory-IsValid :
    (count : ℕ) (zs : List Zone)
    → count + frame_size < size_mod
    → IsValid zs
    → IsValid (allocate_physical_memory count zs).1
unfolding allocate_physical_memory
allocate_physical_memory-IsValid c zs h v =
    go (allocate_zones (frames_for c) zs)
      (allocate_zones-Kept (frames_for c) zs (frames_for_pos c h) v)
  where
    go :
        (o : Option (ℕ × List Zone))
        → Kept o
        → IsValid (elim o as (λ _. ℕ × List Zone) [ none ↦ (0, zs) | some (a, zs') ↦ (a, zs') ]).1
    go none k = v
    go (some (a, zs')) k = k

-- FreePhysicalMemory keeps the invariant at every address, also one that was never allocated.
pub free_physical_memory-IsValid :
    (memory : ℕ) (zs : List Zone) → IsValid zs → IsValid (free_physical_memory memory zs).1
unfolding free_physical_memory
free_physical_memory-IsValid m [] v = tt
free_physical_memory-IsValid m (z ∷ zs) v =
    go (free_in m z) (free_in-Releases m z) (free_physical_memory-IsValid m zs v.1)
  where
    go :
        (o : Option (ℕ × Zone))
        → Releases m z o
        → IsValid (free_physical_memory m zs).1
        → IsValid
            (elim o as (λ _. ℕ × List Zone) [
              | some (count, z') ↦ (count, z' ∷ zs)
              | none ↦ ((free_physical_memory m zs).0, z ∷ (free_physical_memory m zs).1)
            ]).1
    go none t k = (v.0, k)
    go (some (a, z')) (j, usable, h, hit, first, e, same) k =
        (subst IsZone (sym same) (release-IsZone j z v.0 usable h), v.1)

-- For a count of bytes with count + 0x1000 below 2 ^ 32, so that AlignUp does not wrap,
-- ReallocatePhysicalMemory keeps the invariant on each of its three ways out.
pub reallocate_physical_memory-IsValid :
    (memory count : ℕ) (m : Memory) (zs : List Zone)
    → count + frame_size < size_mod
    → IsValid zs
    → IsValid (reallocate_physical_memory memory count m zs).2
unfolding reallocate_physical_memory
reallocate_physical_memory-IsValid p c m zs h v =
    elim (Bool-cases ((allocate_physical_memory c zs).0 == 0)) [
      | inl refused ↦ rw refused got
      | inr granted ↦ elim (Bool-cases ((free_physical_memory p taken).0 == 0)) [
        | inl not_freed ↦
            rw (granted, not_freed)
              (free_physical_memory-IsValid (allocate_physical_memory c zs).0
                (free_physical_memory p taken).1 (free_physical_memory-IsValid p taken got))
        | inr freed ↦ rw (granted, freed) (free_physical_memory-IsValid p taken got)
      ]
    ]
  where
    taken : List Zone
    taken = (allocate_physical_memory c zs).1

    got : IsValid taken
    got = allocate_physical_memory-IsValid c zs h v
