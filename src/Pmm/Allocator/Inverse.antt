-- ===== src/Pmm/Allocator/Inverse.antt =====
-- Freeing what was allocated.
use dark_core.Prelude.{
  ℕ, zero, suc, ◌+◌, ◌≤◌, ◌<◌, ◌≡◌, ◌≢◌, refl, ap, ◌∙◌, arith, List, [], ◌∷◌, Option, none, some,
  true, if◌then◌else◌, ==_refl, size_mod, get_or,
}
use dark_core.Pmm.Region.{get_region_frames_count, frame_size, is_available}
use dark_core.Pmm.Zone.{no_frame, take_run, release_run, frames_free}
use dark_core.Pmm.Zone.Runs.{busy_at, at_address, length-take_run, frames_free-busy_at}
use dark_core.Pmm.Zone.Buffers.{occurrences, occurs_once, occurs_twice, occurrences_same}
use dark_core.Pmm.Zone.Taking.{Taken, take_run-Taken, Released, release_run-Released}
use dark_core.Pmm.Allocator.{
  Zone, allocate_in, allocate_zones, allocate_physical_memory, frames_for, free_in,
  free_physical_memory,
}
use dark_core.Pmm.Allocator.Effects.{Takes, Fits, Releases, allocate_in-Takes, free_in-Releases}
use dark_core.Pmm.Allocator.Validity.{take-IsZone, IsZone, IsValid, frames_for_pos}
use dark_core.Pmm.Allocator.Grants.{zone_at}

-- The buffers at an address that FreePhysicalMemory can find.
unfoldable pub buffers_at : ℕ → List Zone → ℕ
buffers_at address [] = 0
buffers_at address (z ∷ zs) =
    (if is_available z.region then occurrences address z.frames else 0) + buffers_at address zs

-- A region with no buffer at the address is passed over.
free_in_skips :
    (address : ℕ) (z : Zone)
    → IsZone z
    → (if is_available z.region then occurrences address z.frames else 0) ≡ 0
    → free_in address z ≡ none
free_in_skips a z v e = go (free_in a z) (free_in-Releases a z)
  where
    go : (o : Option (ℕ × Zone)) → Releases a z o → o ≡ none
    go none r = refl
    go (some (n, z')) (j, usable, h, hit, first, e1, e2) =
        absurd (ground (arith, occurs_once a z.frames j, v.complete usable))

-- A region with one buffer at the address releases the run that starts there.
free_in_hits :
    (address : ℕ) (z : Zone) (j : ℕ)
    → IsZone z
    → is_available z.region ≡ true
    → j < get_region_frames_count z.region
    → at_address address z.frames j ≡ true
    → occurrences address z.frames ≤ 1
    → free_in address z
      ≡ some ((get_or z.frames j no_frame).busy_count, record z { frames = release_run j z.frames })
free_in_hits a z j v usable h hit once = go (free_in a z) (free_in-Releases a z)
  where
    result : ℕ → Option (ℕ × Zone)
    result k =
        some ((get_or z.frames k no_frame).busy_count, record z { frames = release_run k z.frames })

    go : (o : Option (ℕ × Zone)) → Releases a z o → o ≡ result j
    go none r = absurd (ground (arith, r usable j h))
    go (some (n, z')) (k, usable', h', hit', first, e, e') =
        (λ i. some (e i, e' i)) ∙ ap result same
      where
        same : k ≡ j
        same =
            ground
              (arith, v.complete usable, occurs_twice a z.frames k j, occurs_twice a z.frames j k)

free_here :
    (memory : ℕ) (z : Zone) (zs : List Zone) (count : ℕ) (z' : Zone)
    → free_in memory z ≡ some (count, z')
    → free_physical_memory memory (z ∷ zs) ≡ (count, z' ∷ zs)
unfolding free_physical_memory
free_here m z zs n z' e = rw (e, free_physical_memory)

free_later :
    (memory : ℕ) (z : Zone) (zs : List Zone)
    → free_in memory z ≡ none
    → free_physical_memory memory (z ∷ zs)
      ≡ ((free_physical_memory memory zs).0, z ∷ (free_physical_memory memory zs).1)
unfolding free_physical_memory
free_later m z zs e = rw (e, free_physical_memory)

-- The flags of two tables of regions agree.
abbrev pub SameBusy : List Zone → List Zone → Type 0
SameBusy zs zs' = (i k : ℕ) → busy_at (zone_at zs i).frames k ≡ busy_at (zone_at zs' i).frames k

module _ (n j : ℕ) (z : Zone) (v : IsZone z) (usable : is_available z.region ≡ true) (pos : 0 < n)
    (fits : Fits n j z) (free : frames_free n j z.frames ≡ true) where
  taken : Taken n j z.frames (take_run j n z.frames)
  taken = take_run-Taken n j z.frames pos (omega (arith, v.complete usable))

  released : Released n j (take_run j n z.frames) (release_run j (take_run j n z.frames))
  released =
      release_run-Released n j (take_run j n z.frames) taken.run_length
        (omega (arith, v.complete usable, length-take_run j n z.frames))
        (omega (arith, v.complete usable, length-take_run j n z.frames))

  -- Releasing a run that was just taken gives every frame its flag back.
  run_restored : (k : ℕ) → busy_at z.frames k ≡ busy_at (release_run j (take_run j n z.frames)) k
  run_restored k =
      ground (arith, taken.run_busy k, released.run_free k, frames_free-busy_at n j z.frames k free)

  head_freed :
      (zs : List Zone)
      → occurrences (get_or z.frames j no_frame).buffer_address z.frames ≤ 1
      → free_physical_memory
          (get_or z.frames j no_frame).buffer_address
          (record z { frames = take_run j n z.frames } ∷ zs)
        ≡ (n, record z { frames = release_run j (take_run j n z.frames) } ∷ zs)
  head_freed zs once =
      free_here a z' zs _ _ (
        free_in_hits a z' j (take-IsZone n j z pos v usable fits free) usable (omega arith)
          (ground (arith, taken.same_buffers j)) (omega (arith, same_occurrences)))
      ∙ λ i. (taken.run_length i, record z { frames = release_run j (take_run j n z.frames) } ∷ zs)
    where
      a : ℕ
      a = (get_or z.frames j no_frame).buffer_address

      z' : Zone
      z' = record z { frames = take_run j n z.frames }

      same_occurrences :
          occurrences (get_or z.frames j no_frame).buffer_address (take_run j n z.frames)
          ≡ occurrences (get_or z.frames j no_frame).buffer_address z.frames
      same_occurrences =
          occurrences_same _ (take_run j n z.frames) z.frames (length-take_run j n z.frames)
            taken.same_buffers

-- For the answer of the search: the address has a buffer, and where it has only one, freeing it
-- returns the length of the run and gives every frame its flag back.
abbrev Restores : ℕ → List Zone → Option (ℕ × List Zone) → Type 0
Restores n zs none = Unit
Restores n zs (some (a, zs')) =
    (1 ≤ buffers_at a zs)
    × (buffers_at a zs ≤ 1
        → ((free_physical_memory a zs').0 ≡ n) × SameBusy zs (free_physical_memory a zs').1)

-- The run lies in the first region.
head_Restores :
    (n j : ℕ) (z : Zone) (zs : List Zone)
    → 0 < n
    → IsZone z
    → is_available z.region ≡ true
    → Fits n j z
    → frames_free n j z.frames ≡ true
    → Restores n (z ∷ zs) (
        some (
          (get_or z.frames j no_frame).buffer_address,
          record z { frames = take_run j n z.frames } ∷ zs,
        ))
unfolding buffers_at
head_Restores n j z zs pos v usable fits free = (
  ground (arith, once_at_least),
  λ once.
      let freed = head_freed n j z v usable pos fits free zs (ground arith) in
      rw freed
        (refl, elim [ zero ↦ run_restored n j z v usable pos fits free | suc i ↦ λ k. refl ]),
)
  where
    once_at_least : 1 ≤ occurrences (get_or z.frames j no_frame).buffer_address z.frames
    once_at_least =
        occurs_once _ z.frames j (omega (arith, v.complete usable))
          (==_refl (get_or z.frames j no_frame).buffer_address)

-- The run lies in a later region.
tail_Restores :
    (n a : ℕ) (z : Zone) (zs zs' : List Zone)
    → IsZone z
    → Restores n zs (some (a, zs'))
    → Restores n (z ∷ zs) (some (a, z ∷ zs'))
unfolding buffers_at
tail_Restores n a z zs zs' v (least, r) = (
  omega (arith, least),
  λ once.
      let (count, busy) = r (omega (arith, once)) in
      rw (free_later a z zs' (free_in_skips a z v (omega (arith, once, least))))
        (count, elim [ zero ↦ λ k. refl | suc i ↦ busy i ]),
)

allocate_zones-Restores :
    (n : ℕ) (zs : List Zone) → 0 < n → IsValid zs → Restores n zs (allocate_zones n zs)
unfolding allocate_zones
allocate_zones-Restores n [] pos v = tt
allocate_zones-Restores n (z ∷ zs) pos v =
    go (allocate_in n z) (allocate_in-Takes n z) (allocate_zones n zs)
      (allocate_zones-Restores n zs pos v.1)
  where
    go :
        (o : Option (ℕ × Zone))
        → Takes n z o
        → (r : Option (ℕ × List Zone)) → Restores n zs r
        → Restores n (z ∷ zs) (elim o [
          | some (address, z') ↦ some (address, z' ∷ zs)
          | none ↦ elim r [ none ↦ none | some (address, zs') ↦ some (address, z ∷ zs') ]
        ])
    go none t none k = tt
    go none t (some (a, zs')) r = tail_Restores n a z zs zs' v.0 r
    go (some (a, z')) (j, usable, fits, free, first, e, same) r k =
        rw (e, same) (head_Restores n j z zs pos v.0 usable fits free)

-- Where the address that AllocatePhysicalMemory returned is the buffer of one frame only,
-- FreePhysicalMemory at that address returns the number of frames of the run, and every frame of every
-- region has the flag that it had before the allocation. (A 0 says that nothing was allocated.)
pub free-allocate :
    (count : ℕ) (zs : List Zone)
    → count + frame_size < size_mod
    → IsValid zs
    → let (address, zs') = allocate_physical_memory count zs in
      address ≢ 0
      → buffers_at address zs ≤ 1
      → let (freed, zs'') = free_physical_memory address zs' in
        (freed ≡ frames_for count) × SameBusy zs zs''
unfolding allocate_physical_memory
free-allocate c zs h v =
    go (allocate_zones (frames_for c) zs)
      (allocate_zones-Restores (frames_for c) zs (frames_for_pos c h) v)
  where
    go :
        (o : Option (ℕ × List Zone))
        → Restores (frames_for c) zs o
        → let r = elim o as (λ _. ℕ × List Zone) [ none ↦ (0, zs) | some (a, zs') ↦ (a, zs') ] in
          r.0 ≢ 0
          → buffers_at r.0 zs ≤ 1
          → ((free_physical_memory r.0 r.1).0 ≡ frames_for c)
            × SameBusy zs (free_physical_memory r.0 r.1).1
    go none r ne once = absurd (ne refl)
    go (some (a, zs')) r ne once = r.1 once
