-- ===== src/Pmm/Allocator/Effects.antt =====
-- What one region gives up to an allocation and takes back.
use dark_core.Prelude.{
  ℕ, ◌+◌, ◌-◌, ◌≤◌, ◌<◌, ◌≡◌, refl, arith, Option, none, some, Bool, true, false, Bool-cases, inl,
  inr, leb, get_or,
}
use dark_core.Pmm.Region.{is_available, get_region_frames_count}
use dark_core.Pmm.Zone.{no_frame, find_run, take_run, find_frame, release_run, frames_free}
use dark_core.Pmm.Zone.Runs.{
  FindsRun, FindsFrame, find_run-FindsRun, find_frame-FindsFrame, at_address,
}
use dark_core.Pmm.Allocator.{Zone, allocate_in, free_in}

abbrev frames_count : Zone → ℕ
frames_count z = get_region_frames_count z.region

abbrev available : Zone → Bool
available z = is_available z.region

-- A run of `count` frames within the table.
abbrev pub Fits : ℕ → ℕ → Zone → Type 0
Fits count j z = j + count ≤ frames_count z

-- What an allocation in one region comes to: nothing, where the region is not available or holds no
-- free run; else the lowest free run is taken.
abbrev pub Takes : ℕ → Zone → Option (ℕ × Zone) → Type 0
Takes count z none =
    available z ≡ true → (j : ℕ) → Fits count j z → frames_free count j z.frames ≡ false
Takes count z (some (address, z')) =
    (j : ℕ) × (available z ≡ true)
    × Fits count j z
    × (frames_free count j z.frames ≡ true)
    × ((i : ℕ) → i < j → frames_free count i z.frames ≡ false)
    × (address ≡ (get_or z.frames j no_frame).buffer_address)
    × (z' ≡ record z { frames = take_run j count z.frames })

run_taken :
    (count : ℕ) (z : Zone) (o : Option ℕ)
    → available z ≡ true
    → count ≤ frames_count z
    → FindsRun (frames_count z - count + 1) 0 count z.frames o
    → Takes count z (elim o [
      | none ↦ none
      | some j ↦ some (
        (get_or z.frames j no_frame).buffer_address,
        record z { frames = take_run j count z.frames },
      )
    ])
run_taken count z none a h f = λ _ j fits. f j (omega arith) (omega arith)
run_taken count z (some j) a h f =
    (j, a, omega arith, f.2, (λ i lo. f.3 i (omega arith) lo), refl, refl)

pub allocate_in-Takes : (count : ℕ) (z : Zone) → Takes count z (allocate_in count z)
unfolding allocate_in
allocate_in-Takes count z = elim (Bool-cases (available z)) [
  | inr no_use ↦ rw no_use (λ e. cc)
  | inl usable ↦ elim (Bool-cases (leb count (frames_count z))) [
    | inr long ↦ rw (usable, long) (λ _ j fits. absurd (ground arith))
    | inl short ↦
        rw (usable, short)
          (run_taken count z (find_run (frames_count z - count + 1) 0 count z.frames) usable
            (ground arith) (find_run-FindsRun (frames_count z - count + 1) 0 count z.frames))
  ]
]

-- What a release in one region comes to: nothing, where no frame has its buffer at the address;
-- else the run at the first such frame is released, and its length returned.
abbrev pub Releases : ℕ → Zone → Option (ℕ × Zone) → Type 0
Releases memory z none =
    available z ≡ true → (j : ℕ) → j < frames_count z → at_address memory z.frames j ≡ false
Releases memory z (some (count, z')) =
    (j : ℕ) × (available z ≡ true)
    × (j < frames_count z)
    × (at_address memory z.frames j ≡ true)
    × ((i : ℕ) → i < j → at_address memory z.frames i ≡ false)
    × (count ≡ (get_or z.frames j no_frame).busy_count)
    × (z' ≡ record z { frames = release_run j z.frames })

run_released :
    (memory : ℕ) (z : Zone) (o : Option ℕ)
    → available z ≡ true
    → FindsFrame (frames_count z) 0 memory z.frames o
    → Releases memory z (elim o [
      | none ↦ none
      | some j ↦
          some
            ((get_or z.frames j no_frame).busy_count, record z { frames = release_run j z.frames })
    ])
run_released memory z none a f = λ _ j h. f j (omega arith) (omega arith)
run_released memory z (some j) a f =
    (j, a, omega arith, f.2, (λ i lo. f.3 i (omega arith) lo), refl, refl)

pub free_in-Releases : (memory : ℕ) (z : Zone) → Releases memory z (free_in memory z)
unfolding free_in
free_in-Releases memory z = elim (Bool-cases (available z)) [
  | inr no_use ↦ rw no_use (λ e. cc)
  | inl usable ↦ rw usable (
      run_released memory z (find_frame (frames_count z) 0 memory z.frames) usable
        (find_frame-FindsFrame (frames_count z) 0 memory z.frames))
]
