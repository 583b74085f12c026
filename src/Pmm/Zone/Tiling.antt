-- ===== src/Pmm/Zone/Tiling.antt =====
-- Allocated runs tile the frames of a zone: they do not overlap, each starts at the frame that
-- holds its length, and every busy frame belongs to one.
use dark_core.Prelude.{
  ℕ, zero, suc, ◌+◌, ◌-◌, ◌≤◌, ◌<◌, ◌≡◌, refl, ◌∙◌, subst, arith, true, false, List, [], ◌∷◌,
  length, get_or, modify, inl, inr, ◌⊎◌,
}
use dark_core.Pmm.Zone.{
  Frame, no_frame, is_busy, set_busy, clear_busy, set_count, frames_free, mark_busy, mark_free,
  take_run, release_run,
}
use dark_core.Pmm.Zone.Runs.{
  is_busy-set_busy, is_busy-clear_busy, frames_free-cons, mark_busy-cons, mark_free-cons,
}

-- The frames from the left, where `left` more of them belong to the run that has begun.
abbrev pub Tiled : ℕ → List Frame → Type 0
Tiled left [] = left ≡ 0
Tiled zero (f ∷ fs) =
    ((is_busy f ≡ false) × (f.busy_count ≡ 0) × Tiled 0 fs)
    ⊎ ((is_busy f ≡ true) × (0 < f.busy_count) × Tiled (f.busy_count - 1) fs)
Tiled (suc left) (f ∷ fs) = (is_busy f ≡ true) × (f.busy_count ≡ 0) × Tiled left fs

is_busy-set_count : (n : ℕ) (f : Frame) → is_busy (set_count n f) ≡ is_busy f
unfolding is_busy
is_busy-set_count n f = refl

busy_count-set_busy : (f : Frame) → (set_busy f).busy_count ≡ f.busy_count
unfolding set_busy
busy_count-set_busy f = refl

busy_count-clear_busy : (f : Frame) → (clear_busy f).busy_count ≡ f.busy_count
unfolding clear_busy
busy_count-clear_busy f = refl

-- A free run becomes the rest of a run that has begun.
mark_busy-Tiled :
    (n : ℕ) (fs : List Frame)
    → n ≤ length fs
    → frames_free n 0 fs ≡ true
    → Tiled 0 fs
    → Tiled n (mark_busy n 0 fs)
unfolding frames_free mark_busy
mark_busy-Tiled zero fs h e t = t
mark_busy-Tiled (suc n) [] h e t = absurd (omega arith)
mark_busy-Tiled (suc n) (f ∷ fs) h e (inl (b, c, t)) = rw (mark_busy-cons n 0 (set_busy f) fs) (
  is_busy-set_busy f,
  busy_count-set_busy f ∙ c,
  mark_busy-Tiled n fs (omega arith) (ground (arith, frames_free-cons n 0 f fs)) t,
)
mark_busy-Tiled (suc n) (f ∷ fs) h e (inr (b, c, t)) = absurd (ground arith)

mark_free-Tiled : (n : ℕ) (fs : List Frame) → Tiled n fs → Tiled 0 (mark_free n 0 fs)
unfolding mark_free
mark_free-Tiled zero fs t = t
mark_free-Tiled (suc n) [] t = absurd (omega arith)
mark_free-Tiled (suc n) (f ∷ fs) t =
    rw (mark_free-cons n 0 (clear_busy f) fs)
      (inl (is_busy-clear_busy f, busy_count-clear_busy f ∙ t.1, mark_free-Tiled n fs t.2))

-- A frame in front of a run is not touched.
take_run-cons :
    (j n : ℕ) (f : Frame) (fs : List Frame) → take_run (suc j) n (f ∷ fs) ≡ f ∷ take_run j n fs
unfolding take_run
take_run-cons j n f fs = mark_busy-cons n j f (modify fs j (set_count n))

release_run-cons :
    (j : ℕ) (f : Frame) (fs : List Frame) → release_run (suc j) (f ∷ fs) ≡ f ∷ release_run j fs
unfolding release_run
release_run-cons j f fs =
    mark_free-cons (get_or fs j no_frame).busy_count j f (modify fs j (set_count 0))

-- At the front of the zone, where no run has begun.
take_front-Tiled :
    (n left : ℕ) (f : Frame) (fs : List Frame)
    → suc n ≤ length (f ∷ fs)
    → frames_free (suc n) 0 (f ∷ fs) ≡ true
    → Tiled left (f ∷ fs)
    → Tiled left (take_run 0 (suc n) (f ∷ fs))
unfolding take_run mark_busy frames_free set_busy
take_front-Tiled n zero f fs h e (inl (b, c, t)) =
    rw (mark_busy-cons n 0 (set_busy (set_count (suc n) f)) fs) (
      inr (
        is_busy-set_busy (set_count (suc n) f),
        omega arith,
        rw n_eq (mark_busy-Tiled n fs (omega arith) (ground (arith, frames_free-cons n 0 f fs)) t),
      ))
  where
    n_eq : suc n - 1 ≡ n
    n_eq = omega arith
take_front-Tiled n zero f fs h e (inr (b, c, t)) = absurd (ground arith)
take_front-Tiled n (suc left) f fs h e (b, c, t) = absurd (ground arith)

-- Taking a run of free frames keeps the tiling.
pub take_run-Tiled :
    (j n left : ℕ) (fs : List Frame)
    → 0 < n
    → j + n ≤ length fs
    → frames_free n j fs ≡ true
    → Tiled left fs
    → Tiled left (take_run j n fs)
take_run-Tiled j n left [] pos h e t = absurd (omega arith)
take_run-Tiled zero zero left (f ∷ fs) pos h e t = absurd (omega arith)
take_run-Tiled zero (suc n) left (f ∷ fs) pos h e t = take_front-Tiled n left f fs (omega arith) e t
take_run-Tiled (suc j) n zero (f ∷ fs) pos h e (inl (b, c, t)) =
    rw (take_run-cons j n f fs) (
      inl (b, c, take_run-Tiled j n 0 fs pos (omega arith) (rw (frames_free-cons n j f fs) at e) t))
take_run-Tiled (suc j) n zero (f ∷ fs) pos h e (inr (b, c, t)) = rw (take_run-cons j n f fs) (
    inr (
      b,
      c,
      take_run-Tiled j n (f.busy_count - 1) fs pos (omega arith)
          (rw (frames_free-cons n j f fs) at e) t,
    ))
take_run-Tiled (suc j) n (suc left) (f ∷ fs) pos h e (b, c, t) =
    rw (take_run-cons j n f fs)
      (b, c, take_run-Tiled j n left fs pos (omega arith) (rw (frames_free-cons n j f fs) at e) t)

-- The first frame counts 0 from now on, and `n` flags are cleared from it on.
none_released :
    (n left : ℕ) (f : Frame) (fs : List Frame)
    → n ≡ 0
    → Tiled left (f ∷ fs)
    → Tiled left (mark_free n 0 (f ∷ fs))
unfolding mark_free
none_released zero left f fs e t = t
none_released (suc n) left f fs e t = absurd (omega arith)

some_released :
    (n : ℕ) (f : Frame) (fs : List Frame)
    → 0 < n
    → Tiled (n - 1) fs
    → Tiled 0 (mark_free n 0 (set_count 0 f ∷ fs))
unfolding mark_free clear_busy
some_released zero f fs pos t = absurd (omega arith)
some_released (suc n) f fs pos t = rw (mark_free-cons n 0 (clear_busy (set_count 0 f)) fs) (
    inl (
      is_busy-clear_busy (set_count 0 f),
      refl,
      mark_free-Tiled n fs (subst (λ k. Tiled k fs) n_eq t),
    ))
  where
    n_eq : suc n - 1 ≡ n
    n_eq = omega arith

release_front-Tiled :
    (left : ℕ) (f : Frame) (fs : List Frame)
    → Tiled left (f ∷ fs)
    → Tiled left (release_run 0 (f ∷ fs))
unfolding release_run
release_front-Tiled zero f fs (inl (b, c, t)) =
    none_released f.busy_count 0 (set_count 0 f) fs c (inl (is_busy-set_count 0 f ∙ b, refl, t))
release_front-Tiled zero f fs (inr (b, c, t)) = some_released f.busy_count f fs c t
release_front-Tiled (suc left) f fs (b, c, t) =
    none_released f.busy_count (suc left) (set_count 0 f) fs c (is_busy-set_count 0 f ∙ b, refl, t)

-- Releasing what starts at a frame keeps the tiling, whether or not a run starts there.
pub release_run-Tiled :
    (j left : ℕ) (fs : List Frame) → j < length fs → Tiled left fs → Tiled left (release_run j fs)
release_run-Tiled j left [] h t = absurd (omega arith)
release_run-Tiled zero left (f ∷ fs) h t = release_front-Tiled left f fs t
release_run-Tiled (suc j) zero (f ∷ fs) h (inl (b, c, t)) =
    rw (release_run-cons j f fs) (inl (b, c, release_run-Tiled j 0 fs (omega arith) t))
release_run-Tiled (suc j) zero (f ∷ fs) h (inr (b, c, t)) =
    rw (release_run-cons j f fs)
      (inr (b, c, release_run-Tiled j (f.busy_count - 1) fs (omega arith) t))
release_run-Tiled (suc j) (suc left) (f ∷ fs) h (b, c, t) =
    rw (release_run-cons j f fs) (b, c, release_run-Tiled j left fs (omega arith) t)
