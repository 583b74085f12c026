-- ===== src/Pmm/Setup/Aligning.antt =====
-- The regions that Initialize has aligned, and the bytes that they offer.
use mathlib.Core.List.{Memᴰ}
use dark_core.Prelude.{
  ℕ, ◌+◌, ◌-◌, ◌*◌, ◌/◌, ◌%◌, ◌≤◌, ◌<◌, ◌≡◌, subst, ap, arith, Bool, true, false, ◌==◌, List, [],
  ◌∷◌, All, All-map, Bool-cases, inl, inr, size_mod, map,
}
use dark_core.Common.Align.{align_up, align_down}
use dark_core.Common.Align.Multiples.{align_up-eq-next, align_down-eq-previous}
use dark_core.Pmm.Region.{Region, is_available, get_region_frames_count, frame_size}
use dark_core.Pmm.Setup.{drop_empty, align_region}
use dark_core.Pmm.Setup.Cutting.{offers_one, offers}

-- The region lies below 4 GiB.
abbrev pub IsBelow : Region → Type 0
IsBelow r = r.address + r.extent ≤ size_mod

pub offers-IsBelow : (rs : List Region) (x : ℕ) → All IsBelow rs → offers rs x ≡ true → x < size_mod
offers-IsBelow [] x h o = absurd (ground arith)
offers-IsBelow (r ∷ rs) x h o = elim (Bool-cases (offers_one r x)) [
  | inl here ↦ ground (arith, h.0)
  | inr there ↦ offers-IsBelow rs x h.1 (ground arith)
]

-- The regions behind a table of regions, of which each offers no byte that the table does not.
abbrev pub Within : (ℕ → Bool) → Region → Type 0
Within test r = (x : ℕ) → offers_one r x ≡ true → test x ≡ true

pub offers-Within : (rs : List Region) → All (Within (offers rs)) rs
offers-Within [] = tt
offers-Within (r ∷ rs) = (
  λ x h. ground arith,
  All-map (Within (offers rs)) (Within (offers (r ∷ rs))) rs (λ s w x h. ground (arith, w x h))
      (offers-Within rs),
)

-- What is known of a region that Initialize has aligned: it offers only bytes that pass, and lies below
-- 4 GiB.
pub record IsAligned (test : ℕ → Bool) (r : Region) : Type 0 where
  pub within : Within test r
  pub small : r.extent < size_mod
  pub below : is_available r ≡ true → 0 < r.extent → r.address + r.extent ≤ size_mod

-- An available region with a byte lies below 4 GiB where all bytes that pass do.
Within-below :
    (test : ℕ → Bool) (r : Region)
    → ((x : ℕ) → test x ≡ true → x < size_mod)
    → Within test r
    → is_available r ≡ true
    → 0 < r.extent
    → r.address + r.extent ≤ size_mod
Within-below test r low w usable some_byte =
    let last : offers_one r (r.address + r.extent - 1) ≡ true = ground arith in
    let h = low (r.address + r.extent - 1) (w (r.address + r.extent - 1) last) in omega arith

-- What alignment makes of a place and a length, where a byte is left.
aligned_inside :
    (a e : ℕ)
    → a + e ≤ size_mod
    → 0 < align_down (e % size_mod) frame_size
    → (a ≤ align_up (a % size_mod) frame_size)
      × (align_up (a % size_mod) frame_size + align_down (e % size_mod) frame_size ≤ a + e)
aligned_inside a e h some_byte =
    let down = align_down-eq-previous (e % size_mod) frame_size (omega arith) (omega arith) in
    let long : 0x2000 ≤ e % size_mod = omega arith in
    let place : a % size_mod ≡ a = omega arith in
    let up = align_up-eq-next a frame_size (omega arith) (omega arith) in
    rw (place, up, down) (omega arith, omega arith)

aligned_extent :
    (e : ℕ) → align_down (e % size_mod) frame_size ≡ (e % size_mod / frame_size - 1) * frame_size
aligned_extent e = align_down-eq-previous (e % size_mod) frame_size (omega arith) (omega arith)

pub align_region-IsAligned :
    (test : ℕ → Bool) (r : Region)
    → ((x : ℕ) → test x ≡ true → x < size_mod)
    → Within test r
    → IsAligned test (align_region r)
unfolding align_region
align_region-IsAligned test r low w = record {
  within = λ x h.
      let some_byte : 0 < extent = ground arith in
      let usable : is_available r ≡ true = ground arith in
      let inside = aligned_inside r.address r.extent (fits usable some_byte) some_byte in
      w x (ground (arith, inside.0, inside.1));
  small = omega (arith, aligned_extent r.extent);
  below = λ usable some_byte.
      let inside = aligned_inside r.address r.extent (fits usable some_byte) some_byte in
      omega (arith, inside.1, fits usable some_byte);
}
  where
    extent : ℕ
    extent = align_down (r.extent % size_mod) frame_size

    fits : is_available r ≡ true → 0 < extent → r.address + r.extent ≤ size_mod
    fits usable some_byte =
        Within-below test r low w usable (omega (arith, aligned_extent r.extent))

pub drop_empty-All : (P : Region → Type 0) (rs : List Region) → All P rs → All P (drop_empty rs)
unfolding drop_empty
drop_empty-All P [] h = tt
drop_empty-All P (r ∷ []) h = elim (Bool-cases (get_region_frames_count r == 0)) [
  | inl e ↦ rw e tt
  | inr e ↦ rw e h
]
drop_empty-All P (r ∷ s ∷ rs) h = elim (Bool-cases (get_region_frames_count r == 0)) [
  | inl e ↦ rw e (h.1.0, drop_empty-All P rs h.1.1)
  | inr e ↦ rw e (h.0, drop_empty-All P (s ∷ rs) h.1)
]

-- Regions with frames stay.
pub drop_empty-keeps :
    (rs : List Region) (r : Region)
    → Memᴰ r rs
    → (get_region_frames_count r == 0) ≡ false
    → Memᴰ r (drop_empty rs)
unfolding drop_empty
drop_empty-keeps [] r among some_frames = elim among [ ]
drop_empty-keeps (s ∷ []) r (Memᴰ.head same) some_frames =
    let e : (get_region_frames_count s == 0) ≡ false =
      subst (λ q. (get_region_frames_count q == 0) ≡ false) same some_frames in
    rw e (Memᴰ.head same)
drop_empty-keeps (s ∷ []) r (Memᴰ.tail behind) some_frames = elim behind [ ]
drop_empty-keeps (s ∷ t ∷ rs) r (Memᴰ.head same) some_frames =
    let e : (get_region_frames_count s == 0) ≡ false =
      subst (λ q. (get_region_frames_count q == 0) ≡ false) same some_frames in
    rw e (Memᴰ.head same)
drop_empty-keeps (s ∷ t ∷ rs) r (Memᴰ.tail behind) some_frames =
    let later = drop_empty-keeps (t ∷ rs) r behind some_frames in
    elim (Bool-cases (get_region_frames_count s == 0)) [
      | inl e ↦ rw e (moved_up (λ far. drop_empty-keeps rs r far some_frames) behind)
      | inr e ↦ rw e (Memᴰ.tail later)
    ]
  where
    moved_up : (Memᴰ r rs → Memᴰ r (drop_empty rs)) → Memᴰ r (t ∷ rs) → Memᴰ r (t ∷ drop_empty rs)
    moved_up keeps (Memᴰ.head same) = Memᴰ.head same
    moved_up keeps (Memᴰ.tail far) = Memᴰ.tail (keeps far)

pub Memᴰ-map : {A B : Type 0} (f : A → B) (xs : List A) (x : A) → Memᴰ x xs → Memᴰ (f x) (map f xs)
Memᴰ-map f [] x among = elim among [ ]
Memᴰ-map f (y ∷ xs) x (Memᴰ.head same) = Memᴰ.head (ap f same)
Memᴰ-map f (y ∷ xs) x (Memᴰ.tail behind) = Memᴰ.tail (Memᴰ-map f xs x behind)

pub All-map_of :
    {A B : Type 0} (P : B → Type 0) (f : A → B) (xs : List A)
    → All (λ x. P (f x)) xs
    → All P (map f xs)
All-map_of P f [] h = tt
All-map_of P f (x ∷ xs) h = (h.0, All-map_of P f xs h.1)
