-- ===== src/Vmm/Filling.antt =====
-- The inner loop of MapPages, which fills one table.
use dark_core.Prelude.{
  ℕ, zero, suc, ◌+◌, ◌-◌, ◌≡◌, inl, inr, refl, ◌∙◌, ap, arith, Bool, true, false, ◌&&◌, ltb, leb,
  ◌==◌, if◌then◌else◌, Bool-cases,
}
use dark_core.Vmm.{Entry, Frames, change, map_entry, map_table}

abbrev pub smaller : ℕ → ℕ → ℕ
smaller a b = if leb a b then a else b

-- The entry is one of `done` pages from `page` on of a table.
abbrev pub inside : ℕ → ℕ → ℕ → ℕ → ℕ → Bool
inside done table page g j = (g == table) && (leb page j && ltb j (page + done))

change_here :
    (frame i : ℕ) (f : Entry → Entry) (m : Frames) (g j : ℕ)
    → ((g == frame) && (j == i)) ≡ true
    → change frame i f m g j ≡ f (m g j)
change_here frame i f m g j e = rw e refl

change_elsewhere :
    (frame i : ℕ) (f : Entry → Entry) (m : Frames) (g j : ℕ)
    → ((g == frame) && (j == i)) ≡ false
    → change frame i f m g j ≡ m g j
change_elsewhere frame i f m g j e = rw e refl

-- The inner loop maps as many pages as there are to map and as the table has left.
pub record TableDone (n table page count physical flags : ℕ) (m : Frames) (r : ℕ × ℕ × Frames)
    : Type 0 where
  pub left : r.0 ≡ count - smaller n count
  pub next : r.1 ≡ physical + smaller n count
  pub hits :
      (g j : ℕ)
      → inside (smaller n count) table page g j ≡ true
      → r.2 g j ≡ map_entry (physical + (j - page)) flags (m g j)
  pub misses : (g j : ℕ) → inside (smaller n count) table page g j ≡ false → r.2 g j ≡ m g j

pub map_table-TableDone :
    (n table page count physical flags : ℕ) (m : Frames)
    → TableDone n table page count physical flags m (map_table n table page count physical flags m)
unfolding map_table
map_table-TableDone zero t p c f fl m = record {
  left = ground arith;
  next = ground arith;
  hits = λ g j h. absurd (ground arith);
  misses = λ g j h. refl;
}
map_table-TableDone (suc n) t p c f fl m = elim (Bool-cases (c == 0)) [
  | inl none_left ↦ rw none_left (record {
    left = ground arith;
    next = ground arith;
    hits = λ g j h. absurd (ground arith);
    misses = λ g j h. refl;
  })
  | inr more ↦
      let ih = map_table-TableDone n t (p + 1) (c - 1) (f + 1) fl (change t p (map_entry f fl) m) in
      rw more (record {
        left = ground (arith, ih.left, more);
        next = ground (arith, ih.next, more);
        hits = λ g j h. elim (Bool-cases (j == p)) [
          | inl first ↦
              let here : f ≡ f + (j - p) = ground arith in
              ih.misses g j (ground arith)
              ∙ change_here t p (map_entry f fl) m g j (ground arith)
              ∙ ap (λ x. map_entry x fl (m g j)) here
          | inr behind ↦
              let there : f + 1 + (j - (p + 1)) ≡ f + (j - p) = ground arith in
              ih.hits g j (ground arith) ∙ (λ i.
                map_entry (there i) fl
                  (change_elsewhere t p (map_entry f fl) m g j (ground arith) i))
        ];
        misses = λ g j h.
            ih.misses g j (ground arith)
            ∙ change_elsewhere t p (map_entry f fl) m g j (ground arith);
      })
]
