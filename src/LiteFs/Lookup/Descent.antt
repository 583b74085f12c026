-- ===== src/LiteFs/Lookup/Descent.antt =====
-- The loop over the inner parts of a path, against one that stops at a missing directory.
use dark_core.Prelude.{
  ℕ, ◌≡◌, refl, sym, ◌∙◌, arith, Bool, true, false, List, [], ◌∷◌, Option, none, some, Option-cases,
  inl, inr,
}
use dark_core.StringClass.{String}
use dark_core.LiteFs.{StorageDevice, ObjectDescriptor}
use dark_core.LiteFs.Lookup.{Entries, descend, find_object, is_child}

-- The child of a name below a parent.
abbrev pub child_of : Entries → StorageDevice → ℕ → String → Option (ℕ × ObjectDescriptor)
child_of e device parent part =
    find_object e.entries_count e.first_lba device (is_child parent part)

-- The object that the parts lead to, if each of them is there.
abbrev pub walk : Entries → StorageDevice → ℕ → List String → Option ℕ
walk e device parent [] = some parent
walk e device parent (part ∷ parts) = elim (child_of e device parent part) [
  | some (lba, d) ↦ walk e device d.id parts
  | none ↦ none
]

-- The same, where a part that is not there is left out.
abbrev pub walk_present : Entries → StorageDevice → ℕ → List String → ℕ
walk_present e device parent [] = parent
walk_present e device parent (part ∷ parts) = elim (child_of e device parent part) [
  | some (lba, d) ↦ walk_present e device d.id parts
  | none ↦ walk_present e device parent parts
]

-- Where each part is there, the loop follows them, whatever was found before.
pub descend-walk :
    (e : Entries) (device : StorageDevice) (found : Bool) (parent : ℕ) (parts : List String)
    (id : ℕ)
    → walk e device parent parts ≡ some id
    → descend e device found parent parts ≡ some id
unfolding descend
descend-walk e device found parent [] id h = h
descend-walk e device found parent (part ∷ parts) id h =
    elim (Option-cases (child_of e device parent part)) [
      | inl q ↦ absurd (ground (arith, h, q))
      | inr ((lba, d), q) ↦
          rw (q, descend) (descend-walk e device true d.id parts id (sym (rw (q, walk) refl) ∙ h))
    ]

descend-walk_present :
    (e : Entries) (device : StorageDevice) (parent : ℕ) (parts : List String)
    → descend e device true parent parts ≡ some (walk_present e device parent parts)
unfolding descend
descend-walk_present e device parent [] = refl
descend-walk_present e device parent (part ∷ parts) =
    elim (Option-cases (child_of e device parent part)) [
      | inl q ↦ rw (q, descend, walk_present) (descend-walk_present e device parent parts)
      | inr ((lba, d), q) ↦ rw (q, descend, walk_present) (descend-walk_present e device d.id parts)
    ]

-- Once the first part is found, the loop never fails: it leaves out every part that is not there.
pub descend-leaves_out :
    (e : Entries) (device : StorageDevice) (parent lba : ℕ) (d : ObjectDescriptor) (part : String)
    (parts : List String)
    → child_of e device parent part ≡ some (lba, d)
    → descend e device false parent (part ∷ parts) ≡ some (walk_present e device d.id parts)
unfolding descend
descend-leaves_out e device parent lba d part parts h =
    rw (h, descend) (descend-walk_present e device d.id parts)
