-- ===== src/LiteFs/Lookup/Objects.antt =====
-- The search for a descriptor in GetObjectDescriptor and the functions like it.
use dark_core.Prelude.{
  ℕ, zero, suc, ◌+◌, ◌%◌, ◌≡◌, ◌<◌, inl, inr, refl, ◌∙◌, subst, arith, Bool, true, false, Option,
  none, some, size_mod, Bool-cases,
}
use dark_core.Common.Memory.{Memory}
use dark_core.LiteFs.{StorageDevice, ObjectDescriptor, object_descriptor}
use dark_core.LiteFs.Lookup.{find_object}

-- An entry cannot be read, or its descriptor does not pass the test.
abbrev pub Fails : (ObjectDescriptor → Bool) → Option Memory → Type 0
Fails test none = Unit
Fails test (some s) = test (object_descriptor s) ≡ false

-- The result is the first entry that passes the test, or there is none.
abbrev pub IsFirst :
    ℕ → ℕ → StorageDevice → (ObjectDescriptor → Bool) → Option (ℕ × ObjectDescriptor) → Type 0
IsFirst n lba device test none =
    (j : ℕ) → j < n → Fails test (device.read_sector ((lba + j) % size_mod))
IsFirst n lba device test (some (at, d)) =
    (k : ℕ) × (s : Memory) × (k < n)
    × (at ≡ (lba + k) % size_mod)
    × (device.read_sector at ≡ some s)
    × (d ≡ object_descriptor s)
    × (test d ≡ true)
    × ((j : ℕ) → j < k → Fails test (device.read_sector ((lba + j) % size_mod)))

module _ (n lba : ℕ) (device : StorageDevice) (test : ObjectDescriptor → Bool) where
  Fails-from :
      (high : ℕ)
      → Fails test (device.read_sector (lba % size_mod))
      → ((j : ℕ) → j < high → Fails test (device.read_sector ((lba + 1 + j) % size_mod)))
      → (j : ℕ) → j < suc high
      → Fails test (device.read_sector ((lba + j) % size_mod))
  Fails-from high now later zero h =
      subst (λ k. Fails test (device.read_sector (k % size_mod))) (omega arith) now
  Fails-from high now later (suc j) h =
      subst (λ k. Fails test (device.read_sector (k % size_mod))) (omega arith)
        (later j (omega arith))

  IsFirst-later :
      (o : Option (ℕ × ObjectDescriptor))
      → Fails test (device.read_sector (lba % size_mod))
      → IsFirst n (lba + 1) device test o
      → IsFirst (suc n) lba device test o
  IsFirst-later none now later = Fails-from n now later
  IsFirst-later (some (at, d)) now (k, s, below, place, read, same, pass, before) =
      (suc k, s, omega arith, place ∙ omega arith, read, same, pass, Fails-from k now before)

  IsFirst-step :
      (o : Option Memory)
      → device.read_sector (lba % size_mod) ≡ o
      → IsFirst n (lba + 1) device test (find_object n (lba + 1) device test)
      → IsFirst (suc n) lba device test (find_object (suc n) lba device test)
  unfolding find_object
  IsFirst-step none r rest =
      rw (r, find_object) (IsFirst-later (find_object n (lba + 1) device test) (rw r tt) rest)
  IsFirst-step (some s) r rest = elim (Bool-cases (test (object_descriptor s))) [
    | inl pass ↦
        rw (r, pass, find_object)
          (0, s, omega arith, omega arith, r, refl, pass, λ j h. absurd (omega arith))
    | inr fail ↦
        rw (r, fail, find_object)
          (IsFirst-later (find_object n (lba + 1) device test) (rw r fail) rest)
  ]

-- The search through the entries finds the first one that can be read and passes the test, or there
-- is none.
pub find_object-IsFirst :
    (n lba : ℕ) (device : StorageDevice) (test : ObjectDescriptor → Bool)
    → IsFirst n lba device test (find_object n lba device test)
unfolding find_object
find_object-IsFirst zero lba device test = λ j h. absurd (omega arith)
find_object-IsFirst (suc n) lba device test =
    IsFirst-step n lba device test (device.read_sector (lba % size_mod)) refl
      (find_object-IsFirst n (lba + 1) device test)
