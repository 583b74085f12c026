-- ===== src/LiteFs/Directories/Listing.antt =====
-- Calls of GetNextObjectInformation until one fails list a directory.
use dark_core.Prelude.{
  ℕ, zero, suc, ◌+◌, ◌-◌, ◌%◌, ◌≡◌, ◌≤◌, ◌<◌, inl, inr, refl, sym, ap, ap₂, ◌∙◌, arith, false, ◌==◌,
  if◌then◌else◌, List, [], ◌∷◌, map, Option, none, some, length, wrong_index, size_mod, Bool-cases,
  Option-cases,
}
use dark_core.Common.Memory.{Memory}
use dark_core.StringClass.{String, Part, part_text, split}
use dark_core.LiteFs.{
  StorageDevice, ObjectDescriptor, PartitionHeader, FsHeader, object_descriptor, get_fs_header,
  get_partition_header, find_partition, partition_lba64,
}
use dark_core.LiteFs.Lookup.{
  target_of, target_on, target_in, found_partition, count_root_objects, find_object, partition,
}
use dark_core.LiteFs.Directories.{
  ObjectInformation, DirectoryIterator, create_directory_iterator, object_information, next_object,
  get_next_object_information,
}

-- The entries with a parent, among so many from a sector on.
abbrev pub children : ℕ → ℕ → StorageDevice → ℕ → List ObjectDescriptor
children zero lba device id = []
children (suc n) lba device id =
    let rest = children n (lba + 1) device id in
    elim (device.read_sector lba) [
      | none ↦ rest
      | some s ↦ if (object_descriptor s).parent_id == id then object_descriptor s ∷ rest else rest
    ]

-- What calls of GetNextObjectInformation return before one fails, with a bound on their number.
unfoldable pub list_objects : ℕ → StorageDevice → DirectoryIterator → List ObjectInformation
list_objects zero device it = []
list_objects (suc fuel) device it = elim (get_next_object_information device it) [
  | none ↦ []
  | some (next, info) ↦ info ∷ list_objects fuel device next
]

-- The count that an iterator of a partition starts from.
count_root_objects-children :
    (n lba : ℕ) (device : StorageDevice) (count : ℕ)
    → lba + n < size_mod
    → count_root_objects n lba device count ≡ count + length (children n lba device 0)
unfolding count_root_objects
count_root_objects-children zero lba device c small = omega arith
count_root_objects-children (suc n) lba device c small =
    let same : lba % size_mod ≡ lba = omega arith in
    elim (Option-cases (device.read_sector lba)) [
      | inl e ↦
          rw (same, e, count_root_objects, children)
            (count_root_objects-children n (lba + 1) device c (omega arith))
      | inr (s, e) ↦ elim (Bool-cases ((object_descriptor s).parent_id == 0)) [
        | inl t ↦
            rw (same, e, t, count_root_objects, children)
              (count_root_objects-children n (lba + 1) device (c + 1) (omega arith) ∙ omega arith)
        | inr t ↦
            rw (same, e, t, count_root_objects, children)
              (count_root_objects-children n (lba + 1) device c (omega arith))
      ]
    ]

-- The scan over so many entries finds the child `d`, and `ds` are the children behind it.
abbrev Passes : ℕ → ℕ → ℕ → StorageDevice → ℕ → ObjectDescriptor → List ObjectDescriptor → Type 0
Passes n more lba device id d ds =
    (j : ℕ) × (j < n)
    × (find_object more lba device (λ x. x.parent_id == id) ≡ some (lba + j, d))
    × (children (n - suc j) (lba + j + 1) device id ≡ ds)

Passes-later :
    (n more lba : ℕ) (device : StorageDevice) (id : ℕ) (d : ObjectDescriptor)
    (ds : List ObjectDescriptor)
    → find_object (suc more) lba device (λ x. x.parent_id == id)
      ≡ find_object more (lba + 1) device (λ x. x.parent_id == id)
    → Passes n more (lba + 1) device id d ds
    → Passes (suc n) (suc more) lba device id d ds
Passes-later n more lba device id d ds step rest = (
  suc rest.0,
  omega (arith, rest.1),
  step ∙ (rest.2 ∙ ap (λ k. some (k, d)) (omega arith)),
  ap₂ (λ l k. children l k device id) (omega arith) (omega arith) ∙ rest.3,
)

module _ (n more lba : ℕ) (device : StorageDevice) (id : ℕ) where
  scan_step :
      (o : Option Memory)
      → device.read_sector lba ≡ o
      → lba < size_mod
      → (d : ObjectDescriptor) (ds : List ObjectDescriptor)
      → children (suc n) lba device id ≡ d ∷ ds
      → (children n (lba + 1) device id ≡ d ∷ ds → Passes n more (lba + 1) device id d ds)
      → Passes (suc n) (suc more) lba device id d ds
  unfolding find_object
  scan_step none r small d ds e rest =
      let same : lba % size_mod ≡ lba = omega arith in
      Passes-later n more lba device id d ds (rw (same, r, find_object) refl)
        (rest (sym (rw (r, children) refl) ∙ e))
  scan_step (some s) r small d ds e rest =
      let same : lba % size_mod ≡ lba = omega arith in
      elim (Bool-cases ((object_descriptor s).parent_id == id)) [
        | inl t ↦
            let both : object_descriptor s ∷ children n (lba + 1) device id ≡ d ∷ ds =
              sym (rw (r, t, children) refl) ∙ e in
            let found : (object_descriptor s ≡ d) × (children n (lba + 1) device id ≡ ds) =
              (cc, cc) in
            (
              0,
              omega arith,
              rw (same, r, t, find_object) (ap₂ (λ k x. some (k, x)) (omega arith) found.0),
              ap₂ (λ l k. children l k device id) (omega arith) (omega arith) ∙ found.1,
            )
        | inr t ↦
            Passes-later n more lba device id d ds (rw (same, r, t, find_object) refl)
              (rest (sym (rw (r, t, children) refl) ∙ e))
      ]

-- A call finds the first child that is left, and leaves the others.
find_object-children :
    (n more lba : ℕ) (device : StorageDevice) (id : ℕ) (d : ObjectDescriptor)
    (ds : List ObjectDescriptor)
    → children n lba device id ≡ d ∷ ds
    → n ≤ more
    → lba + n < size_mod
    → Passes n more lba device id d ds
find_object-children zero more lba device id d ds e le small = absurd (ground arith)
find_object-children (suc n) zero lba device id d ds e le small = absurd (omega arith)
find_object-children (suc n) (suc more) lba device id d ds e le small =
    scan_step n more lba device id (device.read_sector lba) refl (omega arith) d ds e (λ left.
      find_object-children n more (lba + 1) device id d ds left (omega arith) (omega arith))

next-none :
    (device : StorageDevice) (it : DirectoryIterator)
    → it.objects_left ≡ 0
    → it.partition_index < wrong_index
    → get_next_object_information device it ≡ none
unfolding get_next_object_information
next-none device it empty index = ground arith

next-some :
    (device : StorageDevice) (h : FsHeader) (header : PartitionHeader) (it : DirectoryIterator)
    (lba : ℕ) (d : ObjectDescriptor)
    → get_fs_header device ≡ some h
    → get_partition_header device it.partition_index ≡ some header
    → it.partition_index < wrong_index
    → 0 < it.objects_left
    → find_object header.entries_count
        (it.sector_offset % size_mod + 1)
        device
        (λ x. x.parent_id == it.directory_id)
      ≡ some (lba, d)
    → get_next_object_information device it
      ≡ some (
        record it { sector_offset = lba; objects_left = it.objects_left - 1 },
        object_information d,
      )
unfolding get_next_object_information next_object
next-some device h header it lba d fs part index more found =
    let left : (it.objects_left == 0) ≡ false = ground arith in
    let inner : (it.partition_index == wrong_index) ≡ false = ground arith in
    rw (left, fs, inner, part, found, get_next_object_information, next_object) refl

-- Calls on an iterator whose count is right list the children that are left.
list_objects-children :
    (device : StorageDevice) (h : FsHeader) (header : PartitionHeader) (fuel n : ℕ)
    (it : DirectoryIterator) (ds : List ObjectDescriptor)
    → get_fs_header device ≡ some h
    → get_partition_header device it.partition_index ≡ some header
    → it.partition_index < wrong_index
    → children n (it.sector_offset % size_mod + 1) device it.directory_id ≡ ds
    → it.objects_left ≡ length ds
    → length ds ≤ fuel
    → n ≤ header.entries_count
    → it.sector_offset % size_mod + 1 + n < size_mod
    → list_objects fuel device it ≡ map object_information ds
unfolding list_objects
list_objects-children device h header zero n it [] fs part index left count enough le small = refl
list_objects-children device h header zero n it (d ∷ ds) fs part index left count enough le small =
    absurd (omega arith)
list_objects-children device h header (suc fuel) n it [] fs part index left count enough le small =
    rw (next-none device it count index, list_objects) refl
list_objects-children device h header (suc fuel) n it (d ∷ ds) fs part index left count enough le
      small =
    let passed =
      find_object-children n header.entries_count (it.sector_offset % size_mod + 1) device
        it.directory_id d ds left le small in
    let at : (it.sector_offset % size_mod + 1 + passed.0) % size_mod
        ≡ it.sector_offset % size_mod + 1 + passed.0 =
      omega (arith, passed.1) in
    rw
      (
        next-some device h header it (it.sector_offset % size_mod + 1 + passed.0) d fs part index
            (omega arith) passed.2,
        list_objects,
      )
      (ap (◌∷◌ (object_information d)) (
        list_objects-children device h header fuel (n - suc passed.0)
          (record it {
            sector_offset = it.sector_offset % size_mod + 1 + passed.0;
            objects_left = it.objects_left - 1;
          })
          ds fs part index
          (ap (λ k. children (n - suc passed.0) (k + 1) device it.directory_id) at ∙ passed.3)
          (omega arith) (omega arith) (omega arith) (omega (arith, passed.1))))

find_partition-header :
    (n i : ℕ) (device : StorageDevice) (part_name : String) (j : ℕ) (header : PartitionHeader)
    → find_partition n i device part_name ≡ some (j, header)
    → get_partition_header device j ≡ some header
unfolding find_partition
find_partition-header zero i device name j header e = absurd (ground arith)
find_partition-header (suc n) i device name j header e =
    ground (arith, find_partition-header n (i + 1) device name j header)

module _ (device : StorageDevice) (path : List ℕ) (i : ℕ) (header : PartitionHeader) where
  found_partition-header :
      (h h' : FsHeader) (parts : List String) (o : Option (ℕ × PartitionHeader))
      → found_partition h parts o ≡ partition h' i header
      → (h ≡ h') × (o ≡ some (i, header))
  found_partition-header h h' parts none e = absurd (ground arith)
  found_partition-header h h' [] (some (j, x)) e = (cc, cc)
  found_partition-header h h' (p ∷ ps) (some (j, x)) e = absurd (ground arith)

  target_in-header :
      (h h' : FsHeader) (o : Option (List Part))
      → target_in device path h o ≡ partition h' i header
      → (h ≡ h') × (get_partition_header device i ≡ some header)
  target_in-header h h' none e = absurd (ground arith)
  target_in-header h h' (some []) e = absurd (ground arith)
  target_in-header h h' (some (p ∷ ps)) e =
      let found =
        found_partition-header h h' (map (part_text path) ps)
          (find_partition h.current_partitions_count 0 device (part_text path p)) e in
      (
        found.0,
        find_partition-header h.current_partitions_count 0 device (part_text path p) i header
            found.1,
      )

  target_on-header :
      (h' : FsHeader) (o : Option FsHeader)
      → target_on device path o ≡ partition h' i header
      → (o ≡ some h') × (get_partition_header device i ≡ some header)
  target_on-header h' none e = absurd (ground arith)
  target_on-header h' (some h) e =
      let inner = target_in-header h h' (split path (b'/' ∷ [])) e in (ap some inner.0, inner.1)

-- For a path that leads to a partition, CreateDirectoryIterator makes an iterator with which
-- GetNextObjectInformation returns the entries that lie directly in the partition, in their order
-- and each once, and then fails; the partition's entries must lie below the last sector that a
-- `size_t` can name, and calls are made until one fails.
pub list_objects-create_directory_iterator :
    (device : StorageDevice) (path : List ℕ) (before : DirectoryIterator) (h : FsHeader) (i : ℕ)
    (header : PartitionHeader) (fuel : ℕ)
    → target_of device path ≡ partition h i header
    → i < wrong_index
    → partition_lba64 h i + 1 + header.entries_count < size_mod
    → length (children header.entries_count (partition_lba64 h i + 1) device 0) ≤ fuel
    → (it : DirectoryIterator) × (create_directory_iterator device path before ≡ some it)
      × (list_objects fuel device it
          ≡ map object_information
              (children header.entries_count (partition_lba64 h i + 1) device 0))
unfolding create_directory_iterator target_of
list_objects-create_directory_iterator device path before h i header fuel to index small enough =
    let headers = target_on-header device path i header h (get_fs_header device) to in
    let same : partition_lba64 h i % size_mod ≡ partition_lba64 h i = omega arith in
    (
      record before {
        partition_index = i;
        directory_id = 0;
        sector_offset = partition_lba64 h i;
        objects_left =
            count_root_objects header.entries_count (partition_lba64 h i % size_mod + 1) device 0;
      },
      rw (to, create_directory_iterator) refl,
      list_objects-children device h header fuel header.entries_count _ _ headers.0 headers.1 index
          (rw same refl)
          (rw same (
            count_root_objects-children header.entries_count (partition_lba64 h i + 1) device 0
              small
            ∙ omega arith))
          enough (omega arith) (omega arith),
    )
