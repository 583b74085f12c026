-- ===== src/LiteFs/Lookup.antt =====
-- Paths and object descriptors of library/lite-fs/lite-fs.cxx: GetObjectDescriptorIndex and
-- GetObjectDescriptor, and the steps that CreateDirectoryIterator and ReadFile repeat. The source counts the
-- entries of a partition by a `size_t` against 64 bits, so that its loops are those of the model for counts
-- below 2 ^ 32.
use dark_core.Prelude.{
  ℕ, zero, suc, ◌+◌, ◌-◌, ◌*◌, ◌%◌, ◌^◌, Bool, true, false, ◌&&◌, ◌||◌, ltb, leb, ◌==◌,
  if◌then◌else◌, List, [], ◌∷◌, Option, none, some, length, map, wrong_index, size_mod,
}
use dark_core.StringClass.{String, Part, equals, split, part_text}
use dark_core.LiteFs.{
  StorageDevice, ObjectDescriptor, PartitionHeader, FsHeader, object_descriptor, partition_header,
  get_fs_header, get_partition_header, find_partition, partition_lba, partition_lba64,
  object_type_directory, object_attribute_system, counter_field_value, long_mod,
}
pub mod Objects
pub mod Descent

-- The loops of GetObjectDescriptorIndex over the entries that are left, with a test of the descriptor.
unfoldable pub find_index : ℕ → ℕ → ℕ → StorageDevice → (ObjectDescriptor → Bool) → ℕ
find_index zero i lba device test = wrong_index
find_index (suc n) i lba device test =
    let rest = find_index n (i + 1) (lba + 1) device test in
    if leb device.sectors_count lba then wrong_index else elim (device.read_sector lba) [
      | none ↦ rest
      | some s ↦ if test (object_descriptor s) then i else rest
    ]

unfoldable pub get_object_descriptor_index :
    StorageDevice → ℕ → (ObjectDescriptor → Bool) → (ℕ → ℕ) → ℕ
get_object_descriptor_index device partition test rounds = elim (get_fs_header device) [
  | none ↦ wrong_index
  | some h ↦
      if leb h.current_partitions_count partition
        || leb device.sectors_count (partition_lba64 h partition)
      then wrong_index
      else elim (device.read_sector (partition_lba h partition)) [
        | none ↦ wrong_index
        | some s ↦
            find_index (rounds (partition_header s).entries_count) 0 (partition_lba h partition + 1)
              device test
      ]
]

-- The overload by the object's number casts the count of entries.
unfoldable pub get_object_descriptor_index_by_id : StorageDevice → ℕ → ℕ → ℕ
get_object_descriptor_index_by_id device partition id =
    get_object_descriptor_index device partition (λ d. d.id == id) (λ n. n % size_mod)

-- The test of a name below a parent.
abbrev pub is_child : ℕ → String → ObjectDescriptor → Bool
is_child parent object_name d = (d.parent_id == parent) && equals object_name (some d.name)

unfoldable pub get_object_descriptor_index_by_name : StorageDevice → ℕ → String → ℕ → ℕ
get_object_descriptor_index_by_name device partition object_name parent =
    get_object_descriptor_index device partition (is_child parent object_name) (λ n. n)

-- The loop over the entries that are left: the first descriptor that passes the test, and its sector.
-- Sectors that cannot be read are passed over. For a count of 2 ^ 32 or more the index of the source
-- wraps, and its loop does not end where nothing is found.
unfoldable pub find_object :
    ℕ → ℕ → StorageDevice → (ObjectDescriptor → Bool) → Option (ℕ × ObjectDescriptor)
find_object zero lba device test = none
find_object (suc n) lba device test =
    let rest = find_object n (lba + 1) device test in
    elim (device.read_sector (lba % size_mod)) [
      | none ↦ rest
      | some s ↦
          if test (object_descriptor s) then some (lba % size_mod, object_descriptor s) else rest
    ]

-- The entries of a partition: the sector of the first, and how many there are.
pub record Entries : Type 0 where
  pub first_lba : ℕ
  pub entries_count : ℕ

-- The loop over the inner parts of a path. `found` is `objectFound`, which no level sets back.
unfoldable pub descend : Entries → StorageDevice → Bool → ℕ → List String → Option ℕ
descend e device found parent [] = some parent
descend e device found parent (part ∷ parts) =
    elim (find_object e.entries_count e.first_lba device (is_child parent part)) [
      | some (lba, d) ↦ descend e device true d.id parts
      | none ↦ elim found [ true ↦ descend e device true parent parts | false ↦ none ]
    ]

-- The last part of a path, and those in front of it.
unfoldable pub last_part : String → List String → List String × String
last_part p [] = ([], p)
last_part p (q ∷ qs) = let (inner, final) = last_part q qs in (p ∷ inner, final)

-- The object that the parts behind the partition's name lead to.
unfoldable pub resolve :
    Entries
    → StorageDevice
    → (ObjectDescriptor → Bool)
    → String
    → List String
    → Option (ℕ × ObjectDescriptor)
resolve e device test p parts =
    let (inner, final) = last_part p parts in
    elim (descend e device false 0 inner) [
      | none ↦ none
      | some parent ↦
          find_object e.entries_count e.first_lba device (λ d. is_child parent final d && test d)
    ]

-- The sum over the partitions, for the root: how many have a header, and the sectors they use.
unfoldable pub count_partitions : ℕ → ℕ → StorageDevice → ℕ → ℕ → ℕ × ℕ
count_partitions zero i device count taken = (count, taken)
count_partitions (suc n) i device count taken = elim (get_partition_header device i) [
  | none ↦ count_partitions n (i + 1) device count taken
  | some header ↦
      count_partitions n (i + 1) device (count + 1) ((taken + header.used_sectors_count) % long_mod)
]

-- How many entries lie directly in a partition.
unfoldable pub count_root_objects : ℕ → ℕ → StorageDevice → ℕ → ℕ
count_root_objects zero lba device count = count
count_root_objects (suc n) lba device count = elim (device.read_sector (lba % size_mod)) [
  | none ↦ count_root_objects n (lba + 1) device count
  | some s ↦
      count_root_objects n (lba + 1) device
        (if (object_descriptor s).parent_id == 0 then count + 1 else count)
]

abbrev pub entries_of : FsHeader → ℕ → PartitionHeader → Entries
entries_of h i header = record {
  first_lba = partition_lba h i + 1;
  entries_count = header.entries_count;
}

-- What a path leads to: the root, a partition, or the parts below a partition; `endless` where the loops
-- of Split do not end.
pub data Target : Type 0 where
  nothing : Target
  endless : Target
  root : FsHeader → Target
  partition : FsHeader → ℕ → PartitionHeader → Target
  below : FsHeader → ℕ → PartitionHeader → String → List String → Target

abbrev pub found_partition : FsHeader → List String → Option (ℕ × PartitionHeader) → Target
found_partition h parts none = nothing
found_partition h [] (some (i, header)) = partition h i header
found_partition h (p ∷ ps) (some (i, header)) = below h i header p ps

abbrev pub target_in : StorageDevice → List ℕ → FsHeader → Option (List Part) → Target
target_in device path h none = endless
target_in device path h (some []) = root h
target_in device path h (some (p ∷ ps)) =
    found_partition h (map (part_text path) ps)
      (find_partition h.current_partitions_count 0 device (part_text path p))

abbrev pub target_on : StorageDevice → List ℕ → Option FsHeader → Target
target_on device path none = nothing
target_on device path (some h) = target_in device path h (split path (b'/' ∷ []))

-- The steps in which the functions that take a path agree.
unfoldable pub target_of : StorageDevice → List ℕ → Target
target_of device path = target_on device path (get_fs_header device)

-- The descriptor that GetObjectDescriptor leaves, where it ends and returns true; the last argument is the
-- one that it was given.
unfoldable pub get_object_descriptor :
    StorageDevice → List ℕ → ObjectDescriptor → Option ObjectDescriptor
get_object_descriptor device path before = elim (target_of device path) [
  | nothing ↦ none
  | endless ↦ none
  | root h ↦
      let (count, taken) = count_partitions h.current_partitions_count 0 device 0 0 in
      some (record before {
        id = wrong_index;
        parent_id = wrong_index;
        attributes = object_attribute_system;
        unaligned_size = count;
        taken_sectors_count = taken;
        object_type = object_type_directory;
        counter_field = counter_field_value;
      })
  | partition h i header ↦
      let e = entries_of h i header in
      some (record before {
        name = header.name;
        id = 0;
        parent_id = wrong_index;
        object_type = object_type_directory;
        attributes = object_attribute_system;
        unaligned_size = count_root_objects e.entries_count e.first_lba device 0;
        taken_sectors_count = header.used_sectors_count;
        creation_date = 0;
        creation_time = 0;
        last_read_date = 0;
        last_read_time = 0;
        last_write_date = 0;
        last_write_time = 0;
        counter_field = counter_field_value;
      })
  | below h i header p ps ↦ elim (resolve (entries_of h i header) device (λ d. true) p ps) [
    | none ↦ none
    | some (lba, d) ↦ some d
  ]
]
