-- ===== src/LiteFs/Files/Reading.antt =====
-- ReadFile as a whole: it ends, and what it reads.
use dark_core.Prelude.{
  ℕ, zero, suc, ◌+◌, ◌-◌, ◌*◌, ◌/◌, ◌%◌, ◌≡◌, ◌≤◌, ◌<◌, refl, ◌≢◌, arith, leb, ltb, map, [], ◌∷◌,
  Bool, true, false, none, List, Option, some, length, size_mod, sub_size, Bool-cases, Option-cases,
  inl, inr,
}
use dark_core.Common.Memory
use dark_core.StringClass.{String, Part, part_text}
use dark_core.StringClass.Ending.{split-Ends}
use dark_core.LiteFs.{
  StorageDevice, ObjectDescriptor, PartitionHeader, FsHeader, chunk_size, long_mod, get_fs_header,
  find_partition,
}
use dark_core.LiteFs.Lookup.{
  Target, target_of, target_in, found_partition, entries_of, resolve, nothing, endless, root,
  partition, below,
}
use dark_core.LiteFs.Files.{
  skip_chunks, read_chunks, clipped, read_object, read_target, read_file, load_sector, next_lba,
}

-- A call of ReadFile comes to an end with a result.
abbrev pub Ends : Option (Bool × Memory.Memory) → Type 0
Ends o = (result : Bool × Memory.Memory) × (o ≡ some result)

read_chunks-Ends :
    (device : StorageDevice) (chunk fuel target lba offset count : ℕ) (m : Memory.Memory)
    → offset < 504
    → count ≤ fuel
    → Ends (read_chunks fuel device chunk target lba offset count m)
unfolding read_chunks
read_chunks-Ends device c fuel t lba o zero m small enough = ((true, m), refl)
read_chunks-Ends device c zero t lba o (suc b) m small enough = absurd (omega arith)
read_chunks-Ends device c (suc fuel) t lba o (suc b) m small enough =
    elim (Option-cases (device.read_sector (lba % size_mod))) [
      | inl e ↦ rw (e, read_chunks) ((false, m), refl)
      | inr (s, e) ↦
          rw (e, read_chunks)
            (read_chunks-Ends device c fuel (t + sub_size chunk_size (o % size_mod))
              (next_lba lba s) 0 (suc b - sub_size chunk_size (o % size_mod))
              (Memory.copy t c (sub_size chunk_size (o % size_mod)) (load_sector c s m))
              (omega arith) (ground arith))
    ]

read_object-Ends :
    (device : StorageDevice) (lba : ℕ) (d : ObjectDescriptor) (chunk buffer offset count : ℕ)
    (m : Memory.Memory)
    → offset < size_mod
    → Ends (read_object device lba d chunk buffer offset count m)
unfolding read_object
read_object-Ends device lba d c buffer o count m small =
    elim (Bool-cases (leb d.taken_sectors_count (o % size_mod / chunk_size))) [
      | inl e ↦ rw (e, read_object) ((false, m), refl)
      | inr e ↦
          elim (Option-cases (
            skip_chunks (o % size_mod / chunk_size) device
              ((lba + d.first_data_chunk_offset) % long_mod))) [
                | inl f ↦ rw (e, f, read_object) ((false, m), refl)
                | inr (first, f) ↦
                    rw (e, f, read_object)
                      (read_chunks-Ends device c (clipped d o count) buffer first
                        (o - o % size_mod / chunk_size * chunk_size) (clipped d o count) m
                        (omega arith) (omega arith))
              ]
    ]

-- The count of entries that the path is looked for in is a `size_t`.
abbrev pub EntriesFit : Target → Type 0
EntriesFit nothing = Unit
EntriesFit endless = Unit
EntriesFit (root h) = Unit
EntriesFit (partition h i header) = Unit
EntriesFit (below h i header p ps) = header.entries_count < size_mod

-- The count of partitions is a `size_t`.
abbrev pub PartitionsFit : Option FsHeader → Type 0
PartitionsFit none = Unit
PartitionsFit (some h) = h.current_partitions_count < size_mod

read_target-Ends :
    (device : StorageDevice) (to : Target) (chunk buffer offset count : ℕ) (m : Memory.Memory)
    → offset < size_mod
    → to ≢ endless
    → EntriesFit to
    → Ends (read_target device to chunk buffer offset count m)
unfolding read_target
read_target-Ends device nothing c buffer o count m small ends fit = ((false, m), refl)
read_target-Ends device endless c buffer o count m small ends fit = absurd (ends refl)
read_target-Ends device (root h) c buffer o count m small ends fit = ((false, m), refl)
read_target-Ends device (partition h i header) c buffer o count m small ends fit =
    ((false, m), refl)
read_target-Ends device (below h i header p ps) c buffer o count m small ends fit =
    elim (Option-cases (resolve (entries_of h i header) device (λ d. true) p ps)) [
      | inl e ↦
          let small_count : ltb header.entries_count size_mod ≡ true = ground (arith, fit) in
          rw (e, small_count, read_target) ((false, m), refl)
      | inr ((lba, d), e) ↦
          rw (e, read_target) (read_object-Ends device lba d c buffer o count m small)
    ]

target_of-ends :
    (device : StorageDevice) (path : List ℕ)
    → length path + 1 < size_mod
    → target_of device path ≢ endless
unfolding target_of
target_of-ends device path short = elim (Option-cases (get_fs_header device)) [
  | inl e ↦ rw e (λ q. absurd (ground arith))
  | inr (h, e) ↦ let (parts, s) = split-Ends path short in rw (e, s) (target_in-ends h parts)
]
  where
    found_partition-ends :
        (h : FsHeader) (parts : List String) (o : Option (ℕ × PartitionHeader))
        → found_partition h parts o ≢ endless
    found_partition-ends h parts none q = absurd (ground arith)
    found_partition-ends h [] (some (i, header)) q = absurd (ground arith)
    found_partition-ends h (p ∷ ps) (some (i, header)) q = absurd (ground arith)

    target_in-ends :
        (h : FsHeader) (parts : List Part) → target_in device path h (some parts) ≢ endless
    target_in-ends h [] q = absurd (ground arith)
    target_in-ends h (p ∷ ps) q =
        found_partition-ends h (map (part_text path) ps)
          (find_partition h.current_partitions_count 0 device (part_text path p)) q

-- On every device, chunks that lead in a circle included, ReadFile ends for an offset below 4 GiB and a
-- path with its terminator below 4 GiB, where the counts of partitions and of the entries that the
-- path is looked for in are below 2 ^ 32.
pub read_file-Ends :
    (device : StorageDevice) (path : List ℕ) (chunk buffer offset count : ℕ) (m : Memory.Memory)
    → offset < size_mod
    → length path + 1 < size_mod
    → PartitionsFit (get_fs_header device)
    → EntriesFit (target_of device path)
    → Ends (read_file device path chunk buffer offset count m)
unfolding read_file
read_file-Ends device path c buffer o count m small short partitions entries =
    read_target-Ends device (target_of device path) c buffer o count m small
      (target_of-ends device path short) entries
