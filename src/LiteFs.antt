-- ===== src/LiteFs.antt =====
-- The file system of library/lite-fs/lite-fs.cxx: its structures in a sector, and the headers. A device
-- is asked for one sector at a time, and gives the same answer each time.
use dark_core.Prelude.{
  ℕ, zero, suc, ◌+◌, ◌-◌, ◌*◌, ◌/◌, ◌%◌, ◌^◌, Bool, true, false, not, ◌&&◌, ◌||◌, ltb, leb, ◌==◌,
  if◌then◌else◌, List, [], ◌∷◌, Option, none, some, length, wrong_index, size_mod,
}
use dark_core.Common.Memory.{Memory, load_element, compare}
use dark_core.StringClass.{String, bytes_of, equals}
pub mod Lookup
pub mod Directories
pub mod Files

-- `StorageDevice`: GetSectorsCount, and ReadSectors of one sector, `none` where it fails.
pub record StorageDevice : Type 0 where
  pub sectors_count : ℕ
  pub read_sector : ℕ → Option Memory

abbrev pub fs_header_lba : ℕ
fs_header_lba = 1

abbrev pub chunk_size : ℕ
chunk_size = 0x1f8

abbrev pub object_type_directory : ℕ
object_type_directory = 1

abbrev pub object_attribute_system : ℕ
object_attribute_system = 1

abbrev pub counter_field_value : ℕ
counter_field_value = 0x55aa_aa55

abbrev pub long_mod : ℕ
long_mod = 2 ^ 64

-- A name of at most `n` bytes up to its terminator.
unfoldable pub name_at : ℕ → ℕ → Memory → List ℕ
name_at zero p s = []
name_at (suc n) p s = let rest = name_at n (p + 1) s in if s p == 0 then [] else s p ∷ rest

-- `DataChunk`: the data lie at the start of the sector.
abbrev pub next_offset : Memory → ℕ
next_offset s = load_element 8 chunk_size s

pub record ObjectDescriptor : Type 0 where
  pub name : List ℕ
  pub id : ℕ
  pub parent_id : ℕ
  pub object_type : ℕ
  pub attributes : ℕ
  pub unaligned_size : ℕ
  pub taken_sectors_count : ℕ
  pub creation_date : ℕ
  pub last_read_date : ℕ
  pub last_write_date : ℕ
  pub creation_time : ℕ
  pub last_read_time : ℕ
  pub last_write_time : ℕ
  pub first_data_chunk_offset : ℕ
  pub counter_field : ℕ

unfoldable pub object_descriptor : Memory → ObjectDescriptor
object_descriptor s = record {
  name = name_at 0x100 0 s;
  id = load_element 8 0x100 s;
  parent_id = load_element 8 0x108 s;
  object_type = load_element 4 0x110 s;
  attributes = load_element 8 0x114 s;
  unaligned_size = load_element 8 0x11c s;
  taken_sectors_count = load_element 8 0x124 s;
  creation_date = load_element 4 0x12c s;
  last_read_date = load_element 4 0x130 s;
  last_write_date = load_element 4 0x134 s;
  creation_time = load_element 4 0x138 s;
  last_read_time = load_element 4 0x13c s;
  last_write_time = load_element 4 0x140 s;
  first_data_chunk_offset = load_element 8 0x144 s;
  counter_field = load_element 4 0x1fc s;
}

pub record PartitionHeader : Type 0 where
  pub name : List ℕ
  pub entries_count : ℕ
  pub used_sectors_count : ℕ
  pub max_sectors_count : ℕ

unfoldable pub partition_header : Memory → PartitionHeader
partition_header s = record {
  name = name_at 0x20 0 s;
  entries_count = load_element 8 0x20 s;
  used_sectors_count = load_element 8 0x28 s;
  max_sectors_count = load_element 8 0x30 s;
}

-- `FSHeader`, with the LBA offsets of the partitions by their index.
pub record FsHeader : Type 0 where
  pub current_partitions_count : ℕ
  pub partitions : ℕ → ℕ

unfoldable pub fs_header : Memory → FsHeader
fs_header s = record {
  current_partitions_count = load_element 8 8 s;
  partitions = λ i. load_element 8 (0x10 + 8 * i) s;
}

-- "LITEFS".
abbrev pub signature : List ℕ
signature = b'L' ∷ b'I' ∷ b'T' ∷ b'E' ∷ b'F' ∷ b'S' ∷ []

unfoldable pub get_fs_header : StorageDevice → Option FsHeader
get_fs_header device =
    if leb device.sectors_count fs_header_lba
    then none
    else elim (device.read_sector fs_header_lba) [
      | none ↦ none
      | some s ↦ if compare s (bytes_of signature) 6 then some (fs_header s) else none
    ]

-- The sector of a partition's header, in 64 bits and as a `size_t`.
abbrev pub partition_lba64 : FsHeader → ℕ → ℕ
partition_lba64 h i = (fs_header_lba + h.partitions i) % long_mod

abbrev pub partition_lba : FsHeader → ℕ → ℕ
partition_lba h i = partition_lba64 h i % size_mod

unfoldable pub get_partition_header : StorageDevice → ℕ → Option PartitionHeader
get_partition_header device i = elim (get_fs_header device) [
  | none ↦ none
  | some h ↦
      if leb h.current_partitions_count i || leb device.sectors_count (partition_lba h i)
      then none
      else elim (device.read_sector (partition_lba h i)) [
        | none ↦ none
        | some s ↦ some (partition_header s)
      ]
]

-- The loop over the partitions that are left: the first whose name is the given one; it ends at a
-- header that cannot be read.
unfoldable pub find_partition : ℕ → ℕ → StorageDevice → String → Option (ℕ × PartitionHeader)
find_partition zero i device part_name = none
find_partition (suc n) i device part_name =
    let rest = find_partition n (i + 1) device part_name in
    elim (get_partition_header device i) [
      | none ↦ none
      | some header ↦ if equals part_name (some header.name) then some (i, header) else rest
    ]

unfoldable pub get_partition_index : StorageDevice → String → ℕ
get_partition_index device part_name = elim (get_fs_header device) [
  | none ↦ wrong_index
  | some h ↦ elim (find_partition (h.current_partitions_count % size_mod) 0 device part_name) [
    | none ↦ wrong_index
    | some (i, header) ↦ i
  ]
]

-- The overload by name: true with the header that it fills in where the result is `some`. It answers
-- WRONG_INDEX, which is true as well, where there is no file system.
unfoldable pub get_partition_header_by_name : StorageDevice → String → Bool × Option PartitionHeader
get_partition_header_by_name device part_name = elim (get_fs_header device) [
  | none ↦ (true, none)
  | some h ↦ elim (find_partition (h.current_partitions_count % size_mod) 0 device part_name) [
    | none ↦ (false, none)
    | some (i, header) ↦ (true, some header)
  ]
]
