-- ===== src/LiteFs/Directories.antt =====
-- Directory iterators of library/lite-fs/lite-fs.cxx: CreateDirectoryIterator and
-- GetNextObjectInformation.
use dark_core.Prelude.{
  ℕ, zero, suc, ◌+◌, ◌-◌, ◌%◌, ◌^◌, Bool, true, false, not, ◌&&◌, ◌||◌, leb, ◌==◌, if◌then◌else◌,
  List, [], ◌∷◌, Option, none, some, wrong_index, size_mod,
}
use dark_core.LiteFs.{
  StorageDevice, ObjectDescriptor, PartitionHeader, get_fs_header, get_partition_header,
  partition_lba64, fs_header_lba, object_type_directory, object_attribute_system, long_mod,
}
use dark_core.LiteFs.Lookup.{
  Target, target_of, entries_of, count_root_objects, resolve, find_object, nothing, endless, root,
  partition, below,
}
pub mod Listing

pub record ObjectInformation : Type 0 where
  pub name : List ℕ
  pub object_type : ℕ
  pub attributes : ℕ
  pub object_size : ℕ
  pub creation_date : ℕ
  pub last_read_date : ℕ
  pub last_write_date : ℕ
  pub creation_time : ℕ
  pub last_read_time : ℕ
  pub last_write_time : ℕ

pub record DirectoryIterator : Type 0 where
  pub storage_device_index : ℕ
  pub partition_index : ℕ
  pub directory_id : ℕ
  pub sector_offset : ℕ
  pub objects_left : ℕ

-- The iterator after the call, where it ends and returns true.
unfoldable pub create_directory_iterator :
    StorageDevice → List ℕ → DirectoryIterator → Option DirectoryIterator
create_directory_iterator device path before = elim (target_of device path) [
  | nothing ↦ none
  | endless ↦ none
  | root h ↦ some (record before {
    partition_index = wrong_index;
    directory_id = wrong_index;
    sector_offset = fs_header_lba;
    objects_left = 0;
  })
  | partition h i header ↦ some (record before {
    partition_index = i;
    directory_id = 0;
    sector_offset = partition_lba64 h i;
    objects_left =
        count_root_objects header.entries_count (partition_lba64 h i % size_mod + 1) device 0;
  })
  | below h i header p ps ↦
      elim (resolve (entries_of h i header) device (λ d. d.object_type == object_type_directory) p
        ps) [
          | none ↦ none
          | some (lba, d) ↦ some (record before {
            partition_index = i;
            directory_id = d.id;
            sector_offset = lba;
            objects_left = d.unaligned_size;
          })
        ]
]

-- What GetNextObjectInformation says of a partition, and of an object.
abbrev pub partition_information : ℕ → PartitionHeader → ObjectInformation
partition_information partitions_count header = record {
  name = header.name;
  object_type = object_type_directory;
  attributes = object_attribute_system;
  object_size = partitions_count;
  creation_date = 0;
  last_read_date = 0;
  last_write_date = 0;
  creation_time = 0;
  last_read_time = 0;
  last_write_time = 0;
}

abbrev pub object_information : ObjectDescriptor → ObjectInformation
object_information d = record {
  name = d.name;
  object_type = d.object_type % 2 ^ 8;
  attributes = d.attributes;
  object_size = d.unaligned_size;
  creation_date = d.creation_date;
  last_read_date = d.last_read_date;
  last_write_date = d.last_write_date;
  creation_time = d.creation_time;
  last_read_time = d.last_read_time;
  last_write_time = d.last_write_time;
}

-- The call on an iterator of the root. Its `objects_left` counts the partitions that it has passed.
unfoldable pub next_partition :
    StorageDevice → ℕ → DirectoryIterator → Option (DirectoryIterator × ObjectInformation)
next_partition device partitions_count it =
    if not (it.directory_id == wrong_index) || leb partitions_count it.objects_left
    then none
    else elim (get_partition_header device (it.objects_left % size_mod)) [
      | none ↦ none
      | some header ↦ some (
        record it { objects_left = (it.objects_left + 1) % long_mod },
        partition_information partitions_count header,
      )
    ]

-- The call on an iterator of a directory: the next entry behind the last one.
unfoldable pub next_object :
    StorageDevice → DirectoryIterator → Option (DirectoryIterator × ObjectInformation)
next_object device it = elim (get_partition_header device it.partition_index) [
  | none ↦ none
  | some header ↦
      elim (find_object header.entries_count (it.sector_offset % size_mod + 1) device
        (λ d. d.parent_id == it.directory_id)) [
          | none ↦ none
          | some (lba, d) ↦ some (
            record it { sector_offset = lba; objects_left = it.objects_left - 1 },
            object_information d,
          )
        ]
]

-- The iterator and the information after the call, where it returns true.
unfoldable pub get_next_object_information :
    StorageDevice → DirectoryIterator → Option (DirectoryIterator × ObjectInformation)
get_next_object_information device it =
    if (it.objects_left == 0) && not (it.partition_index == wrong_index)
    then none
    else elim (get_fs_header device) [
      | none ↦ none
      | some h ↦
          if it.partition_index == wrong_index
          then next_partition device h.current_partitions_count it
          else next_object device it
    ]
