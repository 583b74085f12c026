-- ===== src/Tests/Files.antt =====
-- A small image of the file system: the partition "ab" with the directory "docs", in it the file "text"
-- of two chunks, and the file "boot".
use dark_core.Prelude.{
  ℕ, ◌+◌, ◌-◌, ◌%◌, ◌≡◌, refl, arith, true, false, ◌&&◌, ltb, leb, if◌then◌else◌, List, [], ◌∷◌,
  ◌↔◌, All, map, some, length, get_or,
}
use dark_core.Common.Memory
use dark_core.Common.Text
use dark_core.StringClass.{
  Part, equals, split, split_loop, skip_delimeters, part_start, get_sub_string, part_text,
}
use dark_core.StringClass.Equality.{equals-even_or_odd}
use dark_core.StringClass.Paths.{IsName, path_of, split-path_of, slash}
use dark_core.LiteFs.{
  StorageDevice, FsHeader, PartitionHeader, ObjectDescriptor, name_at, object_descriptor,
  partition_header, fs_header, get_fs_header, get_partition_header, find_partition, signature,
  partition_lba64,
}
use dark_core.LiteFs.Lookup.{partition, below, target_of, descend, find_object, Entries, is_child}
use dark_core.LiteFs.Lookup.Descent.{child_of, walk_present, descend-leaves_out}
use dark_core.LiteFs.Lookup.Objects.{IsFirst, find_object-IsFirst}
use dark_core.LiteFs.Directories.{DirectoryIterator, create_directory_iterator, object_information}
use dark_core.LiteFs.Directories.Listing.{
  children, list_objects, list_objects-create_directory_iterator,
}
use dark_core.LiteFs.Files.{read_file}
use dark_core.LiteFs.Files.Reading.{Ends, EntriesFit, PartitionsFit, read_file-Ends}
use dark_core.RpfParser.{Element, is_blank, is_line_end, parse}
use dark_core.RpfParser.Printing.{Line, IsEntry, IsLine, file_of, parse-file_of}

-- Bytes from a place of a sector on.
abbrev piece : ℕ → List ℕ → Memory.Memory → Memory.Memory
piece at bytes s =
    λ p. if leb at p && ltb p (at + length bytes) then get_or bytes (p - at) 0 else s p

abbrev blank : Memory.Memory
blank = λ p. 0

abbrev descriptor : List ℕ → ℕ → ℕ → ℕ → List ℕ → ℕ → ℕ → Memory.Memory
descriptor name id parent_id object_type unaligned_size taken first_chunk = piece 0 name (
    piece 0x100 (id ∷ []) (
      piece 0x108 (parent_id ∷ []) (
        piece 0x110 (object_type ∷ []) (
          piece 0x11c unaligned_size
            (piece 0x124 (taken ∷ []) (piece 0x144 (first_chunk ∷ []) blank))))))

abbrev ab : List ℕ
ab = b'a' ∷ b'b' ∷ []

abbrev docs : List ℕ
docs = b'd' ∷ b'o' ∷ b'c' ∷ b's' ∷ []

abbrev text_name : List ℕ
text_name = b't' ∷ b'e' ∷ b'x' ∷ b't' ∷ []

abbrev boot : List ℕ
boot = b'b' ∷ b'o' ∷ b'o' ∷ b't' ∷ []

abbrev last_chunk : Memory.Memory
last_chunk = piece 0x1f8 (0 ∷ 0 ∷ 0 ∷ 0 ∷ 0 ∷ 0 ∷ 0 ∷ 0 ∷ []) (λ p. p % 256)

abbrev chunk_one : Memory.Memory
chunk_one = piece 0x1f8 (1 ∷ 0 ∷ 0 ∷ 0 ∷ 0 ∷ 0 ∷ 0 ∷ 0 ∷ []) (λ p. 7)

abbrev header_sector : Memory.Memory
header_sector = piece 0 signature (piece 8 (1 ∷ []) (piece 0x10 (1 ∷ []) blank))

abbrev partition_sector : Memory.Memory
partition_sector = piece 0 ab (piece 0x20 (3 ∷ []) blank)

abbrev docs_sector : Memory.Memory
docs_sector = descriptor docs 1 0 1 (1 ∷ []) 0 0

-- 600 bytes.
abbrev text_sector : Memory.Memory
text_sector = descriptor text_name 2 1 0 (0x58 ∷ 2 ∷ []) 2 2

abbrev boot_sector : Memory.Memory
boot_sector = descriptor boot 3 0 0 (0 ∷ []) 0 0

abbrev sectors : List Memory.Memory
sectors =
    blank ∷ header_sector ∷ partition_sector ∷ docs_sector ∷ text_sector ∷ boot_sector ∷ chunk_one
    ∷ last_chunk ∷ []

abbrev device : StorageDevice
device = record { sectors_count = 8; read_sector = λ i. some (get_or sectors i blank) }

abbrev text_path : List ℕ
text_path = path_of (ab ∷ docs ∷ text_name ∷ [])

abbrev image : FsHeader
image = fs_header header_sector

abbrev ab_header : PartitionHeader
ab_header = partition_header partition_sector

text_path-below :
    target_of device text_path ≡ below image 0 ab_header (some docs) (some text_name ∷ [])
unfolding target_of get_fs_header find_partition get_partition_header split split_loop
    skip_delimeters part_start get_sub_string equals name_at fs_header partition_header
    Text.find_first_substr Text.find_up Text.matches_at Text.get_length Memory.compare
    Memory.compare_loop
text_path-below = refl

abbrev text_descriptor : ObjectDescriptor
text_descriptor = object_descriptor text_sector

abbrev chunks : List Memory.Memory
chunks = chunk_one ∷ last_chunk ∷ []

image-header : get_fs_header device ≡ some image
unfolding get_fs_header fs_header Memory.compare Memory.compare_loop
image-header = refl

image-partitions : PartitionsFit (get_fs_header device)
unfolding fs_header
image-partitions = rw image-header (omega arith)

text_path-entries : EntriesFit (target_of device text_path)
unfolding partition_header
text_path-entries = rw text_path-below (omega arith)

-- A read beyond the first chunk.
read_file-Ends_example : Ends (read_file device text_path 0x8000 0x1000 10 50 blank)
read_file-Ends_example =
    read_file-Ends device text_path 0x8000 0x1000 10 50 blank (omega arith) (omega arith)
      image-partitions text_path-entries

abbrev ab_path : List ℕ
ab_path = path_of (ab ∷ [])

ab_path-partition : target_of device ab_path ≡ partition image 0 ab_header
unfolding target_of get_fs_header find_partition get_partition_header split split_loop
    skip_delimeters part_start get_sub_string equals name_at fs_header partition_header
    Text.find_first_substr Text.find_up Text.matches_at Text.get_length Memory.compare
    Memory.compare_loop
ab_path-partition = refl

abbrev no_iterator : DirectoryIterator
no_iterator = record {
  storage_device_index = 0;
  partition_index = 0;
  directory_id = 0;
  sector_offset = 0;
  objects_left = 0;
}

list_objects-create_directory_iterator_example :
    (it : DirectoryIterator) × (create_directory_iterator device ab_path no_iterator ≡ some it)
    × (list_objects 5 device it
        ≡ map object_information
            (children ab_header.entries_count (partition_lba64 image 0 + 1) device 0))
unfolding object_descriptor fs_header partition_header
list_objects-create_directory_iterator_example =
    list_objects-create_directory_iterator device ab_path no_iterator image 0 ab_header 5
      ab_path-partition (omega arith) (omega arith) (omega arith)

find_object-IsFirst_example :
    IsFirst 3 3 device
      (is_child 1 (some text_name))
      (find_object 3 3 device (is_child 1 (some text_name)))
find_object-IsFirst_example = find_object-IsFirst 3 3 device (is_child 1 (some text_name))

abbrev entries : Entries
entries = record { first_lba = 3; entries_count = 3 }

docs-child : child_of entries device 0 (some docs) ≡ some (3, object_descriptor docs_sector)
unfolding find_object object_descriptor equals name_at Memory.compare Memory.compare_loop
docs-child = refl

-- "docs" is there, "boot" is not in it.
descend-leaves_out_example :
    descend entries device false 0 (some docs ∷ some boot ∷ [])
    ≡ some (walk_present entries device (object_descriptor docs_sector).id (some boot ∷ []))
descend-leaves_out_example =
    descend-leaves_out entries device 0 3 (object_descriptor docs_sector) (some docs)
      (some boot ∷ []) docs-child

equals-even_or_odd_example :
    (length docs % 2 ≡ 0 → (equals (some docs) (some boot) ≡ true) ↔ (docs ≡ boot))
    × (length docs % 2 ≡ 1 → (equals (some docs) (some boot) ≡ true) ↔ (length docs ≡ length boot))
equals-even_or_odd_example = equals-even_or_odd docs boot (omega arith) (omega arith)

docs_text-AreNames : All IsName (docs ∷ text_name ∷ [])
docs_text-AreNames = ground arith

split-path_of_example :
    (parts : List Part) × (split (path_of (docs ∷ text_name ∷ [])) slash ≡ some parts)
    × (map (part_text (path_of (docs ∷ text_name ∷ []))) parts ≡ map some (docs ∷ text_name ∷ []))
split-path_of_example = split-path_of docs (text_name ∷ []) docs_text-AreNames (omega arith)

-- The key `a1` with the value `x y`.
abbrev entry : Element
entry = record { key = b'a' ∷ b'1' ∷ []; value = b'x' ∷ b' ' ∷ b'y' ∷ [] }

entry-IsEntry : IsEntry entry
unfolding is_blank is_line_end
entry-IsEntry = record {
  key_starts = refl;
  key_whole = (refl, (refl, tt));
  value_starts = refl;
  value_plain = refl;
  value_whole = (refl, (refl, (refl, tt)));
}

-- The lines `a1 = x y` and `a1` with a tabulation and `x y`.
abbrev lines : List Line
lines =
    record { element = entry; blank = b' '; gap = []; equals = true; behind = b' ' ∷ [] }
    ∷ record { element = entry; blank = b'\t'; gap = []; equals = false; behind = [] }
    ∷ []

lines-IsLine : All IsLine lines
unfolding is_blank is_line_end
lines-IsLine = (
  record { entry = entry-IsEntry; blank_first = refl; gap_blank = tt; behind_blank = (refl, tt) },
  (record { entry = entry-IsEntry; blank_first = refl; gap_blank = tt; behind_blank = tt }, tt),
)

parse-file_of_example : parse (file_of lines) ≡ some (entry ∷ entry ∷ [])
parse-file_of_example = parse-file_of lines lines-IsLine
