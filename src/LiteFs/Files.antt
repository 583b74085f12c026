-- ===== src/LiteFs/Files.antt =====
-- ReadFile of library/lite-fs/lite-fs.cxx.
use dark_core.Prelude.{
  ℕ, zero, suc, ◌+◌, ◌-◌, ◌*◌, ◌/◌, ◌%◌, ◌^◌, Bool, true, false, ◌&&◌, ltb, leb, ◌==◌,
  if◌then◌else◌, List, [], ◌∷◌, Option, none, some, size_mod, add_size, sub_size,
}
use dark_core.Common.Memory
use dark_core.LiteFs.{StorageDevice, ObjectDescriptor, next_offset, chunk_size, long_mod}
use dark_core.LiteFs.Lookup.{
  Target, target_of, entries_of, resolve, nothing, endless, root, partition, below,
}
pub mod Chunks
pub mod Reading

abbrev pub sector_size : ℕ
sector_size = 0x200

-- ReadSectors of one sector into the local `dataChunk` at an address.
unfoldable pub load_sector : ℕ → Memory.Memory → Memory.Memory → Memory.Memory
load_sector chunk s m =
    λ p. if leb chunk p && ltb p (chunk + sector_size) then s (p - chunk) else m p

-- The sum of a chunk's LBA and its offset to the next, in 64 bits.
abbrev pub next_lba : ℕ → Memory.Memory → ℕ
next_lba lba s = (lba + next_offset s) % long_mod

-- The loop over the chunks in front of the first that is read; `none` where a sector cannot be read.
unfoldable pub skip_chunks : ℕ → StorageDevice → ℕ → Option ℕ
skip_chunks zero device lba = some lba
skip_chunks (suc n) device lba = elim (device.read_sector (lba % size_mod)) [
  | none ↦ none
  | some s ↦ skip_chunks n device (next_lba lba s)
]

-- The loop over the chunks, with the address of the local chunk and the one that is written to next:
-- what the call returns and the memory. `none` where the fuel runs out.
unfoldable pub read_chunks :
    ℕ → StorageDevice → ℕ → ℕ → ℕ → ℕ → ℕ → Memory.Memory → Option (Bool × Memory.Memory)
read_chunks fuel device chunk target lba offset zero m = some (true, m)
read_chunks zero device chunk target lba offset (suc b) m = none
read_chunks (suc fuel) device chunk target lba offset (suc b) m =
    elim (device.read_sector (lba % size_mod)) [
      | none ↦ some (false, m)
      | some s ↦
          let len_value = sub_size chunk_size (offset % size_mod) in
          read_chunks fuel device chunk (target + len_value) (next_lba lba s) 0 (suc b - len_value)
            (Memory.copy target chunk len_value (load_sector chunk s m))
    ]

-- The count of bytes, 0 for all, cut at the end of the object in 64 bits.
unfoldable pub clipped : ObjectDescriptor → ℕ → ℕ → ℕ
clipped d offset bytes_count =
    let wanted = (if bytes_count == 0 then d.unaligned_size else bytes_count) in
    if ltb d.unaligned_size ((offset + wanted) % long_mod)
    then (d.unaligned_size + long_mod - offset) % long_mod
    else wanted

-- ReadFile once the object's descriptor and its sector are found. Every round but the first reads a
-- whole chunk and the first at least a byte, so that the count of bytes is fuel enough.
unfoldable pub read_object :
    StorageDevice
    → ℕ
    → ObjectDescriptor
    → ℕ
    → ℕ
    → ℕ
    → ℕ
    → Memory.Memory
    → Option (Bool × Memory.Memory)
read_object device lba d chunk buffer offset bytes_count m =
    let count = clipped d offset bytes_count in
    let start = offset % size_mod / chunk_size in
    if leb d.taken_sectors_count start
    then some (false, m)
    else elim (skip_chunks start device ((lba + d.first_data_chunk_offset) % long_mod)) [
      | none ↦ some (false, m)
      | some first ↦
          read_chunks count device chunk buffer first (offset - start * chunk_size) count m
    ]

-- ReadFile at what its path leads to; `none` where it does not end, as the loop over the entries does that
-- finds nothing and counts further than a `size_t`.
unfoldable pub read_target :
    StorageDevice → Target → ℕ → ℕ → ℕ → ℕ → Memory.Memory → Option (Bool × Memory.Memory)
read_target device nothing chunk buffer offset bytes_count m = some (false, m)
read_target device endless chunk buffer offset bytes_count m = none
read_target device (root h) chunk buffer offset bytes_count m = some (false, m)
read_target device (partition h i header) chunk buffer offset bytes_count m = some (false, m)
read_target device (below h i header p ps) chunk buffer offset bytes_count m =
    elim (resolve (entries_of h i header) device (λ d. true) p ps) [
      | none ↦ if ltb header.entries_count size_mod then some (false, m) else none
      | some (lba, d) ↦ read_object device lba d chunk buffer offset bytes_count m
    ]

unfoldable pub read_file :
    StorageDevice → List ℕ → ℕ → ℕ → ℕ → ℕ → Memory.Memory → Option (Bool × Memory.Memory)
read_file device path chunk buffer offset bytes_count m =
    read_target device (target_of device path) chunk buffer offset bytes_count m
