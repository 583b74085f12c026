-- ===== src/Vmm/Reallocating.antt =====
-- ReallocateVirtualMemory, ReallocateVirtualMemoryToPage and the operators new and delete of
-- library/vmm/vmm.cxx.
use dark_core.Prelude.{ℕ, Bool, true, false, ◌==◌, if◌then◌else◌, wrong_index}
use dark_core.Common.Memory.{Memory, copy}
use dark_core.Vmm.{Frames, address_from_page_index, get_physical_address}
use dark_core.Vmm.Freeing.{free_virtual_memory}
use dark_core.Vmm.Allocating.{allocate_virtual_memory, allocate_virtual_memory_to_page}

module _ {ℓ} {P : Type ℓ} (allocate_physical_memory free_physical_memory : ℕ → P → ℕ × P) where
  -- The frames and the bytes of the memory. A failed allocation is WRONG_INDEX and passes the test for
  -- 0; the copy goes from address to address with paging switched off.
  unfoldable pub reallocate_virtual_memory :
      ℕ → ℕ → ℕ → ℕ → P → Frames → Memory → ℕ × P × Frames × Memory
  reallocate_virtual_memory directory memory bytes_count flags p m data_bytes =
      let (new_memory, p', m') =
        allocate_virtual_memory allocate_physical_memory free_physical_memory directory bytes_count
          flags p m in
      let copied = copy new_memory memory bytes_count data_bytes in
      let (freed, p'', m'') = free_virtual_memory free_physical_memory directory memory p' m' in
      let undone = free_virtual_memory free_physical_memory directory new_memory p'' m'' in
      if new_memory == 0
      then (wrong_index, p', m', data_bytes)
      else if freed
      then (new_memory, p'', m'', copied)
      else (wrong_index, undone.1, undone.2, copied)

  unfoldable pub reallocate_virtual_memory_to_page :
      ℕ → ℕ → ℕ → ℕ → ℕ → P → Frames → Memory → Bool × P × Frames × Memory
  reallocate_virtual_memory_to_page directory memory page_index bytes_count flags p m data_bytes =
      let new_memory = address_from_page_index page_index in
      let (allocated, p', m') =
        allocate_virtual_memory_to_page allocate_physical_memory directory page_index bytes_count
          flags p m in
      let copied =
        copy (get_physical_address directory new_memory m')
          (get_physical_address directory memory m') bytes_count data_bytes in
      let (freed, p'', m'') = free_virtual_memory free_physical_memory directory memory p' m' in
      let undone = free_virtual_memory free_physical_memory directory new_memory p'' m'' in
      if allocated
      then (if freed then (true, p'', m'', copied) else (false, undone.1, undone.2, copied))
      else (false, p', m', data_bytes)

  -- The operators, by whether paging is on.
  unfoldable pub operator_new : Bool → ℕ → ℕ → P → Frames → ℕ × P × Frames
  operator_new virtual_memory_enabled directory bytes_count p m =
      let (memory, p') = allocate_physical_memory bytes_count p in
      if virtual_memory_enabled
      then allocate_virtual_memory allocate_physical_memory free_physical_memory directory
          bytes_count 3 p m
      else (memory, p', m)

  unfoldable pub operator_delete : Bool → ℕ → ℕ → P → Frames → P × Frames
  operator_delete virtual_memory_enabled directory memory p m =
      let freed = free_virtual_memory free_physical_memory directory memory p m in
      if virtual_memory_enabled then (freed.1, freed.2) else ((free_physical_memory memory p).1, m)
