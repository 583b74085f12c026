-- ===== src/Scheduler.antt =====
-- The table of threads of library/scheduler/scheduler.cxx. The switch between threads is assembly; the
-- switch of the processor to physical addresses is left out.
use dark_core.Prelude.{
  ℕ, zero, suc, ◌+◌, ◌-◌, ◌*◌, ◌/◌, ◌%◌, Bool, true, false, ltb, leb, ◌==◌, if◌then◌else◌, size_mod,
}
use dark_core.Vmm.{Frames, map_pages, page_index_from_address}
use dark_core.Vmm.Allocating.{
  create_directory, allocate_virtual_memory, pages_count_from_bytes_count,
}
pub mod Rings

abbrev pub count_allocate : ℕ
count_allocate = 10

abbrev pub max_path_length : ℕ
max_path_length = 0x1000

abbrev pub state_ready_to_run : ℕ
state_ready_to_run = 1

abbrev pub state_sleeping : ℕ
state_sleeping = 2

abbrev pub state_suspended : ℕ
state_suspended = 3

abbrev pub ticks_count_user_priority : ℕ
ticks_count_user_priority = 100

pub record ThreadRegisters : Type 0 where
  pub g_segment : ℕ
  pub f_segment : ℕ
  pub extra_segment : ℕ
  pub data_segment : ℕ
  pub destination_index_register : ℕ
  pub source_index_register : ℕ
  pub base_pointer : ℕ
  pub stack_pointer : ℕ
  pub base_register : ℕ
  pub data_register : ℕ
  pub counter_register : ℕ
  pub accumulator_register : ℕ
  pub instruction_pointer : ℕ
  pub code_segment : ℕ
  pub flags_register : ℕ

pub record Thread : Type 0 where
  pub state : ℕ
  pub sleep_ticks_count : ℕ
  pub ticks_before_switch_count : ℕ
  pub worked_ticks_count : ℕ
  pub paging_directory : ℕ
  pub registers : ThreadRegisters
  pub next : ℕ
  pub current_path_string_virtual_address : ℕ

-- `sizeof(Thread)`, 22 words.
abbrev pub thread_size : ℕ
thread_size = 88

-- `Threads_`, at its address and by index, with the counts and the address of the current thread.
pub record Scheduler : Type 0 where
  pub threads_address : ℕ
  pub threads : ℕ → Thread
  pub threads_count : ℕ
  pub allocated_threads_count : ℕ
  pub current_thread : ℕ
  pub task_switching_enabled : ℕ

-- `&Threads_[i]`.
abbrev pub thread_address : ℕ → ℕ → ℕ
thread_address threads_address i = (threads_address + thread_size * i) % size_mod

abbrev pub set_thread : ℕ → Thread → (ℕ → Thread) → ℕ → Thread
set_thread i t threads = λ k. if k == i then t else threads k

abbrev pub set_next : ℕ → ℕ → (ℕ → Thread) → ℕ → Thread
set_next i address threads =
    λ k. if k == i then record (threads k) { next = address } else threads k

-- What AddThread does to the table once there is room.
unfoldable pub enter_thread : Thread → Scheduler → Scheduler
enter_thread thread s =
    let count = s.threads_count in
    let first = thread_address s.threads_address 0 in
    let entered = set_next count first (set_thread count thread s.threads) in
    record s {
      threads =
          (if count == 0
            then entered
            else set_next (count - 1) (thread_address s.threads_address count) entered);
      threads_count = count + 1;
    }

-- The loop of RemoveCurrentThread over the threads behind the one that it removes.
unfoldable pub close_gap : ℕ → ℕ → ℕ → (ℕ → Thread) → ℕ → Thread
close_gap zero i threads_address threads = threads
close_gap (suc n) i threads_address threads =
    close_gap n (i + 1) threads_address
      (set_next i (thread_address threads_address (i + 1)) (set_thread i (threads (i + 1)) threads))

unfoldable pub remove_current_thread : Scheduler → Scheduler
remove_current_thread s =
    let index = (s.current_thread - s.threads_address) / thread_size in
    let count = s.threads_count - 1 in
    if ltb s.threads_address s.current_thread
    then record s {
      threads =
          set_next (count - 1) (thread_address s.threads_address 0)
            (close_gap (count - index) index s.threads_address s.threads);
      threads_count = count;
      current_thread = s.threads_address;
    }
    else s

unfoldable pub sleep : ℕ → Thread → Thread
sleep ticks_count t = record t { state = state_sleeping; sleep_ticks_count = ticks_count }

unfoldable pub is_task_switching_enabled : Scheduler → Bool
is_task_switching_enabled s = s.task_switching_enabled == 1

unfoldable pub disable_task_switching : Scheduler → Scheduler
disable_task_switching s = record s { task_switching_enabled = 0 }

unfoldable pub enable_task_switching : Scheduler → Scheduler
enable_task_switching s = record s { task_switching_enabled = 1 }

-- What the physical memory manager does to a state: AllocatePhysicalMemory at a count of bytes,
-- ReallocatePhysicalMemory at an address and a count, which copies what is at the address, and
-- FreePhysicalMemory at an address.
module _ {ℓ} {P : Type ℓ} (allocate_physical_memory : ℕ → P → ℕ × P)
    (reallocate_physical_memory : ℕ → ℕ → P → ℕ × P) (free_physical_memory : ℕ → P → ℕ × P) where
  -- The table with room for a thread, where there is memory for it.
  unfoldable pub make_room : Scheduler → P → Bool × Scheduler × P
  make_room s p =
      let (address, p') =
        (if s.threads_address == 0
          then allocate_physical_memory (thread_size * count_allocate) p
          else reallocate_physical_memory s.threads_address
              (thread_size * (s.allocated_threads_count + count_allocate)) p) in
      if leb s.allocated_threads_count s.threads_count
      then (if address == 0 then (false, s, p') else (
        true,
        record s {
          threads_address = address;
          allocated_threads_count = s.allocated_threads_count + count_allocate;
        },
        p',
      ))
      else (true, s, p)

  -- The table is mapped into the directories of its first threads.
  unfoldable pub map_threads : ℕ → ℕ → Scheduler → P → Frames → P × Frames
  map_threads zero i s p m = (p, m)
  map_threads (suc n) i s p m =
      let mapped =
        map_pages allocate_physical_memory (page_index_from_address (s.threads i).paging_directory)
          (s.threads_address / 0x1000) s.threads_address
          (pages_count_from_bytes_count (s.allocated_threads_count * thread_size)) 3 p m in
      map_threads n (i + 1) s mapped.1 mapped.2

  unfoldable pub add_thread : Thread → Scheduler → P → Frames → Scheduler × P × Frames
  add_thread thread s p m =
      let (room, s', p') = make_room s p in
      let entered = enter_thread thread s' in
      let mapped = map_threads entered.threads_count 0 entered p' m in
      if room then (entered, mapped.0, mapped.1) else (s', p', m)

  unfoldable pub create_thread : Bool → ℕ → ℕ → ℕ → ℕ → ℕ → P → Frames → Thread × P × Frames
  create_thread suspended entry_point stack_size data_seg code_seg flags_register p m =
      let (directory, p', m') =
        create_directory allocate_physical_memory free_physical_memory p m in
      let (stack, p'', m'') =
        allocate_virtual_memory allocate_physical_memory free_physical_memory
          (page_index_from_address directory) stack_size 7 p' m' in
      let (path, p''', m''') =
        allocate_virtual_memory allocate_physical_memory free_physical_memory
          (page_index_from_address directory) max_path_length 3 p'' m'' in
      let top = (stack + stack_size + size_mod - 4) % size_mod in
      (
        record {
          state = (if suspended then state_suspended else state_ready_to_run);
          sleep_ticks_count = 0;
          ticks_before_switch_count = ticks_count_user_priority;
          worked_ticks_count = 0;
          paging_directory = directory;
          registers = record {
            g_segment = data_seg;
            f_segment = data_seg;
            extra_segment = data_seg;
            data_segment = data_seg;
            destination_index_register = 0;
            source_index_register = 0;
            base_pointer = top;
            stack_pointer = top;
            base_register = 0;
            data_register = 0;
            counter_register = 0;
            accumulator_register = 0;
            instruction_pointer = entry_point;
            code_segment = code_seg;
            flags_register = flags_register;
          };
          next = 0;
          current_path_string_virtual_address = path;
        },
        p''',
        m''',
      )
