-- ===== src/Tests/Threads.antt =====
-- A table of three threads.
use dark_core.Prelude.{ℕ, suc, ◌+◌, ◌-◌, ◌≡◌, ◌<◌, refl, arith, ltb, if◌then◌else◌}
use dark_core.Scheduler.{
  Thread, ThreadRegisters, Scheduler, enter_thread, remove_current_thread, make_room,
  thread_address,
}
use dark_core.Scheduler.Rings.{
  IsRing, body, successor, enter_thread-IsRing, remove_current_thread-IsRing, make_room-breaks,
}

abbrev registers : ThreadRegisters
registers = record {
  g_segment = 0x23;
  f_segment = 0x23;
  extra_segment = 0x23;
  data_segment = 0x23;
  destination_index_register = 0;
  source_index_register = 0;
  base_pointer = 0x1000;
  stack_pointer = 0x1000;
  base_register = 0;
  data_register = 0;
  counter_register = 0;
  accumulator_register = 0;
  instruction_pointer = 0x2000;
  code_segment = 0x1b;
  flags_register = 0x202;
}

abbrev thread : ℕ → ℕ → Thread
thread directory next = record {
  state = 1;
  sleep_ticks_count = 0;
  ticks_before_switch_count = 100;
  worked_ticks_count = 0;
  paging_directory = directory;
  registers = registers;
  next = next;
  current_path_string_virtual_address = 0;
}

abbrev three_threads : ℕ → Scheduler
three_threads allocated = record {
  threads_address = 0x10_0000;
  threads = λ i. thread (0x20_0000 + i) (thread_address 0x10_0000 (successor 3 i));
  threads_count = 3;
  allocated_threads_count = allocated;
  current_thread = thread_address 0x10_0000 1;
  task_switching_enabled = 1;
}

three_threads-IsRing : (allocated : ℕ) → IsRing (three_threads allocated)
three_threads-IsRing allocated i h = refl

enter_thread-IsRing_example :
    IsRing (enter_thread (thread 5 0) (three_threads 10))
    × (body ((enter_thread (thread 5 0) (three_threads 10)).threads 3) ≡ body (thread 5 0))
    × ((i : ℕ)
        → i < 3
        → body ((enter_thread (thread 5 0) (three_threads 10)).threads i)
          ≡ body ((three_threads 10).threads i))
enter_thread-IsRing_example =
    enter_thread-IsRing (thread 5 0) (three_threads 10) (three_threads-IsRing 10)

remove_current_thread-IsRing_example :
    IsRing (remove_current_thread (three_threads 10))
    × ((remove_current_thread (three_threads 10)).threads_count ≡ 3 - 1)
    × ((remove_current_thread (three_threads 10)).current_thread ≡ 0x10_0000)
    × ((i : ℕ)
        → i < 3 - 1
        → body ((remove_current_thread (three_threads 10)).threads i)
          ≡ body ((three_threads 10).threads (if ltb i 1 then i else i + 1)))
remove_current_thread-IsRing_example =
    remove_current_thread-IsRing (three_threads 10) 1 (three_threads-IsRing 10) (omega arith)
      (omega arith) (omega arith) refl

abbrev same_state : ℕ → ℕ → ℕ × ℕ
same_state a p = (0x30_0000, p)

make_room-breaks_example :
    let after =
      enter_thread
        (thread 5 0)
        (make_room same_state (λ address. same_state) same_state (three_threads 3) 0).1 in
    (after.threads_address ≡ 0x30_0000)
    × ((i : ℕ)
        → suc i < 3
        → (after.threads i).next ≡ thread_address (three_threads 3).threads_address (suc i))
    × (¬ IsRing after)
make_room-breaks_example =
    make_room-breaks same_state (λ address. same_state) same_state (thread 5 0) (three_threads 3) 0
      0x30_0000 (three_threads-IsRing 3) (omega arith) (omega arith) (omega arith) (omega arith)
      refl (omega arith) (omega arith) (λ e. absurd (omega arith))
