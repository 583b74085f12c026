-- ===== src/Scheduler/Rings.antt =====
-- The threads are in a ring through their `Next` pointers.
use dark_core.Prelude.{
  ℕ, zero, suc, ◌+◌, ◌-◌, ◌*◌, ◌/◌, ◌≡◌, ◌≢◌, ◌≤◌, ◌<◌, refl, sym, ap, ◌∙◌, arith, true, false, ltb,
  leb, ◌==◌, ◌&&◌, if◌then◌else◌, Bool-cases, inl, inr, size_mod,
}
use dark_core.Scheduler.{
  Thread, Scheduler, thread_address, thread_size, set_thread, set_next, enter_thread, close_gap,
  remove_current_thread, make_room,
}

-- The index behind another in a ring of so many.
abbrev pub successor : ℕ → ℕ → ℕ
successor count i = if i + 1 == count then 0 else i + 1

-- Each thread points to the one behind it, and the last to the first.
abbrev pub IsRing : Scheduler → Type 0
IsRing s =
    (i : ℕ)
    → i < s.threads_count
    → (s.threads i).next ≡ thread_address s.threads_address (successor s.threads_count i)

-- A thread but for its place in the ring.
abbrev pub body : Thread → Thread
body t = record t { next = 0 }

next-set_next :
    (i address : ℕ) (threads : ℕ → Thread) (k : ℕ)
    → (set_next i address threads k).next ≡ (if k == i then address else (threads k).next)
next-set_next i address threads k = elim (Bool-cases (k == i)) [
  | inl h ↦ rw h refl
  | inr h ↦ rw h refl
]

body-set_next :
    (i address : ℕ) (threads : ℕ → Thread) (k : ℕ)
    → body (set_next i address threads k) ≡ body (threads k)
body-set_next i address threads k = elim (Bool-cases (k == i)) [
  | inl h ↦ rw h refl
  | inr h ↦ rw h refl
]

-- The threads after AddThread has put one at the end, in one form for an empty and another table.
entered : ℕ → ℕ → Thread → (ℕ → Thread) → ℕ → Thread
entered address count thread threads =
    if count == 0
    then set_next count (thread_address address 0) (set_thread count thread threads)
    else set_next (count - 1) (thread_address address count)
        (set_next count (thread_address address 0) (set_thread count thread threads))

next-entered :
    (address count : ℕ) (thread : Thread) (threads : ℕ → Thread) (i : ℕ)
    → i < count + 1
    → (entered address count thread threads i).next ≡ (
        if i == count
        then thread_address address 0
        else if i + 1 == count
        then thread_address address count
        else (threads i).next)
unfolding entered
next-entered address count thread threads i h =
    let inner = set_next count (thread_address address 0) (set_thread count thread threads) in
    elim (Bool-cases (count == 0)) [
      | inl z ↦ rw z (
          next-set_next count (thread_address address 0) (set_thread count thread threads) i
          ∙ ground arith)
      | inr z ↦ rw z (
          next-set_next (count - 1) (thread_address address count) inner i
          ∙ ground (
            arith,
            next-set_next count (thread_address address 0) (set_thread count thread threads) i,
          ))
    ]

body-entered :
    (address count : ℕ) (thread : Thread) (threads : ℕ → Thread) (i : ℕ)
    → body (entered address count thread threads i) ≡ body (set_thread count thread threads i)
unfolding entered
body-entered address count thread threads i =
    let inner = set_next count (thread_address address 0) (set_thread count thread threads) in
    let one = body-set_next count (thread_address address 0) (set_thread count thread threads) i in
    elim (Bool-cases (count == 0)) [
      | inl z ↦ rw z one
      | inr z ↦ rw z (body-set_next (count - 1) (thread_address address count) inner i ∙ one)
    ]

-- With room in the table, AddThread puts the thread behind the others, which stay as they are but for
-- the ring, and closes the ring.
pub enter_thread-IsRing :
    (thread : Thread) (s : Scheduler)
    → IsRing s
    → IsRing (enter_thread thread s)
      × (body ((enter_thread thread s).threads s.threads_count) ≡ body thread)
      × ((i : ℕ)
          → i < s.threads_count
          → body ((enter_thread thread s).threads i) ≡ body (s.threads i))
unfolding enter_thread entered
enter_thread-IsRing thread s ring =
    let count = s.threads_count in
    let last : (count == count) ≡ true = ground arith in
    (
      λ i h. next-entered s.threads_address count thread s.threads i h ∙ ground (arith, ring i),
      body-entered s.threads_address count thread s.threads count ∙ rw last refl,
      λ i h.
          let other : (i == count) ≡ false = ground arith in
          body-entered s.threads_address count thread s.threads i ∙ rw other refl,
    )

-- Both effects of the loop of RemoveCurrentThread at an index.
close_gap-moves :
    (n i address : ℕ) (threads : ℕ → Thread) (k : ℕ)
    → ((close_gap n i address threads k).next
        ≡ (if leb i k && ltb k (i + n) then thread_address address (k + 1) else (threads k).next))
      × (body (close_gap n i address threads k)
          ≡ body (if leb i k && ltb k (i + n) then threads (k + 1) else threads k))
unfolding close_gap
close_gap-moves zero i address threads k =
    let out : (leb i k && ltb k (i + 0)) ≡ false = ground arith in (rw out refl, rw out refl)
close_gap-moves (suc n) i address threads k =
    let moved = set_thread i (threads (i + 1)) threads in
    let once = set_next i (thread_address address (i + 1)) moved in
    let rest = close_gap-moves n (i + 1) address once k in
    let place = thread_address address (i + 1) in
    let next_once = next-set_next i place moved k in
    elim (Bool-cases (k == i)) [
      | inl h ↦
          let out : (leb (i + 1) k && ltb k (i + 1 + n)) ≡ false = ground arith in
          let inside : (leb i k && ltb k (i + suc n)) ≡ true = ground arith in
          let same : i ≡ k = ground arith in
          rw inside (
            rest.0 ∙ rw out (next_once ∙ rw h (ap (λ j. thread_address address (j + 1)) same)),
            rest.1
                ∙ rw out
                    (body-set_next i place moved k ∙ rw h (ap (λ j. body (threads (j + 1))) same)),
          )
      | inr h ↦ elim (Bool-cases (leb (i + 1) k && ltb k (i + 1 + n))) [
        | inl later ↦
            let inside : (leb i k && ltb k (i + suc n)) ≡ true = ground arith in
            let other : (k + 1 == i) ≡ false = ground arith in
            rw inside (
              rest.0 ∙ rw later refl,
              rest.1 ∙ rw later (body-set_next i place moved (k + 1) ∙ rw other refl),
            )
        | inr out ↦
            let outside : (leb i k && ltb k (i + suc n)) ≡ false = ground arith in
            rw outside (
              rest.0 ∙ rw out (next_once ∙ rw h refl),
              rest.1 ∙ rw out (body-set_next i place moved k ∙ rw h refl),
            )
      ]
    ]

-- Where the current thread is one behind the first, RemoveCurrentThread takes it out of the table, moves
-- those behind it up, and leaves a ring and the first thread as the current one; the table must end
-- below 4 GiB.
pub remove_current_thread-IsRing :
    (s : Scheduler) (c : ℕ)
    → IsRing s
    → 0 < c
    → c < s.threads_count
    → s.threads_address + thread_size * s.threads_count < size_mod
    → s.current_thread ≡ thread_address s.threads_address c
    → IsRing (remove_current_thread s)
      × ((remove_current_thread s).threads_count ≡ s.threads_count - 1)
      × ((remove_current_thread s).current_thread ≡ s.threads_address)
      × ((i : ℕ)
          → i < s.threads_count - 1
          → body ((remove_current_thread s).threads i)
            ≡ body (s.threads (if ltb i c then i else i + 1)))
unfolding remove_current_thread
remove_current_thread-IsRing s c ring positive inside low current =
    let base = s.threads_address in
    let count = s.threads_count in
    let here : ltb base s.current_thread ≡ true = ground (arith, current) in
    let index : (s.current_thread - base) / thread_size ≡ c = omega (arith, current) in
    let closed = close_gap (count - 1 - c) c base s.threads in
    rw (here, index)
      (
        λ i h.
            next-set_next (count - 1 - 1) (thread_address base 0) closed i
            ∙ ground (arith, (close_gap-moves (count - 1 - c) c base s.threads i).0, ring i),
        refl,
        refl,
        λ i h.
            body-set_next (count - 1 - 1) (thread_address base 0) closed i
            ∙ (close_gap-moves (count - 1 - c) c base s.threads i).1
            ∙ ap (λ t. body t) (moved c count i h),
      )
  where
    moved :
        (c count i : ℕ)
        → i < count - 1
        → (if leb c i && ltb i (c + (count - 1 - c)) then s.threads (i + 1) else s.threads i)
          ≡ s.threads (if ltb i c then i else i + 1)
    moved c count i h = elim (Bool-cases (ltb i c)) [
      | inl before ↦
          let out : (leb c i && ltb i (c + (count - 1 - c))) ≡ false = ground arith in
          rw (before, out) refl
      | inr behind ↦
          let in_gap : (leb c i && ltb i (c + (count - 1 - c))) ≡ true = ground arith in
          rw (behind, in_gap) refl
    ]

-- The threads but the last keep their pointers.
next-kept :
    (s : Scheduler) (thread : Thread) (i : ℕ)
    → suc i < s.threads_count
    → ((enter_thread thread s).threads i).next ≡ (s.threads i).next
unfolding enter_thread entered
next-kept s thread i h =
    next-entered s.threads_address s.threads_count thread s.threads i (omega arith) ∙ ground arith

no_ring-after :
    (s : Scheduler) (thread : Thread) (old : ℕ)
    → 2 ≤ s.threads_count
    → (s.threads 0).next ≡ thread_address old 1
    → old < size_mod
    → s.threads_address < size_mod
    → old ≢ s.threads_address
    → IsRing (enter_thread thread s)
    → ⊥
unfolding enter_thread entered
no_ring-after s thread old two stale low below moved ring = ground (
  arith,
  ring 0 (omega arith),
  next-entered s.threads_address s.threads_count thread s.threads 0 (omega arith),
  stale,
)

-- Where the full table of a ring of two threads or more moves to another address, both of them not null and
-- below 4 GiB, AddThread leaves the table at the new address and the `Next` pointers of all threads
-- but the last at places of a table at the old one, and the threads are a ring no more.
pub make_room-breaks {ℓ} :
    {P : Type ℓ} (allocate : ℕ → P → ℕ × P) (reallocate : ℕ → ℕ → P → ℕ × P) (free : ℕ → P → ℕ × P)
    (thread : Thread) (s : Scheduler) (p : P) (address : ℕ)
    → IsRing s
    → 2 ≤ s.threads_count
    → s.allocated_threads_count ≤ s.threads_count
    → 0 < s.threads_address
    → s.threads_address < size_mod
    → (reallocate s.threads_address (thread_size * (s.allocated_threads_count + 10)) p).0 ≡ address
    → 0 < address
    → address < size_mod
    → address ≢ s.threads_address
    → let after = enter_thread thread (make_room allocate reallocate free s p).1 in
      (after.threads_address ≡ address)
      × ((i : ℕ)
          → suc i < s.threads_count
          → (after.threads i).next ≡ thread_address s.threads_address (suc i))
      × (¬ IsRing after)
unfolding make_room enter_thread
make_room-breaks allocate reallocate free thread s p address ring two full there low granted
      some_memory below moved =
    let used : (s.threads_address == 0) ≡ false = ground arith in
    let grows : leb s.allocated_threads_count s.threads_count ≡ true = ground arith in
    let given : (address == 0) ≡ false = ground arith in
    rw (used, grows, granted, given)
      (
        refl,
        λ i h.
            next-kept
              (record s {
                threads_address = address;
                allocated_threads_count = s.allocated_threads_count + 10;
              })
              thread i h
            ∙ ring i (omega arith)
            ∙ ground arith,
        no_ring-after
            (record s {
              threads_address = address;
              allocated_threads_count = s.allocated_threads_count + 10;
            })
            thread (s.threads_address) two (ring 0 (omega arith) ∙ ground arith) low below
            (λ e. moved (sym e)),
      )
