-- ===== src/SharedMutex.antt =====
-- common/cpp/src/lib/mutex.cpp, the implementation for Windows threads: a lock for many readers or one
-- writer, made of counters under a critical section, an event and a semaphore. A critical section is
-- one step of its thread; between steps, any other thread may take its own.
pub mod Totals
pub mod Exclusion
mod Tests
use alto.Prelude.{
  ℕ, zero, suc, ◌+◌, ◌-◌, ◌/◌, ◌==◌, Bool, true, false, not, ◌&&◌, ◌||◌, List, [], ◌∷◌, Option,
  none, some, ltb, get_elem?, set, map, replicate, if◌then◌else◌,
}

pub record SharedMutex : Type 0 where
  pub num_writers_waiting : ℕ
  pub num_readers_waiting : ℕ
  pub active_writer_readers : ℕ
  -- The event, which stays set until it is reset.
  pub ready_to_read : Bool
  -- The count of the semaphore.
  pub ready_to_write : ℕ

abbrev pub init : SharedMutex
init = record {
  num_writers_waiting = 0;
  num_readers_waiting = 0;
  active_writer_readers = 0;
  ready_to_read = false;
  ready_to_write = 0;
}

-- Where a thread stands in the calls: at rest; in shared_lock behind LeaveCriticalSection, blocked in
-- WaitForSingleObject, or released from it; with the read lock, before its SetEvent or after it; in
-- exclusive_lock at WaitForSingleObject; with the write lock; and in exclusive_unlock before its
-- ReleaseSemaphore or SetEvent.
pub data Phase : Type 0 where
  idle : Phase
  read_left : Phase
  read_blocked : Phase
  read_woken : Phase
  reading_notifies : Phase
  reading : Phase
  write_waiting : Phase
  writing : Phase
  passing : Phase
  unlocked_notifies : Phase

-- HIWORD
abbrev pub hiword : ℕ → ℕ
hiword n = n / 65536

-- MAKELONG(0, 1)
abbrev pub one_writer : ℕ
one_writer = 65536

-- ReleaseSemaphore of one, which fails at the maximum of one.
abbrev pub release : ℕ → ℕ
release zero = 1
release (suc n) = suc n

-- shared_lock up to where it leaves the critical section.
unfoldable pub shared_lock : SharedMutex → SharedMutex × Phase
shared_lock m =
    if ltb 0 m.num_writers_waiting || ltb 0 (hiword m.active_writer_readers)
    then (
      record m { num_readers_waiting = m.num_readers_waiting + 1; ready_to_read = false },
      read_left,
    )
    else (
      record m { active_writer_readers = m.active_writer_readers + 1 },
      (if m.active_writer_readers + 1 == 1 && not (m.num_readers_waiting == 0)
          then reading_notifies
          else reading),
    )

-- The turn of shared_lock's loop after a wait.
unfoldable pub shared_lock_again : SharedMutex → SharedMutex × Phase
shared_lock_again m =
    if m.num_writers_waiting == 0 && hiword m.active_writer_readers == 0
    then (
      record m {
        num_readers_waiting = m.num_readers_waiting - 1;
        active_writer_readers = m.active_writer_readers + 1;
      },
      reading,
    )
    else (record m { ready_to_read = false }, read_left)

unfoldable pub shared_unlock : SharedMutex → SharedMutex × Phase
shared_unlock m =
    let active = m.active_writer_readers - 1 in
    let event = if active == 0 then false else m.ready_to_read in
    if not (m.num_writers_waiting == 0) && active == 0
    then (
      record m {
        num_writers_waiting = m.num_writers_waiting - 1;
        active_writer_readers = one_writer;
        ready_to_read = event;
        ready_to_write = release m.ready_to_write;
      },
      idle,
    )
    else (record m { active_writer_readers = active; ready_to_read = event }, idle)

unfoldable pub exclusive_lock : SharedMutex → SharedMutex × Phase
exclusive_lock m =
    if not (m.active_writer_readers == 0)
    then (record m { num_writers_waiting = m.num_writers_waiting + 1 }, write_waiting)
    else (record m { active_writer_readers = one_writer }, writing)

unfoldable pub exclusive_unlock : SharedMutex → SharedMutex × Phase
exclusive_unlock m =
    if not (m.num_writers_waiting == 0)
    then (record m { num_writers_waiting = m.num_writers_waiting - 1 }, passing)
    else (
      record m { active_writer_readers = 0 },
      (if not (m.num_readers_waiting == 0) then unlocked_notifies else idle),
    )

-- The calls that a thread at rest can make.
pub data Call : Type 0 where
  lock_shared : Call
  lock_exclusive : Call

-- A thread's next step, but for what SetEvent does to the other threads. A thread that waits in vain
-- stays where it is.
unfoldable pub advance : Call → SharedMutex → Phase → SharedMutex × Phase
advance lock_shared m idle = shared_lock m
advance lock_exclusive m idle = exclusive_lock m
advance _ m read_left = if m.ready_to_read then (m, read_woken) else (m, read_blocked)
advance _ m read_blocked = (m, read_blocked)
advance _ m read_woken = shared_lock_again m
advance _ m reading_notifies = (record m { ready_to_read = true }, reading)
advance _ m reading = shared_unlock m
advance _ m write_waiting =
    if m.ready_to_write == 0
    then (m, write_waiting)
    else (record m { ready_to_write = m.ready_to_write - 1 }, writing)
advance _ m writing = exclusive_unlock m
advance _ m passing = (record m { ready_to_write = release m.ready_to_write }, idle)
advance _ m unlocked_notifies = (record m { ready_to_read = true }, idle)

-- SetEvent releases every thread that is blocked on the event.
abbrev pub wake : Phase → Phase
wake read_blocked = read_woken
wake p = p

abbrev pub sets_event : Phase → Bool
sets_event reading_notifies = true
sets_event unlocked_notifies = true
sets_event _ = false

unfoldable pub wake_all : List Phase → List Phase
wake_all [] = []
wake_all (p ∷ threads) = wake p ∷ wake_all threads

pub record System : Type 0 where
  pub mutex : SharedMutex
  pub threads : List Phase

abbrev pub start : ℕ → System
start n = record { mutex = init; threads = replicate n idle }

-- A step of thread `i`; a thread that does not exist does nothing.
unfoldable pub step : ℕ × Call → System → System
step (i, call) s = elim (get_elem? s.threads i) [
  | none ↦ s
  | some p ↦
      let (m, q) = advance call s.mutex p in
      record {
        mutex = m;
        threads = (if sets_event p then wake_all (set s.threads i q) else set s.threads i q);
      }
]

-- The steps of a schedule, in order.
unfoldable pub run : List (ℕ × Call) → System → System
run [] s = s
run (turn ∷ schedule) s = run schedule (step turn s)
