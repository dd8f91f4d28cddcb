-- ===== src/SharedMutex/Exclusion.antt =====
-- What the counters of the lock say of the threads, in every order of their steps.
use alto.Prelude.{
  ℕ, ◌+◌, ◌*◌, ◌≤◌, ◌<◌, ◌≡◌, refl, ◌==◌, false, List, [], ◌∷◌, some, inl, inr, get_elem?, set,
  length, length-set, length-replicate, arith, Bool-cases, get_elem?-set, lt_of_get_elem?, ◌∙◌,
  Option-cases,
}
use alto.SharedMutex.{
  SharedMutex, Phase, idle, read_left, read_blocked, read_woken, reading_notifies, reading,
  write_waiting, writing, passing, unlocked_notifies, shared_lock, shared_lock_again, shared_unlock,
  exclusive_lock, exclusive_unlock, Call, lock_shared, lock_exclusive, advance, wake_all,
  sets_event, System, start, step, run,
}
use alto.SharedMutex.Totals.{
  reads, writes, passes, awaits_write, awaits_read, total, total-set, total_ge, total_two, total_le,
  total_zero, total-wake_all, total-replicate, length-wake_all,
}

-- How many threads read, write, pass the lock on, and wait to write or to read.
pub record Counts : Type 0 where
  pub readers : ℕ
  pub writers : ℕ
  pub passers : ℕ
  pub want_write : ℕ
  pub want_read : ℕ

-- The counters tell the threads: the lock is with the readers, with one writer, or with one writer to
-- be, through a thread that passes it on or the semaphore.
pub record IsBalanced (m : SharedMutex) (c : Counts) : Type 0 where
  pub active :
      m.active_writer_readers ≡ c.readers + 65536 * (c.writers + c.passers + m.ready_to_write)
  pub one_owner : c.writers + c.passers + m.ready_to_write ≤ 1
  pub apart : 0 < c.writers + c.passers + m.ready_to_write → c.readers ≡ 0
  pub waiting_writers : c.want_write ≡ m.num_writers_waiting + c.passers + m.ready_to_write
  pub waiting_readers : c.want_read ≡ m.num_readers_waiting
  pub busy : 0 < m.num_writers_waiting → 0 < m.active_writer_readers

-- The counts after a thread's phase has changed.
pub record IsMoved (c c' : Counts) (p q : Phase) : Type 0 where
  pub readers : c'.readers + reads p ≡ c.readers + reads q
  pub writers : c'.writers + writes p ≡ c.writers + writes q
  pub passers : c'.passers + passes p ≡ c.passers + passes q
  pub want_write : c'.want_write + awaits_write p ≡ c.want_write + awaits_write q
  pub want_read : c'.want_read + awaits_read p ≡ c.want_read + awaits_read q

-- The counts have the thread itself.
pub record Includes (c : Counts) (p : Phase) : Type 0 where
  pub readers : reads p ≤ c.readers
  pub writers : writes p ≤ c.writers
  pub passers : passes p ≤ c.passers
  pub want_write : awaits_write p ≤ c.want_write
  pub want_read : awaits_read p ≤ c.want_read

module _ (m : SharedMutex) (c c' : Counts) (small : c.readers < 65536) (b : IsBalanced m c) where
  advance-IsBalanced :
      (call : Call) (p : Phase)
      → Includes c p
      → IsMoved c c' p (advance call m p).1
      → IsBalanced (advance call m p).0 c'
  unfolding advance shared_lock shared_lock_again shared_unlock exclusive_lock exclusive_unlock
  advance-IsBalanced lock_shared idle t h = ground arith
  advance-IsBalanced lock_exclusive idle t h = ground arith
  advance-IsBalanced call read_left t h = ground arith
  advance-IsBalanced call read_blocked t h = ground arith
  advance-IsBalanced call read_woken t h = ground arith
  advance-IsBalanced call reading_notifies t h = ground arith
  advance-IsBalanced call reading t h = ground arith
  advance-IsBalanced call write_waiting t h = ground arith
  advance-IsBalanced call writing t h = ground arith
  advance-IsBalanced call passing t h = ground arith
  advance-IsBalanced call unlocked_notifies t h = ground arith

abbrev pub counts : List Phase → Counts
counts threads = record {
  readers = total reads threads;
  writers = total writes threads;
  passers = total passes threads;
  want_write = total awaits_write threads;
  want_read = total awaits_read threads;
}

-- Fewer threads than HIWORD leaves room for, and exact counters.
pub record IsGood (s : System) : Type 0 where
  pub few : length s.threads < 65536
  pub balanced : IsBalanced s.mutex (counts s.threads)

set-IsMoved :
    (threads : List Phase) (i : ℕ) (p q : Phase)
    → get_elem? threads i ≡ some p
    → IsMoved (counts threads) (counts (set threads i q)) p q
set-IsMoved threads i p q e = record {
  readers = total-set reads threads i p q e;
  writers = total-set writes threads i p q e;
  passers = total-set passes threads i p q e;
  want_write = total-set awaits_write threads i p q e;
  want_read = total-set awaits_read threads i p q e;
}

at-Includes :
    (threads : List Phase) (i : ℕ) (p : Phase)
    → get_elem? threads i ≡ some p
    → Includes (counts threads) p
at-Includes threads i p e = record {
  readers = total_ge reads threads i p e;
  writers = total_ge writes threads i p e;
  passers = total_ge passes threads i p e;
  want_write = total_ge awaits_write threads i p e;
  want_read = total_ge awaits_read threads i p e;
}

reads_le : (p : Phase) → reads p ≤ 1
reads_le p = ground arith

woken-IsBalanced :
    (m : SharedMutex) (threads : List Phase)
    → IsBalanced m (counts threads)
    → IsBalanced m (counts (wake_all threads))
woken-IsBalanced m threads b = ground (
  arith,
  total-wake_all reads refl threads,
  total-wake_all writes refl threads,
  total-wake_all passes refl threads,
  total-wake_all awaits_write refl threads,
  total-wake_all awaits_read refl threads,
)

start-IsGood : (n : ℕ) → n < 65536 → IsGood (start n)
start-IsGood n few = record {
  few = omega (arith, length-replicate n idle);
  balanced = ground (
    arith,
    total-replicate reads n refl,
    total-replicate writes n refl,
    total-replicate passes n refl,
    total-replicate awaits_write n refl,
    total-replicate awaits_read n refl,
  );
}

step-IsGood : (turn : ℕ × Call) (s : System) → IsGood s → IsGood (step turn s)
unfolding step
step-IsGood (i, call) s g = elim (Option-cases (get_elem? s.threads i)) [
  | inl gone ↦ rw (gone, step) g
  | inr (p, e) ↦
      let q = (advance call s.mutex p).1 in
      let small : (counts s.threads).readers < 65536 =
        omega (arith, total_le reads reads_le s.threads, g.few) in
      let moved =
        advance-IsBalanced s.mutex (counts s.threads) (counts (set s.threads i q)) small g.balanced
          call p (at-Includes s.threads i p e) (set-IsMoved s.threads i p q e) in
      elim (Bool-cases (sets_event p)) [
        | inl wakes ↦
            rw (e, wakes, step)
              (record {
                few =
                    omega
                      (arith, g.few, length-set s.threads i q, length-wake_all (set s.threads i q));
                balanced = woken-IsBalanced (advance call s.mutex p).0 (set s.threads i q) moved;
              })
        | inr quiet ↦
            rw (e, quiet, step)
              (record { few = omega (arith, g.few, length-set s.threads i q); balanced = moved })
      ]
]

run-IsGood : (schedule : List (ℕ × Call)) (s : System) → IsGood s → IsGood (run schedule s)
unfolding run
run-IsGood [] s g = g
run-IsGood (turn ∷ schedule) s g = run-IsGood schedule (step turn s) (step-IsGood turn s g)

-- After any schedule of fewer than 65536 threads, a thread that has the write lock is the only one:
-- no other thread has the write lock, and none has the read lock.
pub exclusion :
    (n : ℕ) (schedule : List (ℕ × Call)) (i j : ℕ) (q : Phase)
    → n < 65536
    → get_elem? (run schedule (start n)).threads i ≡ some writing
    → get_elem? (run schedule (start n)).threads j ≡ some q
    → (i ≡ j → ⊥)
    → (writes q ≡ 0) × (reads q ≡ 0)
exclusion n schedule i j q few at_i at_j ne =
    let s = run schedule (start n) in
    let g = run-IsGood schedule (start n) (start-IsGood n few) in
    let two = total_two writes s.threads i j writing q at_i at_j ne in
    let read = total_ge reads s.threads j q at_j in
    let one = g.balanced.one_owner in
    let none_read = g.balanced.apart in
    (omega (arith, two, one), omega (arith, read, two, none_read, one))

-- After any schedule of fewer than 65536 threads, where no thread has a lock or is passing it on, a
-- thread that waits for the write lock gets it by its next step.
pub writer_proceeds :
    (n : ℕ) (schedule : List (ℕ × Call)) (i : ℕ) (call : Call)
    → n < 65536
    → get_elem? (run schedule (start n)).threads i ≡ some write_waiting
    → ((j : ℕ) (q : Phase)
        → get_elem? (run schedule (start n)).threads j ≡ some q
        → (reads q ≡ 0) × (writes q ≡ 0) × (passes q ≡ 0))
    → get_elem? (step (i, call) (run schedule (start n))).threads i ≡ some writing
unfolding step advance
writer_proceeds n schedule i call few at_i free =
    let s = run schedule (start n) in
    let g = run-IsGood schedule (start n) (start-IsGood n few) in
    let waiting = total_ge awaits_write s.threads i write_waiting at_i in
    let signalled : s.mutex.ready_to_write == 0 ≡ false = ground (
      arith,
      waiting,
      g.balanced.waiting_writers,
      g.balanced.active,
      g.balanced.busy,
      total_zero reads s.threads (λ j q e. (free j q e).0),
      total_zero writes s.threads (λ j q e. (free j q e).1),
      total_zero passes s.threads (λ j q e. (free j q e).2),
    ) in
    rw (at_i, signalled, step)
      (get_elem?-set s.threads i i writing (lt_of_get_elem? s.threads i write_waiting at_i)
        ∙ ground arith)
