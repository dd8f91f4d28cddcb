-- ===== src/SharedMutex/Tests.antt =====
-- Runs and witnesses for the lock, with two and three threads.
use alto.Prelude.{ℕ, zero, suc, ◌≡◌, refl, List, [], ◌∷◌, some, get_elem?, arith}
use alto.SharedMutex.{
  Phase, idle, read_blocked, write_waiting, writing, Call, lock_shared, lock_exclusive, shared_lock,
  shared_unlock, exclusive_lock, exclusive_unlock, advance, wake_all, step, run, start, init,
}
use alto.SharedMutex.Totals.{reads, writes, passes}
use alto.SharedMutex.Exclusion.{exclusion, writer_proceeds}

-- A thread holds the write lock while another waits for it.
abbrev contended : List (ℕ × Call)
contended = (0, lock_exclusive) ∷ (1, lock_exclusive) ∷ []

-- A reader leaves while a writer waits.
abbrev handed : List (ℕ × Call)
handed = (0, lock_shared) ∷ (1, lock_exclusive) ∷ (0, lock_shared) ∷ []

phases :
    ((run contended (start 2)).threads ≡ writing ∷ write_waiting ∷ [])
    × ((run handed (start 2)).threads ≡ idle ∷ write_waiting ∷ [])
unfolding run step advance shared_lock shared_unlock exclusive_lock
phases = (refl, refl)

-- Thread 1 wants to read while thread 0 writes, and has not reached its wait when thread 0 unlocks.
-- Thread 2 reads and unlocks before it does, and takes the event back.
abbrev lost : List (ℕ × Call)
lost =
    (0, lock_exclusive)
    ∷ (1, lock_shared)
    ∷ (0, lock_shared)
    ∷ (0, lock_shared)
    ∷ (2, lock_shared)
    ∷ (2, lock_shared)
    ∷ (2, lock_shared)
    ∷ (1, lock_shared)
    ∷ []

-- The reader is then blocked, although no thread has the lock or wants it.
lost_wakeup : run lost (start 3) ≡ record {
  mutex = record init { num_readers_waiting = 1 };
  threads = idle ∷ read_blocked ∷ idle ∷ [];
}
unfolding run step advance shared_lock shared_unlock exclusive_lock exclusive_unlock wake_all
lost_wakeup = refl

exclusion_example : (writes write_waiting ≡ 0) × (reads write_waiting ≡ 0)
unfolding run step advance exclusive_lock
exclusion_example =
    exclusion 2 contended 0 1 write_waiting (omega arith) refl refl (λ h. omega arith)

handed_free :
    (j : ℕ) (q : Phase)
    → get_elem? (run handed (start 2)).threads j ≡ some q
    → (reads q ≡ 0) × (writes q ≡ 0) × (passes q ≡ 0)
unfolding run step advance shared_lock shared_unlock exclusive_lock
handed_free zero q e = ground (arith, e)
handed_free (suc zero) q e = ground (arith, e)
handed_free (suc (suc j)) q e = absurd (ground (arith, e))

writer_proceeds_example :
    get_elem? (step (1, lock_shared) (run handed (start 2))).threads 1 ≡ some writing
unfolding run step advance shared_lock shared_unlock exclusive_lock
writer_proceeds_example = writer_proceeds 2 handed 1 lock_shared (omega arith) refl handed_free
