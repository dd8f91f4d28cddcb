-- ===== src/UpdateManager/Calls.antt =====
-- The calls of the heap by find, addTask and removeTask.
use alto.Prelude.{
  ℕ, ◌+◌, ◌<◌, ◌≡◌, ◌⊎◌, refl, true, ◌∷◌, none, some, inl, inr, get_elem?, length, Perm,
}
use alto.Prelude.Run.{ok}
use alto.RandomAccessSet
use alto.RandomAccessSet.{RandomAccessSet}
use alto.RandomAccessSet.Index.{find_at}
use alto.MaxHeapWithDelete
use alto.MaxHeapWithDelete.Insert.{push_lem}
use alto.MaxHeapWithDelete.Remove.{erase_inner}
use alto.UpdateManager.{
  P4PUpdateManager, Task, task_less, sooner, done, add_task, remove_task, note_task, drop_task,
}
use alto.UpdateManager.Keys.{same_key, same, task_less-IsStrictWeak, sooner-IsStrictWeak}
use alto.UpdateManager.Queue.{IsQueue}

pub heap_find :
    (q : RandomAccessSet Task) (task : Task)
    → RandomAccessSet.find task_less q task ≡ none
    → MaxHeapWithDelete.find task_less q task ≡ ok none
unfolding MaxHeapWithDelete.find
heap_find q task h = rw (h, MaxHeapWithDelete.find) refl

pub heap_find_at :
    (q : RandomAccessSet Task) (task existing : Task) (i : ℕ)
    → RandomAccessSet.find task_less q task ≡ some i
    → get_elem? q.vec i ≡ some existing
    → MaxHeapWithDelete.find task_less q task ≡ ok (some existing)
unfolding MaxHeapWithDelete.find
heap_find_at q task existing i h e = rw (h, e, MaxHeapWithDelete.find) refl

-- A task with a new key is added.
pub add_task_fresh :
    (s : P4PUpdateManager) (task : Task)
    → IsQueue s.tasks
    → RandomAccessSet.find task_less s.tasks task ≡ none
    → (r : RandomAccessSet Task) × (add_task s task
        ≡ done (record s { tasks = r; selmgr_tasks = note_task task s.selmgr_tasks }))
      × IsQueue r
      × Perm r.vec (task ∷ s.tasks.vec)
unfolding add_task
add_task_fresh s task v fresh =
    elim (push_lem task_less sooner task_less-IsStrictWeak sooner-IsStrictWeak s.tasks task v) [
      | inl (i, found, _) ↦ absurd (cc (found, fresh))
      | inr (r, _, pushes, w, p) ↦ (r, rw (pushes, add_task) refl, w, p)
    ]

-- A task in the queue, which is the first or not the last, is removed.
pub remove_task_inner :
    (s : P4PUpdateManager) (task : Task) (i : ℕ)
    → IsQueue s.tasks
    → get_elem? s.tasks.vec i ≡ some task
    → (i ≡ 0) ⊎ (i + 1 < length s.tasks.vec)
    → (y : Task) × (r : RandomAccessSet Task) × (remove_task s task
        ≡ done (record s { tasks = r; selmgr_tasks = drop_task task s.selmgr_tasks }))
      × IsQueue r
      × Perm (y ∷ r.vec) s.tasks.vec
      × (same_key y task ≡ true)
unfolding remove_task
remove_task_inner s task i v at_i inner =
    let w = task_less-IsStrictWeak in
    let found = find_at task_less w s.tasks task task i v.indexed at_i (same.same_refl task) in
    let (y, r, erases, w', p, k) =
      erase_inner task_less sooner w sooner-IsStrictWeak s.tasks task i v found inner in
    (y, r, rw (erases, remove_task) refl, w', p, k)
