-- ===== src/UpdateManager/Enqueue.antt =====
-- enqueueTask: of two tasks with one key, the earlier time is kept.
use alto.Prelude.{
  ℕ, ◌+◌, ◌-◌, ◌<◌, ◌≡◌, ◌⊎◌, refl, ◌==◌, true, false, Option, none, some, inl, inr, ltb, get_elem?,
  length, if◌then◌else◌, arith, Bool-cases, Option-cases, lt_of_get_elem?,
}
use alto.Prelude.Int.{ℤ, ltb_ℤ}
use mathlib.Core.Path.{subst}
use alto.RandomAccessSet
use alto.RandomAccessSet.{RandomAccessSet}
use alto.RandomAccessSet.Contents.{find_iff}
use alto.RandomAccessSet.Index.{find_at}
use alto.MaxHeapWithDelete.Remove.{erase_last_faults}
use alto.UpdateManager.{
  P4PUpdateManager, Task, TaskType, task_less, sooner, done, undefined, remove_task, enqueue_task,
  new_task, note_task, drop_task,
}
use alto.UpdateManager.Keys.{same_key, same, task_less-IsStrictWeak, sooner-IsStrictWeak}
use alto.UpdateManager.Queue.{
  IsQueue, time_of, time_at, times_push, times_erase, gone_fresh, time_none,
}
use alto.UpdateManager.Calls.{heap_find, heap_find_at, add_task_fresh, remove_task_inner}

abbrev pub earlier : ℤ → Option ℤ → ℤ
earlier time none = time
earlier time (some known) = if ltb_ℤ time known then time else known

-- What enqueueTask is to do: the key has the earlier of the two times, every other key keeps its own.
pub record IsEnqueued (s s' : P4PUpdateManager) (task : Task) : Type 0 where
  pub queue : IsQueue s'.tasks
  pub times :
      (probe : Task)
      → time_of s'.tasks probe ≡ (
          if same_key task probe
          then some (earlier task.exectime (time_of s.tasks task))
          else time_of s.tasks probe)
  pub isps_kept : s'.isp_mgr ≡ s.isp_mgr
  pub mgrs_kept : s'.selection_mgrs ≡ s.selection_mgrs

-- A task with the key stands in the last place of the heap, which is not the first, and has a later
-- time.
pub record IsLastAndLater (s : P4PUpdateManager) (task existing : Task) : Type 0 where
  pub not_first : 1 < length s.tasks.vec
  pub last : get_elem? s.tasks.vec (length s.tasks.vec - 1) ≡ some existing
  pub key : same_key existing task ≡ true
  pub later : ltb_ℤ task.exectime existing.exectime ≡ true

same_key_left : (a b p : Task) → same_key a b ≡ true → same_key a p ≡ same_key b p
same_key_left a b p h =
    ground (arith, same.same_trans a b p h, same.same_trans b a p (same.same_sym a b h))

module _ (s : P4PUpdateManager) (time : ℤ) (type_of : TaskType) (isp sel_mgr : ℕ)
    (v : IsQueue s.tasks) where
  abbrev task : Task
  task = new_task s time type_of isp sel_mgr

  enqueue_fresh :
      RandomAccessSet.find task_less s.tasks task ≡ none
      → (s' : P4PUpdateManager) × (enqueue_task s time type_of isp sel_mgr ≡ done s')
        × IsEnqueued s s' task
  unfolding enqueue_task
  enqueue_fresh fresh =
      let (r, adds, w, p) = add_task_fresh (record s { next = s.next + 1 }) task v fresh in
      (
        record s { next = s.next + 1; tasks = r; selmgr_tasks = note_task task s.selmgr_tasks },
        rw (heap_find s.tasks task fresh, adds, enqueue_task) refl,
        record {
          queue = w;
          times =
              λ probe. rw (time_none s.tasks v task fresh) (times_push s.tasks v task r w p probe);
          isps_kept = refl;
          mgrs_kept = refl;
        },
      )

  module _ (i : ℕ) (existing : Task) (found : RandomAccessSet.find task_less s.tasks task ≡ some i)
      (at_i : get_elem? s.tasks.vec i ≡ some existing) (key : same_key existing task ≡ true) where
    -- An earlier task with the key stays, and the queue with it.
    enqueue_known :
        ltb_ℤ time existing.exectime ≡ false
        → (s' : P4PUpdateManager) × (enqueue_task s time type_of isp sel_mgr ≡ done s')
          × IsEnqueued s s' task
    unfolding enqueue_task
    enqueue_known kept = (
      record s { next = s.next + 1 },
      rw (heap_find_at s.tasks task existing i found at_i, kept, enqueue_task) refl,
      record {
        queue = v;
        times = λ probe. ground (
          arith,
          time_at s.tasks v task i existing at_i key,
          time_at s.tasks v probe i existing at_i,
          same.same_trans existing task probe key,
          kept,
        );
        isps_kept = refl;
        mgrs_kept = refl;
      },
    )

    enqueue_replaces :
        ltb_ℤ time existing.exectime ≡ true
        → (i ≡ 0) ⊎ (i + 1 < length s.tasks.vec)
        → (s' : P4PUpdateManager) × (enqueue_task s time type_of isp sel_mgr ≡ done s')
          × IsEnqueued s s' task
    unfolding enqueue_task
    enqueue_replaces sooner_one inner =
        let s1 = record s { next = s.next + 1 } in
        let (y, q, removes, w, p, k) = remove_task_inner s1 existing i v at_i inner in
        let (r, adds, w', p') =
          add_task_fresh
            (record s1 { tasks = q; selmgr_tasks = drop_task existing s1.selmgr_tasks }) task w
            (gone_fresh s.tasks v y task q p (same.same_trans y existing task k key) w) in
        (
          record s {
            next = s.next + 1;
            tasks = r;
            selmgr_tasks = note_task task (drop_task existing s.selmgr_tasks);
          },
          rw
              (
                heap_find_at s.tasks task existing i found at_i,
                sooner_one,
                removes,
                adds,
                enqueue_task,
              )
              refl,
          record {
            queue = w';
            times = λ probe. ground (
              arith,
              times_push q w task r w' p' probe,
              times_erase s.tasks v y q p probe,
              same_key_left y task probe (same.same_trans y existing task k key),
              time_at s.tasks v task i existing at_i key,
              sooner_one,
            );
            isps_kept = refl;
            mgrs_kept = refl;
          },
        )

    -- Otherwise the heap's erase reads past its end.
    enqueue_breaks :
        ltb_ℤ time existing.exectime ≡ true
        → 0 < i
        → i + 1 ≡ length s.tasks.vec
        → enqueue_task s time type_of isp sel_mgr ≡ undefined
    unfolding enqueue_task remove_task
    enqueue_breaks sooner_one pos at_end =
        let w = task_less-IsStrictWeak in
        let placed =
          find_at task_less w s.tasks existing existing i v.indexed at_i
            (same.same_refl existing) in
        rw
          (
            heap_find_at s.tasks task existing i found at_i,
            sooner_one,
            enqueue_task,
            erase_last_faults task_less sooner w sooner-IsStrictWeak s.tasks existing i v placed pos
                at_end,
            remove_task,
          )
          refl

  enqueue_found :
      (i : ℕ) (existing : Task)
      → RandomAccessSet.find task_less s.tasks task ≡ some i
      → get_elem? s.tasks.vec i ≡ some existing
      → same_key existing task ≡ true
      → ((s' : P4PUpdateManager) × (enqueue_task s time type_of isp sel_mgr ≡ done s')
          × IsEnqueued s s' task)
        ⊎ ((known : Task) × IsLastAndLater s task known
            × (enqueue_task s time type_of isp sel_mgr ≡ undefined))
  enqueue_found i existing found at_i key =
      let below = lt_of_get_elem? s.tasks.vec i existing at_i in
      elim (Bool-cases (ltb_ℤ time existing.exectime)) [
        | inr kept ↦ inl (enqueue_known i existing found at_i key kept)
        | inl sooner_one ↦ elim (Bool-cases (i == 0)) [
          | inl first ↦
              inl (
                enqueue_replaces i existing found at_i key sooner_one (inl (ground (arith, first))))
          | inr later ↦ elim (Bool-cases (ltb (i + 1) (length s.tasks.vec))) [
            | inl inner ↦ inl (
                enqueue_replaces i existing found at_i key sooner_one (inr (ground (arith, inner))))
            | inr at_end ↦
                let last : i ≡ length s.tasks.vec - 1 = ground (arith, at_end, below) in
                inr (
                  existing,
                  record {
                    not_first = ground (arith, later, below, last);
                    last = subst (λ (j : ℕ). get_elem? s.tasks.vec j ≡ some existing) last at_i;
                    key = key;
                    later = sooner_one;
                  },
                  enqueue_breaks i existing found at_i key sooner_one (ground (arith, later))
                      (ground (arith, at_end, below)),
                )
          ]
        ]
      ]

  -- enqueueTask on a valid queue never throws and never runs out of fuel. It puts the key at the
  -- earlier of the new time and the time it had, leaves the time of every other key, and the queue is
  -- valid afterwards; unless a later task with the key stands in the last place of a heap of two or
  -- more, and then the call is undefined behaviour.
  pub enqueue_task_lem :
      ((s' : P4PUpdateManager) × (enqueue_task s time type_of isp sel_mgr ≡ done s')
        × IsEnqueued s s' task)
      ⊎ ((known : Task) × IsLastAndLater s task known
          × (enqueue_task s time type_of isp sel_mgr ≡ undefined))
  enqueue_task_lem = elim (Option-cases (RandomAccessSet.find task_less s.tasks task)) [
    | inl fresh ↦ inl (enqueue_fresh fresh)
    | inr (i, found) ↦
        let (existing, at_i, key) =
          (find_iff task_less task_less-IsStrictWeak s.tasks task i v.indexed).0 found in
        enqueue_found i existing found at_i key
  ]
