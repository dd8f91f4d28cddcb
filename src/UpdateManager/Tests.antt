-- ===== src/UpdateManager/Tests.antt =====
-- Runs and witnesses for the update manager: one ISP, whose PID map is to be refreshed every 100
-- seconds and its distances every 1000.
use alto.Prelude.{
  ℕ, zero, suc, arith, ◌⊎◌, ◌≡◌, refl, Bool, true, false, [], ◌∷◌, Option, some, get_elem?, Perm,
}
use alto.Prelude.Int.{ℤ, pos, ltb_ℤ, ◌+ℤ◌}
use alto.Prelude.Dict
use alto.Prelude.Order.{equiv}
use alto.RandomAccessSet
use alto.RandomAccessSet.{RandomAccessSet}
use alto.MaxHeapWithDelete
use alto.RandomAccessSet.Index.{init-IsIndexed}
use alto.RandomAccessSet.Contents.{push_back-IsIndexed}
use alto.MaxHeapWithDelete.{parent}
use alto.MaxHeapWithDelete.Order.{IsHeap, over-none}
use alto.UpdateManager.Keys.{task_less-IsStrictWeak, time_in}
use alto.UpdateManager.{
  P4PUpdateManager, Task, pidmap, pdistance, task_less, sooner, Outcome, done, undefined, ◌>>=◌,
  initial, add_task, remove_task, forget_task, new_task, enqueue_task, enqueue_isps,
  enqueue_guidance, set_isp_manager, Moment, update_pid_map, update_pdistance_map, execute_task,
  run_step,
}
use alto.UpdateManager.Queue.{IsQueue, time_of}
use alto.UpdateManager.Enqueue.{IsEnqueued, IsLastAndLater, enqueue_task_lem}
use alto.UpdateManager.Steps.{run_step_lem}
use alto.UpdateManager.Planned.{IsSafe, IsPlanned}
use alto.UpdateManager.Schedule.{turn, add, act_all, act, schedule_kept}

-- Everything loads, at a given time.
abbrev at_time : ℤ → Moment
at_time now = record {
  now = now;
  stopped = false;
  load_pidmap = λ isp. pos 0;
  pidmap_ttl = λ isp. pos 100;
  load_pdistance = λ isp. pos 0;
  pdistance_ttl = λ isp. pos 1000;
  update_peer_distribution = λ mgr isp. pos 0;
  compute_guidance = λ mgr isp. pos 0;
  next_compute_time = λ mgr isp. pos 500;
}

abbrev one_isp : Outcome (P4PUpdateManager × Bool)
one_isp = set_isp_manager initial (7 ∷ [])

-- The times of the two tasks of the ISP.
abbrev plan : P4PUpdateManager → Outcome (Option ℤ × Option ℤ)
plan s = done (
  time_of s.tasks (new_task s (pos 0) pidmap 7 0),
  time_of s.tasks (new_task s (pos 0) pdistance 7 0),
)

-- Two turns refresh the PID map and then the distances, and plan the next time of both.
two_turns :
    (one_isp
      >>= (λ r. act_all (turn (at_time (pos 10)) ∷ turn (at_time (pos 10)) ∷ []) r.0)
      >>= plan)
    ≡ done (some (pos 110), some (pos 1010))
unfolding time_in act_all act set_isp_manager enqueue_isps enqueue_task add_task remove_task
    run_step execute_task update_pid_map update_pdistance_map enqueue_guidance forget_task time_of
    task_less sooner ◌+ℤ◌ equiv RandomAccessSet.find RandomAccessSet.push_back RandomAccessSet.swap
    RandomAccessSet.pop_back Dict.lookup Dict.assign Dict.erase MaxHeapWithDelete.push
    MaxHeapWithDelete.pop MaxHeapWithDelete.erase MaxHeapWithDelete.find MaxHeapWithDelete.top
    MaxHeapWithDelete.percolate_up MaxHeapWithDelete.percolate_down
two_turns = refl

-- The third turn, at the second refresh of the PID map, breaks: the distances' task is the last of the
-- heap when it is to be put forward.
three_turns :
    (one_isp >>= (λ r.
      act_all
        (turn (at_time (pos 10)) ∷ turn (at_time (pos 10)) ∷ turn (at_time (pos 110)) ∷ [])
        r.0))
    ≡ undefined
unfolding act_all act set_isp_manager enqueue_isps enqueue_task add_task remove_task run_step
    execute_task update_pid_map update_pdistance_map enqueue_guidance forget_task time_of task_less
    sooner ◌+ℤ◌ equiv RandomAccessSet.find RandomAccessSet.push_back RandomAccessSet.swap
    RandomAccessSet.pop_back Dict.lookup Dict.assign Dict.erase MaxHeapWithDelete.push
    MaxHeapWithDelete.pop MaxHeapWithDelete.erase MaxHeapWithDelete.find MaxHeapWithDelete.top
    MaxHeapWithDelete.percolate_up MaxHeapWithDelete.percolate_down
three_turns = refl

abbrev refresh : Task
refresh = record { exectime = pos 60; type_of = pidmap; isp = 7; sel_mgr = 0; self = 1 }

-- A manager with one task, which is due at second 60.
abbrev waiting : P4PUpdateManager
waiting = record {
  isp_mgr = some (7 ∷ []);
  selection_mgrs = [];
  tasks = record { vec_index = (refresh, 0) ∷ []; vec = refresh ∷ [] };
  selmgr_tasks = [];
  next = 2;
}

waiting-IsQueue : IsQueue waiting.tasks
unfolding RandomAccessSet.push_back RandomAccessSet.find Dict.lookup Dict.assign
waiting-IsQueue = record {
  indexed =
      push_back-IsIndexed task_less task_less-IsStrictWeak RandomAccessSet.init refresh
        (init-IsIndexed task_less task_less-IsStrictWeak);
  heap = single;
}
  where
    single : IsHeap sooner waiting.tasks.vec
    single zero p = absurd (omega arith)
    single (suc c) p = over-none sooner (get_elem? waiting.tasks.vec (parent (suc c)))

enqueue_task_lem_example :
    ((s' : P4PUpdateManager) × (enqueue_task waiting (pos 5) pidmap 7 0 ≡ done s')
      × IsEnqueued waiting s' (new_task waiting (pos 5) pidmap 7 0))
    ⊎ ((known : Task) × IsLastAndLater waiting (new_task waiting (pos 5) pidmap 7 0) known
        × (enqueue_task waiting (pos 5) pidmap 7 0 ≡ undefined))
enqueue_task_lem_example = enqueue_task_lem waiting (pos 5) pidmap 7 0 waiting-IsQueue

run_step_lem_example :
    ((run_step (at_time (pos 70)) waiting ≡ done (waiting, false))
      × ((i : ℕ) (t : Task)
          → get_elem? waiting.tasks.vec i ≡ some t
          → ltb_ℤ (pos 70) t.exectime ≡ true))
    ⊎ ((task : Task) × (rest : RandomAccessSet Task) × IsQueue rest
        × Perm (task ∷ rest.vec) waiting.tasks.vec
        × (ltb_ℤ (pos 70) task.exectime ≡ false)
        × ((i : ℕ) (t : Task) → get_elem? waiting.tasks.vec i ≡ some t → sooner t task ≡ false)
        × (run_step (at_time (pos 70)) waiting ≡ (
            execute_task (at_time (pos 70)) (record waiting { tasks = rest }) task
            >>= (λ s'. done (forget_task s' task, true)))))
run_step_lem_example = run_step_lem (at_time (pos 70)) waiting waiting-IsQueue refl

schedule_kept_example : IsSafe (IsPlanned 7) (
    set_isp_manager initial (7 ∷ 8 ∷ [])
    >>= (λ r. act_all (turn (at_time (pos 10)) ∷ add 3 ∷ turn (at_time (pos 10)) ∷ []) r.0))
schedule_kept_example =
    schedule_kept (7 ∷ 8 ∷ []) (turn (at_time (pos 10)) ∷ add 3 ∷ turn (at_time (pos 10)) ∷ []) 0 7
      refl
