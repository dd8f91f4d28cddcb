-- ===== src/UpdateManager/Schedule.antt =====
-- No ISP drops out of the schedule: between the turns of run, and whatever the ISPs answer, the queue
-- holds a time for the next refresh of each ISP's PID map.
use alto.Prelude.{
  ℕ, zero, suc, ◌≡◌, refl, Bool, List, [], ◌∷◌, some, inl, inr, get_elem?, arith, Perm, Bool-cases,
  Option-cases,
}
use alto.Prelude.Int.{pos}
use alto.RandomAccessSet.{RandomAccessSet}
use alto.UpdateManager.{
  P4PUpdateManager, Task, pidmap, guidance, Outcome, done, ◌>>=◌, enqueue_task, enqueue_isps,
  new_task, forget_task, Moment, execute_task, run_step, set_isp_manager, add_selection_manager,
  insert_in, contains, initial,
}
use alto.UpdateManager.Keys.{same_key, same_key_iff}
use alto.UpdateManager.Queue.{IsQueue, init-IsQueue, times_erase}
use alto.UpdateManager.Steps.{run_step_lem}
use alto.UpdateManager.Planned.{
  IsSafe, IsSafe-bind, enqueue-IsSafe, IsPlanned, enqueue-IsPlanned, enqueue_isps-IsPlanned,
  refresh_of, Pending, execute-IsPlanned,
}

Pending-after_pop :
    (isp : ℕ) (s : P4PUpdateManager) (task : Task) (rest : RandomAccessSet Task)
    → IsPlanned isp s
    → Perm (task ∷ rest.vec) s.tasks.vec
    → Pending isp (record s { tasks = rest }) task
Pending-after_pop isp s task rest g p =
    let left = times_erase s.tasks g.queue task rest p (refresh_of isp) in
    elim (Bool-cases (same_key task (refresh_of isp))) [
      | inl k ↦ inl k
      | inr k ↦ let (time, e) = g.planned in inr (time, ground (arith, left, k, e))
    ]

forget-IsPlanned :
    (isp : ℕ) (s : P4PUpdateManager) (task : Task)
    → IsPlanned isp s
    → IsPlanned isp (forget_task s task)
unfolding forget_task
forget-IsPlanned isp s task g = record { queue = g.queue; planned = g.planned }

run_step-IsPlanned :
    (w : Moment) (isp : ℕ) (s : P4PUpdateManager)
    → IsPlanned isp s
    → IsSafe (λ (r : P4PUpdateManager × Bool). IsPlanned isp r.0) (run_step w s)
unfolding run_step
run_step-IsPlanned w isp s g = elim (Bool-cases w.stopped) [
  | inl stopped ↦ rw (stopped, run_step) g
  | inr running ↦ elim (run_step_lem w s g.queue running) [
    | inl (e, _) ↦ rw e g
    | inr (task, rest, v, p, _, _, e) ↦ rw e (
        IsSafe-bind (IsPlanned isp) (λ (r : P4PUpdateManager × Bool). IsPlanned isp r.0)
          (execute_task w (record s { tasks = rest }) task) _
          (execute-IsPlanned w isp (record s { tasks = rest }) task task.type_of refl v
            (Pending-after_pop isp s task rest g p))
          (λ s' g'. forget-IsPlanned isp s' task g'))
  ]
]

add_selection_manager-IsPlanned :
    (isp : ℕ) (s : P4PUpdateManager) (mgr : ℕ)
    → IsPlanned isp s
    → IsSafe (λ (r : P4PUpdateManager × Bool). IsPlanned isp r.0) (add_selection_manager s mgr)
unfolding add_selection_manager
add_selection_manager-IsPlanned isp s mgr g = elim (Option-cases s.isp_mgr) [
  | inl no_isps ↦ rw (no_isps, add_selection_manager) g
  | inr (isps, e) ↦ elim (Bool-cases (contains mgr s.selection_mgrs)) [
    | inl known ↦ rw (e, known, add_selection_manager) g
    | inr new ↦
        let s' = record s { selection_mgrs = insert_in (λ (m : ℕ). m) mgr s.selection_mgrs } in
        rw (e, new, add_selection_manager)
          (IsSafe-bind (IsPlanned isp) (λ (r : P4PUpdateManager × Bool). IsPlanned isp r.0)
            (enqueue_isps s' guidance mgr isps) _
            (enqueue_isps-IsPlanned isp s' guidance mgr isps
              (record { queue = g.queue; planned = g.planned }))
            (λ s'' g''. g''))
  ]
]

-- What happens to the manager under its mutex: a turn of run, or another thread's call that adds a
-- selection manager.
pub data Action : Type 0 where
  turn : Moment → Action
  add : ℕ → Action

unfoldable pub act : Action → P4PUpdateManager → Outcome (P4PUpdateManager × Bool)
act (turn w) s = run_step w s
act (add mgr) s = add_selection_manager s mgr

unfoldable pub act_all : List Action → P4PUpdateManager → Outcome P4PUpdateManager
act_all [] s = done s
act_all (a ∷ actions) s = act a s >>= (λ r. act_all actions r.0)

act-IsPlanned :
    (isp : ℕ) (a : Action) (s : P4PUpdateManager)
    → IsPlanned isp s
    → IsSafe (λ (r : P4PUpdateManager × Bool). IsPlanned isp r.0) (act a s)
unfolding act
act-IsPlanned isp (turn w) s g = run_step-IsPlanned w isp s g
act-IsPlanned isp (add mgr) s g = add_selection_manager-IsPlanned isp s mgr g

act_all-IsPlanned :
    (isp : ℕ) (actions : List Action) (s : P4PUpdateManager)
    → IsPlanned isp s
    → IsSafe (IsPlanned isp) (act_all actions s)
unfolding act_all
act_all-IsPlanned isp [] s g = g
act_all-IsPlanned isp (a ∷ actions) s g =
    IsSafe-bind (λ (r : P4PUpdateManager × Bool). IsPlanned isp r.0) (IsPlanned isp) (act a s) _
      (act-IsPlanned isp a s g) (λ r g'. act_all-IsPlanned isp actions r.0 g')

-- The ISPs from an index on are enqueued one by one.
enqueue_isps_plans :
    (isp : ℕ) (s : P4PUpdateManager) (isps : List ℕ) (i : ℕ)
    → IsQueue s.tasks
    → get_elem? isps i ≡ some isp
    → IsSafe (IsPlanned isp) (enqueue_isps s pidmap 0 isps)
unfolding enqueue_isps
enqueue_isps_plans isp s [] i v e = absurd (ground arith)
enqueue_isps_plans isp s (x ∷ isps) zero v e =
    let same_isp : x ≡ isp = ground (arith, e) in
    IsSafe-bind (IsPlanned isp) (IsPlanned isp) (enqueue_task s (pos 0) pidmap x 0) _
      (enqueue-IsPlanned isp s (pos 0) pidmap x 0 v (
        inl (
          ground (arith, same_key_iff (new_task s (pos 0) pidmap x 0) (refresh_of isp), same_isp))))
      (λ s' g'. enqueue_isps-IsPlanned isp s' pidmap 0 isps g')
enqueue_isps_plans isp s (x ∷ isps) (suc i) v e =
    IsSafe-bind (λ (s' : P4PUpdateManager). IsQueue s'.tasks) (IsPlanned isp)
      (enqueue_task s (pos 0) pidmap x 0) _
      (enqueue-IsSafe (λ s'. IsQueue s'.tasks) s (pos 0) pidmap x 0 v (λ s' q. q.queue))
      (λ s' v'. enqueue_isps_plans isp s' isps i v' e)

set_isp_manager_plans :
    (isp : ℕ) (isps : List ℕ) (i : ℕ)
    → get_elem? isps i ≡ some isp
    → IsSafe (λ (r : P4PUpdateManager × Bool). IsPlanned isp r.0) (set_isp_manager initial isps)
unfolding set_isp_manager
set_isp_manager_plans isp isps i e =
    IsSafe-bind (IsPlanned isp) (λ (r : P4PUpdateManager × Bool). IsPlanned isp r.0)
      (enqueue_isps (record initial { isp_mgr = some isps }) pidmap 0 isps) _
      (enqueue_isps_plans isp (record initial { isp_mgr = some isps }) isps i init-IsQueue e)
      (λ s' g'. g')

-- From setISPManager of a new manager on, in every order of turns of run and calls of
-- addSelectionManager, and whatever the clock says and the ISPs and selection managers answer: no call
-- throws or exhausts its fuel, and unless one is undefined behaviour, the queue is valid and holds a
-- time for the next refresh of the PID map of each of the ISPs.
pub schedule_kept :
    (isps : List ℕ) (actions : List Action) (i isp : ℕ)
    → get_elem? isps i ≡ some isp
    → IsSafe (IsPlanned isp) (set_isp_manager initial isps >>= (λ r. act_all actions r.0))
schedule_kept isps actions i isp e =
    IsSafe-bind (λ (r : P4PUpdateManager × Bool). IsPlanned isp r.0) (IsPlanned isp)
      (set_isp_manager initial isps) _ (set_isp_manager_plans isp isps i e)
      (λ r g. act_all-IsPlanned isp actions r.0 g)
