-- ===== src/UpdateManager/Planned.antt =====
-- Executing a task keeps, or makes, the plan to refresh the PID map of an ISP.
use alto.Prelude.{
  ℕ, ◌*◌, ◌≡◌, ◌∙◌, ◌⊎◌, Bool, true, false, List, [], ◌∷◌, Option, some, inl, inr, if◌then◌else◌,
  arith, Bool-cases,
}
use alto.Prelude.Int.{ℤ, pos, eq_ℤ, ◌+ℤ◌}
use alto.PeerDistributionManager.{err_invalid_isp}
use alto.UpdateManager.{
  P4PUpdateManager, Task, TaskType, pidmap, pdistance, guidance, rank, Outcome, done, illegal_state,
  undefined, spent, ◌>>=◌, enqueue_task, enqueue_isps, enqueue_guidance, new_task, Moment,
  time_invalid, update_pid_map, update_pdistance_map, update_guidance, execute_task,
}
use alto.UpdateManager.Keys.{same_key, same_key_iff}
use alto.UpdateManager.Queue.{IsQueue, time_of}
use alto.UpdateManager.Enqueue.{IsEnqueued, enqueue_task_lem}

-- A call that neither throws nor runs out of fuel, and whose result has a property unless it is
-- undefined.
abbrev pub IsSafe : {A : Type 0} → (A → Type 0) → Outcome A → Type 0
IsSafe P (done a) = P a
IsSafe P illegal_state = ⊥
IsSafe P undefined = Unit
IsSafe P spent = ⊥

pub IsSafe-bind :
    {A B : Type 0} (P : A → Type 0) (Q : B → Type 0) (m : Outcome A) (next : A → Outcome B)
    → IsSafe P m
    → ((a : A) → P a → IsSafe Q (next a))
    → IsSafe Q (m >>= next)
IsSafe-bind P Q (done a) next h k = k a h
IsSafe-bind P Q illegal_state next h k = h
IsSafe-bind P Q undefined next h k = h
IsSafe-bind P Q spent next h k = h

-- The task by which the PID map of an ISP is refreshed.
abbrev pub refresh_of : ℕ → Task
refresh_of isp = record { exectime = pos 0; type_of = pidmap; isp = isp; sel_mgr = 0; self = 0 }

-- The queue is valid, and it holds a time for the next refresh of the ISP's PID map.
pub record IsPlanned (isp : ℕ) (s : P4PUpdateManager) : Type 0 where
  pub queue : IsQueue s.tasks
  pub planned : (time : ℤ) × (time_of s.tasks (refresh_of isp) ≡ some time)

-- What is left to show once enqueueTask is known to end.
pub enqueue-IsSafe :
    (P : P4PUpdateManager → Type 0) (s : P4PUpdateManager) (time : ℤ) (type_of : TaskType)
    (isp mgr : ℕ)
    → IsQueue s.tasks
    → ((s' : P4PUpdateManager) → IsEnqueued s s' (new_task s time type_of isp mgr) → P s')
    → IsSafe P (enqueue_task s time type_of isp mgr)
enqueue-IsSafe P s time type_of isp mgr v h = elim (enqueue_task_lem s time type_of isp mgr v) [
  | inl (s', e, q) ↦ rw e (h s' q)
  | inr (known, last, e) ↦ rw e tt
]

some_time :
    (fresh : Bool) (a : ℤ) (b : Option ℤ) (new : Option ℤ)
    → new ≡ (if fresh then some a else b)
    → (fresh ≡ true) ⊎ ((time : ℤ) × (b ≡ some time))
    → (time : ℤ) × (new ≡ some time)
some_time true a b new e h = (a, e)
some_time false a b new e (inl h) = absurd (ground arith)
some_time false a b new e (inr (time, h)) = (time, e ∙ h)

-- Enqueueing keeps what is planned, and plans what is enqueued.
pub enqueue-IsPlanned :
    (isp : ℕ) (s : P4PUpdateManager) (time : ℤ) (type_of : TaskType) (isp' mgr : ℕ)
    → IsQueue s.tasks
    → (same_key (new_task s time type_of isp' mgr) (refresh_of isp) ≡ true)
      ⊎ ((t : ℤ) × (time_of s.tasks (refresh_of isp) ≡ some t))
    → IsSafe (IsPlanned isp) (enqueue_task s time type_of isp' mgr)
enqueue-IsPlanned isp s time type_of isp' mgr v h =
    enqueue-IsSafe (IsPlanned isp) s time type_of isp' mgr v
      (λ s' q. record { queue = q.queue; planned = some_time _ _ _ _ (q.times (refresh_of isp)) h })

keeps :
    (isp : ℕ) (s : P4PUpdateManager) (time : ℤ) (type_of : TaskType) (isp' mgr : ℕ)
    → IsPlanned isp s
    → IsSafe (IsPlanned isp) (enqueue_task s time type_of isp' mgr)
keeps isp s time type_of isp' mgr g =
    enqueue-IsPlanned isp s time type_of isp' mgr g.queue (inr g.planned)

enqueue_guidance-IsPlanned :
    (isp : ℕ) (s : P4PUpdateManager) (isp' : ℕ) (mgrs : List ℕ)
    → IsPlanned isp s
    → IsSafe (IsPlanned isp) (enqueue_guidance s isp' mgrs)
unfolding enqueue_guidance
enqueue_guidance-IsPlanned isp s isp' [] g = g
enqueue_guidance-IsPlanned isp s isp' (mgr ∷ mgrs) g =
    IsSafe-bind (IsPlanned isp) (IsPlanned isp) (enqueue_task s (pos 0) guidance isp' mgr) _
      (keeps isp s (pos 0) guidance isp' mgr g)
      (λ s' g'. enqueue_guidance-IsPlanned isp s' isp' mgrs g')

pub enqueue_isps-IsPlanned :
    (isp : ℕ) (s : P4PUpdateManager) (type_of : TaskType) (mgr : ℕ) (isps : List ℕ)
    → IsPlanned isp s
    → IsSafe (IsPlanned isp) (enqueue_isps s type_of mgr isps)
unfolding enqueue_isps
enqueue_isps-IsPlanned isp s type_of mgr [] g = g
enqueue_isps-IsPlanned isp s type_of mgr (i ∷ isps) g =
    IsSafe-bind (IsPlanned isp) (IsPlanned isp) (enqueue_task s (pos 0) type_of i mgr) _
      (keeps isp s (pos 0) type_of i mgr g)
      (λ s' g'. enqueue_isps-IsPlanned isp s' type_of mgr isps g')

-- The task is planned, or is the one that is being executed.
abbrev pub Pending : ℕ → P4PUpdateManager → Task → Type 0
Pending isp s task =
    (same_key task (refresh_of isp) ≡ true)
    ⊎ ((t : ℤ) × (time_of s.tasks (refresh_of isp) ≡ some t))

is_refresh :
    (isp : ℕ) (s : P4PUpdateManager) (time : ℤ) (task : Task)
    → Pending isp s task
    → task.type_of ≡ pidmap
    → (same_key (new_task s time pidmap task.isp 0) (refresh_of isp) ≡ true)
      ⊎ ((t : ℤ) × (time_of s.tasks (refresh_of isp) ≡ some t))
is_refresh isp s time task (inr h) e = inr h
is_refresh isp s time task (inl h) e = inl (
    ground (
      arith,
      same_key_iff task (refresh_of isp),
      same_key_iff (new_task s time pidmap task.isp 0) (refresh_of isp),
      e,
    ))

update_pid_map-IsPlanned :
    (w : Moment) (isp : ℕ) (s : P4PUpdateManager) (task : Task)
    → IsQueue s.tasks
    → Pending isp s task
    → task.type_of ≡ pidmap
    → IsSafe (IsPlanned isp) (update_pid_map w s task.isp)
unfolding update_pid_map
update_pid_map-IsPlanned w isp s task v h e =
    elim (Bool-cases (eq_ℤ (w.load_pidmap task.isp) (pos 0))) [
      | inl loaded ↦
          let time = w.now +ℤ w.pidmap_ttl task.isp in
          rw (loaded, update_pid_map)
            (IsSafe-bind (IsPlanned isp) (IsPlanned isp) (enqueue_task s time pidmap task.isp 0) _
              (enqueue-IsPlanned isp s time pidmap task.isp 0 v (is_refresh isp s time task h e))
              (λ s' g'. keeps isp s' (pos 0) pdistance task.isp 0 g'))
      | inr failed ↦
          let time = w.now +ℤ pos (15 * 60) in
          rw (failed, update_pid_map)
            (enqueue-IsPlanned isp s time pidmap task.isp 0 v (is_refresh isp s time task h e))
    ]

update_pdistance_map-IsPlanned :
    (w : Moment) (isp : ℕ) (s : P4PUpdateManager) (isp' : ℕ)
    → IsPlanned isp s
    → IsSafe (IsPlanned isp) (update_pdistance_map w s isp')
unfolding update_pdistance_map
update_pdistance_map-IsPlanned w isp s isp' g =
    elim (Bool-cases (eq_ℤ (w.load_pdistance isp') (pos 0))) [
      | inl loaded ↦
          let time = w.now +ℤ w.pdistance_ttl isp' in
          rw (loaded, update_pdistance_map)
            (IsSafe-bind (IsPlanned isp) (IsPlanned isp) (enqueue_task s time pdistance isp' 0) _
              (keeps isp s time pdistance isp' 0 g)
              (λ s' g'. enqueue_guidance-IsPlanned isp s' isp' s'.selection_mgrs g'))
      | inr failed ↦
          rw (failed, update_pdistance_map)
            (keeps isp s (w.now +ℤ pos 15 +ℤ pos 60) pdistance isp' 0 g)
    ]

update_guidance-IsPlanned :
    (w : Moment) (isp : ℕ) (s : P4PUpdateManager) (isp' mgr : ℕ)
    → IsPlanned isp s
    → IsSafe (IsPlanned isp) (update_guidance w s isp' mgr)
unfolding update_guidance
update_guidance-IsPlanned w isp s isp' mgr g =
    elim (Bool-cases (eq_ℤ (w.update_peer_distribution mgr isp') err_invalid_isp)) [
      | inl a ↦ rw (a, update_guidance) g
      | inr a ↦ elim (Bool-cases (eq_ℤ (w.compute_guidance mgr isp') err_invalid_isp)) [
        | inl b ↦ rw (a, b, update_guidance) g
        | inr b ↦ elim (Bool-cases (eq_ℤ (w.next_compute_time mgr isp') time_invalid)) [
          | inl c ↦ rw (a, b, c, update_guidance) g
          | inr c ↦
              rw (a, b, c, update_guidance)
                (keeps isp s (w.next_compute_time mgr isp') guidance isp' mgr g)
        ]
      ]
    ]

settled :
    (isp : ℕ) (s : P4PUpdateManager) (task : Task)
    → IsQueue s.tasks
    → Pending isp s task
    → (rank task.type_of ≡ 0 → ⊥)
    → IsPlanned isp s
settled isp s task v (inr h) ne = record { queue = v; planned = h }
settled isp s task v (inl h) ne = absurd (ground (arith, same_key_iff task (refresh_of isp), h, ne))

pub execute-IsPlanned :
    (w : Moment) (isp : ℕ) (s : P4PUpdateManager) (task : Task) (type_of : TaskType)
    → task.type_of ≡ type_of
    → IsQueue s.tasks
    → Pending isp s task
    → IsSafe (IsPlanned isp) (execute_task w s task)
unfolding execute_task
execute-IsPlanned w isp s task pidmap e v h =
    rw (e, execute_task) (update_pid_map-IsPlanned w isp s task v h e)
execute-IsPlanned w isp s task pdistance e v h =
    rw (e, execute_task)
      (update_pdistance_map-IsPlanned w isp s task.isp
        (settled isp s task v h (λ z. ground (arith, e, z))))
execute-IsPlanned w isp s task guidance e v h =
    rw (e, execute_task)
      (update_guidance-IsPlanned w isp s task.isp task.sel_mgr
        (settled isp s task v h (λ z. ground (arith, e, z))))
