-- ===== src/UpdateManager.antt =====
-- common/cpp/src/include/p4p/app/update_manager.h and lib/update_manager.cpp: the queue of update
-- tasks, by their time. ISPs, selection managers and tasks are the numbers of their objects, 0 being
-- NULL; a new task has a higher address than the tasks before. A call, or a turn of run, is one step:
-- all but setISPManager hold the mutex.
pub mod Keys
pub mod Queue
pub mod Calls
pub mod Enqueue
pub mod Steps
pub mod Planned
pub mod Schedule
mod Tests
use alto.Prelude.{
  ℕ, zero, suc, ◌+◌, ◌*◌, ◌==◌, Bool, true, false, not, ◌&&◌, List, [], ◌∷◌, Option, none, some,
  ltb, if◌then◌else◌,
}
use alto.Prelude.Int.{ℤ, pos, negsuc, ltb_ℤ, eq_ℤ, ◌+ℤ◌}
use alto.Prelude.Run.{Run, ok, fault, out_of_fuel}
use alto.Prelude.Dict
use alto.RandomAccessSet
use alto.RandomAccessSet.{RandomAccessSet}
use alto.MaxHeapWithDelete
use alto.PeerDistributionManager.{err_invalid_isp}

pub data TaskType : Type 0 where
  pidmap : TaskType
  pdistance : TaskType
  guidance : TaskType

-- The enumerator's value, by which the code compares.
abbrev pub rank : TaskType → ℕ
rank pidmap = 0
rank pdistance = 1
rank guidance = 2

pub record Task : Type 0 where
  pub exectime : ℤ
  pub type_of : TaskType
  pub isp : ℕ
  pub sel_mgr : ℕ
  -- the object's address
  pub self : ℕ

-- operator<, which does not look at the time.
unfoldable pub task_less : Task → Task → Bool
task_less a b =
    if ltb (rank a.type_of) (rank b.type_of)
    then true
    else if ltb (rank b.type_of) (rank a.type_of)
    then false
    else if ltb a.isp b.isp
    then true
    else if ltb b.isp a.isp
    then false
    else if ltb a.sel_mgr b.sel_mgr
    then true
    else false

-- TaskPtrPriorityComparator
unfoldable pub sooner : Task → Task → Bool
sooner a b = ltb_ℤ a.exectime b.exectime

-- How a call ends: with a value, with the exception "Illegal state", in undefined behaviour, or with
-- the fuel of a heap loop used up.
pub data Outcome (A : Type 0) : Type 0 where
  done : A → Outcome A
  illegal_state : Outcome A
  undefined : Outcome A
  spent : Outcome A

infixl 5 ◌>>=◌
abbrev pub ◌>>=◌ : {A B : Type 0} → Outcome A → (A → Outcome B) → Outcome B
illegal_state >>= next = illegal_state
undefined >>= next = undefined
spent >>= next = spent
done a >>= next = next a

-- A call of the heap.
abbrev pub call : {A : Type 0} → Run A → Outcome A
call fault = undefined
call out_of_fuel = spent
call (ok a) = done a

-- `std::set` of objects, in the order of their addresses.
unfoldable pub insert_in {ℓ} : {A : Type ℓ} → (A → ℕ) → A → List A → List A
insert_in address a [] = a ∷ []
insert_in address a (b ∷ set) =
    let rest = insert_in address a set in
    if ltb (address a) (address b)
    then a ∷ b ∷ set
    else if address a == address b
    then b ∷ set
    else b ∷ rest

unfoldable pub erase_from {ℓ} : {A : Type ℓ} → (A → ℕ) → ℕ → List A → List A
erase_from address a [] = []
erase_from address a (b ∷ set) =
    let rest = erase_from address a set in if address b == a then set else b ∷ rest

unfoldable pub contains : ℕ → List ℕ → Bool
contains a [] = false
contains a (b ∷ set) = if b == a then true else contains a set

pub record P4PUpdateManager : Type 0 where
  -- The ISPs that listISPs of the ISP manager gives, once there is one.
  pub isp_mgr : Option (List ℕ)
  pub selection_mgrs : List ℕ
  pub tasks : RandomAccessSet Task
  pub selmgr_tasks : List (ℕ × List Task)
  -- The address of the next object.
  pub next : ℕ

abbrev pub initial : P4PUpdateManager
initial = record {
  isp_mgr = none;
  selection_mgrs = [];
  tasks = RandomAccessSet.init;
  selmgr_tasks = [];
  next = 1;
}

-- `m_selmgr_tasks[mgr]`
abbrev pub tasks_of : ℕ → List (ℕ × List Task) → List Task
tasks_of mgr m = elim (Dict.lookup ◌==◌ mgr m) [ none ↦ [] | some set ↦ set ]

-- The entry that addTask makes for a task of a selection manager.
abbrev pub note_task : Task → List (ℕ × List Task) → List (ℕ × List Task)
note_task task m =
    if task.sel_mgr == 0
    then m
    else Dict.assign ◌==◌ task.sel_mgr
        (insert_in (λ (t : Task). t.self) task (tasks_of task.sel_mgr m)) m

-- The entry that removeTask takes out.
abbrev pub drop_task : Task → List (ℕ × List Task) → List (ℕ × List Task)
drop_task task m =
    if task.sel_mgr == 0
    then m
    else Dict.assign ◌==◌ task.sel_mgr
        (erase_from (λ (t : Task). t.self) task.self (tasks_of task.sel_mgr m)) m

unfoldable pub add_task : P4PUpdateManager → Task → Outcome P4PUpdateManager
add_task s task = do
  (tasks', pushed) ← call (MaxHeapWithDelete.push task_less sooner s.tasks task)
  if pushed
      then done (record s { tasks = tasks'; selmgr_tasks = note_task task s.selmgr_tasks })
      else illegal_state

-- removeTask of a task in the queue.
unfoldable pub remove_task : P4PUpdateManager → Task → Outcome P4PUpdateManager
remove_task s task = do
  (tasks', erased) ← call (MaxHeapWithDelete.erase task_less sooner s.tasks task)
  if erased
      then done (record s { tasks = tasks'; selmgr_tasks = drop_task task s.selmgr_tasks })
      else illegal_state

-- removeTask(task, false)
unfoldable pub forget_task : P4PUpdateManager → Task → P4PUpdateManager
forget_task s task = record s { selmgr_tasks = drop_task task s.selmgr_tasks }

abbrev pub new_task : P4PUpdateManager → ℤ → TaskType → ℕ → ℕ → Task
new_task s time type_of isp sel_mgr = record {
  exectime = time;
  type_of = type_of;
  isp = isp;
  sel_mgr = sel_mgr;
  self = s.next;
}

unfoldable pub enqueue_task : P4PUpdateManager → ℤ → TaskType → ℕ → ℕ → Outcome P4PUpdateManager
enqueue_task s time type_of isp sel_mgr =
    let task = new_task s time type_of isp sel_mgr in
    let s1 = record s { next = s.next + 1 } in
    call (MaxHeapWithDelete.find task_less s.tasks task) >>= (λ found. elim found [
      | none ↦ add_task s1 task
      | some existing ↦
          if not (ltb_ℤ time existing.exectime)
          then done s1
          else remove_task s1 existing >>= (λ s2. add_task s2 task)
    ])

-- A task of one type for each of the ISPs, at time 0.
unfoldable pub enqueue_isps : P4PUpdateManager → TaskType → ℕ → List ℕ → Outcome P4PUpdateManager
enqueue_isps s type_of sel_mgr [] = done s
enqueue_isps s type_of sel_mgr (isp ∷ isps) =
    enqueue_task s (pos 0) type_of isp sel_mgr >>= (λ s'. enqueue_isps s' type_of sel_mgr isps)

-- A guidance task for each of the selection managers, at time 0.
unfoldable pub enqueue_guidance : P4PUpdateManager → ℕ → List ℕ → Outcome P4PUpdateManager
enqueue_guidance s isp [] = done s
enqueue_guidance s isp (mgr ∷ mgrs) =
    enqueue_task s (pos 0) guidance isp mgr >>= (λ s'. enqueue_guidance s' isp mgrs)

unfoldable pub set_isp_manager : P4PUpdateManager → List ℕ → Outcome (P4PUpdateManager × Bool)
set_isp_manager s isps = elim s.isp_mgr [
  | some _ ↦ done (s, false)
  | none ↦ enqueue_isps (record s { isp_mgr = some isps }) pidmap 0 isps >>= (λ s'. done (s', true))
]

unfoldable pub add_selection_manager : P4PUpdateManager → ℕ → Outcome (P4PUpdateManager × Bool)
add_selection_manager s mgr = elim s.isp_mgr [
  | none ↦ done (s, false)
  | some isps ↦
      if contains mgr s.selection_mgrs
      then done (s, false)
      else let s' = record s { selection_mgrs = insert_in (λ (m : ℕ). m) mgr s.selection_mgrs } in
        enqueue_isps s' guidance mgr isps >>= (λ s''. done (s'', true))
]

unfoldable pub remove_tasks : P4PUpdateManager → List Task → Outcome P4PUpdateManager
remove_tasks s [] = done s
remove_tasks s (task ∷ tasks) = remove_task s task >>= (λ s'. remove_tasks s' tasks)

unfoldable pub remove_selection_manager : P4PUpdateManager → ℕ → Outcome (P4PUpdateManager × Bool)
remove_selection_manager s mgr =
    if not (contains mgr s.selection_mgrs)
    then done (s, false)
    else remove_tasks s (tasks_of mgr s.selmgr_tasks) >>= (λ s'. done (
      record s' {
        selmgr_tasks = Dict.erase ◌==◌ mgr s'.selmgr_tasks;
        selection_mgrs = erase_from (λ (m : ℕ). m) mgr s'.selection_mgrs;
      },
      true,
    ))

-- The world at one turn of the loop of run: the clock, the flag of stop, and what the ISPs' maps and
-- the selection managers answer.
pub record Moment : Type 0 where
  pub now : ℤ
  pub stopped : Bool
  pub load_pidmap : ℕ → ℤ
  pub pidmap_ttl : ℕ → ℤ
  pub load_pdistance : ℕ → ℤ
  pub pdistance_ttl : ℕ → ℤ
  pub update_peer_distribution : ℕ → ℕ → ℤ
  pub compute_guidance : ℕ → ℕ → ℤ
  pub next_compute_time : ℕ → ℕ → ℤ

-- PGMSelectionManager::TIME_INVALID
abbrev pub time_invalid : ℤ
time_invalid = negsuc 0

unfoldable pub update_pid_map : Moment → P4PUpdateManager → ℕ → Outcome P4PUpdateManager
update_pid_map w s isp =
    if eq_ℤ (w.load_pidmap isp) (pos 0)
    then enqueue_task s (w.now +ℤ w.pidmap_ttl isp) pidmap isp 0
      >>= (λ s'. enqueue_task s' (pos 0) pdistance isp 0)
    else enqueue_task s (w.now +ℤ pos (15 * 60)) pidmap isp 0

-- The retry is after `15 + 60` seconds, as the source has it.
unfoldable pub update_pdistance_map : Moment → P4PUpdateManager → ℕ → Outcome P4PUpdateManager
update_pdistance_map w s isp =
    if eq_ℤ (w.load_pdistance isp) (pos 0)
    then enqueue_task s (w.now +ℤ w.pdistance_ttl isp) pdistance isp 0
      >>= (λ s'. enqueue_guidance s' isp s'.selection_mgrs)
    else enqueue_task s (w.now +ℤ pos 15 +ℤ pos 60) pdistance isp 0

unfoldable pub update_guidance : Moment → P4PUpdateManager → ℕ → ℕ → Outcome P4PUpdateManager
update_guidance w s isp mgr =
    if eq_ℤ (w.update_peer_distribution mgr isp) err_invalid_isp
    then done s
    else if eq_ℤ (w.compute_guidance mgr isp) err_invalid_isp
    then done s
    else if eq_ℤ (w.next_compute_time mgr isp) time_invalid
    then done s
    else enqueue_task s (w.next_compute_time mgr isp) guidance isp mgr

unfoldable pub execute_task : Moment → P4PUpdateManager → Task → Outcome P4PUpdateManager
execute_task w s task = elim task.type_of [
  | pidmap ↦ update_pid_map w s task.isp
  | pdistance ↦ update_pdistance_map w s task.isp
  | guidance ↦ update_guidance w s task.isp task.sel_mgr
]

-- One turn of the inner loop; the flag tells whether a task was executed.
unfoldable pub run_step : Moment → P4PUpdateManager → Outcome (P4PUpdateManager × Bool)
run_step w s =
    if w.stopped
    then done (s, false)
    else if RandomAccessSet.empty s.tasks
    then done (s, false)
    else call (MaxHeapWithDelete.top s.tasks) >>= (λ task.
      if ltb_ℤ w.now task.exectime
      then done (s, false)
      else call (MaxHeapWithDelete.pop task_less sooner s.tasks) >>= (λ popped.
        execute_task w (record s { tasks = popped.0 }) task
        >>= (λ s'. done (forget_task s' task, true))))

-- The turns of run up to the one that sees the flag; a turn that executes nothing sleeps.
unfoldable pub run_from : List Moment → P4PUpdateManager → Outcome P4PUpdateManager
run_from [] s = done s
run_from (w ∷ ws) s = run_step w s >>= (λ r. if w.stopped then done r.0 else run_from ws r.0)

unfoldable pub run : List Moment → P4PUpdateManager → Outcome (P4PUpdateManager × Bool)
run ws s = elim s.isp_mgr [
  | none ↦ done (s, false)
  | some _ ↦ run_from ws s >>= (λ s'. done (s', true))
]
