-- ===== src/UpdateManager/Steps.antt =====
-- What a turn of run executes.
use alto.Prelude.{
  ℕ, ◌≡◌, ◌⊎◌, refl, ◌==◌, true, false, ◌∷◌, some, inl, inr, get_elem?, get_elem?_ge, length, arith,
  Perm, Bool-cases,
}
use alto.Prelude.Int.{ℤ, ltb_ℤ}
use alto.Prelude.Run.{ok}
use alto.RandomAccessSet
use alto.RandomAccessSet.{RandomAccessSet}
use alto.MaxHeapWithDelete
use alto.MaxHeapWithDelete.Remove.{pop_lem}
use alto.UpdateManager.{
  P4PUpdateManager, Task, task_less, sooner, done, ◌>>=◌, forget_task, Moment, execute_task,
  run_step,
}
use alto.UpdateManager.Keys.{task_less-IsStrictWeak, sooner-IsStrictWeak}
use alto.UpdateManager.Queue.{IsQueue}

filled_of_top :
    (q : RandomAccessSet Task) (t : Task)
    → MaxHeapWithDelete.top q ≡ ok t
    → RandomAccessSet.empty q ≡ false
unfolding MaxHeapWithDelete.top
filled_of_top q t e = elim (Bool-cases (length q.vec == 0)) [
  | inr filled ↦ filled
  | inl empty ↦ absurd (ground (arith, empty, get_elem?_ge q.vec 0 (ground (arith, empty)), e))
]

later_still :
    (now : ℤ) (a b : Task)
    → ltb_ℤ now a.exectime ≡ true
    → sooner b a ≡ false
    → ltb_ℤ now b.exectime ≡ true
unfolding sooner
later_still now a b h k = ground arith

-- A turn that the flag does not stop, on a valid queue: either it executes nothing, the state is as
-- it was, and every task in the queue is still to come; or it takes a task out that is due and that no
-- other task precedes, and executes it on the queue of the others.
pub run_step_lem :
    (w : Moment) (s : P4PUpdateManager)
    → IsQueue s.tasks
    → w.stopped ≡ false
    → ((run_step w s ≡ done (s, false))
        × ((i : ℕ) (t : Task) → get_elem? s.tasks.vec i ≡ some t → ltb_ℤ w.now t.exectime ≡ true))
      ⊎ ((task : Task) × (rest : RandomAccessSet Task) × IsQueue rest
          × Perm (task ∷ rest.vec) s.tasks.vec
          × (ltb_ℤ w.now task.exectime ≡ false)
          × ((i : ℕ) (t : Task) → get_elem? s.tasks.vec i ≡ some t → sooner t task ≡ false)
          × (run_step w s ≡ (
              execute_task w (record s { tasks = rest }) task
              >>= (λ s'. done (forget_task s' task, true)))))
unfolding run_step
run_step_lem w s v running =
    elim (pop_lem task_less sooner task_less-IsStrictWeak sooner-IsStrictWeak s.tasks v) [
      | inl (nothing, _) ↦
          inl (rw (running, nothing, run_step) refl, λ i t e. absurd (ground (arith, nothing, e)))
      | inr (task, rest, tops, pops, v', p, first) ↦
          let filled : RandomAccessSet.empty s.tasks ≡ false = filled_of_top s.tasks task tops in
          elim (Bool-cases (ltb_ℤ w.now task.exectime)) [
            | inl waits ↦ inl (
              rw (running, filled, tops, waits, run_step) refl,
              λ i t e. later_still w.now task t waits (first i t e),
            )
            | inr due ↦ inr (
              task,
              rest,
              v',
              p,
              due,
              first,
              rw (running, filled, tops, due, pops, run_step) refl,
            )
          ]
    ]
