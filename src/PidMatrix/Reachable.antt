-- ===== src/PidMatrix/Reachable.antt =====
-- The matrices that a program can come to, by the operations on a new one.
use alto.Prelude.{List, inl, inr, Option-cases}
use alto.Pid.{Pid}
use alto.Pid.Sets.{IsSorted, insert, erase}
use alto.Pid.SetLaws.{insert-IsSorted, erase-IsSorted}
use alto.PidMatrix.{
  PidMatrix, VCost, find, pids_of, set_pids, set_pids_vector, add_pid, add_pids, add_pids_vector,
  remove_pid, set, set_by_pid, empty_matrix, do_copy_properties,
}
use alto.PidMatrix.Entries.{IsConsistent}
use alto.PidMatrix.Updates.{set_pids-IsConsistent, empty_matrix-IsConsistent}
use alto.PidMatrix.Members.{set_of, set_of-IsSorted}
use alto.PidMatrix.Unions.{add_pids-IsConsistent}

-- A PIDSet is sorted, being a std::set.
pub data Reachable {ℓ} {V : Type ℓ} : PidMatrix V → Type ℓ where
  created : Reachable empty_matrix
  pids_set :
      {m : PidMatrix V} (locs : List Pid)
      → IsSorted locs
      → Reachable m
      → Reachable (set_pids m locs)
  vector_set :
      {m : PidMatrix V} (locs : List Pid) → Reachable m → Reachable (set_pids_vector m locs)
  pid_added : {m : PidMatrix V} (p : Pid) → Reachable m → Reachable (add_pid m p).0
  pids_added :
      {m : PidMatrix V} (ps : List Pid) → IsSorted ps → Reachable m → Reachable (add_pids m ps)
  vector_added : {m : PidMatrix V} (ps : List Pid) → Reachable m → Reachable (add_pids_vector m ps)
  pid_removed : {m : PidMatrix V} (p : Pid) → Reachable m → Reachable (remove_pid m p).0
  value_set :
      {m : PidMatrix V} (p q : Pid) (v : VCost V) → Reachable m → Reachable (set_by_pid m p q v).0
  copied : {m : PidMatrix V} → Reachable m → Reachable (do_copy_properties m)

module _ {ℓ} {V : Type ℓ} where
  pub add_pid-IsConsistent :
      (m : PidMatrix V) (p : Pid) → IsConsistent m → IsConsistent (add_pid m p).0
  unfolding add_pid
  add_pid-IsConsistent m p h = elim (Option-cases (find m.pids p)) [
    | inr (e, f) ↦ rw (f, add_pid) h
    | inl f ↦
        rw (f, add_pid)
          (set_pids-IsConsistent m (insert p (set_of (pids_of m.pids)))
            (insert-IsSorted p (set_of (pids_of m.pids)) (set_of-IsSorted (pids_of m.pids))))
  ]

  pub remove_pid-IsConsistent :
      (m : PidMatrix V) (p : Pid) → IsConsistent m → IsConsistent (remove_pid m p).0
  unfolding remove_pid
  remove_pid-IsConsistent m p h = elim (Option-cases (find m.pids p)) [
    | inl f ↦ rw (f, remove_pid) h
    | inr (e, f) ↦
        rw (f, remove_pid)
          (set_pids-IsConsistent m (erase p (set_of (pids_of m.pids)))
            (erase-IsSorted p (set_of (pids_of m.pids)) (set_of-IsSorted (pids_of m.pids))))
  ]

  pub set_by_pid-IsConsistent :
      (m : PidMatrix V) (p q : Pid) (v : VCost V)
      → IsConsistent m
      → IsConsistent (set_by_pid m p q v).0
  unfolding set_by_pid set
  set_by_pid-IsConsistent m p q v h = elim (Option-cases (find m.pids p)) [
    | inl e ↦ rw (e, set_by_pid) h
    | inr (i, e) ↦ elim (Option-cases (find m.pids q)) [
      | inl f ↦ rw (e, f, set_by_pid) h
      | inr (j, f) ↦
          rw (e, f, set_by_pid)
            (record { indexed = h.indexed; square = h.square; sorted = h.sorted })
    ]
  ]

  -- In every matrix that a program can come to, the PIDs stand in their order, each is found at its own
  -- position and at no other, and there is one row and column for each.
  pub Reachable-IsConsistent : (m : PidMatrix V) → Reachable m → IsConsistent m
  unfolding set_pids_vector add_pids_vector do_copy_properties
  Reachable-IsConsistent _ created = empty_matrix-IsConsistent
  Reachable-IsConsistent _ (pids_set {m} locs s r) = set_pids-IsConsistent m locs s
  Reachable-IsConsistent _ (vector_set {m} locs r) =
      set_pids-IsConsistent m (set_of locs) (set_of-IsSorted locs)
  Reachable-IsConsistent _ (pid_added {m} p r) =
      add_pid-IsConsistent m p (Reachable-IsConsistent m r)
  Reachable-IsConsistent _ (pids_added {m} ps s r) =
      add_pids-IsConsistent m ps (Reachable-IsConsistent m r) s
  Reachable-IsConsistent _ (vector_added {m} ps r) =
      add_pids-IsConsistent m (set_of ps) (Reachable-IsConsistent m r) (set_of-IsSorted ps)
  Reachable-IsConsistent _ (pid_removed {m} p r) =
      remove_pid-IsConsistent m p (Reachable-IsConsistent m r)
  Reachable-IsConsistent _ (value_set {m} p q v r) =
      set_by_pid-IsConsistent m p q v (Reachable-IsConsistent m r)
  Reachable-IsConsistent _ (copied {m} r) =
      let h = Reachable-IsConsistent m r in
      record { indexed = h.indexed; square = h.square; sorted = h.sorted }
