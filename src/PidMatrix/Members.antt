-- ===== src/PidMatrix/Members.antt =====
-- Adding and removing PIDs: which PIDs the matrix has afterwards, and what get_by_pid answers.
use alto.Prelude.{
  ◌≡◌, refl, ap, true, not, ◌||◌, List, [], arith, inl, inr, Option-cases, if◌then◌else◌,
}
use alto.Pid.{Pid, eq}
use alto.Pid.Order.{eq_iff}
use alto.Pid.Sets.{same, has, IsSorted, same_iff, insert, insert_all, erase}
use alto.Pid.SetLaws.{has-insert, has-insert_all, has-erase, insert-IsSorted, insert_all-IsSorted}
use alto.PidMatrix.{PidMatrix, VCost, find, pids_of, set_pids, add_pid, remove_pid, get_by_pid}
use alto.PidMatrix.Entries.{IsConsistent, has_found, get_by_pid-set_pids}
use alto.PidMatrix.Updates.{has_pid, set_pids_pids, missing}

same_eq : (p q : Pid) → same p q ≡ eq p q
same_eq p q = ground (arith, (same_iff p q).0, (same_iff p q).1, (eq_iff p q).0, (eq_iff p q).1)

abbrev pub set_of : List Pid → List Pid
set_of ps = insert_all ps []

pub set_of-IsSorted : (ps : List Pid) → IsSorted (set_of ps)
unfolding IsSorted
set_of-IsSorted ps = insert_all-IsSorted ps [] tt

pub has-set_of : (ps : List Pid) (q : Pid) → has (set_of ps) q ≡ has ps q
unfolding has
has-set_of ps q = ground (arith, has-insert_all ps [] q)

module _ {ℓ} {V : Type ℓ} where
  -- Both results of an update that takes the set `locs` in.
  pub has_pid-set_pids :
      (m : PidMatrix V) (locs : List Pid) (q : Pid)
      → IsSorted locs
      → has_pid (set_pids m locs) q ≡ has locs q
  has_pid-set_pids m locs q s = ap (λ t. has t q) (set_pids_pids m locs s)

  -- set_pids to more PIDs changes no answer.
  pub widened :
      (m : PidMatrix V) (locs : List Pid) (p q : Pid) (d : VCost V)
      → IsConsistent m
      → ((x : Pid) → has_pid m x ≡ true → has locs x ≡ true)
      → get_by_pid (set_pids m locs) p q d ≡ get_by_pid m p q d
  widened m locs p q d h w =
      ground (arith, get_by_pid-set_pids m locs p q d h, missing m p q d, w p, w q)

  -- After add_pid a consistent matrix has the new PID and those it had, and add_pid answers whether
  -- the PID is new.
  pub has_pid-add_pid :
      (m : PidMatrix V) (x q : Pid)
      → (has_pid (add_pid m x).0 q ≡ (eq x q || has_pid m q))
        × ((add_pid m x).1 ≡ not (has_pid m x))
  unfolding add_pid
  has_pid-add_pid m x q = elim (Option-cases (find m.pids x)) [
    | inr (e, f) ↦
        rw (f, add_pid)
          (ground (arith, has_found m.pids x, (eq_iff x q).0), ground (arith, has_found m.pids x))
    | inl f ↦
        rw (f, add_pid)
          (
            ground (
              arith,
              has_pid-set_pids m (insert x (set_of (pids_of m.pids))) q
                  (insert-IsSorted x (set_of (pids_of m.pids)) (set_of-IsSorted (pids_of m.pids))),
              has-insert x q (set_of (pids_of m.pids)),
              has-set_of (pids_of m.pids) q,
              same_eq x q,
            ),
            ground (arith, has_found m.pids x),
          )
  ]

  -- Adding a PID to a consistent matrix changes no answer of get_by_pid: the old entries stay, and
  -- those of the new PID are the default.
  pub get_by_pid-add_pid :
      (m : PidMatrix V) (x p q : Pid) (d : VCost V)
      → IsConsistent m
      → get_by_pid (add_pid m x).0 p q d ≡ get_by_pid m p q d
  unfolding add_pid
  get_by_pid-add_pid m x p q d h = elim (Option-cases (find m.pids x)) [
    | inr (e, f) ↦ rw (f, add_pid) refl
    | inl f ↦
        rw (f, add_pid)
          (widened m (insert x (set_of (pids_of m.pids))) p q d h (λ y k.
            ground
              (arith, has-insert x y (set_of (pids_of m.pids)), has-set_of (pids_of m.pids) y)))
  ]

  -- After remove_pid, which answers whether the consistent matrix had the PID, get_by_pid answers the
  -- default for two PIDs one of which was removed, and what it answered before for all others.
  pub get_by_pid-remove_pid :
      (m : PidMatrix V) (x p q : Pid) (d : VCost V)
      → IsConsistent m
      → (get_by_pid (remove_pid m x).0 p q d ≡ (if eq x p || eq x q then d else get_by_pid m p q d))
        × ((remove_pid m x).1 ≡ has_pid m x)
  unfolding remove_pid
  get_by_pid-remove_pid m x p q d h = elim (Option-cases (find m.pids x)) [
    | inl f ↦
        rw (f, remove_pid)
          (
            ground (arith, has_found m.pids x, missing m p q d, (eq_iff x p).0, (eq_iff x q).0),
            ground (arith, has_found m.pids x),
          )
    | inr (e, f) ↦
        rw (f, remove_pid)
          (
            ground (
              arith,
              get_by_pid-set_pids m (erase x (set_of (pids_of m.pids))) p q d h,
              has-erase x p (set_of (pids_of m.pids)) (set_of-IsSorted (pids_of m.pids)),
              has-erase x q (set_of (pids_of m.pids)) (set_of-IsSorted (pids_of m.pids)),
              has-set_of (pids_of m.pids) p,
              has-set_of (pids_of m.pids) q,
              missing m p q d,
              same_eq x p,
              same_eq x q,
            ),
            ground (arith, has_found m.pids x),
          )
  ]
