-- ===== src/PidMatrix/Updates.antt =====
-- What get_by_pid and the set of PIDs are after each update, and that all keep the matrix consistent.
use alto.Prelude.{
  ℕ, ◌≡◌, refl, sym, ◌∙◌, ap, Bool, false, ◌&&◌, List, [], arith, none, some, inl, inr,
  Option-cases, if◌then◌else◌, length,
}
use alto.Pid.{Pid, eq}
use alto.Pid.Order.{eq_iff}
use alto.Pid.Sets.{has, IsSorted}
use alto.PidMatrix.{
  IndexedPid, PidMatrix, VCost, or_default, find, number_pids, pids_of, write, set_pids, get_by_pid,
  set, set_by_pid, empty_matrix,
}
use alto.PidMatrix.Positions.{index_of, IsIndexed, number_pids-IsIndexed, empty-IsIndexed}
use alto.PidMatrix.Entries.{IsConsistent, has_found, get_index, pids_of-number_pids, length-pids_of}

-- `has` of the matrix's PIDs: those that get_pids_set answers.
abbrev pub has_pid {ℓ} : {V : Type ℓ} → PidMatrix V → Pid → Bool
has_pid m p = has (pids_of m.pids) p

module _ {ℓ} {V : Type ℓ} where
  pub set_pids_pids :
      (m : PidMatrix V) (locs : List Pid) → IsSorted locs → pids_of (set_pids m locs).pids ≡ locs
  unfolding set_pids has
  set_pids_pids m locs s = pids_of-number_pids locs [] s (λ q h. refl)

  pub set_pids-IsConsistent :
      (m : PidMatrix V) (locs : List Pid) → IsSorted locs → IsConsistent (set_pids m locs)
  unfolding set_pids
  set_pids-IsConsistent m locs s = record {
    indexed = number_pids-IsIndexed locs [] empty-IsIndexed;
    square = sym (length-pids_of (number_pids locs [])) ∙ ap length (set_pids_pids m locs s);
    sorted = rw (set_pids_pids m locs s) s;
  }

  pub empty_matrix-IsConsistent : IsConsistent (empty_matrix {V = V})
  unfolding empty_matrix IsSorted
  empty_matrix-IsConsistent = record { indexed = empty-IsIndexed; square = refl; sorted = tt }

  -- A PID that the matrix lacks is unknown to get_by_pid.
  pub missing :
      (m : PidMatrix V) (p q : Pid) (d : VCost V)
      → (has_pid m p && has_pid m q) ≡ false
      → get_by_pid m p q d ≡ d
  unfolding get_by_pid
  missing m p q d h = ground (arith, has_found m.pids p, has_found m.pids q)

  -- set_by_pid answers true exactly if the matrix has both PIDs.
  pub set_by_pid_known :
      (m : PidMatrix V) (p q : Pid) (v : VCost V)
      → (set_by_pid m p q v).1 ≡ (has_pid m p && has_pid m q)
  unfolding set_by_pid
  set_by_pid_known m p q v = ground (arith, has_found m.pids p, has_found m.pids q)

  found_index :
      (m : PidMatrix V) (p : Pid)
      → index_of m.pids p ≡ elim (find m.pids p) [ none ↦ none | some e ↦ some e.index ]
  unfolding index_of
  found_index m p = refl

  set_get :
      (m : PidMatrix V) (i j : IndexedPid) (v : VCost V) (k l : Pid) (d : VCost V)
      → get_by_pid (set m i j v) k l d ≡ elim (index_of m.pids k) [
        | none ↦ d
        | some a ↦ elim (index_of m.pids l) [
          | none ↦ d
          | some b ↦ or_default (write m.cells i.index j.index v a b) d
        ]
      ]
  unfolding set
  set_get m i j v k l d = get_index (set m i j v) k l d

  -- Two PIDs at one position are one.
  one_position :
      (m : PidMatrix V) (p q : Pid) (i : ℕ)
      → IsConsistent m
      → index_of m.pids p ≡ some i
      → index_of m.pids q ≡ some i
      → p ≡ q
  unfolding IsIndexed
  one_position m p q i h e f = ground (arith, (h.indexed p i).0 e, (h.indexed q i).0 f)

  -- After set_by_pid on two PIDs of a consistent matrix, get_by_pid answers the new value for them, and
  -- the default if that is NaN, and what it answered before for every other two PIDs; on PIDs that
  -- the matrix lacks set_by_pid changes no answer.
  pub get_by_pid-set_by_pid :
      (m : PidMatrix V) (p q k l : Pid) (v d : VCost V)
      → IsConsistent m
      → get_by_pid (set_by_pid m p q v).0 k l d ≡ (
          if (has_pid m p && has_pid m q) && (eq p k && eq q l)
          then or_default v d
          else get_by_pid m k l d)
  unfolding set_by_pid write
  get_by_pid-set_by_pid m p q k l v d h = elim (Option-cases (find m.pids p)) [
    | inl e ↦ ground (arith, has_found m.pids p)
    | inr (i, e) ↦ elim (Option-cases (find m.pids q)) [
      | inl f ↦ ground (arith, has_found m.pids q)
      | inr (j, f) ↦ ground (
        arith,
        has_found m.pids p,
        has_found m.pids q,
        set_get m i j v k l d,
        get_index m k l d,
        found_index m p,
        found_index m q,
        one_position m p k i.index h,
        one_position m q l j.index h,
        (eq_iff p k).0,
        (eq_iff q l).0,
        (eq_iff p k).1,
        (eq_iff q l).1,
      )
    ]
  ]
