-- ===== src/PidMatrix/Unions.antt =====
-- add_pids: the set_difference and set_union of the sorted PIDs with the ones to add.
use alto.Prelude.{◌≡◌, refl, ◌||◌, List, [], ◌∷◌, arith}
use alto.Pid.{Pid}
use alto.Pid.Sets.{has, IsSorted, set_difference, set_union}
use alto.Pid.SetLaws.{
  has-set_union, has-set_difference, set_union-IsSorted, set_difference-IsSorted,
}
use alto.PidMatrix.{PidMatrix, VCost, pids_of, set_pids, add_pids, add_pids_vector, get_by_pid}
use alto.PidMatrix.Entries.{IsConsistent}
use alto.PidMatrix.Updates.{has_pid, set_pids-IsConsistent}
use alto.PidMatrix.Members.{has_pid-set_pids, widened, set_of, set_of-IsSorted, has-set_of}

module _ {ℓ} {V : Type ℓ} where
  -- add_pids on the PIDs that are new.
  add_new : PidMatrix V → List Pid → PidMatrix V
  add_new m [] = m
  add_new m (q ∷ qs) = set_pids m (set_union (pids_of m.pids) (q ∷ qs))

  add_pids_lem :
      (m : PidMatrix V) (ps : List Pid)
      → add_pids m ps ≡ add_new m (set_difference ps (pids_of m.pids))
  unfolding add_pids add_new
  add_pids_lem m ps = ground arith

  has_pid-add_new :
      (m : PidMatrix V) (ds : List Pid) (q : Pid)
      → IsConsistent m
      → IsSorted ds
      → has_pid (add_new m ds) q ≡ (has ds q || has_pid m q)
  unfolding add_new has
  has_pid-add_new m [] q h s = refl
  has_pid-add_new m (x ∷ xs) q h s =
      let locs = set_union (pids_of m.pids) (x ∷ xs) in
      ground (
        arith,
        has_pid-set_pids m locs q (set_union-IsSorted (pids_of m.pids) (x ∷ xs) h.sorted s),
        has-set_union (pids_of m.pids) (x ∷ xs) q,
      )

  get-add_new :
      (m : PidMatrix V) (ds : List Pid) (p q : Pid) (d : VCost V)
      → IsConsistent m
      → get_by_pid (add_new m ds) p q d ≡ get_by_pid m p q d
  unfolding add_new
  get-add_new m [] p q d h = refl
  get-add_new m (x ∷ xs) p q d h =
      widened m (set_union (pids_of m.pids) (x ∷ xs)) p q d h
        (λ y k. ground (arith, has-set_union (pids_of m.pids) (x ∷ xs) y))

  add_new-IsConsistent :
      (m : PidMatrix V) (ds : List Pid) → IsConsistent m → IsSorted ds → IsConsistent (add_new m ds)
  unfolding add_new
  add_new-IsConsistent m [] h s = h
  add_new-IsConsistent m (x ∷ xs) h s =
      set_pids-IsConsistent m (set_union (pids_of m.pids) (x ∷ xs))
        (set_union-IsSorted (pids_of m.pids) (x ∷ xs) h.sorted s)

  new_pids-IsSorted :
      (m : PidMatrix V) (ps : List Pid)
      → IsConsistent m
      → IsSorted ps
      → IsSorted (set_difference ps (pids_of m.pids))
  new_pids-IsSorted m ps h s = set_difference-IsSorted ps (pids_of m.pids) s h.sorted

  pub add_pids-IsConsistent :
      (m : PidMatrix V) (ps : List Pid)
      → IsConsistent m
      → IsSorted ps
      → IsConsistent (add_pids m ps)
  add_pids-IsConsistent m ps h s =
      rw (add_pids_lem m ps)
        (add_new-IsConsistent m (set_difference ps (pids_of m.pids)) h (new_pids-IsSorted m ps h s))

  -- After add_pids on a vector of PIDs, a consistent matrix has those of the vector and those it had,
  -- and no answer of get_by_pid has changed.
  pub add_pids_union :
      (m : PidMatrix V) (ps : List Pid) (p q : Pid) (d : VCost V)
      → IsConsistent m
      → (has_pid (add_pids_vector m ps) q ≡ (has ps q || has_pid m q))
        × (get_by_pid (add_pids_vector m ps) p q d ≡ get_by_pid m p q d)
  unfolding add_pids_vector
  add_pids_union m ps p q d h =
      let ds = set_difference (set_of ps) (pids_of m.pids) in
      let sorted = new_pids-IsSorted m (set_of ps) h (set_of-IsSorted ps) in
      rw (add_pids_lem m (set_of ps), has_pid-add_new m ds q h sorted, get-add_new m ds p q d h)
        (
          ground (
            arith,
            has-set_difference (set_of ps) (pids_of m.pids) q (set_of-IsSorted ps) h.sorted,
            has-set_of ps q,
          ),
          refl,
        )
