-- ===== src/PidMatrix/Tests.antt =====
-- Runs and witnesses for the matrix of costs.
use alto.Prelude.{ℕ, ◌≡◌, refl, true, false, ◌&&◌, ◌||◌, [], ◌∷◌, none, some, if◌then◌else◌}
use alto.Prelude.Order.{equiv}
use alto.Pid.{Pid, eq, less, bytes_less, bool_less}
use alto.Pid.Sets.{has, same, insert, insert_all, erase}
use alto.PidMatrix.{
  PidMatrix, or_default, find, push_back, number_pids, write, blank, new_position, copy_cell,
  copy_row, copy_rows, set, get, set_pids, set_pids_vector, add_pid, remove_pid, get_by_pid,
  set_by_pid, empty_matrix, get_num_rows, get_num_cols,
}
use alto.PidMatrix.Entries.{IsConsistent, get_by_pid-set_pids}
use alto.PidMatrix.Updates.{has_pid, get_by_pid-set_by_pid}
use alto.PidMatrix.Members.{get_by_pid-remove_pid}
use alto.PidMatrix.Reachable.{
  Reachable, created, vector_set, pid_added, pid_removed, value_set, Reachable-IsConsistent,
}

abbrev west : Pid
west = record { isp = b'w' ∷ []; num = 1; external = false }

abbrev east : Pid
east = record { isp = b'e' ∷ []; num = 2; external = false }

abbrev far : Pid
far = record { isp = b'f' ∷ []; num = 0; external = true }

-- West and east, with the cost 7 from west to east.
abbrev priced : PidMatrix ℕ
priced = (set_by_pid (set_pids_vector empty_matrix (east ∷ west ∷ [])) west east (some 7)).0

abbrev priced-Reachable : Reachable priced
priced-Reachable = value_set west east (some 7) (vector_set (east ∷ west ∷ []) created)

-- The cost survives a PID that comes and goes.
kept : get_by_pid (remove_pid (add_pid priced far).0 far).0 west east none ≡ some 7
unfolding find push_back number_pids write blank or_default new_position copy_cell copy_row
    copy_rows set_pids set_pids_vector add_pid remove_pid set set_by_pid get get_by_pid empty_matrix
    get_num_rows get_num_cols insert insert_all erase same less bytes_less bool_less equiv
kept = refl

two_rows : get_num_rows priced ≡ 2
unfolding find push_back number_pids write blank or_default new_position copy_cell copy_row
    copy_rows set_pids set_pids_vector add_pid remove_pid set set_by_pid get get_by_pid empty_matrix
    get_num_rows get_num_cols insert insert_all erase same less bytes_less bool_less equiv
two_rows = refl

two_cols : get_num_cols priced ≡ 2
unfolding find push_back number_pids write blank or_default new_position copy_cell copy_row
    copy_rows set_pids set_pids_vector add_pid remove_pid set set_by_pid get get_by_pid empty_matrix
    get_num_rows get_num_cols insert insert_all erase same less bytes_less bool_less equiv
two_cols = refl

get_by_pid-set_pids_example :
    get_by_pid (set_pids priced (far ∷ west ∷ east ∷ [])) west east (some 0) ≡ (
      if has (far ∷ west ∷ east ∷ []) west && has (far ∷ west ∷ east ∷ []) east
      then get_by_pid priced west east (some 0)
      else some 0)
get_by_pid-set_pids_example =
    get_by_pid-set_pids priced (far ∷ west ∷ east ∷ []) west east (some 0)
      (Reachable-IsConsistent priced priced-Reachable)

get_by_pid-set_by_pid_example :
    get_by_pid (set_by_pid priced east west (some 3)).0 east west (some 0) ≡ (
      if (has_pid priced east && has_pid priced west) && (eq east east && eq west west)
      then or_default (some 3) (some 0)
      else get_by_pid priced east west (some 0))
get_by_pid-set_by_pid_example =
    get_by_pid-set_by_pid priced east west east west (some 3) (some 0)
      (Reachable-IsConsistent priced priced-Reachable)

get_by_pid-remove_pid_example :
    (get_by_pid (remove_pid priced west).0 west east (some 0)
      ≡ (if eq west west || eq west east then some 0 else get_by_pid priced west east (some 0)))
    × ((remove_pid priced west).1 ≡ has_pid priced west)
get_by_pid-remove_pid_example =
    get_by_pid-remove_pid priced west west east (some 0)
      (Reachable-IsConsistent priced priced-Reachable)

Reachable-IsConsistent_example : IsConsistent (remove_pid (add_pid priced far).0 far).0
Reachable-IsConsistent_example =
    Reachable-IsConsistent (remove_pid (add_pid priced far).0 far).0
      (pid_removed far (pid_added far priced-Reachable))
