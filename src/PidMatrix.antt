-- ===== src/PidMatrix.antt =====
-- common-server/src/include/p4pserver/pid_matrix.h: a square matrix of costs between PIDs, with the
-- vector of its PIDs and their positions. A cost is an optional number, `none` being NaN, which is
-- also what an entry never written holds. Callers hold the lock that check_read and check_write ask
-- for; `changed_fired` is what LocalObject::changed leaves behind.
pub mod Positions
pub mod Copying
pub mod Entries
pub mod Unions
pub mod Members
pub mod Reachable
pub mod Updates
mod Tests
use alto.Prelude.{
  ℕ, zero, suc, ◌==◌, Bool, true, false, ◌&&◌, List, [], ◌∷◌, ◌++◌, map, Option, none, some,
  if◌then◌else◌, length, get_elem?,
}
use alto.Pid.{Pid}
use alto.Pid.Sets.{same, insert, insert_all, erase, set_difference, set_union}

pub record IndexedPid : Type 0 where
  pub pid : Pid
  pub index : ℕ

-- VCost: a double whose NaN says that there is no entry.
abbrev pub VCost {ℓ} : Type ℓ → Type ℓ
VCost V = Option V

-- std::isnan(c) ? dflt : c
unfoldable pub or_default {ℓ} : {V : Type ℓ} → VCost V → VCost V → VCost V
or_default none dflt = dflt
or_default (some v) dflt = some v

-- The matrix has `size` rows and columns.
pub record PidMatrix {ℓ} (V : Type ℓ) : Type ℓ where
  pub pids : List IndexedPid
  pub size : ℕ
  pub cells : ℕ → ℕ → VCost V
  pub changed_fired : Bool

-- `pids_by_pid_->find(pid)`, an index that tells PIDs apart by operator<
unfoldable pub find : List IndexedPid → Pid → Option IndexedPid
find [] p = none
find (e ∷ es) p = if same e.pid p then some e else find es p

-- `pids_by_idx_->push_back(IndexedPID(p, pids_by_idx_->size()))`, which the unique index on PIDs
-- refuses for a PID that is there.
unfoldable pub push_back : List IndexedPid → Pid → List IndexedPid
push_back es p = elim (find es p) [
  | none ↦ es ++ record { pid = p; index = length es } ∷ []
  | some _ ↦ es
]

unfoldable pub number_pids : List Pid → List IndexedPid → List IndexedPid
number_pids [] es = es
number_pids (p ∷ ps) es = number_pids ps (push_back es p)

abbrev pub pids_of : List IndexedPid → List Pid
pids_of es = map (λ e. e.pid) es

-- Where the PID at a position of the old matrix stands in the new one. The position is in range
-- in a matrix as the operations build it (IsConsistent of Positions).
unfoldable pub new_position : List IndexedPid → List IndexedPid → ℕ → Option ℕ
new_position old new i = elim (get_elem? old i) [
  | none ↦ none
  | some e ↦ elim (find new e.pid) [ none ↦ none | some f ↦ some f.index ]
]

module _ {ℓ} {V : Type ℓ} where
  -- `matrix(i, j) = v`
  unfoldable pub write : (ℕ → ℕ → VCost V) → ℕ → ℕ → VCost V → ℕ → ℕ → VCost V
  write c i j v k l = if i == k && j == l then v else c k l

  -- The matrix that no one has written to.
  unfoldable pub blank : ℕ → ℕ → VCost V
  blank i j = none

  unfoldable pub empty_matrix : PidMatrix V
  empty_matrix = record { pids = []; size = 0; cells = blank; changed_fired = false }

  -- The loop body of set_pids.
  unfoldable pub copy_cell :
      PidMatrix V → List IndexedPid → ℕ → ℕ → (ℕ → ℕ → VCost V) → ℕ → ℕ → VCost V
  copy_cell m new i j c = elim (m.cells i j) [
    | none ↦ c
    | some v ↦ elim (new_position m.pids new i) [
      | none ↦ c
      | some a ↦ elim (new_position m.pids new j) [ none ↦ c | some b ↦ write c a b (some v) ]
    ]
  ]

  -- for j = 0, …, n - 1
  unfoldable pub copy_row :
      PidMatrix V → List IndexedPid → ℕ → ℕ → (ℕ → ℕ → VCost V) → ℕ → ℕ → VCost V
  copy_row m new i zero c = c
  copy_row m new i (suc j) c = copy_cell m new i j (copy_row m new i j c)

  -- for i = 0, …, n - 1
  unfoldable pub copy_rows : PidMatrix V → List IndexedPid → ℕ → (ℕ → ℕ → VCost V) → ℕ → ℕ → VCost V
  copy_rows m new zero c = c
  copy_rows m new (suc i) c = copy_row m new i m.size (copy_rows m new i c)

  -- set_pids on a set, whose elements come in their order
  unfoldable pub set_pids : PidMatrix V → List Pid → PidMatrix V
  set_pids m locs =
      let new = number_pids locs [] in
      record {
        pids = new;
        size = length locs;
        cells = copy_rows m new m.size blank;
        changed_fired = true;
      }

  -- set_pids on a vector
  unfoldable pub set_pids_vector : PidMatrix V → List Pid → PidMatrix V
  set_pids_vector m locs = set_pids m (insert_all locs [])

  unfoldable pub add_pid : PidMatrix V → Pid → PidMatrix V × Bool
  add_pid m p = elim (find m.pids p) [
    | some _ ↦ (m, false)
    | none ↦ (set_pids m (insert p (insert_all (pids_of m.pids) [])), true)
  ]

  -- add_pids on a set
  unfoldable pub add_pids : PidMatrix V → List Pid → PidMatrix V
  add_pids m ps =
      let new_pids = set_difference ps (pids_of m.pids) in
      elim new_pids [ [] ↦ m | ◌∷◌ q qs ↦ set_pids m (set_union (pids_of m.pids) (q ∷ qs)) ]

  -- add_pids on a vector
  unfoldable pub add_pids_vector : PidMatrix V → List Pid → PidMatrix V
  add_pids_vector m ps = add_pids m (insert_all ps [])

  unfoldable pub remove_pid : PidMatrix V → Pid → PidMatrix V × Bool
  remove_pid m p = elim (find m.pids p) [
    | none ↦ (m, false)
    | some _ ↦ (set_pids m (erase p (insert_all (pids_of m.pids) [])), true)
  ]

  unfoldable pub get : PidMatrix V → IndexedPid → IndexedPid → VCost V → VCost V
  get m src dst dflt = or_default (m.cells src.index dst.index) dflt

  unfoldable pub get_by_pid : PidMatrix V → Pid → Pid → VCost V → VCost V
  get_by_pid m src dst dflt = elim (find m.pids src) [
    | none ↦ dflt
    | some i ↦ elim (find m.pids dst) [ none ↦ dflt | some j ↦ get m i j dflt ]
  ]

  unfoldable pub set : PidMatrix V → IndexedPid → IndexedPid → VCost V → PidMatrix V
  set m src dst v = record {
    pids = m.pids;
    size = m.size;
    cells = write m.cells src.index dst.index v;
    changed_fired = true;
  }

  unfoldable pub set_by_pid : PidMatrix V → Pid → Pid → VCost V → PidMatrix V × Bool
  set_by_pid m src dst v = elim (find m.pids src) [
    | none ↦ (m, false)
    | some i ↦ elim (find m.pids dst) [ none ↦ (m, false) | some j ↦ (set m i j v, true) ]
  ]

  pub get_pids_vector : PidMatrix V → List IndexedPid
  get_pids_vector m = m.pids

  unfoldable pub get_num_rows : PidMatrix V → ℕ
  get_num_rows m = m.size

  unfoldable pub get_num_cols : PidMatrix V → ℕ
  get_num_cols m = m.size

  -- do_copy_properties: the pointers of a new object point into its own container.
  unfoldable pub do_copy_properties : PidMatrix V → PidMatrix V
  do_copy_properties m = record {
    pids = m.pids;
    size = m.size;
    cells = m.cells;
    changed_fired = false;
  }
