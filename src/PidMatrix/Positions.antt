-- ===== src/PidMatrix/Positions.antt =====
-- Positions: finding a PID and looking at a position invert each other.
use alto.Prelude.{
  ℕ, ◌<◌, ◌≡◌, ◌==◌, List, [], ◌∷◌, ◌++◌, arith, Option, none, some, inl, inr, Option-cases, length,
  get_elem?, get_elem?-append, lt_of_get_elem?, if◌then◌else◌, ◌↔◌,
}
use alto.Pid.{Pid}
use alto.Pid.Sets.{same, same_iff}
use alto.PidMatrix.{IndexedPid, find, push_back, number_pids}

-- The position that the index on PIDs answers.
unfoldable pub index_of : List IndexedPid → Pid → Option ℕ
index_of es p = elim (find es p) [ none ↦ none | some e ↦ some e.index ]

-- The PID at a position.
unfoldable pub pid_at : List IndexedPid → ℕ → Option Pid
pid_at es i = elim (get_elem? es i) [ none ↦ none | some e ↦ some e.pid ]

-- Every PID has one position, and is found with it.
unfoldable pub IsIndexed : List IndexedPid → Type 0
IsIndexed es = (p : Pid) (i : ℕ) → (index_of es p ≡ some i) ↔ (pid_at es i ≡ some p)

pub index_of-append :
    (es : List IndexedPid) (e : IndexedPid) (p : Pid)
    → index_of (es ++ e ∷ []) p ≡ elim (index_of es p) [
      | some i ↦ some i
      | none ↦ (if same e.pid p then some e.index else none)
    ]
unfolding index_of find
index_of-append [] e p = ground arith
index_of-append (x ∷ es) e p = ground (arith, index_of-append es e p)

pub pid_at-append :
    (es : List IndexedPid) (e : IndexedPid) (i : ℕ)
    → pid_at (es ++ e ∷ []) i ≡ (if i == length es then some e.pid else pid_at es i)
unfolding pid_at
pid_at-append es e i = ground (arith, get_elem?-append es e i)

pub lt_of_pid_at : (es : List IndexedPid) (i : ℕ) (p : Pid) → pid_at es i ≡ some p → i < length es
unfolding pid_at
lt_of_pid_at es i p h = elim (Option-cases (get_elem? es i)) [
  | inl e ↦ absurd (ground arith)
  | inr (x, e) ↦ lt_of_get_elem? es i x e
]

pub empty-IsIndexed : IsIndexed []
unfolding IsIndexed index_of pid_at find
empty-IsIndexed p i = ground arith

pub push_back-IsIndexed :
    (es : List IndexedPid) (p : Pid) → IsIndexed es → IsIndexed (push_back es p)
unfolding IsIndexed push_back index_of
push_back-IsIndexed es p h q i = elim (Option-cases (find es p)) [
  | inr (e, found) ↦ rw (found, push_back) (h q i)
  | inl missing ↦
      rw (missing, push_back)
        (ground (
          arith,
          index_of-append es (record { pid = p; index = length es }) q,
          pid_at-append es (record { pid = p; index = length es }) i,
          same_iff p q,
          h q i,
          h p i,
          h q (length es),
          lt_of_pid_at es i q,
          lt_of_pid_at es (length es) q,
        ))
]

pub number_pids-IsIndexed :
    (ps : List Pid) (es : List IndexedPid) → IsIndexed es → IsIndexed (number_pids ps es)
unfolding number_pids
number_pids-IsIndexed [] es h = h
number_pids-IsIndexed (p ∷ ps) es h =
    number_pids-IsIndexed ps (push_back es p) (push_back-IsIndexed es p h)
