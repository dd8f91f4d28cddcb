-- ===== src/PidMatrix/Entries.antt =====
-- What get_by_pid answers after set_pids and after set_by_pid.
use alto.Prelude.{
  ℕ, ◌≡◌, refl, sym, ◌∙◌, ap, true, false, ◌&&◌, ◌||◌, List, [], ◌∷◌, ◌++◌, arith, none, some, inl,
  inr, Option-cases, ltb, if◌then◌else◌, suc, length,
}
use mathlib.Core.List.{append-nil, append_assoc}
use alto.Pid.{Pid}
use alto.Pid.Sets.{same, has, IsSorted, same_iff, same_refl, less_irrefl}
use alto.PidMatrix.{
  IndexedPid, PidMatrix, VCost, or_default, find, push_back, number_pids, pids_of, blank,
  new_position, copy_rows, set_pids, get, get_by_pid,
}
use alto.PidMatrix.Positions.{
  index_of, IsIndexed, lt_of_pid_at, number_pids-IsIndexed, empty-IsIndexed,
}
use alto.PidMatrix.Copying.{new_position_lem, rows_at}

pub has-append : (ps qs : List Pid) (q : Pid) → has (ps ++ qs) q ≡ (has ps q || has qs q)
unfolding has
has-append [] qs q = refl
has-append (p ∷ ps) qs q = ground (arith, has-append ps qs q)

pub pids_of-append : (es fs : List IndexedPid) → pids_of (es ++ fs) ≡ pids_of es ++ pids_of fs
pids_of-append [] fs = refl
pids_of-append (e ∷ es) fs = ap (λ t. e.pid ∷ t) (pids_of-append es fs)

pub length-pids_of : (es : List IndexedPid) → length (pids_of es) ≡ length es
length-pids_of [] = refl
length-pids_of (e ∷ es) = ap suc (length-pids_of es)

-- A PID is found exactly if it is one of the PIDs.
pub has_found :
    (es : List IndexedPid) (p : Pid)
    → has (pids_of es) p ≡ elim (find es p) [ none ↦ false | some _ ↦ true ]
unfolding has find
has_found [] p = refl
has_found (e ∷ es) p = ground (arith, has_found es p)

pub has_index :
    (es : List IndexedPid) (p : Pid)
    → has (pids_of es) p ≡ elim (index_of es p) [ none ↦ false | some _ ↦ true ]
unfolding index_of
has_index es p = ground (arith, has_found es p)

pub has-push_back :
    (es : List IndexedPid) (p q : Pid)
    → has (pids_of (push_back es p)) q ≡ (same p q || has (pids_of es) q)
unfolding push_back has
has-push_back es p q = elim (Option-cases (find es p)) [
  | inr (e, f) ↦ rw (f, push_back) (ground (arith, has_found es p, (same_iff p q).0))
  | inl f ↦
      rw
        (
          f,
          push_back,
          pids_of-append es (record { pid = p; index = length es } ∷ []),
          has-append (pids_of es) (p ∷ []) q,
        )
        (ground arith)
]

pub has-number_pids :
    (ps : List Pid) (es : List IndexedPid) (q : Pid)
    → has (pids_of (number_pids ps es)) q ≡ (has ps q || has (pids_of es) q)
unfolding number_pids has
has-number_pids [] es q = refl
has-number_pids (p ∷ ps) es q =
    ground (arith, has-number_pids ps (push_back es p) q, has-push_back es p q)

-- A set of PIDs is numbered in its order.
pub pids_of-number_pids :
    (ps : List Pid) (es : List IndexedPid)
    → IsSorted ps
    → ((q : Pid) → has ps q ≡ true → has (pids_of es) q ≡ false)
    → pids_of (number_pids ps es) ≡ pids_of es ++ ps
unfolding number_pids has IsSorted push_back
pids_of-number_pids [] es s h = sym (append-nil (pids_of es))
pids_of-number_pids (p ∷ ps) es s h =
    pids_of-number_pids ps (push_back es p) s.1
      (λ q m. ground (arith, has-push_back es p q, h q, s.0 q m, (same_iff p q).0, less_irrefl p))
    ∙ rw (added) (append_assoc (pids_of es) (p ∷ []) ps)
  where
    added : pids_of (push_back es p) ≡ pids_of es ++ p ∷ []
    added = elim (Option-cases (find es p)) [
      | inr (e, f) ↦ absurd (ground (arith, has_found es p, h p, same_refl p))
      | inl f ↦ rw (f, push_back) (pids_of-append es (record { pid = p; index = length es } ∷ []))
    ]

pub position_of :
    (old new : List IndexedPid) (p : Pid) (a : ℕ)
    → IsIndexed new
    → index_of new p ≡ some a
    → new_position new old a ≡ index_of old p
unfolding IsIndexed
position_of old new p a h e = ground (arith, new_position_lem new old a, (h p a).0 e)

-- PIDs have their positions, one for each row and column, and stand in their order.
pub record IsConsistent {ℓ} {V : Type ℓ} (m : PidMatrix V) : Type 0 where
  pub indexed : IsIndexed m.pids
  pub square : length m.pids ≡ m.size
  pub sorted : IsSorted (pids_of m.pids)

module _ {ℓ} {V : Type ℓ} where
  pub get_index :
      (m : PidMatrix V) (p q : Pid) (d : VCost V)
      → get_by_pid m p q d ≡ elim (index_of m.pids p) [
        | none ↦ d
        | some i ↦ elim (index_of m.pids q) [ none ↦ d | some j ↦ or_default (m.cells i j) d ]
      ]
  unfolding get_by_pid index_of get
  get_index m p q d = ground arith

  -- The position of a PID is within the matrix.
  pub index_lt :
      (m : PidMatrix V) (p : Pid)
      → IsConsistent m
      → elim (index_of m.pids p) [ none ↦ true | some i ↦ ltb i m.size ] ≡ true
  unfolding IsIndexed
  index_lt m p h = elim (Option-cases (index_of m.pids p)) [
    | inl e ↦ rw (e) refl
    | inr (i, e) ↦ rw (e) (ground (arith, h.square, lt_of_pid_at m.pids i p ((h.indexed p i).0 e)))
  ]

  set_pids_index :
      (m : PidMatrix V) (locs : List Pid) (p q : Pid) (d : VCost V)
      → get_by_pid (set_pids m locs) p q d ≡ elim (index_of (number_pids locs []) p) [
        | none ↦ d
        | some i ↦ elim (index_of (number_pids locs []) q) [
          | none ↦ d
          | some j ↦ or_default (copy_rows m (number_pids locs []) m.size blank i j) d
        ]
      ]
  unfolding set_pids
  set_pids_index m locs p q d = get_index (set_pids m locs) p q d

  -- After set_pids in a consistent matrix, get_by_pid answers for two PIDs of the new set what it
  -- answered before, which is the default where one of them is new, and the default for all others.
  pub get_by_pid-set_pids :
      (m : PidMatrix V) (locs : List Pid) (p q : Pid) (d : VCost V)
      → IsConsistent m
      → get_by_pid (set_pids m locs) p q d
        ≡ (if has locs p && has locs q then get_by_pid m p q d else d)
  unfolding blank or_default has
  get_by_pid-set_pids m locs p q d h =
      let new = number_pids locs [] in
      let ok = number_pids-IsIndexed locs [] empty-IsIndexed in
      elim (Option-cases (index_of new p)) [
        | inl e ↦
            ground (arith, set_pids_index m locs p q d, has-number_pids locs [] p, has_index new p)
        | inr (a, e) ↦ elim (Option-cases (index_of new q)) [
          | inl f ↦
              ground
                (arith, set_pids_index m locs p q d, has-number_pids locs [] q, has_index new q)
          | inr (b, f) ↦ ground (
            arith,
            set_pids_index m locs p q d,
            get_index m p q d,
            has-number_pids locs [] p,
            has_index new p,
            has-number_pids locs [] q,
            has_index new q,
            rows_at m new h.indexed ok m.size a b blank,
            position_of m.pids new p a ok e,
            position_of m.pids new q b ok f,
            index_lt m p h,
            index_lt m q h,
          )
        ]
      ]
