-- ===== src/IspPDistanceMap/Distances.antt =====
-- What the distances are after a load.
use alto.Prelude.{
  ℕ, zero, suc, List, [], ◌∷◌, Option, none, some, ◌⊎◌, inl, inr, length, get_elem?, ◌≡◌, refl, ap,
  arith, Option-cases, get_elem?_ge,
}
use mathlib.Core.Option
use alto.Prelude.Int.{ℤ, pos, negsuc}
use alto.Prelude.Words.{to_i32}
use alto.Prelude.Dict
use alto.Pid.{Pid}
use alto.SwarmState.{err_unknown_pid}
use alto.DataSource.{World, Meta, retrieve}
use alto.PidMatrixGeneric.{Matrix, Row, same, get}
use alto.IspPDistanceMap.{
  IspPDistanceMap, get_pdistance, get_pdistances, entry, row, fill, load_p4p_info, default_ttl,
  checked,
}

get_elem?-row :
    (dists : Matrix ℕ) (pids : List Pid) (i : Pid) (n : ℕ)
    → get_elem? (row dists pids i) n ≡ Option.map (entry dists i) (get_elem? pids n)
unfolding row
get_elem?-row dists [] i n = refl
get_elem?-row dists (j ∷ pids) i zero = refl
get_elem?-row dists (j ∷ pids) i (suc n) = get_elem?-row dists pids i n

get_elem?-fill :
    (dists : Matrix ℕ) (targets pids : List Pid) (n : ℕ)
    → get_elem? (fill dists targets pids) n ≡ Option.map (row dists targets) (get_elem? pids n)
unfolding fill
get_elem?-fill dists targets [] n = refl
get_elem?-fill dists targets (i ∷ pids) zero = refl
get_elem?-fill dists targets (i ∷ pids) (suc n) = get_elem?-fill dists targets pids n

checked-pos {ℓ} : {A : Type ℓ} (v : List A) (n : ℕ) → checked v (pos n) ≡ get_elem? v n
checked-pos v n = ground (arith, get_elem?_ge v n)

checked-negsuc {ℓ} : {A : Type ℓ} (v : List A) (n : ℕ) → checked v (negsuc n) ≡ none
checked-negsuc v n = ground arith

-- The PID that an index stands for, if it stands for one.
abbrev pub pid_at : List Pid → ℤ → Option Pid
pid_at pids (pos n) = get_elem? pids n
pid_at pids (negsuc n) = none

checked-fill :
    (dists : Matrix ℕ) (pids : List Pid) (i : ℤ)
    → checked (fill dists pids pids) i ≡ Option.map (row dists pids) (pid_at pids i)
checked-fill dists pids (pos n) = rw (checked-pos _ n, get_elem?-fill dists pids pids n) refl
checked-fill dists pids (negsuc n) = checked-negsuc (fill dists pids pids) n

checked-row :
    (dists : Matrix ℕ) (pids : List Pid) (i : Pid) (j : ℤ)
    → checked (row dists pids i) j ≡ Option.map (entry dists i) (pid_at pids j)
checked-row dists pids i (pos n) = rw (checked-pos _ n, get_elem?-row dists pids i n) refl
checked-row dists pids i (negsuc n) = checked-negsuc (row dists pids i) n

-- The data have a value from one PID to another, in the row of the first.
abbrev pub HasValue : Matrix ℕ → Pid → Pid → ℕ → Type 0
HasValue dists p q v =
    (row : Row ℕ) × (Dict.lookup same p dists ≡ some row) × (Dict.lookup same q row ≡ some v)

-- The distance between two PIDs as an int: the value in the data, or INT_MAX where there is none.
abbrev pub IsDistance : Matrix ℕ → Pid → Pid → ℤ → Type 0
IsDistance dists p q d =
    ((v : ℕ) × HasValue dists p q v × (d ≡ to_i32 v))
    ⊎ (((v : ℕ) → ¬ HasValue dists p q v) × (d ≡ pos 2147483647))

entry-IsDistance : (dists : Matrix ℕ) (p q : Pid) → IsDistance dists p q (entry dists p q)
unfolding entry get
entry-IsDistance dists p q = elim (Option-cases (Dict.lookup same p dists)) [
  | inl no_row ↦ inr (λ v (row, e, _). ground (arith, no_row, e), ground (arith, no_row))
  | inr (row, at_p) ↦ elim (Option-cases (Dict.lookup same q row)) [
    | inr (v, at_q) ↦ inl (v, (row, at_p, at_q), ground (arith, at_p, at_q))
    | inl no_entry ↦ inr (
      λ v (row', e, e').
          let is_row : row ≡ row' = ground (arith, at_p, e) in
          let at_q : Dict.lookup same q row ≡ some v = rw (is_row) e' in
          ground (arith, no_entry, at_q),
      ground (arith, at_p, no_entry),
    )
  ]
]

-- What getPDistance answers for two indexes.
abbrev pub Answer : Matrix ℕ → List Pid → ℤ → ℤ → ℤ → Type 0
Answer dists pids i j d =
    (((pid_at pids i ≡ none) ⊎ (pid_at pids j ≡ none)) × (d ≡ err_unknown_pid))
    ⊎ ((p q : Pid) × (pid_at pids i ≡ some p) × (pid_at pids j ≡ some q) × IsDistance dists p q d)

-- What getPDistances answers for an index, with the row.
abbrev pub RowAnswer : Matrix ℕ → List Pid → ℤ → ℤ × Option (List ℤ) → Type 0
RowAnswer dists pids i answer =
    ((pid_at pids i ≡ none) × (answer ≡ (err_unknown_pid, none)))
    ⊎ ((p : Pid) × (row : List ℤ) × (pid_at pids i ≡ some p)
        × (answer ≡ (pos 0, some row))
        × (length row ≡ length pids)
        × ((k : ℕ) (q : Pid)
            → get_elem? pids k ≡ some q
            → (d : ℤ) × (get_elem? row k ≡ some d) × IsDistance dists p q d))

length-row :
    (dists : Matrix ℕ) (pids : List Pid) (p : Pid) → length (row dists pids p) ≡ length pids
unfolding row
length-row dists [] p = refl
length-row dists (q ∷ pids) p = ap suc (length-row dists pids p)

fill-Answer :
    (dists : Matrix ℕ) (pids : List Pid) (s : IspPDistanceMap) (i j : ℤ)
    → s.pdists ≡ fill dists pids pids
    → Answer dists pids i j (get_pdistance s i j)
unfolding get_pdistance
fill-Answer dists pids s i j e = elim (Option-cases (pid_at pids i)) [
  | inl no_i ↦ inl (inl no_i, rw (e, get_pdistance, checked-fill dists pids i, no_i) refl)
  | inr (p, at_i) ↦ elim (Option-cases (pid_at pids j)) [
    | inl no_j ↦ inl (
      inr no_j,
      rw (e, get_pdistance, checked-fill dists pids i, at_i, checked-row dists pids p j, no_j) refl,
    )
    | inr (q, at_j) ↦ inr (
      p,
      q,
      at_i,
      at_j,
      rw (e, get_pdistance, checked-fill dists pids i, at_i, checked-row dists pids p j, at_j)
          (entry-IsDistance dists p q),
    )
  ]
]

fill-RowAnswer :
    (dists : Matrix ℕ) (pids : List Pid) (s : IspPDistanceMap) (i : ℤ)
    → s.pdists ≡ fill dists pids pids
    → RowAnswer dists pids i (get_pdistances s i)
unfolding get_pdistances
fill-RowAnswer dists pids s i e = elim (Option-cases (pid_at pids i)) [
  | inl no_i ↦ inl (no_i, rw (e, get_pdistances, checked-fill dists pids i, no_i) refl)
  | inr (p, at_i) ↦ inr (
    p,
    row dists pids p,
    at_i,
    rw (e, get_pdistances, checked-fill dists pids i, at_i) refl,
    length-row dists pids p,
    λ k q at_k.
        (entry dists p q, rw (get_elem?-row dists pids p k, at_k) refl, entry-IsDistance dists p q),
  )
]

-- After a load that obtained data, getPDistance between two indexes answers the error if one of
-- them stands for no PID; else the value that the data have from the first one's PID to the second
-- one's, as an int, or 2147483647 where they have none. getPDistances refuses exactly an index
-- that stands for no PID, and else answers 0 and one such distance for every PID, in order.
pub get_pdistance-load :
    (world : World (Matrix ℕ)) (pids : List Pid) (s : IspPDistanceMap) (dists : Matrix ℕ)
    (meta : Meta) (i j : ℤ)
    → retrieve default_ttl world s.source ≡ inr (dists, meta)
    → Answer dists pids i j (get_pdistance (load_p4p_info world pids s).0 i j)
      × RowAnswer dists pids i (get_pdistances (load_p4p_info world pids s).0 i)
unfolding load_p4p_info
get_pdistance-load world pids s dists meta i j e =
    let s' = (load_p4p_info world pids s).0 in
    let filled : s'.pdists ≡ fill dists pids pids = rw (e, load_p4p_info) refl in
    (fill-Answer dists pids s' i j filled, fill-RowAnswer dists pids s' i filled)

-- A load that fails returns the error and changes nothing.
pub load_refused :
    (world : World (Matrix ℕ)) (pids : List Pid) (s : IspPDistanceMap) (error : ℤ)
    → retrieve default_ttl world s.source ≡ inl error
    → load_p4p_info world pids s ≡ (s, error)
unfolding load_p4p_info
load_refused world pids s error e = rw (e, load_p4p_info) refl
