-- ===== src/PidMatrixGeneric/Laws.antt =====
-- What get and has_row answer after set.
use alto.Prelude.{
  ◌≡◌, refl, ◌||◌, [], Option, none, some, if◌then◌else◌, arith, inl, inr, Bool-cases, Option-cases,
}
use alto.Prelude.Order.{IsEquivalence, equiv-IsEquivalence}
use alto.Prelude.Dict
use alto.Pid.{Pid}
use alto.Pid.Order.{less-IsStrictWeak, equiv-eq}
use alto.Pid
use alto.PidMatrixGeneric.{
  Row, Matrix, same, get_row, has_row, get_entry, get, get_row_make, set_entry, set,
}

abbrev same-IsEquivalence : IsEquivalence same
same-IsEquivalence = equiv-IsEquivalence less-IsStrictWeak

module _ {ℓ} {T : Type ℓ} where
  set_entry_lem :
      (d : T) (row : Row T) (j l : Pid) (v : T)
      → Dict.lookup same l (set_entry d row j v)
        ≡ (if same j l then some v else Dict.lookup same l row)
  unfolding set_entry
  set_entry_lem d row j l v = ground (
    arith,
    Dict.lookup-assign same same-IsEquivalence j l v row,
    Dict.lookup-assign same same-IsEquivalence j l v (Dict.assign same j d row),
    Dict.lookup-assign same same-IsEquivalence j l d row,
  )

  row_or_empty : Option (Row T) → Row T
  row_or_empty none = []
  row_or_empty (some row) = row

  set_row :
      (d : T) (m : Matrix T) (i j k : Pid) (v : T)
      → Dict.lookup same k (set d m i j v) ≡ (
          if same i k
          then some (set_entry d (row_or_empty (Dict.lookup same i m)) j v)
          else Dict.lookup same k m)
  unfolding set get_row_make row_or_empty
  set_row d m i j k v = elim (Option-cases (Dict.lookup same i m)) [
    | inl e ↦
        rw
          (
            e,
            set,
            get_row_make,
            Dict.lookup-assign same same-IsEquivalence i k (set_entry d [] j v)
                (Dict.assign same i [] m),
            Dict.lookup-assign same same-IsEquivalence i k [] m,
          )
          (ground arith)
    | inr (row, e) ↦
        rw
          (
            e,
            set,
            get_row_make,
            Dict.lookup-assign same same-IsEquivalence i k (set_entry d row j v) m,
          )
          refl
  ]

  get-empty : (l : Pid) → get_entry {T = T} [] l ≡ none
  unfolding get_entry Dict.lookup
  get-empty l = refl

  -- After set, get answers the new value at its pair of PIDs and what it answered before at every
  -- other pair, also where the row or the entry did not exist.
  pub get-set_pair :
      (d : T) (m : Matrix T) (i j k l : Pid) (v : T)
      → get (set d m i j v) k l
        ≡ (if Pid.eq i k then (if Pid.eq j l then some v else get m k l) else get m k l)
  unfolding get get_row get_entry row_or_empty Dict.lookup
  get-set_pair d m i j k l v = elim (Bool-cases (same i k)) [
    | inr other ↦ rw (set_row d m i j k v, other, ← equiv-eq i k, other, get) refl
    | inl one ↦ ground (
      arith,
      set_row d m i j k v,
      equiv-eq i k,
      equiv-eq j l,
      one,
      Dict.lookup_same same same-IsEquivalence i k m one,
      set_entry_lem d (row_or_empty (Dict.lookup same i m)) j l v,
    )
  ]

  -- After set, a row exists for its source PID and for those that had one, and for no other.
  pub has_row-set :
      (d : T) (m : Matrix T) (i j k : Pid) (v : T)
      → has_row (set d m i j v) k ≡ (Pid.eq i k || has_row m k)
  unfolding has_row
  has_row-set d m i j k v = ground (arith, set_row d m i j k v, equiv-eq i k)
