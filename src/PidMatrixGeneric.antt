-- ===== src/PidMatrixGeneric.antt =====
-- common/cpp/src/include/p4p/detail/pid_matrix_generic.h: values for pairs of PIDs, as a map of
-- rows. `none` is the std::range_error of a row or an entry that does not exist.
pub mod Laws
mod Tests
use alto.Prelude.{Bool, true, false, List, [], ◌∷◌, map, Option, none, some}
use alto.Prelude.Order.{equiv}
use alto.Prelude.Dict
use alto.Pid
use alto.Pid.{Pid}

abbrev pub Row {ℓ} : Type ℓ → Type ℓ
Row T = List (Pid × T)

abbrev pub Matrix {ℓ} : Type ℓ → Type ℓ
Matrix T = List (Pid × Row T)

-- std::map tells PIDs apart by operator<.
abbrev pub same : Pid → Pid → Bool
same = equiv Pid.less

module _ {ℓ} {T : Type ℓ} where
  pub get_srcs : Matrix T → List Pid
  get_srcs m = map (λ e. e.0) m

  pub get_row : Matrix T → Pid → Option (Row T)
  get_row m src = Dict.lookup same src m

  pub has_row : Matrix T → Pid → Bool
  unfolding get_row
  has_row m src = elim (get_row m src) [ none ↦ false | some _ ↦ true ]

  pub get_entry : Row T → Pid → Option T
  get_entry row dst = Dict.lookup same dst row

  unfoldable pub get : Matrix T → Pid → Pid → Option T
  unfolding get_row get_entry
  get m i j = elim (get_row m i) [ none ↦ none | some row ↦ get_entry row j ]

  -- The row, inserted empty if there is none.
  get_row_make : Matrix T → Pid → Matrix T × Row T
  get_row_make m src = elim (Dict.lookup same src m) [
    | none ↦ (Dict.assign same src [] m, [])
    | some row ↦ (m, row)
  ]

  -- get_entry_make and the assignment to the entry's value, with T() for `default`.
  set_entry : T → Row T → Pid → T → Row T
  set_entry default row dst value = elim (Dict.lookup same dst row) [
    | none ↦ Dict.assign same dst value (Dict.assign same dst default row)
    | some _ ↦ Dict.assign same dst value row
  ]

  unfoldable pub set : T → Matrix T → Pid → Pid → T → Matrix T
  unfolding get_row_make set_entry
  set default m i j value =
      let (m', row) = get_row_make m i in Dict.assign same i (set_entry default row j value) m'
