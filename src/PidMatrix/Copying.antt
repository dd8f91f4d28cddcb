-- ===== src/PidMatrix/Copying.antt =====
-- The copying loops of set_pids in closed form: an entry of the new matrix is the old entry of the
-- same two PIDs.
use alto.Prelude.{
  ℕ, ◌≡◌, ◌==◌, ◌&&◌, List, arith, none, some, inl, inr, Option-cases, ltb, if◌then◌else◌, zero,
  suc,
}
use alto.PidMatrix.{
  IndexedPid, PidMatrix, VCost, or_default, write, new_position, copy_cell, copy_row, copy_rows,
}
use alto.PidMatrix.Positions.{index_of, pid_at, IsIndexed}

pub new_position_lem :
    (old new : List IndexedPid) (i : ℕ)
    → new_position old new i ≡ elim (pid_at old i) [ none ↦ none | some p ↦ index_of new p ]
unfolding new_position pid_at index_of
new_position_lem old new i = ground arith

-- Going to the new position and coming back.
pub position_back :
    (old new : List IndexedPid) (i a : ℕ)
    → IsIndexed old
    → IsIndexed new
    → new_position old new i ≡ some a
    → new_position new old a ≡ some i
unfolding IsIndexed
position_back old new i a h k e = elim (Option-cases (pid_at old i)) [
  | inl g ↦ absurd (ground (arith, new_position_lem old new i))
  | inr (p, g) ↦
      ground (arith, new_position_lem old new i, new_position_lem new old a, (h p i).1 g, (k p a).0)
]

module _ {ℓ} {V : Type ℓ} (m : PidMatrix V) (new : List IndexedPid) (h : IsIndexed m.pids)
    (k : IsIndexed new) where
  cell_at :
      (i j a b : ℕ) (c : ℕ → ℕ → VCost V)
      → copy_cell m new i j c a b ≡ elim (new_position new m.pids a) [
        | none ↦ c a b
        | some x ↦ elim (new_position new m.pids b) [
          | none ↦ c a b
          | some y ↦ (if x == i && y == j then or_default (m.cells i j) (c a b) else c a b)
        ]
      ]
  unfolding copy_cell write or_default
  cell_at i j a b c = ground (
    arith,
    position_back m.pids new i a h k,
    position_back m.pids new j b h k,
    position_back new m.pids a i k h,
    position_back new m.pids b j k h,
  )

  row_at :
      (i n a b : ℕ) (c : ℕ → ℕ → VCost V)
      → copy_row m new i n c a b ≡ elim (new_position new m.pids a) [
        | none ↦ c a b
        | some x ↦ elim (new_position new m.pids b) [
          | none ↦ c a b
          | some y ↦ (if x == i && ltb y n then or_default (m.cells x y) (c a b) else c a b)
        ]
      ]
  unfolding copy_row or_default
  row_at i zero a b c = ground arith
  row_at i (suc n) a b c = ground (arith, cell_at i n a b (copy_row m new i n c), row_at i n a b c)

  -- What the loops leave in the new matrix: where both PIDs stood in the old one, the old entry
  -- if there is one, and what was there before everywhere else.
  pub rows_at :
      (n a b : ℕ) (c : ℕ → ℕ → VCost V)
      → copy_rows m new n c a b ≡ elim (new_position new m.pids a) [
        | none ↦ c a b
        | some x ↦ elim (new_position new m.pids b) [
          | none ↦ c a b
          | some y ↦ (if ltb x n && ltb y m.size then or_default (m.cells x y) (c a b) else c a b)
        ]
      ]
  unfolding copy_rows or_default
  rows_at zero a b c = ground arith
  rows_at (suc n) a b c = ground (arith, row_at n m.size a b (copy_rows m new n c), rows_at n a b c)
