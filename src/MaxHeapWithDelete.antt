-- ===== src/MaxHeapWithDelete.antt =====
-- common/cpp/src/include/p4p/detail/heap_with_delete.h: a binary max-heap over RandomAccessSet.
-- `above a b` is `PriorityComparator()(a, b)`. The loops run on fuel: percolate_up on its index,
-- percolate_down on the size. Indices stay below twice the size plus two and do not wrap.
pub mod Order
pub mod Up
pub mod Down
pub mod Insert
pub mod Remove
mod Tests
use alto.Prelude.{
  ℕ, zero, suc, ◌+◌, ◌-◌, ◌*◌, ◌/◌, ◌==◌, Bool, true, false, Option, none, some, ltb, if◌then◌else◌,
}
use alto.Prelude.Run.{Run, ok, out_of_fuel, ◌>>=◌}
use alto.RandomAccessSet
use alto.RandomAccessSet.{RandomAccessSet, size}

abbrev pub parent : ℕ → ℕ
parent idx = (idx + 1) / 2 - 1

abbrev pub left_child : ℕ → ℕ
left_child idx = 2 * (idx + 1) - 1

abbrev pub right_child : ℕ → ℕ
right_child idx = 2 * (idx + 1) + 1 - 1

module _ {ℓ} {T : Type ℓ} (above : T → T → Bool) where
  unfoldable pub is_larger : RandomAccessSet T → ℕ → ℕ → Run Bool
  is_larger h idx1 idx2 = do
    a ← RandomAccessSet.at h idx1
    b ← RandomAccessSet.at h idx2
    ok (above a b)

  -- `cond && is_larger(..) ? candidate : largest`, with the short circuit of `&&`.
  unfoldable pub larger_of : RandomAccessSet T → ℕ → ℕ → Run ℕ
  unfolding is_larger
  larger_of h candidate largest =
      if ltb candidate (size h)
      then (do larger ← is_larger h candidate largest; ok (if larger then candidate else largest))
      else ok largest

module _ {ℓ} {T : Type ℓ} (less above : T → T → Bool) where
  -- The loop of percolateUp; `moved` is its local.
  unfoldable pub up_loop : ℕ → RandomAccessSet T → ℕ → Bool → Run (RandomAccessSet T × Bool)
  up_loop zero h idx moved = out_of_fuel
  up_loop (suc fuel) h idx moved =
      let rise : Run (RandomAccessSet T × Bool) = do
        h' ← RandomAccessSet.swap less h idx (parent idx)
        up_loop fuel h' (parent idx) true
      in let test : Run (RandomAccessSet T × Bool) = do
        larger ← is_larger above h idx (parent idx)
        if larger then rise else ok (h, moved)
        in if ltb 0 idx then test else ok (h, moved)

  unfoldable pub percolate_up : RandomAccessSet T → ℕ → Run (RandomAccessSet T × Bool)
  unfolding up_loop is_larger
  percolate_up h idx = up_loop (idx + 1) h idx false

  unfoldable pub down_loop : ℕ → RandomAccessSet T → ℕ → Run (RandomAccessSet T × Bool)
  down_loop zero h idx = out_of_fuel
  down_loop (suc fuel) h idx = do
    largest1 ← larger_of above h (left_child idx) idx
    largest ← larger_of above h (right_child idx) largest1
    if largest == idx then ok (h, false) else do
      h' ← RandomAccessSet.swap less h largest idx
      (h'', _) ← down_loop fuel h' largest
      ok (h'', true)

  unfoldable pub percolate_down : RandomAccessSet T → ℕ → Run (RandomAccessSet T × Bool)
  unfolding down_loop larger_of
  percolate_down h idx = down_loop (size h + 1) h idx

  unfoldable pub push : RandomAccessSet T → T → Run (RandomAccessSet T × Bool)
  push h value = elim (RandomAccessSet.find less h value) [
    | some _ ↦ ok (h, false)
    | none ↦ (do
      let h1 = (RandomAccessSet.push_back less h value).0
      (h2, _) ← percolate_up h1 (size h1 - 1)
      ok (h2, true))
  ]

  unfoldable pub pop : RandomAccessSet T → Run (RandomAccessSet T × Bool)
  pop h = if RandomAccessSet.empty h then ok (h, false) else do
    h1 ← RandomAccessSet.swap less h 0 (size h - 1)
    (h2, _) ← percolate_down (RandomAccessSet.pop_back less h1) 0
    ok (h2, true)

  unfoldable pub erase : RandomAccessSet T → T → Run (RandomAccessSet T × Bool)
  erase h value = elim (RandomAccessSet.find less h value) [
    | none ↦ ok (h, false)
    | some idx ↦ (do
      h1 ← RandomAccessSet.swap less h idx (size h - 1)
      (h2, up) ← percolate_up (RandomAccessSet.pop_back less h1) idx
      if up then ok (h2, true) else do (h3, _) ← percolate_down h2 idx; ok (h3, true))
  ]

unfoldable pub top {ℓ} : {T : Type ℓ} → RandomAccessSet T → Run T
top h = RandomAccessSet.at h 0

-- The element through `out_value`, where there is one.
unfoldable pub find {ℓ} :
    {T : Type ℓ} (less : T → T → Bool) → RandomAccessSet T → T → Run (Option T)
find less h value = elim (RandomAccessSet.find less h value) [
  | none ↦ ok none
  | some idx ↦ (do y ← RandomAccessSet.at h idx; ok (some y))
]
