-- ===== src/RandomAccessSet.antt =====
-- common/cpp/src/include/p4p/detail/random_access_set.h: a vector without duplicates, with a map
-- from each element to its index. `npos` is `none`; an index out of bounds is a fault.
pub mod Index
pub mod Contents
pub mod Erase
mod Tests
use alto.Prelude.{
  ℕ, ◌-◌, ◌==◌, Bool, true, false, List, [], ◌∷◌, ◌++◌, Option, none, some, length, get_elem?, set,
  drop_last, if◌then◌else◌,
}
use alto.Prelude.Run.{Run, ok, ◌>>=◌, or_fault}
use alto.Prelude.Order.{equiv}
use alto.Prelude.Dict

pub record RandomAccessSet {ℓ} (T : Type ℓ) : Type ℓ where
  pub vec_index : List (T × ℕ)
  pub vec : List T

module _ {ℓ} {T : Type ℓ} where
  abbrev pub init : RandomAccessSet T
  init = record { vec_index = []; vec = [] }

  abbrev pub empty : RandomAccessSet T → Bool
  empty s = length s.vec == 0

  abbrev pub size : RandomAccessSet T → ℕ
  size s = length s.vec

  -- operator[]
  abbrev pub at : RandomAccessSet T → ℕ → Run T
  at s idx = or_fault (get_elem? s.vec idx)

module _ {ℓ} {T : Type ℓ} (less : T → T → Bool) where
  unfoldable pub find : RandomAccessSet T → T → Option ℕ
  find s value = Dict.lookup (equiv less) value s.vec_index

  unfoldable pub push_back : RandomAccessSet T → T → RandomAccessSet T × Bool
  push_back s value = elim (find s value) [
    | some _ ↦ (s, false)
    | none ↦
        let vec' = s.vec ++ value ∷ [] in
        (
          record {
            vec_index = Dict.assign (equiv less) value (length vec' - 1) s.vec_index;
            vec = vec';
          },
          true,
        )
  ]

  -- `m_vec.back()` of a non-empty vector
  pop_last : RandomAccessSet T → Option T → RandomAccessSet T
  pop_last s none = s
  pop_last s (some back) = record {
    vec_index = Dict.erase (equiv less) back s.vec_index;
    vec = drop_last s.vec;
  }

  unfoldable pub pop_back : RandomAccessSet T → RandomAccessSet T
  unfolding pop_last
  pop_back s = if empty s then s else pop_last s (get_elem? s.vec (length s.vec - 1))

  unfoldable pub swap : RandomAccessSet T → ℕ → ℕ → Run (RandomAccessSet T)
  swap s idx1 idx2 = do
    x ← at s idx1
    y ← at s idx2
    ok (record {
      vec_index = Dict.assign (equiv less) y idx1 (Dict.assign (equiv less) x idx2 s.vec_index);
      vec = set (set s.vec idx1 y) idx2 x;
    })

  unfoldable pub erase : RandomAccessSet T → T → Run (RandomAccessSet T × Bool)
  erase s value = elim (find s value) [
    | none ↦ ok (s, false)
    | some idx ↦ (do s' ← swap s idx (size s - 1); ok (pop_back s', true))
  ]
