-- ===== src/RandomAccessSet/Tests.antt =====
-- Runs and witnesses for the set, over pairs told apart by their first number.
use alto.Prelude.{ℕ, ◌≡◌, refl, ◌↔◌, not, ◌&&◌, Bool, true, [], ◌∷◌, some, get_elem?, ltb, arith}
use alto.Prelude.Run.{ok}
use alto.Prelude.Order.{equiv, IsStrictWeak}
use alto.Prelude.Dict
use alto.RandomAccessSet.{RandomAccessSet, init, find, push_back, pop_back, swap, erase}
use alto.RandomAccessSet.Index.{has, IsIndexed, init-IsIndexed}
use alto.RandomAccessSet.Contents.{push_back-IsIndexed}
use alto.RandomAccessSet.Erase.{has-erase}

abbrev less : ℕ × ℕ → ℕ × ℕ → Bool
less a b = ltb a.0 b.0

by_first-IsStrictWeak : IsStrictWeak less
by_first-IsStrictWeak = record {
  irrefl = λ a. ground arith;
  asym = λ a b h. ground arith;
  nontrans = λ a b c h k. ground arith;
}

abbrev two : RandomAccessSet (ℕ × ℕ)
two = record { vec_index = ((1, 9), 0) ∷ ((2, 5), 1) ∷ []; vec = (1, 9) ∷ (2, 5) ∷ [] }

two-IsIndexed : IsIndexed less two
unfolding Dict.lookup Dict.assign equiv find push_back
two-IsIndexed =
    push_back-IsIndexed less by_first-IsStrictWeak (push_back less init (1, 9)).0 (2, 5)
      (push_back-IsIndexed less by_first-IsStrictWeak init (1, 9)
        (init-IsIndexed less by_first-IsStrictWeak))

erase_run :
    erase less two (1, 0) ≡ ok (record { vec_index = ((2, 5), 0) ∷ []; vec = (2, 5) ∷ [] }, true)
unfolding erase find swap pop_back Dict.lookup Dict.assign Dict.erase equiv
erase_run = refl

abbrev Finds : (ℕ × ℕ) → ℕ → Type 0
Finds value i =
    (find less two value ≡ some i)
    ↔ ((y : ℕ × ℕ) × (get_elem? two.vec i ≡ some y) × (equiv less y value ≡ true))

has-erase_example :
    (s' : RandomAccessSet (ℕ × ℕ)) × (erase less two (2, 0) ≡ ok (s', has less two (2, 0)))
    × IsIndexed less s'
    × ((z : ℕ × ℕ) → has less s' z ≡ (not (equiv less (2, 0) z) && has less two z))
has-erase_example = has-erase less by_first-IsStrictWeak two (2, 0) two-IsIndexed
