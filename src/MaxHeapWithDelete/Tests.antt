-- ===== src/MaxHeapWithDelete/Tests.antt =====
-- Runs and witnesses for the heap: pairs told apart by their first number and ordered by their
-- second.
use alto.Prelude.{
  ℕ, zero, suc, ◌⊎◌, inr, ◌≡◌, refl, Bool, true, false, [], ◌∷◌, none, some, get_elem?, ltb, Perm,
  arith,
}
use alto.Prelude.Run.{ok, fault}
use alto.Prelude.Order.{equiv, IsStrictWeak}
use alto.Prelude.Dict
use alto.RandomAccessSet
use alto.RandomAccessSet.{RandomAccessSet, init}
use alto.RandomAccessSet.Index.{IsIndexed, init-IsIndexed}
use alto.RandomAccessSet.Contents.{push_back-IsIndexed}
use alto.MaxHeapWithDelete.{parent, push, pop, top, erase, percolate_down}
use alto.MaxHeapWithDelete.Order.{over, over-none, IsHeap}
use alto.MaxHeapWithDelete.Insert.{IsValid, push_lem}
use alto.MaxHeapWithDelete.Remove.{pop_lem, erase_inner, erase_last_faults}

abbrev Task : Type 0
Task = ℕ × ℕ

abbrev less : Task → Task → Bool
less a b = ltb a.0 b.0

-- std::greater on the priorities
abbrev above : Task → Task → Bool
above a b = ltb b.1 a.1

by_key-IsStrictWeak : IsStrictWeak less
by_key-IsStrictWeak = record {
  irrefl = λ a. ground arith;
  asym = λ a b h. ground arith;
  nontrans = λ a b c h k. ground arith;
}

above-IsStrictWeak : IsStrictWeak above
above-IsStrictWeak = record {
  irrefl = λ a. ground arith;
  asym = λ a b h. ground arith;
  nontrans = λ a b c h k. ground arith;
}

abbrev add : RandomAccessSet Task → Task → RandomAccessSet Task
add s t = (RandomAccessSet.push_back less s t).0

abbrev three : RandomAccessSet Task
three = record {
  vec_index = ((1, 9), 0) ∷ ((2, 5), 1) ∷ ((3, 7), 2) ∷ [];
  vec = (1, 9) ∷ (2, 5) ∷ (3, 7) ∷ [];
}

three-IsIndexed : IsIndexed less three
unfolding RandomAccessSet.push_back RandomAccessSet.find Dict.lookup Dict.assign equiv
three-IsIndexed =
    let w = by_key-IsStrictWeak in
    push_back-IsIndexed less w (add (add init (1, 9)) (2, 5)) (3, 7)
      (push_back-IsIndexed less w (add init (1, 9)) (2, 5)
        (push_back-IsIndexed less w init (1, 9) (init-IsIndexed less w)))

three-IsHeap : IsHeap above three.vec
unfolding over
three-IsHeap zero p = absurd (omega arith)
three-IsHeap (suc zero) p = refl
three-IsHeap (suc (suc zero)) p = refl
three-IsHeap (suc (suc (suc c))) p =
    over-none above (get_elem? three.vec (parent (suc (suc (suc c)))))

three-IsValid : IsValid less above three
three-IsValid = record { indexed = three-IsIndexed; heap = three-IsHeap }

pop_run :
    pop less above three
    ≡ ok (record { vec_index = ((2, 5), 1) ∷ ((3, 7), 0) ∷ []; vec = (3, 7) ∷ (2, 5) ∷ [] }, true)
unfolding pop percolate_down RandomAccessSet.swap RandomAccessSet.pop_back Dict.lookup Dict.assign
    Dict.erase equiv
pop_run = refl

push_lem_example :
    ((i : ℕ) × (RandomAccessSet.find less three (4, 8) ≡ some i)
      × (push less above three (4, 8) ≡ ok (three, false)))
    ⊎ ((r : RandomAccessSet Task) × (RandomAccessSet.find less three (4, 8) ≡ none)
        × (push less above three (4, 8) ≡ ok (r, true))
        × IsValid less above r
        × Perm r.vec ((4, 8) ∷ three.vec))
push_lem_example =
    push_lem less above by_key-IsStrictWeak above-IsStrictWeak three (4, 8) three-IsValid

pop_lem_example :
    ((three.vec ≡ []) × (pop less above three ≡ ok (three, false)))
    ⊎ ((y : Task) × (r : RandomAccessSet Task) × (top three ≡ ok y)
        × (pop less above three ≡ ok (r, true))
        × IsValid less above r
        × Perm (y ∷ r.vec) three.vec
        × ((i : ℕ) (x : Task) → get_elem? three.vec i ≡ some x → above x y ≡ false))
pop_lem_example = pop_lem less above by_key-IsStrictWeak above-IsStrictWeak three three-IsValid

three-find :
    (RandomAccessSet.find less three (2, 0) ≡ some 1)
    × (RandomAccessSet.find less three (3, 0) ≡ some 2)
unfolding RandomAccessSet.find Dict.lookup equiv
three-find = (refl, refl)

erase_inner_example :
    (y : Task) × (r : RandomAccessSet Task) × (erase less above three (2, 0) ≡ ok (r, true))
    × IsValid less above r
    × Perm (y ∷ r.vec) three.vec
    × (equiv less y (2, 0) ≡ true)
erase_inner_example =
    erase_inner less above by_key-IsStrictWeak above-IsStrictWeak three (2, 0) 1 three-IsValid
      three-find.0 (inr (omega arith))

erase_last_faults_example : erase less above three (3, 0) ≡ fault
erase_last_faults_example =
    erase_last_faults less above by_key-IsStrictWeak above-IsStrictWeak three (3, 0) 2 three-IsValid
      three-find.1 (omega arith) refl
