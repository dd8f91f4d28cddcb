-- ===== src/RandomAccessSet/Index.antt =====
-- The index map agrees with the vector, and every operation keeps it so.
use alto.Prelude.{
  ℕ, ◌≡◌, refl, Bool, true, false, none, some, get_elem?, set, if◌then◌else◌, arith, inl, inr,
  Bool-cases, get_elem?-swap,
}
use alto.Prelude.Run.{ok}
use alto.Prelude.Order.{equiv, IsStrictWeak, IsEquivalence, equiv-IsEquivalence}
use alto.Prelude.Dict
use alto.RandomAccessSet.{RandomAccessSet, init, find, swap}

module _ {ℓ} {T : Type ℓ} (less : T → T → Bool) where
  -- What the map says of an element is its place, and the map knows every place.
  pub record IsIndexed (s : RandomAccessSet T) : Type ℓ where
    pub indexed :
        (i : ℕ) (x : T)
        → get_elem? s.vec i ≡ some x
        → Dict.lookup (equiv less) x s.vec_index ≡ some i
    pub placed :
        (x : T) (i : ℕ)
        → Dict.lookup (equiv less) x s.vec_index ≡ some i
        → (y : T) × (get_elem? s.vec i ≡ some y) × (equiv less y x ≡ true)

module _ {ℓ} {T : Type ℓ} (less : T → T → Bool) where
  -- The set as a predicate: whether `find` locates the value.
  unfoldable pub has : RandomAccessSet T → T → Bool
  has s value = elim (find less s value) [ none ↦ false | some _ ↦ true ]

module _ {ℓ} {T : Type ℓ} (less : T → T → Bool) (w : IsStrictWeak less) where
  abbrev e : IsEquivalence (equiv less)
  e = equiv-IsEquivalence w

  -- Elements that the comparator identifies stand at one index.
  pub index_unique :
      {s : RandomAccessSet T} (i j : ℕ) (x y : T)
      → IsIndexed less s
      → get_elem? s.vec i ≡ some x
      → get_elem? s.vec j ≡ some y
      → equiv less x y ≡ true
      → i ≡ j
  index_unique {s} i j x y v hi hj h =
      ground (arith, v.indexed i x, v.indexed j y, Dict.lookup_same (equiv less) e x y s.vec_index)

  -- `find` gives the index of the element that the comparator identifies with the value.
  pub find_at :
      (s : RandomAccessSet T) (x y : T) (i : ℕ)
      → IsIndexed less s
      → get_elem? s.vec i ≡ some x
      → equiv less x y ≡ true
      → find less s y ≡ some i
  unfolding find
  find_at s x y i v h eq =
      ground (arith, v.indexed i x, Dict.lookup_same (equiv less) e x y s.vec_index)

  module _ (s : RandomAccessSet T) (i j : ℕ) (x y : T) (v : IsIndexed less s)
      (hi : get_elem? s.vec i ≡ some x) (hj : get_elem? s.vec j ≡ some y) where
    abbrev swapped : RandomAccessSet T
    swapped = record {
      vec_index = Dict.assign (equiv less) y i (Dict.assign (equiv less) x j s.vec_index);
      vec = set (set s.vec i y) j x;
    }

    lookup-swap :
        (z : T)
        → Dict.lookup (equiv less) z swapped.vec_index ≡ (
            if equiv less y z
            then some i
            else if equiv less x z
            then some j
            else Dict.lookup (equiv less) z s.vec_index)
    lookup-swap z = rw (
      Dict.lookup-assign (equiv less) e y z i (Dict.assign (equiv less) x j s.vec_index),
      Dict.lookup-assign (equiv less) e x z j s.vec_index,
    )

    swapped_indexed :
        (k : ℕ) (z : T)
        → get_elem? swapped.vec k ≡ some z
        → Dict.lookup (equiv less) z swapped.vec_index ≡ some k
    swapped_indexed k z h = ground (
      arith,
      lookup-swap z,
      get_elem?-swap s.vec i j x y hi hj k,
      v.indexed k z,
      index_unique k j z y v,
      index_unique k i z x v,
      index_unique i j x y v,
      e.same_refl x,
      e.same_refl y,
      e.same_sym y z,
      e.same_sym x z,
      e.same_sym y x,
    )

    swapped_placed :
        (z : T) (k : ℕ)
        → Dict.lookup (equiv less) z swapped.vec_index ≡ some k
        → (u : T) × (get_elem? swapped.vec k ≡ some u) × (equiv less u z ≡ true)
    swapped_placed z k h = elim (Bool-cases (equiv less y z)) [
      | inl p ↦ (y, ground (arith, lookup-swap z, get_elem?-swap s.vec i j x y hi hj k), p)
      | inr p ↦ elim (Bool-cases (equiv less x z)) [
        | inl q ↦ (x, ground (arith, lookup-swap z, get_elem?-swap s.vec i j x y hi hj k), q)
        | inr q ↦
            let (u, at_k, r) = v.placed z k (ground (arith, lookup-swap z)) in
            (u, ground (arith, get_elem?-swap s.vec i j x y hi hj k), r)
      ]
    ]

    has-swap : (z : T) → has less swapped z ≡ has less s z
    unfolding has find
    has-swap z = ground (
      arith,
      lookup-swap z,
      v.indexed i x hi,
      v.indexed j y hj,
      Dict.lookup_same (equiv less) e x z s.vec_index,
      Dict.lookup_same (equiv less) e y z s.vec_index,
    )

    -- Under a strict weak order and with an exact index, swapping two elements that exist
    -- succeeds, swaps exactly them, keeps the index exact, and finds the same values as before.
    pub swap_lem :
        (s' : RandomAccessSet T) × (swap less s i j ≡ ok s')
        × (s'.vec ≡ set (set s.vec i y) j x)
        × IsIndexed less s'
        × ((z : T) → has less s' z ≡ has less s z)
    unfolding swap
    swap_lem = (
      swapped,
      rw (hi, hj, swap) refl,
      refl,
      record { indexed = swapped_indexed; placed = swapped_placed },
      has-swap,
    )

  -- A new set has an exact index.
  pub init-IsIndexed : IsIndexed less init
  unfolding Dict.lookup
  init-IsIndexed = record { indexed = λ i x h. cc; placed = λ x i h. cc }
