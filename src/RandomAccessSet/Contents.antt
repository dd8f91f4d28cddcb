-- ===== src/RandomAccessSet/Contents.antt =====
-- What push_back, pop_back and erase do to the elements of a set whose index is exact.
use mathlib.Core.Path.{subst}
use alto.Prelude.{
  not, ◌||◌, sym, Bool, Option-cases, get_elem?-drop_last, lt_of_get_elem?, ◌+◌, ℕ, ◌+◌, ◌-◌, ◌≡◌,
  refl, Bool, true, ◌++◌, [], ◌∷◌, none, some, length, get_elem?, drop_last, arith, inl, inr, Perm,
  ◌↔◌, Bool-cases, ltb, length-append, lt_of_get_elem?, get_elem?-append, get_elem?-drop_last,
  drop_last-perm,
}
use alto.Prelude.Order.{equiv, IsStrictWeak, IsEquivalence, equiv-IsEquivalence}
use alto.Prelude.Dict
use alto.RandomAccessSet.{RandomAccessSet, find, push_back, pop_back}
use alto.RandomAccessSet.Index.{IsIndexed, index_unique, find_at, has}

module _ {ℓ} {T : Type ℓ} (less : T → T → Bool) (w : IsStrictWeak less) where
  abbrev e : IsEquivalence (equiv less)
  e = equiv-IsEquivalence w

  -- Under a strict weak order and with an exact index, find answers an index exactly when the
  -- element there is equivalent to the value.
  pub find_iff :
      (s : RandomAccessSet T) (value : T) (i : ℕ)
      → IsIndexed less s
      → (find less s value ≡ some i)
        ↔ ((y : T) × (get_elem? s.vec i ≡ some y) × (equiv less y value ≡ true))
  unfolding find
  find_iff s value i v =
      (λ h. v.placed value i h, λ t. unfold find in find_at less w s t.0 value i v t.1 t.2)

  module _ (s : RandomAccessSet T) (x : T) (v : IsIndexed less s)
      (fresh : find less s x ≡ none) where
    abbrev pushed : RandomAccessSet T
    pushed = record {
      vec_index = Dict.assign (equiv less) x (length (s.vec ++ x ∷ []) - 1) s.vec_index;
      vec = s.vec ++ x ∷ [];
    }

    pushed_indexed :
        (k : ℕ) (z : T)
        → get_elem? pushed.vec k ≡ some z
        → Dict.lookup (equiv less) z pushed.vec_index ≡ some k
    unfolding find
    pushed_indexed k z h = ground (
      arith,
      fresh,
      length-append s.vec (x ∷ []),
      get_elem?-append s.vec x k,
      Dict.lookup-assign (equiv less) e x z (length (s.vec ++ x ∷ []) - 1) s.vec_index,
      v.indexed k z,
      Dict.lookup_same (equiv less) e x z s.vec_index,
      e.same_refl x,
    )

    pushed_placed :
        (z : T) (k : ℕ)
        → Dict.lookup (equiv less) z pushed.vec_index ≡ some k
        → (u : T) × (get_elem? pushed.vec k ≡ some u) × (equiv less u z ≡ true)
    pushed_placed z k h =
        let at_z =
          Dict.lookup-assign (equiv less) e x z (length (s.vec ++ x ∷ []) - 1) s.vec_index in
        elim (Bool-cases (equiv less x z)) [
          | inl p ↦
              (x, ground (arith, at_z, length-append s.vec (x ∷ []), get_elem?-append s.vec x k), p)
          | inr p ↦
              let (u, at_k, r) = v.placed z k (ground (arith, at_z)) in
              (u, ground (arith, get_elem?-append s.vec x k, lt_of_get_elem? s.vec k u), r)
        ]

    -- push_back of a value with no equivalent puts it at the end and indexes it.
    pub push_back_fresh :
        (s' : RandomAccessSet T) × (push_back less s x ≡ (s', true))
        × (s'.vec ≡ s.vec ++ x ∷ [])
        × IsIndexed less s'
    unfolding push_back
    push_back_fresh = (
      pushed,
      rw (fresh, push_back) refl,
      refl,
      record { indexed = pushed_indexed; placed = pushed_placed },
    )

  -- Under a strict weak order, push_back keeps an exact index exact, whether it adds the value or
  -- refuses it.
  pub push_back-IsIndexed :
      (s : RandomAccessSet T) (x : T) → IsIndexed less s → IsIndexed less (push_back less s x).0
  unfolding push_back
  push_back-IsIndexed s x v = elim (Option-cases (find less s x)) [
    | inr (i, found) ↦ rw (found, push_back) v
    | inl fresh ↦
        let (s', pushes, _, v') = push_back_fresh s x v fresh in
        subst (λ (r : RandomAccessSet T × Bool). IsIndexed less r.0) (sym pushes) v'
  ]

  -- As a set, under a strict weak order, push_back adds its value, and says whether it was new.
  pub has-push_back :
      (s : RandomAccessSet T) (x z : T)
      → (has less (push_back less s x).0 z ≡ (equiv less x z || has less s z))
        × ((push_back less s x).1 ≡ not (has less s x))
  unfolding has push_back find
  has-push_back s x z = elim (Option-cases (find less s x)) [
    | inl fresh ↦
        let at_z =
          Dict.lookup-assign (equiv less) e x z (length (s.vec ++ x ∷ []) - 1) s.vec_index in
        (ground (arith, fresh, at_z), ground (arith, fresh))
    | inr (i, found) ↦ (
      ground (arith, found, Dict.lookup_same (equiv less) e x z s.vec_index),
      ground (arith, found),
    )
  ]

  module _ (s : RandomAccessSet T) (b : T) (v : IsIndexed less s)
      (last : get_elem? s.vec (length s.vec - 1) ≡ some b) where
    abbrev pub popped : RandomAccessSet T
    popped = record { vec_index = Dict.erase (equiv less) b s.vec_index; vec = drop_last s.vec }

    popped_indexed :
        (k : ℕ) (z : T)
        → get_elem? popped.vec k ≡ some z
        → Dict.lookup (equiv less) z popped.vec_index ≡ some k
    popped_indexed k z h = ground (
      arith,
      last,
      get_elem?-drop_last s.vec k,
      Dict.lookup-erase (equiv less) e b z s.vec_index,
      v.indexed k z,
      index_unique less w (length s.vec - 1) k b z v,
    )

    popped_placed :
        (z : T) (k : ℕ)
        → Dict.lookup (equiv less) z popped.vec_index ≡ some k
        → (u : T) × (get_elem? popped.vec k ≡ some u) × (equiv less u z ≡ true)
    popped_placed z k h =
        let at_z = Dict.lookup-erase (equiv less) e b z s.vec_index in
        let (u, at_k, r) = v.placed z k (ground (arith, at_z)) in
        elim (Bool-cases (ltb (k + 1) (length s.vec))) [
          | inl p ↦ (u, rw (get_elem?-drop_last s.vec k, p) at_k, r)
          | inr p ↦
              let at_end : k ≡ length s.vec - 1 = ground (arith, lt_of_get_elem? s.vec k u at_k) in
              let moved : get_elem? s.vec (length s.vec - 1) ≡ some u = rw at_end at at_k in
              absurd (ground (arith, at_z, last, moved, r, h))
        ]

    -- pop_back takes exactly the last element off, from the vector and from the index.
    pub pop_back_lem :
        (pop_back less s ≡ popped) × IsIndexed less popped × Perm (b ∷ drop_last s.vec) s.vec
    unfolding pop_back
    pop_back_lem = (
      ground (arith, last, lt_of_get_elem? s.vec (length s.vec - 1) b),
      record { indexed = popped_indexed; placed = popped_placed },
      drop_last-perm s.vec b last,
    )
