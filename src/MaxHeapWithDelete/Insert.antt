-- ===== src/MaxHeapWithDelete/Insert.antt =====
-- push, and what top returns.
use mathlib.Core.List.Perm
use alto.Prelude.{
  ℕ, zero, suc, ◌+◌, ◌-◌, ◌<◌, ◌≡◌, ◌⊎◌, refl, ◌==◌, Bool, true, false, List, [], ◌∷◌, none, some,
  length, get_elem?, if◌then◌else◌, arith, Perm, lt_of_get_elem?, length-append, concat-perm,
  get_elem?_lt, get_elem?-append, get_elem?_ge, Option-cases, inl, inr,
}
use alto.Prelude.Order.{IsStrictWeak}
use alto.Prelude.Run.{ok}
use alto.RandomAccessSet
use alto.RandomAccessSet.{RandomAccessSet}
use alto.RandomAccessSet.Index.{IsIndexed}
use alto.RandomAccessSet.Contents.{push_back_fresh}
use alto.MaxHeapWithDelete.{parent, percolate_up, push, top}
use alto.MaxHeapWithDelete.Order.{
  over, over-some, over-none, over_asym, over_nontrans, IsHeap, UpInv,
}
use alto.MaxHeapWithDelete.Up.{up_loop_restores}

-- The class invariant: the index is exact, and the vector is in heap order.
pub record IsValid {ℓ} {T : Type ℓ} (less above : T → T → Bool) (h : RandomAccessSet T)
    : Type ℓ where
  pub indexed : IsIndexed less h
  pub heap : IsHeap above h.vec

module _ {ℓ} {T : Type ℓ} {above : T → T → Bool} (w : IsStrictWeak above) where
  top_below :
      (fuel : ℕ) (v : List T) (i : ℕ)
      → IsHeap above v
      → i < fuel
      → i < length v
      → over above (get_elem? v i) (get_elem? v 0) ≡ false
  top_below zero v i h f b = absurd (omega arith)
  top_below (suc fuel) v zero h f b = ground (arith, over_asym w (get_elem? v 0) (get_elem? v 0))
  top_below (suc fuel) v (suc i) h f b =
      let p = parent (suc i) in
      let (y, hy) = get_elem?_lt v p (omega arith) in
      over_nontrans w (get_elem? v (suc i)) y (get_elem? v 0) (rw hy at (h (suc i) (omega arith)))
        (rw hy at (top_below fuel v p h (omega arith) (omega arith)))

  -- No element of a vector in heap order has a higher priority than what top returns.
  pub top_max :
      (h : RandomAccessSet T) (i : ℕ) (x y : T)
      → IsHeap above h.vec
      → get_elem? h.vec i ≡ some x
      → top h ≡ ok y
      → above x y ≡ false
  unfolding top
  top_max h i x y v at_i e =
      let b = lt_of_get_elem? h.vec i x at_i in
      let (z, hz) = get_elem?_lt h.vec 0 (omega arith) in
      let below = top_below (suc i) h.vec i v (omega arith) b in
      let same : z ≡ y = ground (arith, hz, e) in rw same at (rw (at_i, hz, over-some) at below)

module _ {ℓ} {T : Type ℓ} (less above : T → T → Bool) (lw : IsStrictWeak less)
    (aw : IsStrictWeak above) where
  -- push on a valid heap refuses a value whose equivalent is present and leaves the heap as it is;
  -- any other value it adds, and the result is a valid heap of the old elements and the value.
  pub push_lem :
      (h : RandomAccessSet T) (value : T)
      → IsValid less above h
      → ((i : ℕ) × (RandomAccessSet.find less h value ≡ some i)
          × (push less above h value ≡ ok (h, false)))
        ⊎ ((r : RandomAccessSet T) × (RandomAccessSet.find less h value ≡ none)
            × (push less above h value ≡ ok (r, true))
            × IsValid less above r
            × Perm r.vec (value ∷ h.vec))
  unfolding push percolate_up
  push_lem h value v = elim (Option-cases (RandomAccessSet.find less h value)) [
    | inr (i, found) ↦ inl (i, found, rw (found, push) refl)
    | inl fresh ↦
        let (h1, pushes, vec1, v1) = push_back_fresh less lw h value v.indexed fresh in
        let n = length h.vec in
        let size1 : length h1.vec ≡ n + 1 = rw vec1 (length-append h.vec (value ∷ [])) in
        let last : length h1.vec - 1 ≡ n = omega arith in
        let reads : (k : ℕ)
            → get_elem? h1.vec k ≡ (if k == n then some value else get_elem? h.vec k) =
          λ k. rw vec1 (get_elem?-append h.vec value k) in
        let u : UpInv above h1.vec (length h1.vec - 1) = record {
          edges = λ c p ne. ground (
            arith,
            reads c,
            reads (parent c),
            v.heap c,
            get_elem?_ge h.vec c,
            over-none above (get_elem? h1.vec (parent c)),
            last,
          );
          bridged = λ c p e q. ground (
            arith,
            reads c,
            get_elem?_ge h.vec c,
            over-none above (get_elem? h1.vec (parent (length h1.vec - 1))),
            last,
          );
        } in
        let (r, m, runs, restored, _, _) =
          up_loop_restores less above lw aw (length h1.vec - 1 + 1) h1 (length h1.vec - 1) false
            (omega arith) (omega arith) v1 u in
        inr (
          r,
          fresh,
          rw (fresh, pushes, runs, push) refl,
          record { indexed = restored.indexed; heap = restored.heap },
          Perm.trans restored.same (rw vec1 (concat-perm h.vec value)),
        )
  ]
