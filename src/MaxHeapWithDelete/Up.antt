-- ===== src/MaxHeapWithDelete/Up.antt =====
-- percolateUp restores the heap order.
use mathlib.Core.List.Perm
use alto.Prelude.{
  ap, ℕ, zero, suc, ◌<◌, ◌≡◌, refl, ◌==◌, Bool, true, false, List, none, some, length, get_elem?,
  arith, Perm, length-set, swap-perm, get_elem?_lt, Bool-cases, inl, inr, ltb, lt→ltb, ltb→lt,
}
use alto.Prelude.Order.{IsStrictWeak}
use native.Mathlib.Numerals.{add-one}
use alto.Prelude.Run.{fault, ok}
use alto.RandomAccessSet.{RandomAccessSet}
use alto.RandomAccessSet.Index.{IsIndexed, swap_lem}
use alto.MaxHeapWithDelete.{parent, is_larger, up_loop, percolate_up}
use alto.MaxHeapWithDelete.Order.{over, over-some, IsHeap, UpInv, UpInv-swap}

-- `r` is a heap of the elements of `h`, with an exact index.
pub record Restored {ℓ} {T : Type ℓ} (less above : T → T → Bool) (h r : RandomAccessSet T)
    : Type ℓ where
  pub indexed : IsIndexed less r
  pub heap : IsHeap above r.vec
  pub same : Perm r.vec h.vec

module _ {ℓ} {T : Type ℓ} (above : T → T → Bool) where
  pub is_larger-ok :
      (h : RandomAccessSet T) (i j : ℕ) (x y : T)
      → get_elem? h.vec i ≡ some x
      → get_elem? h.vec j ≡ some y
      → is_larger above h i j ≡ ok (above x y)
  unfolding is_larger
  is_larger-ok h i j x y hi hj = rw (hi, hj) refl

module _ {ℓ} {T : Type ℓ} (less above : T → T → Bool) (lw : IsStrictWeak less)
    (aw : IsStrictWeak above) where
  UpInv-IsHeap :
      (v : List T) (i : ℕ)
      → UpInv above v i
      → (0 < i → over above (get_elem? v i) (get_elem? v (parent i)) ≡ false)
      → IsHeap above v
  UpInv-IsHeap v i u top c p = elim (Bool-cases (c == i)) [
    | inl q ↦ let e : c ≡ i = ground arith in rw e (top (ground arith))
    | inr q ↦ u.edges c p (λ e. ground arith)
  ]

  -- From a heap with one broken edge above `idx` the loop ends in a heap of the same elements, and
  -- reports a move if it had moved before or if its first test succeeds.
  pub up_loop_restores :
      (fuel : ℕ) (h : RandomAccessSet T) (idx : ℕ) (moved : Bool)
      → idx < fuel
      → idx < length h.vec
      → IsIndexed less h
      → UpInv above h.vec idx
      → (r : RandomAccessSet T) × (moved' : Bool) × (up_loop less above fuel h idx moved
          ≡ ok (r, moved'))
        × Restored less above h r
        × (moved ≡ true → moved' ≡ true)
        × (0 < idx
            → over above (get_elem? h.vec idx) (get_elem? h.vec (parent idx)) ≡ true
            → moved' ≡ true)
  unfolding up_loop
  up_loop_restores zero h idx moved f b v u = absurd (omega arith)
  up_loop_restores (suc fuel) h idx moved f b v u = elim (Bool-cases (ltb 0 idx)) [
    | inr root ↦ (
      h,
      moved,
      rw root refl,
      record { indexed = v; heap = UpInv-IsHeap h.vec idx u (λ p. ground arith); same = Perm.rfl },
      (λ m. m),
      λ p o. ground arith,
    )
    | inl inner ↦
        let pos : 0 < idx = ltb→lt 0 idx inner in
        let (x, hx) = get_elem?_lt h.vec idx b in
        let (y, hy) = get_elem?_lt h.vec (parent idx) (omega arith) in
        elim (Bool-cases (above x y)) [
          | inr stay ↦ (
            h,
            moved,
            rw (inner, is_larger-ok above h idx (parent idx) x y hx hy, stay) refl,
            record {
              indexed = v;
              heap = UpInv-IsHeap h.vec idx u (λ p. rw (hx, hy, over-some, stay) refl);
              same = Perm.rfl;
            },
            (λ m. m),
            λ p o. ground (arith, over-some above x y),
          )
          | inl rises ↦
              let (h1, swaps, vec1, v1, _) = swap_lem less lw h idx (parent idx) x y v hx hy in
              let size1 : length h1.vec ≡ length h.vec = rw (vec1, length-set, length-set) refl in
              let u1 : UpInv above h1.vec (parent idx) =
                rw vec1 (UpInv-swap aw h.vec idx x y pos hx hy rises u) in
              let (r, m, runs, rest, keeps, _) =
                up_loop_restores fuel h1 (parent idx) true (omega arith) (omega arith) v1 u1 in
              (
                r,
                m,
                rw (inner, is_larger-ok above h idx (parent idx) x y hx hy, rises, swaps) runs,
                record {
                  indexed = rest.indexed;
                  heap = rest.heap;
                  same =
                      Perm.trans rest.same (rw vec1 (swap-perm h.vec idx (parent idx) x y hx hy));
                },
                (λ _. keeps refl),
                λ p o. keeps refl,
              )
        ]
  ]

  pub percolate_up-eq :
      (h : RandomAccessSet T) (idx : ℕ)
      → percolate_up less above h idx ≡ up_loop less above (suc idx) h idx false
  unfolding percolate_up
  percolate_up-eq h idx = ap (λ fuel. up_loop less above fuel h idx false) (add-one idx)

  -- An element that does not have to rise stays.
  pub percolate_up_stays :
      (h : RandomAccessSet T) (idx : ℕ)
      → (0 < idx → idx < length h.vec)
      → (0 < idx → over above (get_elem? h.vec idx) (get_elem? h.vec (parent idx)) ≡ false)
      → percolate_up less above h idx ≡ ok (h, false)
  unfolding up_loop
  percolate_up_stays h idx b stays = elim (Bool-cases (ltb 0 idx)) [
    | inr root ↦ rw (percolate_up-eq h idx, up_loop, root) refl
    | inl inner ↦
        let pos = ltb→lt 0 idx inner in
        let (x, hx) = get_elem?_lt h.vec idx (b pos) in
        let (y, hy) = get_elem?_lt h.vec (parent idx) (omega (arith, b pos)) in
        let under : above x y ≡ false = rw (hx, hy, over-some) at (stays pos) in
        rw
          (
            percolate_up-eq h idx,
            up_loop,
            inner,
            is_larger-ok above h idx (parent idx) x y hx hy,
            under,
          )
          refl
  ]

  -- Off the end of the vector the first test reads out of bounds.
  pub percolate_up_faults :
      (h : RandomAccessSet T) (idx : ℕ)
      → 0 < idx
      → get_elem? h.vec idx ≡ none
      → percolate_up less above h idx ≡ fault
  unfolding up_loop is_larger
  percolate_up_faults h idx pos gone =
      rw (percolate_up-eq h idx, up_loop, lt→ltb 0 idx pos, is_larger, gone) refl
