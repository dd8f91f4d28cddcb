-- ===== src/MaxHeapWithDelete/Down.antt =====
-- percolateDown restores the heap order.
use mathlib.Core.List.Perm
use alto.Prelude.{
  ℕ, zero, suc, ◌-◌, ◌<◌, ◌≡◌, ◌⊎◌, refl, ◌∙◌, ◌==◌, Bool, true, false, List, Option, some, length,
  get_elem?, set, arith, length-set, swap-perm, get_elem?_lt, get_elem?_ge, get_elem?-swap,
  Bool-cases, inl, inr, ltb, ==_iff, ltb→lt,
}
use alto.Prelude.Order.{IsStrictWeak}
use alto.Prelude.Run.{ok}
use alto.RandomAccessSet.{RandomAccessSet}
use alto.RandomAccessSet.Index.{IsIndexed, swap_lem}
use alto.MaxHeapWithDelete.{parent, left_child, right_child, larger_of, down_loop}
use alto.MaxHeapWithDelete.Order.{
  over, over-some, over-none, over_asym, over_nontrans, IsHeap, DownInv,
}
use alto.MaxHeapWithDelete.Up.{Restored, is_larger-ok}

module _ {ℓ} {T : Type ℓ} {above : T → T → Bool} (w : IsStrictWeak above) where
  -- The choice that `larger_of` makes.
  larger_of_lem :
      (h : RandomAccessSet T) (candidate largest : ℕ)
      → (candidate < length h.vec → largest < length h.vec)
      → (m : ℕ) × (larger_of above h candidate largest ≡ ok m)
        × (((m ≡ largest)
              × (over above (get_elem? h.vec candidate) (get_elem? h.vec largest) ≡ false))
            ⊎ ((m ≡ candidate)
                × (candidate < length h.vec)
                × (over above (get_elem? h.vec candidate) (get_elem? h.vec largest) ≡ true)))
  unfolding larger_of
  larger_of_lem h candidate largest f = elim (Bool-cases (ltb candidate (length h.vec))) [
    | inr out ↦ (
      largest,
      rw out refl,
      inl (refl, rw (get_elem?_ge h.vec candidate (ground arith)) (over-none above _)),
    )
    | inl inside ↦
        let lt = ltb→lt _ _ inside in
        let (x, hx) = get_elem?_lt h.vec candidate lt in
        let (y, hy) = get_elem?_lt h.vec largest (f lt) in
        elim (Bool-cases (above x y)) [
          | inl p ↦ (
            candidate,
            rw (inside, is_larger-ok above h candidate largest x y hx hy, p) refl,
            inr (refl, lt, rw (hx, hy, over-some) p),
          )
          | inr p ↦ (
            largest,
            rw (inside, is_larger-ok above h candidate largest x y hx hy, p) refl,
            inl (refl, rw (hx, hy, over-some) p),
          )
        ]
  ]

  -- `m` is the child of `idx` that has to rise, or `idx` itself if none has.
  abbrev Picked : List T → ℕ → ℕ → Type 0
  Picked v idx m =
      ((m ≡ idx)
        × ((c : ℕ) → 0 < c → parent c ≡ idx → over above (get_elem? v c) (get_elem? v idx) ≡ false))
      ⊎ ((0 < m)
          × (parent m ≡ idx)
          × (m < length v)
          × (over above (get_elem? v m) (get_elem? v idx) ≡ true)
          × ((c : ℕ) → 0 < c → parent c ≡ idx → over above (get_elem? v c) (get_elem? v m) ≡ false))

  over_irrefl : (a : Option T) → over above a a ≡ false
  over_irrefl a = ground (arith, over_asym w a a)

  both_children :
      (v : List T) (idx : ℕ) (b : Option T)
      → over above (get_elem? v (left_child idx)) b ≡ false
      → over above (get_elem? v (right_child idx)) b ≡ false
      → (c : ℕ) → 0 < c
      → parent c ≡ idx
      → over above (get_elem? v c) b ≡ false
  both_children v idx b hl hr c p e = elim (Bool-cases (c == left_child idx)) [
    | inl q ↦ let at : c ≡ left_child idx = ground arith in rw at hl
    | inr q ↦ let at : c ≡ right_child idx = ground arith in rw at hr
  ]

  pick_lem :
      (h : RandomAccessSet T) (idx : ℕ)
      → (m1 : ℕ) × (m : ℕ) × (larger_of above h (left_child idx) idx ≡ ok m1)
        × (larger_of above h (right_child idx) m1 ≡ ok m)
        × Picked h.vec idx m
  pick_lem h idx =
      let l = left_child idx in
      let r = right_child idx in
      let (m1, run1, cases1) = larger_of_lem h l idx (λ b. omega arith) in
      let (m, run, cases) = larger_of_lem h r m1 (λ b. ground arith) in
      let vl = get_elem? h.vec l in
      let vr = get_elem? h.vec r in
      let vi = get_elem? h.vec idx in
      (
        m1,
        m,
        run1,
        run,
        elim cases1 [
          | inl (e1, s1) ↦ elim cases [
            | inl (e, s) ↦ inl (ground arith, both_children h.vec idx vi s1 (rw e1 at s))
            | inr (e, b, s) ↦
                let (x, hx) = get_elem?_lt h.vec idx (omega arith) in
                let up : over above vr vi ≡ true = rw e1 at s in
                inr (
                  omega arith,
                  ground arith,
                  ground arith,
                  rw e up,
                  both_children h.vec idx (get_elem? h.vec m)
                      (rw e
                        (over_nontrans w vl x vr (rw hx at s1) (rw hx at (over_asym w vr vi up))))
                      (rw e (over_irrefl vr)),
                )
          ]
          | inr (e1, b1, s1) ↦ elim cases [
            | inl (e, s) ↦
                let at : m ≡ l = e ∙ e1 in
                inr (
                  omega arith,
                  ground arith,
                  ground arith,
                  rw at s1,
                  both_children h.vec idx (get_elem? h.vec m) (rw at (over_irrefl vl))
                      (rw at (rw e1 at s)),
                )
            | inr (e, b, s) ↦
                let up : over above vr vl ≡ true = rw e1 at s in
                let (x, hx) = get_elem?_lt h.vec idx (omega arith) in
                inr (
                  omega arith,
                  ground arith,
                  ground arith,
                  rw e (ground (arith, over_asym w vl vi, over_nontrans w vr x vl, hx, up, s1)),
                  both_children h.vec idx (get_elem? h.vec m) (rw e (over_asym w vr vl up))
                      (rw e (over_irrefl vr)),
                )
          ]
        ],
      )

  module _ (v : List T) (m i : ℕ) (x y : T) (pos : 0 < m) (below : parent m ≡ i)
      (hm : get_elem? v m ≡ some x) (hi : get_elem? v i ≡ some y)
      (rises : over above (get_elem? v m) (get_elem? v i) ≡ true)
      (most : (c : ℕ)
        → 0 < c
        → parent c ≡ i
        → over above (get_elem? v c) (get_elem? v m) ≡ false) where
    -- Trading an element with its largest child moves the broken edges down.
    DownInv-swap : DownInv above v i → DownInv above (set (set v m y) i x) m
    DownInv-swap d = record {
      edges = λ c p ne. ground (
        arith,
        get_elem?-swap v m i x y hm hi c,
        get_elem?-swap v m i x y hm hi (parent c),
        d.edges c,
        d.bridged m,
        most c,
        over_asym w (some x) (some y),
      );
      bridged = λ c p e q. ground (
        arith,
        get_elem?-swap v m i x y hm hi c,
        get_elem?-swap v m i x y hm hi (parent m),
        d.edges c,
      );
    }

module _ {ℓ} {T : Type ℓ} (less above : T → T → Bool) (lw : IsStrictWeak less)
    (aw : IsStrictWeak above) where
  DownInv-IsHeap :
      (v : List T) (i : ℕ)
      → DownInv above v i
      → ((c : ℕ) → 0 < c → parent c ≡ i → over above (get_elem? v c) (get_elem? v i) ≡ false)
      → IsHeap above v
  DownInv-IsHeap v i d top c p = elim (Bool-cases (parent c == i)) [
    | inl q ↦ let e : parent c ≡ i = ground arith in rw e (top c p e)
    | inr q ↦ d.edges c p (λ e. ground arith)
  ]

  -- From a heap with broken edges below `idx` only, the recursion ends in a heap of the same
  -- elements.
  pub down_loop_restores :
      (fuel : ℕ) (h : RandomAccessSet T) (idx : ℕ)
      → length h.vec - idx < fuel
      → IsIndexed less h
      → DownInv above h.vec idx
      → (r : RandomAccessSet T) × (moved : Bool) × (down_loop less above fuel h idx ≡ ok (r, moved))
        × Restored less above h r
  unfolding down_loop
  down_loop_restores zero h idx f v d = absurd (omega arith)
  down_loop_restores (suc fuel) h idx f v d =
      let (m1, m, run1, run, picked) = pick_lem aw h idx in
      elim picked [
        | inl (stay, top) ↦ (
          h,
          false,
          rw (run1, run, (==_iff m idx).1 stay) refl,
          record { indexed = v; heap = DownInv-IsHeap h.vec idx d top; same = Perm.rfl },
        )
        | inr (pos, below, b, rises, most) ↦
            let (x, hm) = get_elem?_lt h.vec m b in
            let (y, hi) = get_elem?_lt h.vec idx (omega arith) in
            let ne : (m == idx) ≡ false = ground arith in
            let (h1, swaps, vec1, v1, _) = swap_lem less lw h m idx x y v hm hi in
            let size1 : length h1.vec ≡ length h.vec = rw (vec1, length-set, length-set) refl in
            let d1 : DownInv above h1.vec m =
              rw vec1 (DownInv-swap aw h.vec m idx x y pos below hm hi rises most d) in
            let (r, moved, runs, rest) = down_loop_restores fuel h1 m (omega arith) v1 d1 in
            (
              r,
              true,
              rw (run1, run, ne, swaps, runs) refl,
              record {
                indexed = rest.indexed;
                heap = rest.heap;
                same = Perm.trans rest.same (rw vec1 (swap-perm h.vec m idx x y hm hi));
              },
            )
      ]
