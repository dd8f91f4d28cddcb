-- ===== src/MaxHeapWithDelete/Remove.antt =====
-- pop and erase. Both take an element out by trading it with the last one (IsCut), which breaks
-- the order around the place that was filled.
use mathlib.Core.List.Perm
use alto.Prelude.{
  nil_of_length, ℕ, ◌+◌, ◌-◌, ◌<◌, ◌≡◌, ◌⊎◌, refl, ◌==◌, Bool, true, false, [], ◌∷◌, Option, none,
  some, length, get_elem?, if◌then◌else◌, arith, Perm, lt_of_get_elem?, Bool-cases, ltb,
  get_elem?_lt, get_elem?_ge, inl, inr, ltb→lt,
}
use alto.Prelude.Order.{IsStrictWeak, equiv}
use alto.Prelude.Run.{ok, fault}
use alto.RandomAccessSet
use alto.RandomAccessSet.{RandomAccessSet}
use alto.RandomAccessSet.Contents.{find_iff}
use alto.RandomAccessSet.Erase.{IsCut, cut_lem}
use alto.MaxHeapWithDelete.{parent, percolate_up, percolate_down, pop, erase, top}
use alto.MaxHeapWithDelete.Order.{over, over-none, over_asym, over_nontrans, UpInv, DownInv}
use alto.MaxHeapWithDelete.Up.{Restored, up_loop_restores, percolate_up_stays, percolate_up_faults}
use alto.MaxHeapWithDelete.Down.{down_loop_restores}
use alto.MaxHeapWithDelete.Insert.{IsValid, top_max}

module _ {ℓ} {T : Type ℓ} (less above : T → T → Bool) (lw : IsStrictWeak less)
    (aw : IsStrictWeak above) where
  module _ (h s1 s2 : RandomAccessSet T) (i : ℕ) (y : T) (v : IsValid less above h)
      (at_i : get_elem? h.vec i ≡ some y) (cut : IsCut less lw h i y s1 s2) where
    abbrev last : Option T
    last = get_elem? h.vec (length h.vec - 1)

    -- What the vector reads after the cut: the last element at `i`, nothing at the end.
    reads :
        (k : ℕ)
        → get_elem? s2.vec k ≡ (
            if ltb (k + 1) (length h.vec)
            then (if i == k then last else get_elem? h.vec k)
            else none)
    reads k = elim (Bool-cases (ltb (k + 1) (length h.vec))) [
      | inl p ↦ rw p (cut.moved k (ltb→lt _ _ p))
      | inr p ↦ rw p (get_elem?_ge s2.vec k (ground (arith, cut.shorter)))
    ]

    cut_bridged :
        (c : ℕ)
        → 0 < c
        → parent c ≡ i
        → 0 < i
        → over above (get_elem? s2.vec c) (get_elem? s2.vec (parent i)) ≡ false
    cut_bridged c p e q = ground (
      arith,
      reads c,
      reads (parent i),
      v.heap c,
      v.heap i,
      at_i,
      over-none above (get_elem? s2.vec (parent i)),
      over_nontrans aw (get_elem? h.vec c) y (get_elem? h.vec (parent i)),
      lt_of_get_elem? h.vec i y at_i,
    )

    -- If the moved element has to rise, only the edge above it is broken.
    cut-UpInv :
        (z : T)
        → 0 < i
        → get_elem? s2.vec (parent i) ≡ some z
        → over above (get_elem? s2.vec i) (some z) ≡ true
        → UpInv above s2.vec i
    cut-UpInv z q hz rises = record {
      edges = λ c p ne. ground (
        arith,
        reads c,
        reads (parent c),
        v.heap c,
        over-none above (get_elem? s2.vec (parent c)),
        cut_bridged c p,
        over_asym aw (get_elem? s2.vec i) (some z),
        over_nontrans aw (get_elem? s2.vec c) z (get_elem? s2.vec i),
        hz,
        rises,
      );
      bridged = cut_bridged;
    }

    -- If not, only the edges below it are.
    cut-DownInv :
        (0 < i → over above (get_elem? s2.vec i) (get_elem? s2.vec (parent i)) ≡ false)
        → DownInv above s2.vec i
    cut-DownInv stays = record {
      edges = λ c p ne. elim (Bool-cases (c == i)) [
        | inl q ↦ let e : c ≡ i = ground arith in rw e (stays (ground arith))
        | inr q ↦ ground (
          arith,
          reads c,
          reads (parent c),
          v.heap c,
          over-none above (get_elem? s2.vec (parent c)),
        )
      ];
      bridged = cut_bridged;
    }

    -- Where nothing has to rise, percolateDown from `i` restores the heap.
    down_restores :
        (0 < i → over above (get_elem? s2.vec i) (get_elem? s2.vec (parent i)) ≡ false)
        → (r : RandomAccessSet T) × (moved : Bool) × (percolate_down less above s2 i
            ≡ ok (r, moved))
          × Restored less above s2 r
    unfolding percolate_down
    down_restores stays =
        down_loop_restores less above lw aw (length s2.vec + 1) s2 i (omega arith) cut.indexed
          (cut-DownInv stays)

    rising_restores :
        (z : T)
        → 0 < i
        → get_elem? s2.vec (parent i) ≡ some z
        → i < length s2.vec
        → over above (get_elem? s2.vec i) (some z) ≡ true
        → (r : RandomAccessSet T) × (percolate_up less above s2 i ≡ ok (r, true))
          × Restored less above s2 r
    unfolding percolate_up
    rising_restores z pos hz b rises =
        let (r, m, runs, restored, _, told) =
          up_loop_restores less above lw aw (i + 1) s2 i false (omega arith) b cut.indexed
            (cut-UpInv z pos hz rises) in
        (r, rw (told pos (rw hz rises)) at runs, restored)

    Restored-IsValid :
        (r : RandomAccessSet T)
        → Restored less above s2 r
        → IsValid less above r × Perm (y ∷ r.vec) h.vec
    Restored-IsValid r restored = (
      record { indexed = restored.indexed; heap = restored.heap },
      Perm.trans (Perm.cons y restored.same) cut.same,
    )

  -- pop on a valid heap: an empty one it refuses; from any other it takes exactly the top, which
  -- no element exceeds, and the result is a valid heap of the rest.
  pub pop_lem :
      (h : RandomAccessSet T)
      → IsValid less above h
      → ((h.vec ≡ []) × (pop less above h ≡ ok (h, false)))
        ⊎ ((y : T) × (r : RandomAccessSet T) × (top h ≡ ok y)
            × (pop less above h ≡ ok (r, true))
            × IsValid less above r
            × Perm (y ∷ r.vec) h.vec
            × ((i : ℕ) (x : T) → get_elem? h.vec i ≡ some x → above x y ≡ false))
  unfolding pop top
  pop_lem h v = elim (Bool-cases (length h.vec == 0)) [
    | inl none_left ↦ inl (nil_of_length h.vec (ground arith), rw none_left refl)
    | inr some_left ↦
        let (y, at_0) = get_elem?_lt h.vec 0 (ground arith) in
        let (s1, s2, cut) = cut_lem less lw h 0 y v.indexed at_0 in
        let (r, m, runs, restored) =
          down_restores h s1 s2 0 y v at_0 cut (λ p. absurd (omega arith)) in
        let (valid, same) = Restored-IsValid h s1 s2 0 y v at_0 cut r restored in
        let at_top : top h ≡ ok y = unfold top in rw at_0 refl in
        inr (
          y,
          r,
          rw at_0 refl,
          rw (some_left, cut.swaps, cut.pops, runs) refl,
          valid,
          same,
          λ i x at_i. top_max aw h i x y v.heap at_i at_top,
        )
  ]

  -- erase of a value that is present and is either the top or not the last element: exactly one
  -- element, equivalent to the value, leaves, and the result is a valid heap of the rest.
  pub erase_inner :
      (h : RandomAccessSet T) (value : T) (i : ℕ)
      → IsValid less above h
      → RandomAccessSet.find less h value ≡ some i
      → (i ≡ 0) ⊎ (i + 1 < length h.vec)
      → (y : T) × (r : RandomAccessSet T) × (erase less above h value ≡ ok (r, true))
        × IsValid less above r
        × Perm (y ∷ r.vec) h.vec
        × (equiv less y value ≡ true)
  unfolding erase
  erase_inner h value i v found inner =
      let (y, at_i, same) = (find_iff less lw h value i v.indexed).0 found in
      let (s1, s2, cut) = cut_lem less lw h i y v.indexed at_i in
      let fits : 0 < i → i < length s2.vec = λ p. ground (arith, cut.shorter) in
      elim (Bool-cases (over above (get_elem? s2.vec i) (get_elem? s2.vec (parent i)))) [
        | inr stays ↦
            let up = percolate_up_stays less above lw aw s2 i fits (λ _. stays) in
            let (r, m, runs, restored) = down_restores h s1 s2 i y v at_i cut (λ _. stays) in
            let (valid, perm) = Restored-IsValid h s1 s2 i y v at_i cut r restored in
            (y, r, rw (found, cut.swaps, cut.pops, up, runs, erase) refl, valid, perm, same)
        | inl rises ↦ elim (Bool-cases (i == 0)) [
          | inl at_root ↦
              absurd (ground (arith, over_asym aw (get_elem? s2.vec i) (get_elem? s2.vec i)))
          | inr off_root ↦
              let pos : 0 < i = ground arith in
              let (z, hz) = get_elem?_lt s2.vec (parent i) (omega (arith, fits pos)) in
              let (r, runs, restored) =
                rising_restores h s1 s2 i y v at_i cut z pos hz (fits pos) (rw hz at rises) in
              let (valid, perm) = Restored-IsValid h s1 s2 i y v at_i cut r restored in
              (y, r, rw (found, cut.swaps, cut.pops, runs, erase) refl, valid, perm, same)
        ]
      ]

  -- erase of the last element of a valid heap of two or more reads past the end of the vector.
  pub erase_last_faults :
      (h : RandomAccessSet T) (value : T) (i : ℕ)
      → IsValid less above h
      → RandomAccessSet.find less h value ≡ some i
      → 0 < i
      → i + 1 ≡ length h.vec
      → erase less above h value ≡ fault
  unfolding erase
  erase_last_faults h value i v found pos at_end =
      let (y, at_i, same) = (find_iff less lw h value i v.indexed).0 found in
      let (s1, s2, cut) = cut_lem less lw h i y v.indexed at_i in
      let gone = get_elem?_ge s2.vec i (omega (arith, cut.shorter)) in
      rw (found, cut.swaps, cut.pops, percolate_up_faults less above lw aw s2 i pos gone, erase)
        refl
