-- ===== src/RandomAccessSet/Erase.antt =====
-- erase: the element trades places with the last one, which is then popped.
use mathlib.Core.List.Perm
use alto.Prelude.{
  ◌∙◌, false, not, ◌&&◌, Bool, Option-cases, ◌<◌, ◌==◌, swap-perm, get_elem?_lt, get_elem?-swap,
  length-set, length-drop_last, get_elem?-drop_last, lt_of_get_elem?, if◌then◌else◌, ◌+◌, ℕ, ◌+◌,
  ◌-◌, ◌≡◌, refl, Bool, true, ◌∷◌, none, some, length, get_elem?, drop_last, arith, inl, inr, Perm,
  length-set, get_elem?_lt, lt_of_get_elem?, get_elem?-drop_last, swap-perm, length-set,
  length-drop_last, get_elem?-swap,
}
use alto.Prelude.Run.{ok}
use alto.Prelude.Order.{equiv, IsStrictWeak, IsEquivalence, equiv-IsEquivalence}
use alto.Prelude.Dict
use alto.RandomAccessSet.{swap, RandomAccessSet, find, pop_back, erase}
use alto.RandomAccessSet.Contents.{pop_back_lem, popped}
use alto.RandomAccessSet.Index.{IsIndexed, swap_lem, has}

module _ {ℓ} {T : Type ℓ} (less : T → T → Bool) (w : IsStrictWeak less) where
  abbrev e : IsEquivalence (equiv less)
  e = equiv-IsEquivalence w

  has_popped :
      (s : RandomAccessSet T) (b z : T)
      → equiv less b z ≡ false
      → has less
          (record { vec_index = Dict.erase (equiv less) b s.vec_index; vec = drop_last s.vec })
          z
        ≡ has less s z
  unfolding has find
  has_popped s b z other = ground (arith, Dict.lookup-erase (equiv less) e b z s.vec_index)

  -- Both erase and the heap take element `i` out by trading it with the last one and popping.
  pub record IsCut (s : RandomAccessSet T) (i : ℕ) (y : T) (s1 s2 : RandomAccessSet T)
      : Type ℓ where
    pub swaps : swap less s i (length s.vec - 1) ≡ ok s1
    pub pops : pop_back less s1 ≡ s2
    pub indexed : IsIndexed less s2
    pub same : Perm (y ∷ s2.vec) s.vec
    pub shorter : length s2.vec + 1 ≡ length s.vec
    pub moved :
        (k : ℕ)
        → k + 1 < length s.vec
        → get_elem? s2.vec k
          ≡ (if i == k then get_elem? s.vec (length s.vec - 1) else get_elem? s.vec k)
    pub forgets : (z : T) → equiv less y z ≡ true → Dict.lookup (equiv less) z s2.vec_index ≡ none
    pub keeps : (z : T) → equiv less y z ≡ false → has less s2 z ≡ has less s z

  pub cut_lem :
      (s : RandomAccessSet T) (i : ℕ) (y : T)
      → IsIndexed less s
      → get_elem? s.vec i ≡ some y
      → (s1 : RandomAccessSet T) × (s2 : RandomAccessSet T) × IsCut s i y s1 s2
  cut_lem s i y v at_i =
      let n = length s.vec in
      let in_range = lt_of_get_elem? s.vec i y at_i in
      let (l, at_l) = get_elem?_lt s.vec (n - 1) (omega arith) in
      let (s1, swaps, vec1, v1, kept) = swap_lem less w s i (n - 1) y l v at_i at_l in
      let reads = get_elem?-swap s.vec i (n - 1) y l at_i at_l in
      let size1 : length s1.vec ≡ n = rw (vec1, length-set, length-set) refl in
      let at_end : get_elem? s1.vec (length s1.vec - 1) ≡ some y =
        rw (size1, vec1, reads (n - 1)) (ground arith) in
      let (pops, v2, perm) = pop_back_lem less w s1 y v1 at_end in
      (
        s1,
        popped less w s1 y v1 at_end,
        record {
          swaps = swaps;
          pops = pops;
          indexed = v2;
          same = Perm.trans perm (rw vec1 (swap-perm s.vec i (n - 1) y l at_i at_l));
          shorter = omega (arith, length-drop_last s1.vec, size1, in_range);
          moved =
              λ k b. rw (get_elem?-drop_last s1.vec k, size1, vec1, reads k, at_l) (ground arith);
          forgets = λ z same. rw (Dict.lookup-erase (equiv less) e y z s1.vec_index, same) refl;
          keeps = λ z other. has_popped s1 y z other ∙ kept z;
        },
      )

  -- Under a strict weak order and with an exact index, erasing a value that `find` locates
  -- succeeds: exactly one element, equivalent to the value, leaves the vector, the index stays
  -- exact, and the value is found no more.
  pub erase_present :
      (s : RandomAccessSet T) (value : T) (i : ℕ)
      → IsIndexed less s
      → find less s value ≡ some i
      → (s' : RandomAccessSet T) × (y : T) × (erase less s value ≡ ok (s', true))
        × IsIndexed less s'
        × Perm (y ∷ s'.vec) s.vec
        × (equiv less y value ≡ true)
        × (find less s' value ≡ none)
  unfolding erase find
  erase_present s value i v found =
      let (y, at_i, same) = v.placed value i found in
      let (s1, s2, cut) = cut_lem s i y v at_i in
      (
        s2,
        y,
        rw (found, cut.swaps, cut.pops, erase) refl,
        cut.indexed,
        cut.same,
        same,
        cut.forgets value same,
      )

  -- As a set, under a strict weak order and with an exact index, erase takes its value away, says
  -- whether it was there, keeps the index exact, and never reads out of bounds.
  pub has-erase :
      (s : RandomAccessSet T) (value : T)
      → IsIndexed less s
      → (s' : RandomAccessSet T) × (erase less s value ≡ ok (s', has less s value))
        × IsIndexed less s'
        × ((z : T) → has less s' z ≡ (not (equiv less value z) && has less s z))
  unfolding erase has find
  has-erase s value v = elim (Option-cases (find less s value)) [
    | inl absent ↦ (
      s,
      rw (absent, erase, has) refl,
      v,
      λ z. ground (arith, absent, Dict.lookup_same (equiv less) e value z s.vec_index),
    )
    | inr (i, found) ↦
        let (y, at_i, same) = v.placed value i found in
        let (s1, s2, cut) = cut_lem s i y v at_i in
        (
          s2,
          rw (found, cut.swaps, cut.pops, erase, has) refl,
          cut.indexed,
          λ z. ground (
            arith,
            same,
            cut.forgets z,
            cut.keeps z,
            e.same_trans y value z,
            e.same_trans value y z,
            e.same_sym y value,
          ),
        )
  ]
