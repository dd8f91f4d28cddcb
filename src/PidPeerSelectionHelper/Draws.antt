-- ===== src/PidPeerSelectionHelper/Draws.antt =====
-- The loop of the nocopy strategy, and one call with it.
use alto.Prelude.{
  ℕ, ◌%◌, ◌<◌, ◌≡◌, ◌∙◌, sym, ap, refl, ◌==◌, false, List, [], ◌∷◌, ◌++◌, Option, some, inl, inr,
  length, get_elem?, arith, Bool-cases, lt_of_get_elem?, get_elem?_lt,
}
use alto.Prelude.Int.{ℤ}
use alto.Prelude.Run.{ok}
use alto.RandomAccessSet.{RandomAccessSet}
use alto.PerIspPeerDistribution.{PerIspPeerDistribution, bin_at, get_random_peer}
use alto.PidPeerSelectionHelper.{is_selected, draw}
use alto.PidPeerSelectionHelper.Fresh.{IsDistinct, some_fresh}

module _ {F : Type 0} (view : PerIspPeerDistribution F) (pid : ℤ) (bin : RandomAccessSet ℕ)
    (finds : bin_at view pid ≡ some bin) where
  random_lem :
      (rand : ℕ)
      → 0 < length bin.vec
      → (peer : ℕ) × (get_random_peer view pid rand ≡ some peer)
        × (get_elem? bin.vec (rand % length bin.vec) ≡ some peer)
  unfolding get_random_peer
  random_lem rand h =
      let (peer, e) = get_elem?_lt bin.vec (rand % length bin.vec) (grind arith) in
      let filled : length bin.vec == 0 ≡ false = ground arith in
      (peer, rw (finds, filled, e, get_random_peer) refl, e)

  -- While the bin holds more peers than are selected, there is a value of rand() that ends the loop
  -- whenever it comes, and what the loop returns is a peer of the bin that is not selected.
  pub draw_ends :
      (selected : List (Option ℕ))
      → IsDistinct bin.vec
      → length selected < length bin.vec
      → (rand : ℕ) × ((before after : List ℕ)
          → (peer i : ℕ) × (draw view pid selected (before ++ (rand ∷ after)) ≡ ok (some peer))
            × (is_selected (some peer) selected ≡ false)
            × (get_elem? bin.vec i ≡ some peer))
  unfolding draw
  draw_ends selected d h =
      let (i, x, e, fresh) = some_fresh bin.vec selected d h in (i, ends i x e fresh)
    where
      ends :
          (i x : ℕ)
          → get_elem? bin.vec i ≡ some x
          → is_selected (some x) selected ≡ false
          → (before after : List ℕ)
          → (peer k : ℕ) × (draw view pid selected (before ++ (i ∷ after)) ≡ ok (some peer))
            × (is_selected (some peer) selected ≡ false)
            × (get_elem? bin.vec k ≡ some peer)
      ends i x e fresh [] after =
          let (peer, r, at) = random_lem i (omega (arith, h)) in
          let below = lt_of_get_elem? bin.vec i x e in
          let same : i % length bin.vec ≡ i = grind (arith, below) in
          let drawn : some peer ≡ some x = sym at ∙ ap (get_elem? bin.vec) same ∙ e in
          let free : is_selected (some peer) selected ≡ false =
            ap (λ (p : Option ℕ). is_selected p selected) drawn ∙ fresh in
          (peer, i % length bin.vec, rw (r, free, draw) refl, free, at)
      ends i x e fresh (b ∷ before) after =
          let (peer, r, at) = random_lem b (omega (arith, h)) in
          let (peer', k, runs, fresh', at') = ends i x e fresh before after in
          elim (Bool-cases (is_selected (some peer) selected)) [
            | inl taken ↦ (peer', k, rw (r, taken, draw) runs, fresh', at')
            | inr free ↦ (peer, b % length bin.vec, rw (r, free, draw) refl, free, at)
          ]
