-- ===== src/Prelude/Dict.antt =====
-- `std::map` and the like as an association list, over the test by which keys are told apart.
use mathlib.Core.Path.{◌≡◌, refl}
use mathlib.Core.Bool.{Bool, true}
use mathlib.Core.List.{List, [], ◌∷◌}
use mathlib.Core.Option.{Option, none, some}
use native.Mathlib.Omega.{arith}
use alto.Prelude.Tests.{if◌then◌else◌}
use alto.Prelude.Order.{IsEquivalence}

module _ {ℓ κ} {K : Type ℓ} {V : Type κ} (same : K → K → Bool) where
  unfoldable pub lookup : K → List (K × V) → Option V
  lookup k [] = none
  lookup k ((j, v) ∷ m) = if same j k then some v else lookup k m

  -- `m[k] = v`: a present key keeps its place and its key object.
  unfoldable pub assign : K → V → List (K × V) → List (K × V)
  assign k v [] = (k, v) ∷ []
  assign k v ((j, w) ∷ m) = if same j k then (j, v) ∷ m else (j, w) ∷ assign k v m

  -- `m.erase(k)`
  unfoldable pub erase : K → List (K × V) → List (K × V)
  erase k [] = []
  erase k ((j, w) ∷ m) = if same j k then erase k m else (j, w) ∷ erase k m

  module _ (e : IsEquivalence same) where
    pub lookup-assign :
        (k q : K) (v : V) (m : List (K × V))
        → lookup q (assign k v m) ≡ (if same k q then some v else lookup q m)
    unfolding lookup assign
    lookup-assign k q v [] = refl
    lookup-assign k q v ((j, w) ∷ m) = ground (
      arith,
      lookup-assign k q v m,
      e.same_trans j k q,
      e.same_trans k j q,
      e.same_trans j q k,
      e.same_sym j k,
      e.same_sym k q,
    )

    pub lookup-erase :
        (k q : K) (m : List (K × V))
        → lookup q (erase k m) ≡ (if same k q then none else lookup q m)
    unfolding lookup erase
    lookup-erase k q [] = ground arith
    lookup-erase k q ((j, w) ∷ m) = ground (
      arith,
      lookup-erase k q m,
      e.same_trans j k q,
      e.same_trans k j q,
      e.same_trans j q k,
      e.same_sym j k,
      e.same_sym k q,
    )

    pub lookup_same : (k q : K) (m : List (K × V)) → same k q ≡ true → lookup k m ≡ lookup q m
    unfolding lookup
    lookup_same k q [] h = refl
    lookup_same k q ((j, w) ∷ m) h =
        ground (arith, lookup_same k q m h, e.same_trans j k q, e.same_trans j q k, e.same_sym k q)
