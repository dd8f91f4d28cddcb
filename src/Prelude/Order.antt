-- ===== src/Prelude/Order.antt =====
-- Comparators: what the templates assume of a less-than functor, and the equivalence it induces.
use mathlib.Core.Path.{◌≡◌}
use mathlib.Core.Bool.{Bool, true, false, not, ◌&&◌}
use native.Mathlib.Omega.{arith}
use alto.Prelude.Tests.{◌==◌, ltb}

-- A strict weak order, as the standard library demands of a comparator.
pub record IsStrictWeak {ℓ} {T : Type ℓ} (less : T → T → Bool) : Type ℓ where
  pub irrefl : (a : T) → less a a ≡ false
  pub asym : (a b : T) → less a b ≡ true → less b a ≡ false
  pub nontrans : (a b c : T) → less a b ≡ false → less b c ≡ false → less a c ≡ false

-- A Boolean equivalence, by which a map tells its keys apart.
pub record IsEquivalence {ℓ} {K : Type ℓ} (same : K → K → Bool) : Type ℓ where
  pub same_refl : (a : K) → same a a ≡ true
  pub same_sym : (a b : K) → same a b ≡ true → same b a ≡ true
  pub same_trans : (a b c : K) → same a b ≡ true → same b c ≡ true → same a c ≡ true

-- Two keys that neither precede one another are one key to `std::map`.
unfoldable pub equiv {ℓ} : {T : Type ℓ} → (T → T → Bool) → T → T → Bool
equiv less a b = not (less a b) && not (less b a)

pub equiv-IsEquivalence {ℓ} :
    {T : Type ℓ} {less : T → T → Bool} → IsStrictWeak less → IsEquivalence (equiv less)
unfolding equiv
equiv-IsEquivalence w = record {
  same_refl = λ a. ground (arith, w.irrefl a);
  same_sym = λ a b h. ground arith;
  same_trans = λ a b c h k. ground (arith, w.nontrans a b c, w.nontrans c b a);
}

-- Object identities, such as pointers, are numbers.
pub ==-IsEquivalence : IsEquivalence ◌==◌
==-IsEquivalence = record {
  same_refl = λ a. ground arith;
  same_sym = λ a b h. ground arith;
  same_trans = λ a b c h k. ground arith;
}

pub ltb-IsStrictWeak : IsStrictWeak ltb
ltb-IsStrictWeak = record {
  irrefl = λ a. ground arith;
  asym = λ a b h. ground arith;
  nontrans = λ a b c h k. ground arith;
}
