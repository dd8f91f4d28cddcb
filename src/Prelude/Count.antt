-- ===== src/Prelude/Count.antt =====
-- How many elements of a list pass a test; the order of the list does not matter.
use Prim.Native.Nat.{ℕ, suc, zero, ◌+◌, ◌<◌}
use mathlib.Core.Path.{◌≡◌, refl}
use mathlib.Core.Bool.{Bool, true}
use mathlib.Core.List.{List, [], ◌∷◌, ◌++◌, Perm}
use mathlib.Core.List
use mathlib.Core.List.Perm
use mathlib.Core.Option.{some}
use native.Mathlib.Nat.{ℕ_set}
use native.Mathlib.Omega.{arith}
use alto.Prelude.Tests.{if◌then◌else◌}
use alto.Prelude.Lists.{get_elem?}

module _ {ℓ} {A : Type ℓ} (test : A → Bool) where
  abbrev tally : A → ℕ → ℕ
  tally t n = (if test t then 1 else 0) + n

  unfoldable pub count_if : List A → ℕ
  count_if ts = List.foldr tally 0 ts

  pub count_if-nil : count_if [] ≡ 0
  unfolding count_if
  count_if-nil = refl

  pub count_if-cons :
      (t : A) (ts : List A) → count_if (t ∷ ts) ≡ (if test t then 1 else 0) + count_if ts
  unfolding count_if
  count_if-cons t ts = refl

  pub count_if-perm : {a b : List A} → Perm a b → count_if a ≡ count_if b
  unfolding count_if
  count_if-perm p = Perm.foldr-eq (ℕ_set) tally (λ x y n. omega arith) p 0

  pub count_if-at :
      (ts : List A) (i : ℕ) (t : A) → get_elem? ts i ≡ some t → test t ≡ true → 0 < count_if ts
  count_if-at [] i t e h = absurd (ground arith)
  count_if-at (x ∷ ts) zero t e h = ground (arith, count_if-cons x ts)
  count_if-at (x ∷ ts) (suc i) t e h = ground (arith, count_if-at ts i t e h, count_if-cons x ts)
