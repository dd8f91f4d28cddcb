-- ===== src/Prelude/Keyed.antt =====
-- A container of records that an index finds by a key, one record for each key, such as a
-- multi_index container with an ordered_unique index; with several such indices on one container.
use mathlib.Core.Path.{◌≡◌, refl}
use mathlib.Core.Logic.{◌↔◌, inl, inr}
use mathlib.Core.Bool.{Bool, true}
use mathlib.Core.List.{List, [], ◌∷◌, ◌++◌}
use mathlib.Core.Option.{Option, none, some}
use native.Mathlib.Omega.{arith}
use alto.Prelude.Tests.{if◌then◌else◌, Option-cases, Bool-cases}

module _ {ℓ κ} {A : Type ℓ} {K : Type κ} (key : A → K) (same : K → K → Bool) where
  unfoldable pub find : K → List A → Option A
  find k [] = none
  find k (x ∷ xs) = if same (key x) k then some x else find k xs

  -- `index.erase(index.find(k))`
  unfoldable pub erase : K → List A → List A
  erase k [] = []
  erase k (x ∷ xs) = if same (key x) k then xs else x ∷ erase k xs

  -- `index.erase(k)` on a non-unique index: every record with the key.
  unfoldable pub erase_all : K → List A → List A
  erase_all k [] = []
  erase_all k (x ∷ xs) = if same (key x) k then erase_all k xs else x ∷ erase_all k xs

  -- No two records have a key in common.
  unfoldable pub IsUnique : List A → Type ℓ
  IsUnique [] = Unit
  IsUnique (x ∷ xs) = (find (key x) xs ≡ none) × IsUnique xs

  pub find-append :
      (k : K) (xs : List A) (x : A)
      → find k (xs ++ x ∷ [])
        ≡ elim (find k xs) [ some y ↦ some y | none ↦ (if same (key x) k then some x else none) ]
  unfolding find
  find-append k [] x = refl
  find-append k (y ∷ ys) x = ground (arith, find-append k ys x)

-- A test by which a container tells its keys apart.
abbrev pub IsKeyTest {ℓ} : {K : Type ℓ} → (K → K → Bool) → Type ℓ
IsKeyTest {K = K} same = (a b : K) → (same a b ≡ true) ↔ (a ≡ b)

module _ {ℓ κ} {A : Type ℓ} {K : Type κ} (key : A → K) (same : K → K → Bool)
    (test : IsKeyTest same) where
  pub find_key : (k : K) (xs : List A) (x : A) → find key same k xs ≡ some x → key x ≡ k
  unfolding find
  find_key k [] x e = cc
  find_key k (y ∷ ys) x e = ground (arith, find_key k ys x, (test (key y) k).0)

  pub find-erase :
      (k q : K) (xs : List A)
      → IsUnique key same xs
      → find key same q (erase key same k xs) ≡ (if same k q then none else find key same q xs)
  unfolding find erase IsUnique
  find-erase k q [] u = ground arith
  find-erase k q (x ∷ xs) u = ground (
    arith,
    find-erase k q xs u.1,
    u.0,
    (test (key x) k).0,
    (test (key x) q).0,
    (test k q).0,
    (test k q).1,
    (test (key x) k).1,
  )

  pub append-IsUnique :
      (xs : List A) (x : A)
      → IsUnique key same xs
      → find key same (key x) xs ≡ none
      → IsUnique key same (xs ++ x ∷ [])
  unfolding find IsUnique
  append-IsUnique [] x u e = (refl, tt)
  append-IsUnique (y ∷ ys) x u e = (
    ground (
      arith,
      find-append key same (key y) ys x,
      u.0,
      (test (key y) (key x)).1,
      (test (key x) (key y)).0,
    ),
    append-IsUnique ys x u.1 (ground arith),
  )

-- What the index by one key finds after an erasure by the other.
module _ {ℓ κ μ} {A : Type ℓ} {K : Type κ} {L : Type μ} (key : A → K) (same : K → K → Bool)
    (other : A → L) (same' : L → L → Bool) (test : IsKeyTest same) (test' : IsKeyTest same') where
  find-erase-none :
      (l : L) (k : K) (xs : List A)
      → find key same k xs ≡ none
      → find key same k (erase other same' l xs) ≡ none
  unfolding find erase
  find-erase-none l k [] e = refl
  find-erase-none l k (x ∷ xs) e = ground (arith, find-erase-none l k xs)

  pub erase-IsUnique :
      (l : L) (xs : List A) → IsUnique key same xs → IsUnique key same (erase other same' l xs)
  unfolding erase IsUnique
  erase-IsUnique l [] u = tt
  erase-IsUnique l (x ∷ xs) u = elim (Bool-cases (same' (other x) l)) [
    | inl e ↦ rw (e) u.1
    | inr e ↦ rw (e) (find-erase-none l (key x) xs u.0, erase-IsUnique l xs u.1)
  ]

  -- A record that one index finds is no stranger to the other.
  pub find_either :
      (k : K) (xs : List A) (y : A)
      → find key same k xs ≡ some y
      → find other same' (other y) xs ≡ none
      → ⊥
  unfolding find
  find_either k [] y e f = cc
  find_either k (x ∷ xs) y e f = ground (arith, find_either k xs y, (test' (other x) (other x)).1)

  pub find-erase-other :
      (l : L) (k : K) (xs : List A)
      → IsUnique key same xs
      → IsUnique other same' xs
      → find key same k (erase other same' l xs) ≡ elim (find key same k xs) [
        | none ↦ none
        | some x ↦ (if same' (other x) l then none else some x)
      ]
  unfolding find erase IsUnique
  find-erase-other l k [] u v = refl
  find-erase-other l k (x ∷ xs) u v = elim (Option-cases (find key same k xs)) [
    | inl e ↦
        ground (arith, find-erase-other l k xs u.1 v.1, find-erase-none l k xs, (test (key x) k).0)
    | inr (y, e) ↦ ground (
      arith,
      find-erase-other l k xs u.1 v.1,
      u.0,
      v.0,
      (test (key x) k).0,
      (test' (other x) l).0,
      (test' (other y) l).0,
      find_either k xs y e,
    )
  ]

  erase_all-none :
      (l : L) (k : K) (xs : List A)
      → find key same k xs ≡ none
      → find key same k (erase_all other same' l xs) ≡ none
  unfolding find erase_all
  erase_all-none l k [] e = refl
  erase_all-none l k (x ∷ xs) e = ground (arith, erase_all-none l k xs)

  pub erase_all-IsUnique :
      (l : L) (xs : List A) → IsUnique key same xs → IsUnique key same (erase_all other same' l xs)
  unfolding erase_all IsUnique
  erase_all-IsUnique l [] u = tt
  erase_all-IsUnique l (x ∷ xs) u = elim (Bool-cases (same' (other x) l)) [
    | inl e ↦ rw (e) (erase_all-IsUnique l xs u.1)
    | inr e ↦ rw (e) (erase_all-none l (key x) xs u.0, erase_all-IsUnique l xs u.1)
  ]

  pub find-erase_all :
      (l : L) (k : K) (xs : List A)
      → IsUnique key same xs
      → find key same k (erase_all other same' l xs) ≡ elim (find key same k xs) [
        | none ↦ none
        | some x ↦ (if same' (other x) l then none else some x)
      ]
  unfolding find erase_all IsUnique
  find-erase_all l k [] u = refl
  find-erase_all l k (x ∷ xs) u =
      ground (arith, find-erase_all l k xs u.1, erase_all-none l k xs, u.0, (test (key x) k).0)
