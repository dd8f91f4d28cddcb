-- ===== src/Prelude/Lists.antt =====
-- Lists measured and indexed by native numbers, under the library's names: the model of a vector.
use Prim.Native.Nat.{ℕ, zero, suc, ◌+◌, ◌-◌, ◌<◌, ◌≤◌}
use mathlib.Core.Path.{◌≡◌, refl, ap}
use mathlib.Core.List.{List, [], ◌∷◌, ◌++◌, Perm, perm_middle, append-nil}
use mathlib.Core.List.Perm
use mathlib.Core.Option.{Option, none, some}
use native.Mathlib.Omega.{arith}
use alto.Prelude.Tests.{◌==◌, if◌then◌else◌, ltb}

module _ {ℓ} {A : Type ℓ} where
  abbrev pub length : List A → ℕ
  length [] = 0
  length (x ∷ xs) = suc (length xs)

  abbrev pub get_elem? : List A → ℕ → Option A
  get_elem? [] i = none
  get_elem? (x ∷ xs) zero = some x
  get_elem? (x ∷ xs) (suc i) = get_elem? xs i

  -- All but the last element.
  abbrev pub drop_last : List A → List A
  drop_last [] = []
  drop_last (x ∷ []) = []
  drop_last (x ∷ y ∷ xs) = x ∷ drop_last (y ∷ xs)

  abbrev pub replicate : ℕ → A → List A
  replicate zero a = []
  replicate (suc n) a = a ∷ replicate n a

  -- A write out of bounds changes nothing here; callers check the bound.
  abbrev pub set : List A → ℕ → A → List A
  set [] i v = []
  set (x ∷ xs) zero v = v ∷ xs
  set (x ∷ xs) (suc i) v = x ∷ set xs i v

  pub nil_of_length : (xs : List A) → length xs ≡ 0 → xs ≡ []
  nil_of_length [] e = refl
  nil_of_length (x ∷ xs) e = absurd (omega arith)

  pub length-append : (xs ys : List A) → length (xs ++ ys) ≡ length xs + length ys
  length-append [] ys = omega arith
  length-append (x ∷ xs) ys = omega (arith, length-append xs ys)

  pub length-drop_last : (xs : List A) → length (drop_last xs) ≡ length xs - 1
  length-drop_last [] = omega arith
  length-drop_last (x ∷ []) = omega arith
  length-drop_last (x ∷ y ∷ xs) = omega (arith, length-drop_last (y ∷ xs))

  pub length-replicate : (n : ℕ) (a : A) → length (replicate n a) ≡ n
  length-replicate zero a = refl
  length-replicate (suc n) a = ap suc (length-replicate n a)

  pub length-set : (xs : List A) (i : ℕ) (v : A) → length (set xs i v) ≡ length xs
  length-set [] i v = refl
  length-set (x ∷ xs) zero v = refl
  length-set (x ∷ xs) (suc i) v = ap suc (length-set xs i v)

  pub get_elem?_lt : (xs : List A) (i : ℕ) → i < length xs → (a : A) × (get_elem? xs i ≡ some a)
  get_elem?_lt [] i h = absurd (omega arith)
  get_elem?_lt (x ∷ xs) zero h = (x, refl)
  get_elem?_lt (x ∷ xs) (suc i) h = get_elem?_lt xs i (omega arith)

  pub lt_of_get_elem? : (xs : List A) (i : ℕ) (a : A) → get_elem? xs i ≡ some a → i < length xs
  lt_of_get_elem? [] i a e = cc
  lt_of_get_elem? (x ∷ xs) zero a e = omega arith
  lt_of_get_elem? (x ∷ xs) (suc i) a e = omega (arith, lt_of_get_elem? xs i a e)

  pub get_elem?_ge : (xs : List A) (i : ℕ) → length xs ≤ i → get_elem? xs i ≡ none
  get_elem?_ge [] i h = refl
  get_elem?_ge (x ∷ xs) zero h = absurd (omega arith)
  get_elem?_ge (x ∷ xs) (suc i) h = get_elem?_ge xs i (omega arith)

  pub get_elem?-set :
      (xs : List A) (i j : ℕ) (v : A)
      → i < length xs
      → get_elem? (set xs i v) j ≡ (if i == j then some v else get_elem? xs j)
  get_elem?-set [] i j v h = absurd (omega arith)
  get_elem?-set (x ∷ xs) zero zero v h = refl
  get_elem?-set (x ∷ xs) zero (suc j) v h = ground arith
  get_elem?-set (x ∷ xs) (suc i) zero v h = ground arith
  get_elem?-set (x ∷ xs) (suc i) (suc j) v h = ground (arith, get_elem?-set xs i j v)

  pub get_elem?-append :
      (xs : List A) (x : A) (i : ℕ)
      → get_elem? (xs ++ x ∷ []) i ≡ (if i == length xs then some x else get_elem? xs i)
  get_elem?-append [] x zero = refl
  get_elem?-append [] x (suc i) = ground arith
  get_elem?-append (y ∷ xs) x zero = ground arith
  get_elem?-append (y ∷ xs) x (suc i) = ground (arith, get_elem?-append xs x i)

  pub get_elem?-drop_last :
      (xs : List A) (i : ℕ)
      → get_elem? (drop_last xs) i ≡ (if ltb (i + 1) (length xs) then get_elem? xs i else none)
  get_elem?-drop_last [] i = ground arith
  get_elem?-drop_last (x ∷ []) i = ground arith
  get_elem?-drop_last (x ∷ y ∷ xs) zero = ground arith
  get_elem?-drop_last (x ∷ y ∷ xs) (suc i) = ground (arith, get_elem?-drop_last (y ∷ xs) i)

  -- A write trades the old element for the new one.
  pub set-perm :
      (xs : List A) (i : ℕ) (v x : A) → get_elem? xs i ≡ some x → Perm (x ∷ set xs i v) (v ∷ xs)
  set-perm [] i v x e = cc
  set-perm (y ∷ xs) zero v x e =
      Perm.trans (Perm.swap v x xs) (Perm.cons v (Perm.cons' (ground arith) Perm.rfl))
  set-perm (y ∷ xs) (suc i) v x e =
      Perm.trans (Perm.swap y x (set xs i v))
        (Perm.trans (Perm.cons y (set-perm xs i v x e)) (Perm.swap v y xs))

  -- Swapping two elements keeps the contents.
  pub swap-perm :
      (xs : List A) (i j : ℕ) (x y : A)
      → get_elem? xs i ≡ some x
      → get_elem? xs j ≡ some y
      → Perm (set (set xs i y) j x) xs
  swap-perm xs i j x y hi hj =
      Perm.cons_inv (Perm.trans (set-perm (set xs i y) j x y kept) (set-perm xs i y x hi))
    where
      kept : get_elem? (set xs i y) j ≡ some y
      kept = ground (arith, get_elem?-set xs i j y (lt_of_get_elem? xs i x hi))

  pub get_elem?-swap :
      (xs : List A) (i j : ℕ) (x y : A)
      → get_elem? xs i ≡ some x
      → get_elem? xs j ≡ some y
      → (k : ℕ)
      → get_elem? (set (set xs i y) j x) k
        ≡ (if j == k then some x else if i == k then some y else get_elem? xs k)
  get_elem?-swap xs i j x y hi hj k = rw (
    get_elem?-set (set xs i y) j k x (rw length-set (lt_of_get_elem? xs j y hj)),
    get_elem?-set xs i k y (lt_of_get_elem? xs i x hi),
  )

  pub concat-perm : (xs : List A) (x : A) → Perm (xs ++ x ∷ []) (x ∷ xs)
  concat-perm xs x = rw (append-nil xs) at (perm_middle {a = x} xs [])

  -- A non-empty vector is its front and its last element.
  pub drop_last-perm :
      (xs : List A) (x : A) → get_elem? xs (length xs - 1) ≡ some x → Perm (x ∷ drop_last xs) xs
  drop_last-perm [] x e = cc
  drop_last-perm (y ∷ []) x e = Perm.cons' (ground arith) Perm.rfl
  drop_last-perm (y ∷ z ∷ xs) x e =
      Perm.trans (Perm.swap y x (drop_last (z ∷ xs)))
        (Perm.cons y (drop_last-perm (z ∷ xs) x (ground arith)))

  -- Taking an element out, with the last one in its place, leaves the others.
  pub take_out-perm :
      (xs : List A) (i : ℕ) (x back : A)
      → get_elem? xs i ≡ some x
      → get_elem? xs (length xs - 1) ≡ some back
      → Perm (x ∷ drop_last (set xs i back)) xs
  take_out-perm xs i x back e l =
      let ys = set xs i back in
      let last : get_elem? ys (length ys - 1) ≡ some back = ground (
        arith,
        get_elem?-set xs i (length ys - 1) back (lt_of_get_elem? xs i x e),
        length-set xs i back,
        l,
      ) in
      Perm.cons_inv (
        Perm.trans (Perm.swap x back (drop_last ys))
          (Perm.trans (Perm.cons x (drop_last-perm ys back last)) (set-perm xs i back x e)))
