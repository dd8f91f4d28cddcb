-- ===== src/Pid/SetLaws.antt =====
-- What the operations on sets of PIDs contain, and that they keep the order of the elements.
use alto.Prelude.{
  ◌≡◌, refl, true, false, not, ◌&&◌, ◌||◌, List, [], ◌∷◌, arith, inl, inr, Bool-cases,
}
use alto.Pid.{Pid, less}
use alto.Pid.Sets.{
  same, has, insert, insert_all, erase, set_difference, set_union, same_iff, same_refl, less_irrefl,
  same_of_neither, less_trans, IsSorted,
}

pub has-insert : (p q : Pid) (s : List Pid) → has (insert p s) q ≡ (same p q || has s q)
unfolding has insert
has-insert p q [] = refl
has-insert p q (x ∷ xs) = ground (arith, has-insert p q xs, same_of_neither p x)

pub has-insert_all : (ps s : List Pid) (q : Pid) → has (insert_all ps s) q ≡ (has ps q || has s q)
unfolding has insert_all
has-insert_all [] s q = refl
has-insert_all (p ∷ ps) s q = ground (arith, has-insert_all ps (insert p s) q, has-insert p q s)

-- What precedes the first element precedes every element.
below_all :
    (p x : Pid) (xs : List Pid)
    → IsSorted (x ∷ xs)
    → less p x ≡ true
    → (q : Pid) → has (x ∷ xs) q ≡ true
    → less p q ≡ true
unfolding has IsSorted
below_all p x xs (below, rest) h q m = ground (arith, (same_iff x q).0, below q, less_trans p x q)

pub has-below :
    (p x : Pid) (xs : List Pid) → IsSorted (x ∷ xs) → less p x ≡ true → has (x ∷ xs) p ≡ false
has-below p x xs s h = ground (arith, below_all p x xs s h p, less_irrefl p)

pub insert-IsSorted : (p : Pid) (s : List Pid) → IsSorted s → IsSorted (insert p s)
unfolding has insert IsSorted
insert-IsSorted p [] s = (λ q h. cc, tt)
insert-IsSorted p (x ∷ xs) (below, rest) = elim (Bool-cases (less p x)) [
  | inl h ↦ rw (h) (below_all p x xs (below, rest) h, (below, rest))
  | inr h ↦ elim (Bool-cases (less x p)) [
    | inl k ↦
        rw (h, k)
          (
            λ q m. ground (arith, has-insert p q xs, (same_iff p q).0, below q),
            insert-IsSorted p xs rest,
          )
    | inr k ↦ rw (h, k) (below, rest)
  ]
]

pub insert_all-IsSorted : (ps s : List Pid) → IsSorted s → IsSorted (insert_all ps s)
unfolding insert_all
insert_all-IsSorted [] s h = h
insert_all-IsSorted (p ∷ ps) s h = insert_all-IsSorted ps (insert p s) (insert-IsSorted p s h)

pub has-erase :
    (p q : Pid) (s : List Pid) → IsSorted s → has (erase p s) q ≡ (not (same p q) && has s q)
unfolding has erase IsSorted
has-erase p q [] h = ground arith
has-erase p q (x ∷ xs) (below, rest) = ground (
  arith,
  has-erase p q xs rest,
  (same_iff x p).0,
  (same_iff p q).0,
  (same_iff x q).0,
  same_refl p,
  below q,
  less_irrefl x,
)

pub erase-IsSorted : (p : Pid) (s : List Pid) → IsSorted s → IsSorted (erase p s)
unfolding has erase IsSorted
erase-IsSorted p [] s = tt
erase-IsSorted p (x ∷ xs) (below, rest) = elim (Bool-cases (same x p)) [
  | inl h ↦ rw (h) rest
  | inr h ↦ rw (h) (λ q m. ground (arith, has-erase p q xs rest, below q), erase-IsSorted p xs rest)
]

pub has-set_union : (xs ys : List Pid) (q : Pid) → has (set_union xs ys) q ≡ (has xs q || has ys q)
unfolding has set_union
has-set_union [] ys q = refl
has-set_union (x ∷ xs) [] q = ground arith
has-set_union (x ∷ xs) (y ∷ ys) q = ground (
  arith,
  has-set_union xs (y ∷ ys) q,
  has-set_union (x ∷ xs) ys q,
  has-set_union xs ys q,
  same_of_neither x y,
)

pub has-set_difference :
    (xs ys : List Pid) (q : Pid)
    → IsSorted xs
    → IsSorted ys
    → has (set_difference xs ys) q ≡ (has xs q && not (has ys q))
unfolding has set_difference IsSorted
has-set_difference [] ys q h k = refl
has-set_difference (x ∷ xs) [] q h k = ground arith
has-set_difference (x ∷ xs) (y ∷ ys) q h k = ground (
  arith,
  has-set_difference xs (y ∷ ys) q h.1 k,
  has-set_difference (x ∷ xs) ys q h k.1,
  has-set_difference xs ys q h.1 k.1,
  same_of_neither x y,
  has-below x y ys k,
  has-below y x xs h,
  (same_iff x q).0,
  (same_iff y q).0,
  less_irrefl x,
  h.0 q,
  k.0 q,
)

pub set_union-IsSorted : (xs ys : List Pid) → IsSorted xs → IsSorted ys → IsSorted (set_union xs ys)
unfolding has set_union IsSorted
set_union-IsSorted [] ys h k = k
set_union-IsSorted (x ∷ xs) [] h k = h
set_union-IsSorted (x ∷ xs) (y ∷ ys) h k = elim (Bool-cases (less x y)) [
  | inl l ↦
      rw (set_union, l)
        (
          λ q m. ground (arith, has-set_union xs (y ∷ ys) q, h.0 q, below_all x y ys k l q),
          set_union-IsSorted xs (y ∷ ys) h.1 k,
        )
  | inr l ↦ elim (Bool-cases (less y x)) [
    | inl g ↦
        rw (set_union, l, g)
          (
            λ q m. ground (arith, has-set_union (x ∷ xs) ys q, k.0 q, below_all y x xs h g q),
            set_union-IsSorted (x ∷ xs) ys h k.1,
          )
    | inr g ↦
        rw (set_union, l, g)
          (
            λ q m. ground (arith, has-set_union xs ys q, h.0 q, k.0 q, same_of_neither x y),
            set_union-IsSorted xs ys h.1 k.1,
          )
  ]
]

pub set_difference-IsSorted :
    (xs ys : List Pid) → IsSorted xs → IsSorted ys → IsSorted (set_difference xs ys)
unfolding has set_difference IsSorted
set_difference-IsSorted [] ys h k = tt
set_difference-IsSorted (x ∷ xs) [] h k = h
set_difference-IsSorted (x ∷ xs) (y ∷ ys) h k = elim (Bool-cases (less x y)) [
  | inl l ↦
      rw (set_difference, l)
        (
          λ q m. ground (arith, has-set_difference xs (y ∷ ys) q h.1 k, h.0 q),
          set_difference-IsSorted xs (y ∷ ys) h.1 k,
        )
  | inr l ↦ elim (Bool-cases (less y x)) [
    | inl g ↦ rw (set_difference, l, g) (set_difference-IsSorted (x ∷ xs) ys h k.1)
    | inr g ↦ rw (set_difference, l, g) (set_difference-IsSorted xs ys h.1 k.1)
  ]
]
