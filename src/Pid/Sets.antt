-- ===== src/Pid/Sets.antt =====
-- std::set<PID>, the PIDSet of common/cpp/src/include/p4p/pid.h, as the vector of its elements in
-- the order of operator<, with std::set_difference and std::set_union on sorted ranges.
use alto.Prelude.{◌≡◌, refl, Bool, true, false, ◌||◌, List, [], ◌∷◌, arith, ◌↔◌, if◌then◌else◌}
use alto.Prelude.Order.{equiv}
use alto.Pid.{Pid, less}
use alto.Pid.Order.{less-IsStrictWeak, equiv-eq, eq_iff}

-- Containers know PIDs by operator< only.
unfoldable pub same : Pid → Pid → Bool
same = equiv less

unfoldable pub has : List Pid → Pid → Bool
has [] p = false
has (q ∷ qs) p = same q p || has qs p

-- `s.insert(p)`
unfoldable pub insert : Pid → List Pid → List Pid
insert p [] = p ∷ []
insert p (q ∷ qs) = if less p q then p ∷ q ∷ qs else if less q p then q ∷ insert p qs else q ∷ qs

-- std::copy into an inserter of the set
unfoldable pub insert_all : List Pid → List Pid → List Pid
insert_all [] s = s
insert_all (p ∷ ps) s = insert_all ps (insert p s)

-- `s.erase(p)`
unfoldable pub erase : Pid → List Pid → List Pid
erase p [] = []
erase p (q ∷ qs) = if same q p then qs else q ∷ erase p qs

-- std::set_difference(xs, ys)
unfoldable pub set_difference : List Pid → List Pid → List Pid
set_difference [] ys = []
set_difference (x ∷ xs) [] = x ∷ xs
set_difference (x ∷ xs) (y ∷ ys) = elim (less x y) [
  | true ↦ x ∷ set_difference xs (y ∷ ys)
  | false ↦ elim (less y x) [ true ↦ set_difference (x ∷ xs) ys | false ↦ set_difference xs ys ]
]

-- std::set_union(xs, ys)
unfoldable pub set_union : List Pid → List Pid → List Pid
set_union [] ys = ys
set_union (x ∷ xs) [] = x ∷ xs
set_union (x ∷ xs) (y ∷ ys) = elim (less x y) [
  | true ↦ x ∷ set_union xs (y ∷ ys)
  | false ↦ elim (less y x) [ true ↦ y ∷ set_union (x ∷ xs) ys | false ↦ x ∷ set_union xs ys ]
]

pub same_iff : (a b : Pid) → (same a b ≡ true) ↔ (a ≡ b)
unfolding same
same_iff a b = rw (equiv-eq a b) (eq_iff a b)

pub same_refl : (a : Pid) → same a a ≡ true
same_refl a = (same_iff a a).1 refl

pub less_irrefl : (a : Pid) → less a a ≡ false
less_irrefl a = less-IsStrictWeak.irrefl a

pub same_of_neither : (a b : Pid) → less a b ≡ false → less b a ≡ false → a ≡ b
unfolding same equiv
same_of_neither a b h k = (same_iff a b).0 (ground arith)

pub less_trans : (a b c : Pid) → less a b ≡ true → less b c ≡ true → less a c ≡ true
less_trans a b c h k = ground (
  arith,
  less-IsStrictWeak.asym a b,
  less-IsStrictWeak.asym b c,
  less-IsStrictWeak.nontrans a c b,
  less-IsStrictWeak.nontrans c b a,
  less-IsStrictWeak.nontrans b a c,
)

-- Each element precedes all that follow it.
unfoldable pub IsSorted : List Pid → Type 0
IsSorted [] = Unit
IsSorted (p ∷ ps) = ((q : Pid) → has ps q ≡ true → less p q ≡ true) × IsSorted ps
