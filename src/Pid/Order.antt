-- ===== src/Pid/Order.antt =====
-- operator< is a strict weak order that tells PIDs apart exactly as operator== does, so that a map
-- keyed by PIDs holds one entry for each PID.
use alto.Prelude.{ℕ, ◌≡◌, refl, true, false, List, [], ◌∷◌, arith, ◌↔◌}
use alto.Prelude.Order.{IsStrictWeak, equiv}
use alto.Pid.{Pid, bytes_less, bytes_eq, less, eq}

pub bytes_irrefl : (a : List ℕ) → bytes_less a a ≡ false
unfolding bytes_less
bytes_irrefl [] = refl
bytes_irrefl (x ∷ xs) = ground (arith, bytes_irrefl xs)

bytes_asym : (a b : List ℕ) → bytes_less a b ≡ true → bytes_less b a ≡ false
unfolding bytes_less
bytes_asym [] [] h = refl
bytes_asym [] (y ∷ ys) h = refl
bytes_asym (x ∷ xs) [] h = cc
bytes_asym (x ∷ xs) (y ∷ ys) h = ground (arith, bytes_asym xs ys)

bytes_nontrans :
    (a b c : List ℕ) → bytes_less a b ≡ false → bytes_less b c ≡ false → bytes_less a c ≡ false
unfolding bytes_less
bytes_nontrans [] [] c h k = k
bytes_nontrans [] (y ∷ ys) c h k = cc
bytes_nontrans (x ∷ xs) b [] h k = refl
bytes_nontrans (x ∷ xs) [] (z ∷ zs) h k = cc
bytes_nontrans (x ∷ xs) (y ∷ ys) (z ∷ zs) h k = ground (arith, bytes_nontrans xs ys zs)

pub bytes_equiv : (a b : List ℕ) → bytes_less a b ≡ false → bytes_less b a ≡ false → a ≡ b
unfolding bytes_less
bytes_equiv [] [] h k = refl
bytes_equiv [] (y ∷ ys) h k = cc
bytes_equiv (x ∷ xs) [] h k = cc
bytes_equiv (x ∷ xs) (y ∷ ys) h k = ground (arith, bytes_equiv xs ys)

bytes_eq_iff : (a b : List ℕ) → (bytes_eq a b ≡ true) ↔ (a ≡ b)
unfolding bytes_eq
bytes_eq_iff [] [] = (λ h. refl, λ h. refl)
bytes_eq_iff [] (y ∷ ys) = (λ h. cc, λ h. cc)
bytes_eq_iff (x ∷ xs) [] = (λ h. cc, λ h. cc)
bytes_eq_iff (x ∷ xs) (y ∷ ys) =
    (λ h. ground (arith, (bytes_eq_iff xs ys).0), λ h. ground (arith, (bytes_eq_iff xs ys).1))

-- operator== answers whether two PIDs are the same.
pub eq_iff : (a b : Pid) → (eq a b ≡ true) ↔ (a ≡ b)
unfolding eq
eq_iff a b = (
  λ h. ground (arith, (bytes_eq_iff a.isp b.isp).0),
  λ h. ground (arith, (bytes_eq_iff a.isp b.isp).1),
)

-- operator< is a strict weak order.
pub less-IsStrictWeak : IsStrictWeak less
unfolding less
less-IsStrictWeak = record {
  irrefl = λ a. ground (arith, bytes_irrefl a.isp);
  asym = λ a b h. ground (arith, bytes_asym a.isp b.isp);
  nontrans = λ a b c h k. ground (
    arith,
    bytes_nontrans a.isp b.isp c.isp,
    bytes_asym a.isp b.isp,
    bytes_equiv a.isp b.isp,
    bytes_equiv b.isp c.isp,
  );
}

-- Neither of two PIDs precedes the other exactly if operator== holds of them.
pub equiv-eq : (a b : Pid) → equiv less a b ≡ eq a b
unfolding equiv less eq
equiv-eq a b = ground (
  arith,
  bytes_equiv a.isp b.isp,
  (bytes_eq_iff a.isp b.isp).0,
  (bytes_eq_iff a.isp b.isp).1,
  bytes_irrefl a.isp,
  bytes_irrefl b.isp,
)
