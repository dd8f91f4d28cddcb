-- ===== src/IpPrefix/Order.antt =====
-- operator< is a strict weak order, and operator== equality, so that a set of prefixes holds each
-- network once.
use alto.Prelude.{
  ◌∙◌, sym, Bool, ℕ, ◌≡◌, refl, ◌==◌, ◌↔◌, true, false, List, [], ◌∷◌, length, ltb, if◌then◌else◌,
  arith,
}
use alto.Prelude.Int.{pos, ltb_ℤ}
use alto.IpPrefix.{IpPrefix, memcmp, less, eq}

-- The bytes of the union.
pub record HasBytes (p : IpPrefix) : Type 0 where
  pub sixteen : length p.address ≡ 16

memcmp_irrefl : (a : List ℕ) → memcmp a a ≡ pos 0
memcmp_irrefl [] = refl
memcmp_irrefl (x ∷ xs) = ground (arith, memcmp_irrefl xs)

memcmp_eq : (a b : List ℕ) → length a ≡ length b → memcmp a b ≡ pos 0 → a ≡ b
memcmp_eq [] [] l e = refl
memcmp_eq [] (y ∷ ys) l e = absurd (omega arith)
memcmp_eq (x ∷ xs) [] l e = absurd (omega arith)
memcmp_eq (x ∷ xs) (y ∷ ys) l e = ground (arith, memcmp_eq xs ys)

memcmp_asym :
    (a b : List ℕ) → ltb_ℤ (memcmp a b) (pos 0) ≡ true → ltb_ℤ (memcmp b a) (pos 0) ≡ false
memcmp_asym [] b h = absurd (ground arith)
memcmp_asym (x ∷ xs) [] h = absurd (ground arith)
memcmp_asym (x ∷ xs) (y ∷ ys) h = ground (arith, memcmp_asym xs ys)

memcmp_nontrans :
    (a b c : List ℕ)
    → length a ≡ length b
    → length b ≡ length c
    → ltb_ℤ (memcmp a b) (pos 0) ≡ false
    → ltb_ℤ (memcmp b c) (pos 0) ≡ false
    → ltb_ℤ (memcmp a c) (pos 0) ≡ false
memcmp_nontrans [] b c l m h k = ground arith
memcmp_nontrans (x ∷ xs) [] c l m h k = absurd (omega arith)
memcmp_nontrans (x ∷ xs) (y ∷ ys) [] l m h k = absurd (omega arith)
memcmp_nontrans (x ∷ xs) (y ∷ ys) (z ∷ zs) l m h k = ground (arith, memcmp_nontrans xs ys zs)

-- For prefixes whose address is the 16 bytes of the union, operator== answers whether they are the
-- same.
pub eq_iff_same : (p q : IpPrefix) → HasBytes p → HasBytes q → (eq p q ≡ true) ↔ (p ≡ q)
unfolding eq
eq_iff_same p q hp hq = (
  λ e. ground (arith, memcmp_eq p.address q.address, hp.sixteen, hq.sixteen),
  λ e. ground (arith, memcmp_irrefl p.address, e),
)

memless : List ℕ → List ℕ → Bool
memless a b = ltb_ℤ (memcmp a b) (pos 0)

-- operator< by family, then by length, then by the bytes.
less_cases :
    (p q : IpPrefix)
    → less p q ≡ (
        if p.family == q.family
        then (if p.length_of == q.length_of
            then memless p.address q.address
            else ltb p.length_of q.length_of)
        else ltb p.family q.family)
unfolding less memless
less_cases p q = ground arith

memless_irrefl : (a : List ℕ) → memless a a ≡ false
unfolding memless
memless_irrefl a = ground (arith, memcmp_irrefl a)

memless_asym : (a b : List ℕ) → memless a b ≡ true → memless b a ≡ false
unfolding memless
memless_asym a b h = memcmp_asym a b h

memless_nontrans :
    (a b c : List ℕ)
    → length a ≡ 16
    → length b ≡ 16
    → length c ≡ 16
    → memless a b ≡ false
    → memless b c ≡ false
    → memless a c ≡ false
unfolding memless
memless_nontrans a b c l m n h k = memcmp_nontrans a b c (l ∙ sym m) (m ∙ sym n) h k

memcmp_flip :
    (a b : List ℕ)
    → ltb_ℤ (memcmp a b) (pos 0) ≡ false
    → ltb_ℤ (memcmp b a) (pos 0) ≡ false
    → length a ≡ length b
    → a ≡ b
memcmp_flip [] [] h k l = refl
memcmp_flip [] (y ∷ ys) h k l = absurd (omega arith)
memcmp_flip (x ∷ xs) [] h k l = absurd (omega arith)
memcmp_flip (x ∷ xs) (y ∷ ys) h k l = ground (arith, memcmp_flip xs ys)

memless_total :
    (a b : List ℕ)
    → length a ≡ 16
    → length b ≡ 16
    → memless a b ≡ false
    → memless b a ≡ false
    → a ≡ b
unfolding memless
memless_total a b l m h k = memcmp_flip a b h k (l ∙ sym m)

-- Over prefixes whose address is the 16 bytes of the union, operator< is a strict weak order, and
-- two prefixes of which neither precedes the other are the same.
pub less_order :
    (p q r : IpPrefix)
    → HasBytes p
    → HasBytes q
    → HasBytes r
    → (less p p ≡ false)
      × (less p q ≡ true → less q p ≡ false)
      × (less p q ≡ false → less q r ≡ false → less p r ≡ false)
      × (less p q ≡ false → less q p ≡ false → p ≡ q)
less_order p q r hp hq hr = (
  ground (arith, less_cases p p, memless_irrefl p.address),
  λ h. ground (arith, less_cases p q, less_cases q p, memless_asym p.address q.address),
  λ h k. nontrans h k,
  λ h k. ground (
    arith,
    less_cases p q,
    less_cases q p,
    memless_total p.address q.address hp.sixteen hq.sixteen,
  ),
)
  where
    nontrans : less p q ≡ false → less q r ≡ false → less p r ≡ false
    nontrans h k = ground (
      arith,
      less_cases p q,
      less_cases q r,
      less_cases p r,
      memless_nontrans p.address q.address r.address hp.sixteen hq.sixteen hr.sixteen,
    )
