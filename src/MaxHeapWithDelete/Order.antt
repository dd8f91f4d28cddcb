-- ===== src/MaxHeapWithDelete/Order.antt =====
-- The heap order, and the two states of a heap that is in order but for one element.
use alto.Prelude.{
  ℕ, ◌<◌, ◌≡◌, ◌≢◌, refl, Bool, true, false, List, Option, none, some, get_elem?, set, arith,
  get_elem?-swap,
}
use alto.Prelude.Order.{IsStrictWeak}
use alto.MaxHeapWithDelete.{parent}

module _ {ℓ} {T : Type ℓ} (above : T → T → Bool) where
  -- Both elements exist, and the first has the higher priority.
  unfoldable pub over : Option T → Option T → Bool
  over (some a) (some b) = above a b
  over _ _ = false

  pub over-some : (a b : T) → over (some a) (some b) ≡ above a b
  unfolding over
  over-some a b = refl

  pub over-none : (b : Option T) → over none b ≡ false
  unfolding over
  over-none (some b) = refl
  over-none none = refl

  -- No element has a higher priority than its parent.
  abbrev pub IsHeap : List T → Type 0
  IsHeap v = (c : ℕ) → 0 < c → over (get_elem? v c) (get_elem? v (parent c)) ≡ false

  -- No child of `i` has a higher priority than the parent of `i`.
  abbrev pub IsBridged : List T → ℕ → Type 0
  IsBridged v i =
      (c : ℕ) → 0 < c → parent c ≡ i → 0 < i → over (get_elem? v c) (get_elem? v (parent i)) ≡ false

  -- In order but for the edge above `i`.
  pub record UpInv (v : List T) (i : ℕ) : Type 0 where
    pub edges : (c : ℕ) → 0 < c → c ≢ i → over (get_elem? v c) (get_elem? v (parent c)) ≡ false
    pub bridged : IsBridged v i

  -- In order but for the edges below `i`.
  pub record DownInv (v : List T) (i : ℕ) : Type 0 where
    pub edges :
        (c : ℕ) → 0 < c → parent c ≢ i → over (get_elem? v c) (get_elem? v (parent c)) ≡ false
    pub bridged : IsBridged v i

module _ {ℓ} {T : Type ℓ} {above : T → T → Bool} (w : IsStrictWeak above) where
  pub over_asym : (a b : Option T) → over above a b ≡ true → over above b a ≡ false
  unfolding over
  over_asym (some a) (some b) h = w.asym a b h
  over_asym (some a) none h = refl
  over_asym none b h = ground arith

  pub over_nontrans :
      (a : Option T) (b : T) (c : Option T)
      → over above a (some b) ≡ false
      → over above (some b) c ≡ false
      → over above a c ≡ false
  unfolding over
  over_nontrans (some a) b (some c) h k = w.nontrans a b c h k
  over_nontrans (some a) b none h k = refl
  over_nontrans none b (some c) h k = refl
  over_nontrans none b none h k = refl

  module _ (v : List T) (i : ℕ) (x y : T) (pos : 0 < i) (hi : get_elem? v i ≡ some x)
      (hp : get_elem? v (parent i) ≡ some y) (larger : above x y ≡ true) where
    -- Trading an element with its smaller parent moves the one broken edge up.
    pub UpInv-swap : UpInv above v i → UpInv above (set (set v i y) (parent i) x) (parent i)
    UpInv-swap u = record {
      edges = λ c p ne. ground (
        arith,
        get_elem?-swap v i (parent i) x y hi hp c,
        get_elem?-swap v i (parent i) x y hi hp (parent c),
        u.edges c,
        u.bridged c,
        over-some above x y,
        over-some above y x,
        over_asym (some x) (some y),
        over_nontrans (get_elem? v c) y (some x),
      );
      bridged = λ c p e q. ground (
        arith,
        get_elem?-swap v i (parent i) x y hi hp c,
        get_elem?-swap v i (parent i) x y hi hp (parent (parent i)),
        u.edges c,
        u.edges (parent i),
        over-some above x y,
        over_nontrans (get_elem? v c) y (get_elem? v (parent (parent i))),
      );
    }
