-- ===== src/PidPeerSelectionHelper/Fresh.antt =====
-- The loop of the nocopy strategy ends: as long as a peer is left, some value of rand() draws one.
use alto.Prelude.{
  ℕ, zero, suc, ◌+◌, ◌<◌, ◌≡◌, ◌∙◌, sym, ap, refl, true, false, List, [], ◌∷◌, Option, none, some,
  inl, inr, length, get_elem?, if◌then◌else◌, arith, Bool-cases,
}
use alto.PidPeerSelectionHelper.{is_selected, same_peer}

-- The peers in a list of candidates are different.
abbrev pub IsDistinct : List ℕ → Type 0
IsDistinct xs = (i j x : ℕ) → get_elem? xs i ≡ some x → get_elem? xs j ≡ some x → i ≡ j

-- A set of peers without one peer.
unfoldable without : ℕ → List (Option ℕ) → List (Option ℕ)
without x [] = []
without x (p ∷ ps) = let rest = without x ps in if same_peer p (some x) then ps else p ∷ rest

length-without :
    (x : ℕ) (ps : List (Option ℕ))
    → is_selected (some x) ps ≡ true
    → length (without x ps) + 1 ≡ length ps
unfolding is_selected without
length-without x [] h = absurd (ground arith)
length-without x (p ∷ ps) h = ground (arith, length-without x ps)

same_peer_eq : (p : Option ℕ) (x : ℕ) → same_peer p (some x) ≡ true → p ≡ some x
same_peer_eq none x h = absurd (ground arith)
same_peer_eq (some y) x h = ground arith

is_selected-without :
    (x y : ℕ) (ps : List (Option ℕ))
    → (x ≡ y → ⊥)
    → is_selected (some y) (without x ps) ≡ is_selected (some y) ps
unfolding is_selected without
is_selected-without x y [] ne = refl
is_selected-without x y (none ∷ ps) ne = ground (arith, is_selected-without x y ps ne)
is_selected-without x y (some z ∷ ps) ne = ground (arith, is_selected-without x y ps ne)

-- Of more candidates than there are selected peers, one is not selected.
pub some_fresh :
    (xs : List ℕ) (ps : List (Option ℕ))
    → IsDistinct xs
    → length ps < length xs
    → (i x : ℕ) × (get_elem? xs i ≡ some x) × (is_selected (some x) ps ≡ false)
some_fresh [] ps d h = absurd (omega arith)
some_fresh (x ∷ xs) ps d h = elim (Bool-cases (is_selected (some x) ps)) [
  | inr fresh ↦ (zero, x, refl, fresh)
  | inl taken ↦
      let (i, y, e, f) =
        some_fresh xs (without x ps) (λ i j z a b. omega (arith, d (suc i) (suc j) z a b))
          (omega (arith, length-without x ps taken)) in
      let differs : x ≡ y → ⊥ =
        λ same. omega (arith, d zero (suc i) x refl (e ∙ ap some (sym same))) in
      (suc i, y, e, sym (is_selected-without x y ps differs) ∙ f)
]
