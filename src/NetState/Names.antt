-- ===== src/NetState/Names.antt =====
-- The names of the vertices: the map from names to vertices says what the vertices say.
use alto.Prelude.{
  ℕ, suc, ◌≤◌, ◌≡◌, refl, ◌==◌, List, [], ◌∷◌, ◌++◌, Option, none, some, arith, ◌↔◌, ==_iff,
}
use alto.Prelude.Order.{IsEquivalence}
use alto.Prelude.Dict
use alto.Prelude.Keyed
use alto.Prelude.Keyed.{IsUnique}
use alto.PidAggregation.{Name, same_name}
use alto.PidAggregation.Names.{same_name_iff}
use alto.NetState.{NetVertex, find_vertex, erase_vertex}

pub name-IsEquivalence : IsEquivalence same_name
name-IsEquivalence = record {
  same_refl = λ a. (same_name_iff a a).1 refl;
  same_sym = λ a b h. ground (arith, (same_name_iff a b).0, (same_name_iff b a).1);
  same_trans = λ a b c h k.
      ground (arith, (same_name_iff a b).0, (same_name_iff b c).0, (same_name_iff a c).1);
}

-- The name that a vertex of the list has.
unfoldable pub name_in : List NetVertex → ℕ → Option Name
name_in vs v = elim (find_vertex v vs) [ none ↦ none | some x ↦ some x.name ]

-- Vertices are told apart, none has the identity of the next one, and a name is mapped to a vertex
-- exactly if the vertex has that name.
pub record IsNamed (vs : List NetVertex) (names : List (Name × ℕ)) (next : ℕ) : Type 0 where
  pub unique : IsUnique (λ v. v.id) ◌==◌ vs
  pub fresh : (i : ℕ) → next ≤ i → find_vertex i vs ≡ none
  pub named :
      (n : Name) (v : ℕ) → (Dict.lookup same_name n names ≡ some v) ↔ (name_in vs v ≡ some n)

pub empty-IsNamed : IsNamed [] [] 0
unfolding Keyed.find Keyed.IsUnique Dict.lookup name_in
empty-IsNamed = record { unique = tt; fresh = λ i h. refl; named = λ n v. (λ h. cc, λ h. cc) }

pub add-IsNamed :
    (vs : List NetVertex) (names : List (Name × ℕ)) (next : ℕ) (x : NetVertex)
    → x.id ≡ next
    → IsNamed vs names next
    → Dict.lookup same_name x.name names ≡ none
    → IsNamed (vs ++ x ∷ []) (Dict.assign same_name x.name next names) (suc next)
unfolding name_in
add-IsNamed vs names next x at h new = record {
  unique = Keyed.append-IsUnique (λ v. v.id) ◌==◌ ==_iff vs x h.unique (h.fresh x.id (omega arith));
  fresh =
      λ i le. ground (arith, Keyed.find-append (λ v. v.id) ◌==◌ i vs x, h.fresh i (omega arith));
  named = λ n v. ground (
    arith,
    Keyed.find-append (λ v. v.id) ◌==◌ v vs x,
    Dict.lookup-assign same_name name-IsEquivalence x.name n next names,
    h.fresh v,
    h.named n v,
    h.named n next,
    h.named x.name v,
    h.fresh next,
    (same_name_iff x.name n).0,
    (same_name_iff x.name n).1,
  );
}

pub remove-IsNamed :
    (vs : List NetVertex) (names : List (Name × ℕ)) (next v : ℕ) (n : Name)
    → name_in vs v ≡ some n
    → IsNamed vs names next
    → IsNamed (erase_vertex v vs) (Dict.erase same_name n names) next
unfolding name_in
remove-IsNamed vs names next v n at h = record {
  unique = Keyed.erase-IsUnique (λ v. v.id) ◌==◌ (λ v. v.id) ◌==◌ ==_iff ==_iff v vs h.unique;
  fresh = λ i le.
      ground (arith, Keyed.find-erase (λ v. v.id) ◌==◌ ==_iff v i vs h.unique, h.fresh i le);
  named = λ m u. ground (
    arith,
    Keyed.find-erase (λ v. v.id) ◌==◌ ==_iff v u vs h.unique,
    Dict.lookup-erase same_name name-IsEquivalence n m names,
    h.named m u,
    h.named n v,
    h.named m v,
    h.named n u,
    (same_name_iff n m).0,
    (same_name_iff n m).1,
    (==_iff v u).0,
    (==_iff v u).1,
  );
}
