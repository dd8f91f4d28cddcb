-- ===== src/NetState/Removal.antt =====
-- Adding, naming and removing vertices in the networks that a program can come to.
use alto.Prelude.{
  ℕ, ◌≡◌, refl, ◌==◌, Bool, true, false, ◌||◌, List, [], ◌∷◌, none, some, arith, if◌then◌else◌, inl,
  inr, Option-cases, Bool-cases, ==_iff, ap, sym, ◌∙◌,
}
use mathlib.Core.Path.{subst}
use alto.Prelude.Dict
use alto.Prelude.Keyed
use alto.Prelude.Keyed.{IsUnique}
use alto.Prelude.Run.{ok, fault}
use alto.PidAggregation.{Name, same_name}
use alto.PidAggregation.Names.{same_name_iff}
use alto.NetState.{
  NetVertex, NetState, find_vertex, put_name, insert_name, find_edge, empty_state, with_graph,
  get_node, get_name, get_edge, add_node, remove_node, set_name,
}
use alto.NetState.Names.{IsNamed, name_in, name-IsEquivalence, empty-IsNamed}
use alto.NetState.Edges.{find_edge-clear_vertex}
use alto.NetState.Reachable.{
  IsCoherent, Reachable, created, node_added, node_removed, name_set, edge_added, edge_removed,
  has_vertex, has_edge, add_node-IsCoherent, without, removed_lem, without-IsCoherent,
  add_edge_named-IsCoherent, remove_edge_named-IsCoherent,
}

find-put_name :
    (v u : ℕ) (n : Name) (vs : List NetVertex)
    → find_vertex u (put_name v n vs) ≡ elim (find_vertex u vs) [
      | none ↦ none
      | some x ↦
          some (
            if v == u
            then record { id = x.id; name = n; pid = x.pid; external = x.external }
            else x)
    ]
unfolding Keyed.find put_name
find-put_name v u n [] = refl
find-put_name v u n (x ∷ vs) = ground (arith, find-put_name v u n vs)

put_name-IsUnique :
    (v : ℕ) (n : Name) (vs : List NetVertex)
    → IsUnique (λ v. v.id) ◌==◌ vs
    → IsUnique (λ v. v.id) ◌==◌ (put_name v n vs)
unfolding put_name Keyed.IsUnique
put_name-IsUnique v n [] u = tt
put_name-IsUnique v n (x ∷ vs) u = elim (Bool-cases (x.id == v)) [
  | inl e ↦ rw (e) (u.0, u.1)
  | inr e ↦ rw (e) (ground (arith, find-put_name v x.id n vs, u.0), put_name-IsUnique v n vs u.1)
]

lookup-insert_name :
    (n m : Name) (v : ℕ) (names : List (Name × ℕ))
    → Dict.lookup same_name n names ≡ none
    → Dict.lookup same_name m (insert_name n v names)
      ≡ (if same_name n m then some v else Dict.lookup same_name m names)
unfolding insert_name
lookup-insert_name n m v names e =
    ground (arith, Dict.lookup-assign same_name name-IsEquivalence n m v names)

-- A vertex takes a name that no vertex has.
put-IsNamed :
    (vs : List NetVertex) (names : List (Name × ℕ)) (next v : ℕ) (old value : Name)
    → name_in vs v ≡ some old
    → Dict.lookup same_name value names ≡ none
    → IsNamed vs names next
    → IsNamed (put_name v value vs) (insert_name value v (Dict.erase same_name old names)) next
unfolding name_in
put-IsNamed vs names next v old value at new h = record {
  unique = put_name-IsUnique v value vs h.unique;
  fresh = λ i le. ground (arith, find-put_name v i value vs, h.fresh i le);
  named = λ m u. ground (
    arith,
    find-put_name v u value vs,
    lookup-insert_name value m v (Dict.erase same_name old names),
    Dict.lookup-erase same_name name-IsEquivalence old value names,
    Dict.lookup-erase same_name name-IsEquivalence old m names,
    h.named m u,
    h.named old v,
    h.named m v,
    h.named old u,
    h.named value u,
    (same_name_iff value m).0,
    (same_name_iff value m).1,
    (same_name_iff old m).0,
    (same_name_iff old m).1,
    (==_iff v u).0,
    (==_iff v u).1,
  );
}

ok_injective {ℓ} : {A : Type ℓ} (a b : A) → ok a ≡ ok b → a ≡ b
ok_injective a b e = cc

module _ {ℓ} {D : Type ℓ} (s : NetState D) (h : IsCoherent s) where
  -- The network with another name of a vertex.
  renamed : ℕ → Name → Name → NetState D
  renamed v old value =
      with_graph s (put_name v value s.vertices) s.edges
        (insert_name value v (Dict.erase same_name old s.name_vert_map)) s.next_id

  set_name_of :
      (v : ℕ) (old value : Name)
      → get_name s v ≡ some old
      → set_name s v value ≡ ok (renamed v old value)
  unfolding set_name renamed
  set_name_of v old value e = simp (e, set_name)

  set_name_dead : (v : ℕ) (value : Name) → get_name s v ≡ none → set_name s v value ≡ fault
  unfolding set_name
  set_name_dead v value e = simp (e, set_name)

  renamed-IsCoherent :
      (v : ℕ) (old value : Name)
      → get_name s v ≡ some old
      → get_node s value ≡ none
      → IsCoherent (renamed v old value)
  unfolding renamed with_graph get_name get_node name_in has_vertex
  renamed-IsCoherent v old value e new = record {
    names = put-IsNamed s.vertices s.name_vert_map s.next_id v old value e new h.names;
    linked = λ a b m. ground (
      arith,
      h.linked a b m,
      find-put_name v a value s.vertices,
      find-put_name v b value s.vertices,
    );
  }

  set_name-IsCoherent :
      (v : ℕ) (value : Name) (t : NetState D)
      → get_node s value ≡ none
      → set_name s v value ≡ ok t
      → IsCoherent t
  set_name-IsCoherent v value t new e = elim (Option-cases (get_name s v)) [
    | inl g ↦ absurd (fault_not_ok t (sym (set_name_dead v value g) ∙ e))
    | inr (old, g) ↦
        subst IsCoherent
          (ok_injective (renamed v old value) t (sym (set_name_of v old value g) ∙ e))
          (renamed-IsCoherent v old value g new)
  ]
    where
      fault_not_ok : (t : NetState D) → fault ≡ ok t → ⊥
      fault_not_ok t e = cc

  unknown : (n : Name) → get_node s n ≡ none → remove_node s n ≡ ok (s, false)
  unfolding remove_node
  unknown n e = simp (e, remove_node)

  node-without :
      (n m : Name) (v : ℕ)
      → get_node (without s h v n) m ≡ (if same_name n m then none else get_node s m)
  unfolding without with_graph get_node
  node-without n m v = Dict.lookup-erase same_name name-IsEquivalence n m s.name_vert_map

  edge-without :
      (n : Name) (v a b : ℕ)
      → get_edge (without s h v n) a b ≡ (if a == v || b == v then none else get_edge s a b)
  unfolding without with_graph get_edge
  edge-without n v a b = find_edge-clear_vertex s.edges v a b

  -- In a coherent network remove_node on a name meets no vertex that is not there, and answers whether
  -- the name was known. Then the name is unknown and every other name finds what it did, and
  -- the edges from and to the removed vertex are gone and no others.
  pub remove_node_lem :
      (n m : Name) (a b : ℕ)
      → (t : NetState D) × (remove_node s n
          ≡ ok (t, elim (get_node s n) [ none ↦ false | some _ ↦ true ]))
        × (get_node t m ≡ (if same_name n m then none else get_node s m))
        × (get_edge t a b ≡ elim (get_node s n) [
          | none ↦ get_edge s a b
          | some v ↦ (if a == v || b == v then none else get_edge s a b)
        ])
  remove_node_lem n m a b = elim (Option-cases (get_node s n)) [
    | inl e ↦ (s, rw (e) (unknown n e), ground (arith, (same_name_iff n m).0), rw (e) refl)
    | inr (v, e) ↦ (
      without s h v n,
      rw (e) (removed_lem s h n v e),
      node-without n m v,
      rw (e) (edge-without n v a b),
    )
  ]

-- add_node answers whether the name is new, and in any case the vertex that get_node finds for the name
-- afterwards; every other name finds what it did, and the edges stay.
pub add_node_lem {ℓ} :
    {D : Type ℓ} (s : NetState D) (n m : Name) (a b : ℕ)
    → ((add_node s n).2 ≡ elim (get_node s n) [ none ↦ true | some _ ↦ false ])
      × (get_node (add_node s n).0 m
          ≡ (if same_name n m then some (add_node s n).1 else get_node s m))
      × (get_edge (add_node s n).0 a b ≡ get_edge s a b)
unfolding add_node with_graph get_node get_edge
add_node_lem s n m a b = (
  ground arith,
  ground (
    arith,
    Dict.lookup-assign same_name name-IsEquivalence n m s.next_id s.name_vert_map,
    (same_name_iff n m).0,
  ),
  ground arith,
)

ok_first {ℓ} : {A : Type ℓ} (p q : A × Bool) → ok p ≡ ok q → p.0 ≡ q.0
ok_first p q e = ap (λ r. r.0) (ok_injective p q e)

remove_node-IsCoherent {ℓ} :
    {D : Type ℓ} (s t : NetState D) (h : IsCoherent s) (n : Name) (b : Bool)
    → remove_node s n ≡ ok (t, b)
    → IsCoherent t
remove_node-IsCoherent s t h n b e = elim (Option-cases (get_node s n)) [
  | inl f ↦ subst IsCoherent (ok_first (s, false) (t, b) (sym (unknown s h n f) ∙ e)) h
  | inr (v, f) ↦
      subst IsCoherent (ok_first (without s h v n, true) (t, b) (sym (removed_lem s h n v f) ∙ e))
        (without-IsCoherent s h n v f)
]

-- In every network that a program can come to by adding and removing vertices and edges by their names,
-- and by giving vertices names that are free, a name is mapped to a vertex exactly if that vertex
-- has the name, and every edge is between two vertices of the network.
pub Reachable-IsCoherent {ℓ} : {D : Type ℓ} (s : NetState D) → Reachable s → IsCoherent s
unfolding empty_state has_edge find_edge
Reachable-IsCoherent _ created = record { names = empty-IsNamed; linked = λ a b m. cc }
Reachable-IsCoherent _ (node_added {s} n r) = add_node-IsCoherent s (Reachable-IsCoherent s r) n
Reachable-IsCoherent t (node_removed {s} {b = b} n r e) =
    remove_node-IsCoherent s t (Reachable-IsCoherent s r) n b e
Reachable-IsCoherent t (name_set {s} v n r new e) =
    set_name-IsCoherent s (Reachable-IsCoherent s r) v n t new e
Reachable-IsCoherent _ (edge_added {s} zero one src dst r) =
    add_edge_named-IsCoherent s (Reachable-IsCoherent s r) zero one src dst
Reachable-IsCoherent _ (edge_removed {s} src dst r) =
    remove_edge_named-IsCoherent s (Reachable-IsCoherent s r) src dst
