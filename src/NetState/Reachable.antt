-- ===== src/NetState/Reachable.antt =====
-- The networks that a program can come to, with every edge between vertices that are there.
use alto.Prelude.{
  ℕ, ◌≡◌, refl, ◌==◌, Bool, true, false, ◌&&◌, List, [], none, some, arith, inl, inr, Option-cases,
  ==_iff,
}
use alto.Prelude.Dict
use alto.Prelude.Keyed
use alto.Prelude.Run.{ok}
use alto.PidAggregation.{Name, same_name}
use alto.NetState.{
  NetVertex, NetEdge, NetState, default_pid, find_vertex, erase_vertex, clear_vertex, find_edge,
  joins, empty_state, with_graph, get_node, get_name, get_edge_named, add_node, remove_vertex,
  remove_node, set_name, add_edge, add_edge_named, remove_edge, remove_edge_named,
}
use alto.NetState.Names.{IsNamed, name_in, add-IsNamed, remove-IsNamed}
use alto.NetState.Edges.{find-edge-append, find_edge-erase_edge, find_edge-clear_vertex}

-- Is the vertex in the list?
unfoldable pub has_vertex : List NetVertex → ℕ → Bool
has_vertex vs v = elim (find_vertex v vs) [ none ↦ false | some _ ↦ true ]

-- Is there an edge between two vertices?
unfoldable pub has_edge {ℓ} : {D : Type ℓ} → List (NetEdge D) → ℕ → ℕ → Bool
has_edge es a b = elim (find_edge a b es) [ none ↦ false | some _ ↦ true ]

-- The map of names agrees with the names of the vertices, and each edge is between two of them.
pub record IsCoherent {ℓ} {D : Type ℓ} (s : NetState D) : Type ℓ where
  pub names : IsNamed s.vertices s.name_vert_map s.next_id
  pub linked :
      (a b : ℕ)
      → has_edge s.edges a b ≡ true
      → (has_vertex s.vertices a && has_vertex s.vertices b) ≡ true

pub data Reachable {ℓ} {D : Type ℓ} : NetState D → Type ℓ where
  created : Reachable empty_state
  node_added : {s : NetState D} (n : Name) → Reachable s → Reachable (add_node s n).0
  node_removed :
      {s t : NetState D} {b : Bool} (n : Name)
      → Reachable s
      → remove_node s n ≡ ok (t, b)
      → Reachable t
  name_set :
      {s t : NetState D} (v : ℕ) (n : Name)
      → Reachable s
      → get_node s n ≡ none
      → set_name s v n ≡ ok t
      → Reachable t
  edge_added :
      {s : NetState D} (zero one : D) (src dst : Name)
      → Reachable s
      → Reachable (add_edge_named zero one s src dst).0
  edge_removed :
      {s : NetState D} (src dst : Name) → Reachable s → Reachable (remove_edge_named s src dst).0

module _ {ℓ} {D : Type ℓ} (s : NetState D) (h : IsCoherent s) where
  pub add_node-IsCoherent : (n : Name) → IsCoherent (add_node s n).0
  unfolding add_node with_graph get_node has_vertex
  add_node-IsCoherent n = elim (Option-cases (get_node s n)) [
    | inr (v, e) ↦ rw (e, add_node) h
    | inl e ↦
        let x : NetVertex = record {
          id = s.next_id;
          name = n;
          pid = default_pid;
          external = false;
        } in
        rw (e, add_node)
          (record {
            names = add-IsNamed s.vertices s.name_vert_map s.next_id x refl h.names e;
            linked = λ a b m. ground (
              arith,
              h.linked a b m,
              Keyed.find-append (λ v. v.id) ◌==◌ a s.vertices x,
              Keyed.find-append (λ v. v.id) ◌==◌ b s.vertices x,
            );
          })
  ]

  -- A vertex found by its name is there.
  pub node_known : (n : Name) (v : ℕ) → get_node s n ≡ some v → get_name s v ≡ some n
  unfolding get_node get_name name_in
  node_known n v e = (h.names.named n v).0 e

  node_vertex : (n : Name) (v : ℕ) → get_node s n ≡ some v → has_vertex s.vertices v ≡ true
  unfolding has_vertex get_name
  node_vertex n v e = ground (arith, node_known n v e)

  -- The network without a vertex.
  unfoldable pub without : ℕ → Name → NetState D
  without v n =
      with_graph s (erase_vertex v s.vertices) (clear_vertex v s.edges)
        (Dict.erase same_name n s.name_vert_map) s.next_id

  pub removed_lem :
      (n : Name) (v : ℕ) → get_node s n ≡ some v → remove_node s n ≡ ok (without v n, true)
  unfolding remove_node remove_vertex without
  removed_lem n v e = simp (e, node_known n v e, remove_node, remove_vertex)

  pub without-IsCoherent : (n : Name) (v : ℕ) → get_node s n ≡ some v → IsCoherent (without v n)
  unfolding without with_graph has_vertex has_edge get_name name_in
  without-IsCoherent n v e = record {
    names = remove-IsNamed s.vertices s.name_vert_map s.next_id v n (node_known n v e) h.names;
    linked = λ a b m. ground (
      arith,
      h.linked a b,
      find_edge-clear_vertex s.edges v a b,
      Keyed.find-erase (λ v. v.id) ◌==◌ ==_iff v a s.vertices h.names.unique,
      Keyed.find-erase (λ v. v.id) ◌==◌ ==_iff v b s.vertices h.names.unique,
    );
  }

  pub add_edge_named-IsCoherent :
      (zero one : D) (src dst : Name) → IsCoherent (add_edge_named zero one s src dst).0
  unfolding add_edge_named add_edge with_graph has_edge joins
  add_edge_named-IsCoherent zero one src dst = elim (Option-cases (get_node s src)) [
    | inl e ↦ rw (e, add_edge_named) h
    | inr (a, e) ↦ elim (Option-cases (get_node s dst)) [
      | inl f ↦ rw (e, f, add_edge_named) h
      | inr (b, f) ↦ elim (Option-cases (find_edge a b s.edges)) [
        | inr (x, g) ↦ rw (e, f, add_edge_named, add_edge, g) h
        | inl g ↦
            rw (e, f, add_edge_named, add_edge, g)
              (record {
                names = h.names;
                linked = λ c d m. ground (
                  arith,
                  h.linked c d,
                  find-edge-append s.edges
                      (record { src = a; dst = b; name = []; traffic = zero; capacity = one }) c d,
                  node_vertex src a e,
                  node_vertex dst b f,
                  (==_iff a c).0,
                  (==_iff b d).0,
                );
              })
      ]
    ]
  ]

  pub remove_edge_named-IsCoherent : (src dst : Name) → IsCoherent (remove_edge_named s src dst).0
  unfolding remove_edge_named remove_edge has_edge
  remove_edge_named-IsCoherent src dst = elim (Option-cases (get_edge_named s src dst)) [
    | inl e ↦ rw (e, remove_edge_named) h
    | inr (x, e) ↦
        rw (e, remove_edge_named)
          (record {
            names = h.names;
            linked =
                λ c d m. ground (arith, h.linked c d, find_edge-erase_edge s.edges x.src x.dst c d);
          })
  ]
