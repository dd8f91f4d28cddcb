-- ===== src/NetState/Edges.antt =====
-- The edges after the operations of the graph.
use alto.Prelude.{
  ℕ, ◌≡◌, ◌==◌, true, false, ◌&&◌, ◌||◌, List, [], ◌∷◌, ◌++◌, none, some, arith, if◌then◌else◌,
}
use alto.NetState.{
  NetEdge, NetState, joins, find_edge, erase_edge, clear_vertex, with_graph, get_edge, add_edge,
  remove_edge,
}

module _ {ℓ} {D : Type ℓ} where
  pub find-edge-append :
      (es : List (NetEdge D)) (e : NetEdge D) (a b : ℕ)
      → find_edge a b (es ++ e ∷ []) ≡ elim (find_edge a b es) [
        | some x ↦ some x
        | none ↦ (if joins e a b then some e else none)
      ]
  unfolding find_edge
  find-edge-append [] e a b = ground arith
  find-edge-append (x ∷ es) e a b = ground (arith, find-edge-append es e a b)

  pub find_edge-erase_edge :
      (es : List (NetEdge D)) (a b c d : ℕ)
      → find_edge c d (erase_edge a b es) ≡ (if a == c && b == d then none else find_edge c d es)
  unfolding find_edge erase_edge joins
  find_edge-erase_edge [] a b c d = ground arith
  find_edge-erase_edge (x ∷ es) a b c d = ground (arith, find_edge-erase_edge es a b c d)

  pub find_edge-clear_vertex :
      (es : List (NetEdge D)) (v a b : ℕ)
      → find_edge a b (clear_vertex v es) ≡ (if a == v || b == v then none else find_edge a b es)
  unfolding find_edge clear_vertex joins
  find_edge-clear_vertex [] v a b = ground arith
  find_edge-clear_vertex (x ∷ es) v a b = ground (arith, find_edge-clear_vertex es v a b)

  -- The edge found is between the vertices asked for.
  pub find_edge_ends :
      (es : List (NetEdge D)) (a b : ℕ) (e : NetEdge D)
      → find_edge a b es ≡ some e
      → (e.src ≡ a) × (e.dst ≡ b)
  unfolding find_edge joins
  find_edge_ends [] a b e h = cc
  find_edge_ends (x ∷ es) a b e h =
      (ground (arith, (find_edge_ends es a b e)), ground (arith, (find_edge_ends es a b e)))

  -- add_edge answers true exactly if there is no edge from the one vertex to the other, and then get_edge
  -- finds the new edge there, with the default traffic and capacity; every other edge is as it
  -- was. After remove_edge there is no edge there, and every other edge is as it was.
  pub get_edge_lem :
      (zero one : D) (s : NetState D) (a b c d : ℕ)
      → ((add_edge zero one s a b).1 ≡ elim (get_edge s a b) [ none ↦ true | some _ ↦ false ])
        × (get_edge (add_edge zero one s a b).0 c d ≡ (
            if (add_edge zero one s a b).1 && (a == c && b == d)
            then some (record { src = a; dst = b; name = []; traffic = zero; capacity = one })
            else get_edge s c d))
        × (get_edge (remove_edge s a b) c d ≡ (if a == c && b == d then none else get_edge s c d))
  unfolding get_edge add_edge remove_edge with_graph joins
  get_edge_lem zero one s a b c d = (
    ground arith,
    ground (
      arith,
      find-edge-append s.edges
          (record { src = a; dst = b; name = []; traffic = zero; capacity = one }) c d,
    ),
    find_edge-erase_edge s.edges a b c d,
  )
