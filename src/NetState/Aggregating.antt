-- ===== src/NetState/Aggregating.antt =====
-- aggregate_node of common-server/src/lib/net_state.cpp: several vertices become one, which takes over
-- their edges to other vertices. The sum of two numbers is a parameter.
use alto.Prelude.{
  ℕ, ◌==◌, Bool, true, false, not, ◌&&◌, ◌||◌, List, [], ◌∷◌, ◌++◌, none, some, if◌then◌else◌,
}
use alto.Prelude.Run.{Run, ok, ◌>>=◌}
use alto.PidAggregation.{Name}
use alto.NetState.{
  NetEdge, NetState, joins, find_edge, with_graph, add_node, set_name, remove_vertex,
}

-- `vertices.find(v) != vertices.end()`
unfoldable pub has_id : List ℕ → ℕ → Bool
has_id [] v = false
has_id (w ∷ ws) v = w == v || has_id ws v

-- The loop that removes the vertices.
unfoldable pub remove_all {ℓ} : {D : Type ℓ} → List ℕ → NetState D → Run (NetState D)
remove_all [] s = ok s
remove_all (v ∷ vs) s = do t ← remove_vertex s v; remove_all vs t

module _ {ℓ} {D : Type ℓ} (add : D → D → D) where
  -- The traffic and the capacity of an edge added to those of the edge between two vertices.
  unfoldable pub add_to_edge : ℕ → ℕ → NetEdge D → List (NetEdge D) → List (NetEdge D)
  add_to_edge a b e [] = []
  add_to_edge a b e (x ∷ es) =
      if joins x a b
      then record {
        src = x.src;
        dst = x.dst;
        name = x.name;
        traffic = add x.traffic e.traffic;
        capacity = add x.capacity e.capacity;
      }
        ∷ es
      else x ∷ add_to_edge a b e es

  -- boost::add_edge, and the properties of the edge that it makes or finds
  unfoldable pub merge_edge : ℕ → ℕ → NetEdge D → List (NetEdge D) → List (NetEdge D)
  merge_edge a b e es = elim (find_edge a b es) [
    | none ↦
        es
        ++ record { src = a; dst = b; name = []; traffic = e.traffic; capacity = e.capacity } ∷ []
    | some _ ↦ add_to_edge a b e es
  ]

  -- The loop over boost::in_edges(v, graph_)
  unfoldable pub copy_in : List ℕ → ℕ → ℕ → List (NetEdge D) → List (NetEdge D) → List (NetEdge D)
  copy_in vertices result v [] es = es
  copy_in vertices result v (e ∷ ins) es =
      if e.dst == v && not (has_id vertices e.src)
      then copy_in vertices result v ins (merge_edge e.src result e es)
      else copy_in vertices result v ins es

  -- The loop over boost::out_edges(v, graph_)
  unfoldable pub copy_out : List ℕ → ℕ → ℕ → List (NetEdge D) → List (NetEdge D) → List (NetEdge D)
  copy_out vertices result v [] es = es
  copy_out vertices result v (e ∷ outs) es =
      if e.src == v && not (has_id vertices e.dst)
      then copy_out vertices result v outs (merge_edge result e.dst e es)
      else copy_out vertices result v outs es

  -- The loop over the vertices that copies their edges.
  unfoldable pub copy_edges : List ℕ → ℕ → List ℕ → List (NetEdge D) → List (NetEdge D)
  copy_edges vertices result [] es = es
  copy_edges vertices result (v ∷ vs) es =
      let ins = copy_in vertices result v es es in
      copy_edges vertices result vs (copy_out vertices result v ins ins)

  -- The path for any number of vertices but one.
  unfoldable pub aggregate_several : NetState D → List ℕ → Name → Run (NetState D × ℕ × Bool)
  aggregate_several s vertices name =
      let (t, result, made) = add_node s name in
      let merged =
        with_graph t t.vertices (copy_edges vertices result vertices t.edges) t.name_vert_map
          t.next_id in
      elim made [
        | false ↦ ok (t, result, false)
        | true ↦ do u ← remove_all vertices merged; ok (u, result, true)
      ]

  unfoldable pub aggregate_node : NetState D → List ℕ → Name → Run (NetState D × ℕ × Bool)
  aggregate_node s [] name = aggregate_several s [] name
  aggregate_node s (v ∷ []) name = do t ← set_name s v name; ok (t, v, true)
  aggregate_node s (v ∷ w ∷ vs) name = aggregate_several s (v ∷ w ∷ vs) name
