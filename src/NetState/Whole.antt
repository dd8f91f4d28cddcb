-- ===== src/NetState/Whole.antt =====
-- aggregate_node as a whole: no vertex that is not there is met, and the new vertex has the neighbours of
-- the aggregated ones.
use alto.Prelude.{
  ℕ, suc, ◌≡◌, refl, ◌==◌, true, false, not, ◌&&◌, ◌||◌, List, [], ◌∷◌, ◌++◌, none, some, arith,
  ==_iff, ap,
}
use mathlib.Core.Path.{subst}
use alto.Prelude.Keyed
use alto.Prelude.Dict
use alto.Prelude.Run.{ok}
use alto.PidAggregation.{Name, same_name}
use alto.NetState.{NetVertex, NetState, with_graph, get_node, get_name, default_pid, add_node}
use alto.NetState.Reachable.{IsCoherent, has_vertex, has_edge, add_node-IsCoherent}
use alto.NetState.Aggregating.{has_id, copy_edges, remove_all, aggregate_several}
use alto.NetState.Merging.{leads_in, leads_out, has-copy_edges, same_id}
use alto.NetState.Removing.{IsDistinct, name_node, remove_all_lem, leads_known}

module _ {ℓ} {D : Type ℓ} where
  merged_lem :
      (add : D → D → D) (s : NetState D) (h : IsCoherent s) (vs : List ℕ) (r : ℕ)
      → has_id vs r ≡ false
      → has_vertex s.vertices r ≡ true
      → IsCoherent
          (with_graph s s.vertices (copy_edges add vs r vs s.edges) s.name_vert_map s.next_id)
  unfolding with_graph
  merged_lem add s h vs r new known = record {
    names = h.names;
    linked = λ a b m. ground (
      arith,
      has-copy_edges add vs r vs s.edges a b new (λ w k. k),
      h.linked a b,
      leads_known s vs a h.linked,
      leads_known s vs b h.linked,
      (==_iff r a).0,
      (==_iff r b).0,
    );
  }

  -- The network with a new vertex.
  with_node : NetState D → Name → NetState D
  with_node s name =
      with_graph s
        (s.vertices
          ++ record { id = s.next_id; name = name; pid = default_pid; external = false } ∷ [])
        s.edges (Dict.assign same_name name s.next_id s.name_vert_map) (suc s.next_id)

  add_node_new :
      (s : NetState D) (name : Name)
      → get_node s name ≡ none
      → add_node s name ≡ (with_node s name, s.next_id, true)
  unfolding add_node with_node
  add_node_new s name e = simp (e, add_node)

  with_node-IsCoherent :
      (s : NetState D) (name : Name)
      → IsCoherent s
      → get_node s name ≡ none
      → IsCoherent (with_node s name)
  with_node-IsCoherent s name h e =
      subst IsCoherent (ap (λ p. p.0) (add_node_new s name e)) (add_node-IsCoherent s h name)

  new_vertex :
      (s : NetState D) (name : Name) (w : ℕ)
      → IsCoherent s
      → (has_vertex s.vertices s.next_id ≡ false)
        × (has_vertex (with_node s name).vertices w ≡ (has_vertex s.vertices w || s.next_id == w))
        × (get_name (with_node s name) s.next_id ≡ some name)
  unfolding with_node with_graph has_vertex get_name
  new_vertex s name w h =
      let x : NetVertex = record {
        id = s.next_id;
        name = name;
        pid = default_pid;
        external = false;
      } in
      (
        ground (arith, h.names.fresh s.next_id (omega arith)),
        ground (arith, Keyed.find-append (λ v. v.id) ◌==◌ w s.vertices x),
        ground (
          arith,
          Keyed.find-append (λ v. v.id) ◌==◌ s.next_id s.vertices x,
          h.names.fresh s.next_id (omega arith),
        ),
      )

  -- The new network with the edges copied.
  merged : (D → D → D) → NetState D → List ℕ → Name → NetState D
  merged add s vs name =
      let t = with_node s name in
      with_graph t t.vertices (copy_edges add vs s.next_id vs t.edges) t.name_vert_map t.next_id

  several_new :
      (add : D → D → D) (s : NetState D) (vs : List ℕ) (name : Name) (t : NetState D)
      → get_node s name ≡ none
      → remove_all vs (merged add s vs name) ≡ ok t
      → aggregate_several add s vs name ≡ ok (t, s.next_id, true)
  unfolding aggregate_several merged
  several_new add s vs name t e f = simp (add_node_new s name e, aggregate_several, f)

  merged_same :
      (add : D → D → D) (s : NetState D) (vs : List ℕ) (name : Name) (w c d : ℕ)
      → (has_vertex (merged add s vs name).vertices w ≡ has_vertex (with_node s name).vertices w)
        × (get_name (merged add s vs name) w ≡ get_name (with_node s name) w)
        × (has_edge (merged add s vs name).edges c d
            ≡ has_edge (copy_edges add vs s.next_id vs s.edges) c d)
  unfolding merged with_node with_graph get_name
  merged_same add s vs name w c d = (refl, refl, refl)

  -- Where other than one vertex of a coherent network are aggregated under a name that is free, no vertex
  -- is met that is not there. The network stays coherent and the name finds the new vertex; an edge is
  -- there exactly if neither of its ends was aggregated and it was there, or one end is the new
  -- vertex and an edge joined the other end with an aggregated vertex in that direction.
  pub aggregate_several_lem :
      (add : D → D → D) (s : NetState D) (vs : List ℕ) (name : Name) (c d : ℕ)
      → IsCoherent s
      → IsDistinct vs
      → ((w : ℕ) → has_id vs w ≡ true → has_vertex s.vertices w ≡ true)
      → get_node s name ≡ none
      → (t : NetState D) × (aggregate_several add s vs name ≡ ok (t, s.next_id, true))
        × IsCoherent t
        × (get_node t name ≡ some s.next_id)
        × (has_edge t.edges c d ≡ (
            (has_edge s.edges c d
              || ((s.next_id == d && leads_in vs s.edges c)
                  || (s.next_id == c && leads_out vs s.edges d)))
            && (not (has_id vs c) && not (has_id vs d))))
  unfolding merged with_graph
  aggregate_several_lem add s vs name c d h dist live free =
      let r = s.next_id in
      let new : has_id vs r ≡ false = ground (arith, live r, (new_vertex s name r h).0) in
      let k = with_node-IsCoherent s name h free in
      let m = merged add s vs name in
      let (t, done, coherent, edges, names) =
        remove_all_lem vs m
          (merged_lem add (with_node s name) k vs r new (ground (arith, (new_vertex s name r h).1)))
          dist
          (λ w e.
            ground
              (arith, live w, (merged_same add s vs name w c d).0, (new_vertex s name w h).1)) in
      (
        t,
        several_new add s vs name t free done,
        coherent,
        name_node t coherent r name (
            ground (
              arith,
              names r,
              new,
              (merged_same add s vs name r c d).1,
              (new_vertex s name r h).2,
            )),
        ground (
          arith,
          edges c d,
          (merged_same add s vs name r c d).2,
          has-copy_edges add vs r vs s.edges c d new (λ w e. e),
          same_id vs r c,
          same_id vs r d,
          same_id vs c r,
        ),
      )
