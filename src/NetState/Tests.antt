-- ===== src/NetState/Tests.antt =====
-- Runs and witnesses for the network.
use alto.Prelude.{
  ℕ, ◌+◌, not, arith, ◌≡◌, refl, ◌==◌, true, false, ◌&&◌, ◌||◌, List, [], ◌∷◌, none, some,
  if◌then◌else◌,
}
use alto.Prelude.Keyed
use alto.Prelude.Dict
use alto.Prelude.Order.{equiv}
use alto.Prelude.Run.{ok}
use alto.Pid.{bytes_less}
use alto.PidAggregation.{Name, same_name}
use alto.NetState.{
  NetState, empty_state, with_graph, get_node, get_edge, find_edge, joins, add_node, add_edge,
  add_edge_named, remove_node, get_num_nodes, get_num_edges,
}
use alto.NetState.Reachable.{
  Reachable, IsCoherent, has_vertex, has_edge, created, node_added, edge_added,
}
use alto.NetState.Aggregating.{has_id, aggregate_several}
use alto.NetState.Merging.{leads_in, leads_out}
use alto.NetState.Removing.{IsDistinct}
use alto.NetState.Whole.{aggregate_several_lem}
use alto.NetState.Removal.{remove_node_lem, Reachable-IsCoherent}

abbrev a : Name
a = b'a' ∷ []

abbrev b : Name
b = b'b' ∷ []

-- Two vertices and an edge.
abbrev pair : NetState ℕ
pair = (add_edge_named 0 1 (add_node (add_node empty_state a).0 b).0 a b).0

abbrev pair-Reachable : Reachable pair
pair-Reachable = edge_added 0 1 a b (node_added b (node_added a created))

two_nodes : get_num_nodes pair ≡ 2
unfolding get_num_nodes get_node add_node add_edge_named add_edge find_edge joins with_graph
    empty_state Dict.lookup Dict.assign same_name equiv bytes_less
two_nodes = refl

one_edge : get_num_edges pair ≡ 1
unfolding get_num_edges get_node add_node add_edge_named add_edge find_edge joins with_graph
    empty_state Dict.lookup Dict.assign same_name equiv bytes_less
one_edge = refl

remove_node_lem_example :
    (t : NetState ℕ) × (remove_node pair a
      ≡ ok (t, elim (get_node pair a) [ none ↦ false | some _ ↦ true ]))
    × (get_node t b ≡ (if same_name a b then none else get_node pair b))
    × (get_edge t 0 1 ≡ elim (get_node pair a) [
      | none ↦ get_edge pair 0 1
      | some v ↦ (if 0 == v || 1 == v then none else get_edge pair 0 1)
    ])
remove_node_lem_example = remove_node_lem pair (Reachable-IsCoherent pair pair-Reachable) a b 0 1

Reachable-IsCoherent_example : IsCoherent pair
Reachable-IsCoherent_example = Reachable-IsCoherent pair pair-Reachable

abbrev c : Name
c = b'c' ∷ []

-- A third vertex, with an edge from the first.
abbrev three : NetState ℕ
three = (add_edge_named 0 1 (add_node pair c).0 a c).0

-- The first two vertices become one.
abbrev both : List ℕ
both = 0 ∷ 1 ∷ []

abbrev united : Name
united = b'u' ∷ []

both_live : (w : ℕ) → has_id both w ≡ true → has_vertex three.vertices w ≡ true
unfolding has_id has_vertex IsDistinct Keyed.find add_node with_graph empty_state get_node
    Dict.lookup Dict.assign same_name equiv bytes_less add_edge_named add_edge find_edge joins
both_live w h = ground arith

both-IsDistinct : IsDistinct both
unfolding IsDistinct has_id
both-IsDistinct = (refl, (refl, tt))

united_free : get_node three united ≡ none
unfolding add_node with_graph empty_state get_node Dict.lookup Dict.assign same_name equiv
    bytes_less add_edge_named add_edge find_edge joins
united_free = refl

three-IsCoherent : IsCoherent three
three-IsCoherent = Reachable-IsCoherent three (edge_added 0 1 a c (node_added c pair-Reachable))

aggregate_several_lem_example :
    (t : NetState ℕ) × (aggregate_several ◌+◌ three both united ≡ ok (t, three.next_id, true))
    × IsCoherent t
    × (get_node t united ≡ some three.next_id)
    × (has_edge t.edges 3 2 ≡ (
        (has_edge three.edges 3 2
          || ((three.next_id == 2 && leads_in both three.edges 3)
              || (three.next_id == 3 && leads_out both three.edges 2)))
        && (not (has_id both 3) && not (has_id both 2))))
aggregate_several_lem_example =
    aggregate_several_lem ◌+◌ three both united 3 2 three-IsCoherent both-IsDistinct both_live
      united_free
