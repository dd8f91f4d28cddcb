-- ===== src/NetState.antt =====
-- common-server/src/lib/net_state.cpp and common-server/src/include/p4pserver/net_state.h: the network as
-- a graph, with the vertices and the edges by name. The graph is a Boost adjacency list whose edges
-- form a set, so that there is one edge from a vertex to another at most. Callers hold the lock
-- that check_read and check_write ask for; `changed_fired` is what LocalObject::changed leaves behind.
pub mod Names
pub mod Aggregating
pub mod Edges
pub mod Merging
pub mod Removing
pub mod Whole
pub mod Reachable
pub mod Removal
mod Tests
use alto.Prelude.{
  ℕ, suc, ◌==◌, Bool, true, false, not, ◌&&◌, ◌||◌, List, [], ◌∷◌, ◌++◌, Option, none, some,
  if◌then◌else◌, length,
}
use alto.Prelude.Dict
use alto.Prelude.Keyed
use alto.Prelude.Run.{Run, ok, fault, out_of_fuel, ◌>>=◌, or_fault}
use alto.Pid
use alto.Pid.{Pid}
use alto.PidAggregation.{Name, same_name}

-- A vertex with its properties, under the identity that its descriptor has.
pub record NetVertex : Type 0 where
  pub id : ℕ
  pub name : Name
  pub pid : Pid
  pub external : Bool

-- An edge with its properties; its descriptor stands for the two ends.
pub record NetEdge {ℓ} (D : Type ℓ) : Type ℓ where
  pub src : ℕ
  pub dst : ℕ
  pub name : Name
  pub traffic : D
  pub capacity : D

-- `next_id` is the identity of the next vertex.
pub record NetState {ℓ} (D : Type ℓ) : Type ℓ where
  pub vertices : List NetVertex
  pub edges : List (NetEdge D)
  pub name_vert_map : List (Name × ℕ)
  pub name_edge_map : List (Name × (ℕ × ℕ))
  pub next_id : ℕ
  pub changed_fired : Bool

-- The vertex with a descriptor.
abbrev pub find_vertex : ℕ → List NetVertex → Option NetVertex
find_vertex = Keyed.find (λ v. v.id) ◌==◌

-- boost::remove_vertex
abbrev pub erase_vertex : ℕ → List NetVertex → List NetVertex
erase_vertex = Keyed.erase (λ v. v.id) ◌==◌

-- PID(), which a new vertex has
abbrev pub default_pid : Pid
default_pid = record { isp = []; num = 0; external = false }

-- boost::put of the name of a vertex
unfoldable pub put_name : ℕ → Name → List NetVertex → List NetVertex
put_name v n [] = []
put_name v n (x ∷ xs) =
    if x.id == v
    then record { id = x.id; name = n; pid = x.pid; external = x.external } ∷ xs
    else x ∷ put_name v n xs

-- `m.insert(std::make_pair(n, v))`, which keeps an entry that is there
unfoldable pub insert_name : Name → ℕ → List (Name × ℕ) → List (Name × ℕ)
insert_name n v m = elim (Dict.lookup same_name n m) [
  | some _ ↦ m
  | none ↦ Dict.assign same_name n v m
]

module _ {ℓ} {D : Type ℓ} where
  -- Is this the edge between the two vertices?
  unfoldable pub joins : NetEdge D → ℕ → ℕ → Bool
  joins e a b = e.src == a && e.dst == b

  -- boost::edge
  unfoldable pub find_edge : ℕ → ℕ → List (NetEdge D) → Option (NetEdge D)
  find_edge a b [] = none
  find_edge a b (e ∷ es) = if joins e a b then some e else find_edge a b es

  -- boost::remove_edge
  unfoldable pub erase_edge : ℕ → ℕ → List (NetEdge D) → List (NetEdge D)
  erase_edge a b [] = []
  erase_edge a b (e ∷ es) = if joins e a b then erase_edge a b es else e ∷ erase_edge a b es

  -- boost::clear_vertex
  unfoldable pub clear_vertex : ℕ → List (NetEdge D) → List (NetEdge D)
  clear_vertex v [] = []
  clear_vertex v (e ∷ es) =
      if e.src == v || e.dst == v then clear_vertex v es else e ∷ clear_vertex v es

  unfoldable pub empty_state : NetState D
  empty_state = record {
    vertices = [];
    edges = [];
    name_vert_map = [];
    name_edge_map = [];
    next_id = 0;
    changed_fired = false;
  }

  -- The state with another graph and other names of vertices, changed.
  unfoldable pub with_graph :
      NetState D → List NetVertex → List (NetEdge D) → List (Name × ℕ) → ℕ → NetState D
  with_graph s vs es names next = record {
    vertices = vs;
    edges = es;
    name_vert_map = names;
    name_edge_map = s.name_edge_map;
    next_id = next;
    changed_fired = true;
  }

  -- get_node; `none` is the result false.
  unfoldable pub get_node : NetState D → Name → Option ℕ
  get_node s n = Dict.lookup same_name n s.name_vert_map

  -- get_name on a vertex; `none` stands for a descriptor of no vertex.
  unfoldable pub get_name : NetState D → ℕ → Option Name
  get_name s v = elim (find_vertex v s.vertices) [ none ↦ none | some x ↦ some x.name ]

  -- get_edge on two vertices
  unfoldable pub get_edge : NetState D → ℕ → ℕ → Option (NetEdge D)
  get_edge s a b = find_edge a b s.edges

  -- get_edge on the names of two vertices
  unfoldable pub get_edge_named : NetState D → Name → Name → Option (NetEdge D)
  get_edge_named s src dst = elim (get_node s src) [
    | none ↦ none
    | some a ↦ elim (get_node s dst) [ none ↦ none | some b ↦ get_edge s a b ]
  ]

  -- add_node, with the vertex found or made
  unfoldable pub add_node : NetState D → Name → NetState D × ℕ × Bool
  add_node s n = elim (get_node s n) [
    | some v ↦ (s, v, false)
    | none ↦ (
      with_graph s
          (s.vertices
            ++ record { id = s.next_id; name = n; pid = default_pid; external = false } ∷ [])
          s.edges (Dict.assign same_name n s.next_id s.name_vert_map) (suc s.next_id),
      s.next_id,
      true,
    )
  ]

  -- remove_node on a vertex
  unfoldable pub remove_vertex : NetState D → ℕ → Run (NetState D)
  remove_vertex s v = do
    v_name ← or_fault (get_name s v)
    ok (
        with_graph s (erase_vertex v s.vertices) (clear_vertex v s.edges)
          (Dict.erase same_name v_name s.name_vert_map) s.next_id)

  -- remove_node on a name
  unfoldable pub remove_node : NetState D → Name → Run (NetState D × Bool)
  remove_node s n = elim (get_node s n) [
    | none ↦ ok (s, false)
    | some v ↦ do t ← remove_vertex s v; ok (t, true)
  ]

  -- set_name on a vertex
  unfoldable pub set_name : NetState D → ℕ → Name → Run (NetState D)
  set_name s v value = do
    old ← or_fault (get_name s v)
    ok (
        with_graph s (put_name v value s.vertices) s.edges
          (insert_name value v (Dict.erase same_name old s.name_vert_map)) s.next_id)

  -- add_edge on two vertices, with 0.0 and 1.0 given
  unfoldable pub add_edge : D → D → NetState D → ℕ → ℕ → NetState D × Bool
  add_edge zero one s a b = elim (find_edge a b s.edges) [
    | some _ ↦ (s, false)
    | none ↦ (
      with_graph s s.vertices
          (s.edges ++ record { src = a; dst = b; name = []; traffic = zero; capacity = one } ∷ [])
          s.name_vert_map s.next_id,
      true,
    )
  ]

  -- add_edge on names
  unfoldable pub add_edge_named : D → D → NetState D → Name → Name → NetState D × Bool
  add_edge_named zero one s src dst = elim (get_node s src) [
    | none ↦ (s, false)
    | some a ↦ elim (get_node s dst) [ none ↦ (s, false) | some b ↦ add_edge zero one s a b ]
  ]

  -- remove_edge on an edge, which does not tell of a change
  unfoldable pub remove_edge : NetState D → ℕ → ℕ → NetState D
  remove_edge s a b = record {
    vertices = s.vertices;
    edges = erase_edge a b s.edges;
    name_vert_map = s.name_vert_map;
    name_edge_map = s.name_edge_map;
    next_id = s.next_id;
    changed_fired = s.changed_fired;
  }

  -- remove_edge on names
  unfoldable pub remove_edge_named : NetState D → Name → Name → NetState D × Bool
  remove_edge_named s src dst = elim (get_edge_named s src dst) [
    | none ↦ (s, false)
    | some e ↦ (remove_edge s e.src e.dst, true)
  ]

  unfoldable pub get_num_nodes : NetState D → ℕ
  get_num_nodes s = length s.vertices

  unfoldable pub get_num_edges : NetState D → ℕ
  get_num_edges s = length s.edges
