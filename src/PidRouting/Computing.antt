-- ===== src/PidRouting/Computing.antt =====
-- get_routes of common-server/src/lib/pid_routing.cpp: the routes from one PID to a set of PIDs, in either
-- mode. The network and the shortest paths in it are parameters.
use alto.Prelude.{
  ℕ, zero, suc, ◌==◌, Bool, true, false, List, [], ◌∷◌, ◌++◌, Option, none, some, if◌then◌else◌,
}
use alto.Prelude.Dict
use alto.Prelude.Run.{Run, ok, out_of_fuel, ◌>>=◌}
use alto.Pid
use alto.Pid.{Pid}
use alto.PidMatrix.{VCost}
use alto.PidRouting.Nodes.{NamedRoute}
use alto.PidRouting.{Routing, rm_static, rm_weights, get_static_route, get_weight}

-- A PID with the vertices that it is pinned to, by the first in their order and the others; vertices
-- are addresses, and 0 is NULL.
pub record PinnedPid : Type 0 where
  pub pid : Pid
  pub vertex : ℕ
  pub others : List ℕ

-- PinnedPID(pid, v)
abbrev pub pinned : Pid → ℕ → PinnedPid
pinned p v = record { pid = p; vertex = v; others = [] }

-- Hash containers of pinned PIDs tell them apart by PID::operator==.
unfoldable pub same_pinned : PinnedPid → PinnedPid → Bool
same_pinned p q = Pid.eq p.pid q.pid

abbrev pub PinnedRoute : Type 0
PinnedRoute = List PinnedPid

-- A PinnedPIDSet stands for its elements in the order of iteration.
unfoldable pub find_pinned : Pid → List PinnedPid → Option PinnedPid
find_pinned hop [] = none
find_pinned hop (p ∷ ps) = if Pid.eq p.pid hop then some p else find_pinned hop ps

abbrev pub PinnedRouteMap : Type 0
PinnedRouteMap = List (PinnedPid × PinnedRoute)

-- What NetState answers: its vertices and edges, the ends of an edge, the PID of a vertex, and what
-- compute_shortest_paths makes of the predecessors, where those of a vertex unknown to the map are NULL.
pub record Network {ℓ} (V : Type ℓ) : Type ℓ where
  pub get_nodes : List ℕ
  pub get_edges : List ℕ
  pub get_edge_vert : ℕ → ℕ × ℕ
  pub get_pid : ℕ → Pid
  pub compute_shortest_paths : ℕ → List (ℕ × ℕ) → List (ℕ × VCost V) → (ℕ → ℕ) → ℕ → ℕ

-- RouteComputationContext, but for the two vectors that are cleared before every use.
pub record Context {ℓ} (V : Type ℓ) : Type ℓ where
  pub result : PinnedRouteMap
  pub vert_indexes : List (ℕ × ℕ)
  pub edge_weights : List (ℕ × VCost V)
  pub vert_preds : ℕ → ℕ

unfoldable pub reverse : PinnedRoute → PinnedRoute
reverse [] = []
reverse (p ∷ ps) = reverse ps ++ p ∷ []

-- The hops of a static route, unless one of them is not among the PIDs.
unfoldable pub pin_route : List PinnedPid → NamedRoute → Option PinnedRoute
pin_route pids [] = some []
pin_route pids (hop ∷ hops) = elim (find_pinned hop pids) [
  | none ↦ none
  | some p ↦ elim (pin_route pids hops) [ none ↦ none | some ps ↦ some (p ∷ ps) ]
]

-- What the loop `while (v != src)` appends, which follows the predecessors.
unfoldable pub trace : ℕ → (ℕ → Pid) → (ℕ → ℕ) → ℕ → ℕ → Run PinnedRoute
trace zero pid_of preds src v = if v == src then ok [] else out_of_fuel
trace (suc fuel) pid_of preds src v =
    let rest = trace fuel pid_of preds src (preds v) in
    if v == src then ok [] else do ps ← rest; ok (pinned (pid_of (preds v)) (preds v) ∷ ps)

-- The route to one PID.
unfoldable pub route_to : ℕ → (ℕ → Pid) → (ℕ → ℕ) → ℕ → PinnedPid → Run PinnedRoute
route_to fuel pid_of preds src p = do
  back ← trace fuel pid_of preds src (preds p.vertex)
  ok (reverse (pinned p.pid p.vertex ∷ pinned (pid_of (preds p.vertex)) (preds p.vertex) ∷ back))

-- The loop over the PIDs in get_routes_weights.
unfoldable pub weights_loop :
    ℕ → (ℕ → Pid) → (ℕ → ℕ) → ℕ → List PinnedPid → PinnedRouteMap → Run PinnedRouteMap
weights_loop fuel pid_of preds src [] result = ok result
weights_loop fuel pid_of preds src (p ∷ ps) result = elim (preds p.vertex == p.vertex) [
  | true ↦ weights_loop fuel pid_of preds src ps result
  | false ↦ do
    route ← route_to fuel pid_of preds src p
    weights_loop fuel pid_of preds src ps (Dict.assign same_pinned p route result)
]

-- `vert_indexes_[v] = v_idx++` for each vertex
unfoldable pub index_nodes : List ℕ → ℕ → List (ℕ × ℕ) → List (ℕ × ℕ)
index_nodes [] idx m = m
index_nodes (v ∷ vs) idx m = index_nodes vs (suc idx) (Dict.assign ◌==◌ v idx m)

module _ {ℓ} {V : Type ℓ} where
  -- The loop over the PIDs in get_routes_static, with the flag that it returns.
  unfoldable pub static_loop :
      Routing V → Pid → List PinnedPid → List PinnedPid → PinnedRouteMap → PinnedRouteMap × Bool
  static_loop s src pids [] result = (result, true)
  static_loop s src pids (dst ∷ ps) result = elim (get_static_route s src dst.pid) [
    | none ↦ static_loop s src pids ps result
    | some route ↦ elim (pin_route pids route) [
      | none ↦ (result, false)
      | some r ↦ static_loop s src pids ps (Dict.assign same_pinned dst r result)
    ]
  ]

  unfoldable pub get_routes_static :
      Routing V → PinnedPid → List PinnedPid → Context V → Context V × Bool
  get_routes_static s src pids c =
      let (result, done) = static_loop s src.pid pids pids [] in
      (
        record {
          result = result;
          vert_indexes = c.vert_indexes;
          edge_weights = c.edge_weights;
          vert_preds = c.vert_preds;
        },
        done,
      )

  unfoldable pub weigh_edges :
      Routing V → Network V → List ℕ → List (ℕ × VCost V) → List (ℕ × VCost V)
  weigh_edges s net [] m = m
  weigh_edges s net (e ∷ es) m =
      let (src, dst) = net.get_edge_vert e in
      weigh_edges s net es (Dict.assign ◌==◌ e (get_weight s (net.get_pid src) (net.get_pid dst)) m)

  -- The context filled in, if it is empty.
  unfoldable pub fill : Routing V → Network V → Context V → Context V
  fill s net c = elim c.vert_indexes [
    | ◌∷◌ i is ↦ c
    | [] ↦ record {
      result = c.result;
      vert_indexes = index_nodes net.get_nodes 0 [];
      edge_weights = weigh_edges s net net.get_edges c.edge_weights;
      vert_preds = c.vert_preds;
    }
  ]

  unfoldable pub get_routes_weights :
      ℕ → Routing V → Network V → PinnedPid → List PinnedPid → Context V → Run (Context V × Bool)
  get_routes_weights fuel s net src pids c =
      let c' = fill s net c in
      let preds =
        net.compute_shortest_paths src.vertex c'.vert_indexes c'.edge_weights c'.vert_preds in
      do
        result ← weights_loop fuel net.get_pid preds src.vertex pids []
        ok (
          record {
            result = result;
            vert_indexes = c'.vert_indexes;
            edge_weights = c'.edge_weights;
            vert_preds = preds;
          },
          true,
        )

  unfoldable pub get_routes :
      ℕ → Routing V → Network V → PinnedPid → List PinnedPid → Context V → Run (Context V × Bool)
  get_routes fuel s net src pids c = elim s.route_mode [
    | rm_static ↦ ok (get_routes_static s src pids c)
    | rm_weights ↦ get_routes_weights fuel s net src pids c
  ]
