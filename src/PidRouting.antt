-- ===== src/PidRouting.antt =====
-- common-server/src/include/p4pserver/pid_routing.h and common-server/src/lib/pid_routing.cpp: the routes
-- between PIDs, either configured one by one or computed from a matrix of weights. Callers hold the
-- lock that check_read and check_write ask for; `changed_fired` is what LocalObject::changed leaves
-- behind.
pub mod Nodes
pub mod Routes
pub mod Changes
pub mod Pointers
pub mod Reachable
pub mod Removal
pub mod Computing
pub mod Pinning
pub mod Results
pub mod Traces
pub mod Modes
pub mod Restoring
mod Tests
use alto.Prelude.{
  ℕ, suc, Bool, true, false, List, [], ◌∷◌, ◌++◌, Option, none, some, if◌then◌else◌, length,
}
use alto.Prelude.Run.{Run, ok, fault, out_of_fuel, ◌>>=◌}
use alto.Pid.{Pid}
use alto.PidMatrix
use alto.PidMatrix.{PidMatrix, VCost}
use alto.PidRouting.Nodes.{
  NamedRoute, RouteNode, endpoints, routes_between, find_route, erase_node, insert_ptrs, erase_ptrs,
  append_ptrs, erase_all_ptrs,
}

pub data RouteMode : Type 0 where
  rm_static : RouteMode
  rm_weights : RouteMode

unfoldable pub same_mode : RouteMode → RouteMode → Bool
same_mode rm_static rm_static = true
same_mode rm_static rm_weights = false
same_mode rm_weights rm_static = false
same_mode rm_weights rm_weights = true

-- The nodes with one key stand in the order of insertion, as a multimap keeps them, and so do the
-- pointers of one PID. `next_id` is the identity of the next node.
pub record Routing {ℓ} (V : Type ℓ) : Type ℓ where
  pub default_weight : VCost V
  pub route_mode : RouteMode
  pub static_routes : List RouteNode
  pub static_route_ptrs : List (Pid × ℕ)
  pub next_id : ℕ
  pub weights : PidMatrix V
  pub changed_fired : Bool

module _ {ℓ} {V : Type ℓ} where
  unfoldable pub new_routing : VCost V → Routing V
  new_routing w = record {
    default_weight = w;
    route_mode = rm_weights;
    static_routes = [];
    static_route_ptrs = [];
    next_id = 0;
    weights = PidMatrix.empty_matrix;
    changed_fired = false;
  }

  -- A routing with other static routes, changed.
  unfoldable pub with_routes : Routing V → List RouteNode → List (Pid × ℕ) → ℕ → Routing V
  with_routes s rs ptrs next = record {
    default_weight = s.default_weight;
    route_mode = s.route_mode;
    static_routes = rs;
    static_route_ptrs = ptrs;
    next_id = next;
    weights = s.weights;
    changed_fired = true;
  }

  -- get_static_routes between two PIDs
  unfoldable pub get_static_routes : Routing V → Pid → Pid → List RouteNode
  get_static_routes s src dst = routes_between src dst s.static_routes

  -- get_static_route; `none` is NULL.
  unfoldable pub get_static_route : Routing V → Pid → Pid → Option NamedRoute
  get_static_route s src dst = elim (get_static_routes s src dst) [
    | [] ↦ none
    | ◌∷◌ r rs ↦ some r.route
  ]

  unfoldable pub get_num_static_routes : Routing V → ℕ
  get_num_static_routes s = length s.static_routes

  unfoldable pub add_static_route : Routing V → NamedRoute → Routing V × Bool
  add_static_route s value = elim s.route_mode [
    | rm_weights ↦ (s, false)
    | rm_static ↦ elim (endpoints value) [
      | none ↦ (s, false)
      | some (src, dst) ↦ (
        with_routes s
            (s.static_routes ++ record { id = s.next_id; src = src; dst = dst; route = value } ∷ [])
            (insert_ptrs value s.next_id s.static_route_ptrs) (suc s.next_id),
        true,
      )
    ]
  ]

  -- remove_static_route_ptrs on an iterator
  unfoldable pub remove_static_route_ptrs : Routing V → RouteNode → List (Pid × ℕ)
  remove_static_route_ptrs s r = elim s.route_mode [
    | rm_weights ↦ s.static_route_ptrs
    | rm_static ↦ erase_ptrs r.route r.id s.static_route_ptrs
  ]

  unfoldable pub remove_static_route : Routing V → NamedRoute → Routing V × Bool
  remove_static_route s value = elim (endpoints value) [
    | none ↦ (s, false)
    | some (src, dst) ↦ elim (find_route value (get_static_routes s src dst)) [
      | none ↦ (s, false)
      | some r ↦ (
        with_routes s (erase_node r.id s.static_routes) (remove_static_route_ptrs s r) s.next_id,
        true,
      )
    ]
  ]

  unfoldable pub clear_static_routes : Routing V → Routing V × Bool
  clear_static_routes s = elim s.route_mode [
    | rm_weights ↦ (s, false)
    | rm_static ↦ (with_routes s [] [] s.next_id, true)
  ]

  unfoldable pub with_mode : Routing V → RouteMode → Routing V
  with_mode s value = record {
    default_weight = s.default_weight;
    route_mode = value;
    static_routes = s.static_routes;
    static_route_ptrs = s.static_route_ptrs;
    next_id = s.next_id;
    weights = s.weights;
    changed_fired = true;
  }

  unfoldable pub set_route_mode : Routing V → RouteMode → Routing V
  set_route_mode s value =
      if same_mode s.route_mode value then s else (clear_static_routes (with_mode s value)).0

  unfoldable pub with_weights : Routing V → PidMatrix V → Routing V
  with_weights s m = record {
    default_weight = s.default_weight;
    route_mode = s.route_mode;
    static_routes = s.static_routes;
    static_route_ptrs = s.static_route_ptrs;
    next_id = s.next_id;
    weights = m;
    changed_fired = true;
  }

  unfoldable pub set_weight : Routing V → Pid → Pid → VCost V → Routing V × Bool
  set_weight s src dst value =
      let (m, res) = PidMatrix.set_by_pid s.weights src dst value in
      if res then (with_weights s m, true) else (s, false)

  unfoldable pub get_weight : Routing V → Pid → Pid → VCost V
  get_weight s src dst = PidMatrix.get_by_pid s.weights src dst s.default_weight

  unfoldable pub add_pid : Routing V → Pid → Routing V
  add_pid s p = elim s.route_mode [
    | rm_static ↦ with_weights s s.weights
    | rm_weights ↦ with_weights s (PidMatrix.add_pid s.weights p).0
  ]

  unfoldable pub remove_pid : Routing V → Pid → Run (Routing V)
  remove_pid s p = elim s.route_mode [
    | rm_weights ↦ ok (with_weights s (PidMatrix.remove_pid s.weights p).0)
    | rm_static ↦ do
      ptrs ←
          erase_all_ptrs (append_ptrs p s.static_route_ptrs []) s.static_routes s.static_route_ptrs
      ok (with_routes s s.static_routes ptrs s.next_id)
  ]
