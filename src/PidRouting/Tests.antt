-- ===== src/PidRouting/Tests.antt =====
-- Runs and witnesses for the routing.
use alto.Prelude.{
  ℕ, Bool, get_elem?, ◌⊎◌, ◌+◌, ◌≡◌, refl, ◌==◌, true, false, not, ◌&&◌, ◌||◌, List, [], ◌∷◌, none,
  some, if◌then◌else◌, inl, inr, arith,
}
use alto.Prelude.Dict
use alto.Prelude.Run.{ok}
use alto.Prelude.Order.{equiv}
use alto.Pid.{Pid, eq, less, bytes_eq, bytes_less, bool_less}
use alto.Pid.Sets.{same}
use alto.PidRouting.Nodes.{NamedRoute, endpoints, last, equal, routes_between}
use alto.PidRouting.{
  rm_static, rm_weights, same_mode, Routing, new_routing, clear_static_routes, with_mode,
  with_routes, get_static_routes, get_static_route, get_weight, add_static_route, set_route_mode,
  remove_pid,
}
use alto.PidRouting.Routes.{has_route, routes_of}
use alto.PidRouting.Changes.{routes}
use alto.PidRouting.Pointers.{has_ptr}
use alto.PidRouting.Reachable.{Reachable, created, mode_set, route_added, IsTidy}
use alto.PidRouting.Removal.{remove_pid_lem, Reachable-IsTidy}
use alto.PidRouting.Computing.{PinnedPid, pinned, same_pinned, Network, Context, get_routes}
use alto.PidRouting.Traces.{back_by, has_pinned, IsSeparate, ForEach, IsTraced, IsRouted}
use alto.PidRouting.Pinning.{IsMissing, HasStranger}
use alto.PidRouting.Results.{preds_of, StaticRoute, get_routes_weights_lem, get_routes_static_lem}

abbrev west : Pid
west = record { isp = b'w' ∷ []; num = 1; external = false }

abbrev mid : Pid
mid = record { isp = b'm' ∷ []; num = 2; external = false }

abbrev east : Pid
east = record { isp = b'e' ∷ []; num = 3; external = false }

abbrev through : NamedRoute
through = west ∷ mid ∷ east ∷ []

abbrev direct : NamedRoute
direct = west ∷ east ∷ []

-- One static route.
abbrev one_route : Routing ℕ
one_route = (add_static_route (set_route_mode (new_routing (some 1)) rm_static) through).0

abbrev one_route-Reachable : Reachable one_route
one_route-Reachable = route_added through (mode_set rm_static (created (some 1)))

abbrev one_route-IsTidy : IsTidy one_route
one_route-IsTidy = Reachable-IsTidy one_route one_route-Reachable

remove_pid_lem_example :
    (t : Routing ℕ) × (remove_pid one_route mid ≡ ok t)
    × (t.static_routes ≡ one_route.static_routes)
    × (one_route.route_mode ≡ rm_static
        → (q : Pid) (i : ℕ)
        → has_ptr t.static_route_ptrs q i ≡ (
            has_ptr one_route.static_route_ptrs q i
            && not (has_ptr one_route.static_route_ptrs mid i)))
    × (one_route.route_mode ≡ rm_weights
        → (q r : Pid)
        → get_weight t q r
          ≡ (if eq mid q || eq mid r then one_route.default_weight else get_weight one_route q r))
remove_pid_lem_example = remove_pid_lem one_route one_route-IsTidy mid

Reachable-IsTidy_example : IsTidy one_route
Reachable-IsTidy_example = Reachable-IsTidy one_route one_route-Reachable

-- West at 1, mid at 2 and east at 3, on a path from west to east.
abbrev chain_preds : ℕ → ℕ
chain_preds v = if v == 3 then 2 else if v == 2 then 1 else v

abbrev chain_pids : ℕ → Pid
chain_pids v = if v == 3 then east else if v == 2 then mid else west

abbrev chain : Network ℕ
chain = record {
  get_nodes = 1 ∷ 2 ∷ 3 ∷ [];
  get_edges = 1 ∷ 2 ∷ [];
  get_edge_vert = λ e. (e, e + 1);
  get_pid = chain_pids;
  compute_shortest_paths = λ src idx weights preds v. chain_preds v;
}

abbrev ends : List PinnedPid
ends = pinned west 1 ∷ pinned east 3 ∷ []

abbrev context : Context ℕ
context = record { result = []; vert_indexes = []; edge_weights = []; vert_preds = λ v. 0 }

ends-IsSeparate : IsSeparate ends
unfolding IsSeparate has_pinned same_pinned eq bytes_eq
ends-IsSeparate = (refl, (refl, tt))

ends-IsTraced :
    ForEach
      (IsTraced 5 chain_pids (preds_of (new_routing (some 1)) chain (pinned west 1) context) 1)
      ends
unfolding ForEach IsTraced back_by preds_of
ends-IsTraced = (inl refl, (inr (1, omega arith, refl), tt))

weights_mode : (new_routing {V = ℕ} (some 1)).route_mode ≡ rm_weights
unfolding new_routing
weights_mode = refl

get_routes_weights_lem_example :
    (out : Context ℕ) × (get_routes 5 (new_routing (some 1)) chain (pinned west 1) ends context
      ≡ ok (out, true))
    × ForEach
        (IsRouted 5 chain_pids
          (preds_of (new_routing (some 1)) chain (pinned west 1) context)
          1
          out.result)
        ends
get_routes_weights_lem_example =
    get_routes_weights_lem 5 (new_routing (some 1)) chain (pinned west 1) ends context weights_mode
      ends-IsSeparate ends-IsTraced

static_mode : one_route.route_mode ≡ rm_static
unfolding add_static_route set_route_mode clear_static_routes with_mode with_routes same_mode
    endpoints new_routing
static_mode = refl

get_routes_static_lem_example :
    (out : Context ℕ) × (done : Bool) × (get_routes 5 one_route chain (pinned west 1) ends context
      ≡ ok (out, done))
    × (((done ≡ true)
          × ((i : ℕ) (q : PinnedPid)
              → get_elem? ends i ≡ some q
              → StaticRoute one_route west ends out.result q)
          × ((q : PinnedPid) → IsMissing ends q.pid → Dict.lookup same_pinned q out.result ≡ none))
        ⊎ ((i : ℕ) × (q : PinnedPid) × (route : NamedRoute) × (done ≡ false)
            × (get_elem? ends i ≡ some q)
            × (get_static_route one_route west q.pid ≡ some route)
            × HasStranger ends route))
get_routes_static_lem_example =
    get_routes_static_lem 5 one_route chain (pinned west 1) ends context static_mode

direct_ends : endpoints direct ≡ some (west, east)
unfolding endpoints last
direct_ends = refl

direct_new : has_route direct (routes one_route west east) ≡ false
unfolding has_route routes routes_of get_static_routes routes_between equal endpoints last
    add_static_route set_route_mode clear_static_routes with_mode with_routes same_mode new_routing
    eq bytes_eq same equiv less bytes_less bool_less
direct_new = refl
