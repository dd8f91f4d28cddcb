-- ===== src/PidRouting/Restoring.antt =====
-- Adding a static route and removing it again.
use alto.Prelude.{
  ◌≡◌, true, false, ◌&&◌, List, [], ◌∷◌, ◌++◌, none, some, arith, if◌then◌else◌, ==_iff,
}
use alto.Prelude.Keyed
use alto.Pid.{Pid}
use alto.Pid.Sets
use alto.Pid.Sets.{same_refl}
use alto.PidRouting.Nodes.{
  NamedRoute, RouteNode, endpoints, equal, routes_between, find_route, find_node, erase_node,
}
use alto.PidRouting.{
  rm_static, Routing, with_routes, get_static_routes, add_static_route, remove_static_route,
}
use alto.PidRouting.Routes.{equal_refl, has_route, found_route}
use alto.PidRouting.Changes.{routes}
use alto.PidRouting.Reachable.{IsTidy}

erase-append :
    (rs : List RouteNode) (n : RouteNode)
    → find_node n.id rs ≡ none
    → erase_node n.id (rs ++ n ∷ []) ≡ rs
unfolding Keyed.find Keyed.erase
erase-append [] n h = ground (arith, (==_iff n.id n.id).1)
erase-append (r ∷ rs) n h = ground (arith, erase-append rs n)

find-append_route :
    (value : NamedRoute) (a b : Pid) (rs : List RouteNode) (n : RouteNode)
    → find_route value (routes_between a b (rs ++ n ∷ []))
      ≡ elim (find_route value (routes_between a b rs)) [
        | some r ↦ some r
        | none ↦
            (if (Sets.same n.src a && Sets.same n.dst b) && equal value n.route
              then some n
              else none)
      ]
unfolding find_route routes_between
find-append_route value a b [] n = ground arith
find-append_route value a b (r ∷ rs) n = ground (arith, find-append_route value a b rs n)

module _ {ℓ} {V : Type ℓ} where
  -- In a tidy routing in the static mode, adding a route that no route between its ends equals and
  -- removing it again succeeds, and restores the static routes.
  pub remove-add_static_route :
      (s : Routing V) (value : NamedRoute) (a b : Pid)
      → IsTidy s
      → s.route_mode ≡ rm_static
      → endpoints value ≡ some (a, b)
      → has_route value (routes s a b) ≡ false
      → ((remove_static_route (add_static_route s value).0 value).1 ≡ true)
        × ((remove_static_route (add_static_route s value).0 value).0.static_routes
            ≡ s.static_routes)
  unfolding add_static_route remove_static_route with_routes get_static_routes routes
  remove-add_static_route s value a b h m e new =
      let n : RouteNode = record { id = s.next_id; src = a; dst = b; route = value } in
      let back : find_route value (routes_between a b (s.static_routes ++ n ∷ [])) ≡ some n =
        ground (
          arith,
          find-append_route value a b s.static_routes n,
          found_route value (routes_between a b s.static_routes),
          equal_refl value,
          same_refl a,
          same_refl b,
        ) in
      (
        ground (arith, back),
        ground (arith, back, erase-append s.static_routes n (h.fresh s.next_id (omega arith))),
      )
