-- ===== src/PidRouting/Changes.antt =====
-- add_static_route and remove_static_route: what they answer, and the routes between any two PIDs
-- afterwards.
use alto.Prelude.{
  ◌+◌, ◌-◌, ◌≡◌, refl, leb, true, false, ◌&&◌, List, [], ◌∷◌, ◌++◌, none, some, arith,
  if◌then◌else◌, inl, inr, Option-cases, length, length-append,
}
use alto.Pid.{Pid}
use alto.PidRouting.Nodes.{NamedRoute, endpoints, routes_between, find_route}
use alto.PidRouting.{
  rm_static, same_mode, Routing, with_routes, get_static_routes, get_num_static_routes,
  add_static_route, remove_static_route,
}
use alto.PidRouting.Routes.{
  IsIdentified, joins, drop_route, has_route, routes_of, routes_of-append, found_node, found_route,
  routes-erase_node, length-erase_node,
}

endpoints_long :
    (value : NamedRoute)
    → leb 2 (length value) ≡ elim (endpoints value) [ none ↦ false | some _ ↦ true ]
unfolding endpoints
endpoints_long [] = refl
endpoints_long (p ∷ []) = refl
endpoints_long (p ∷ q ∷ qs) = ground arith

module _ {ℓ} {V : Type ℓ} where
  -- The routes between two PIDs.
  unfoldable pub routes : Routing V → Pid → Pid → List NamedRoute
  routes s src dst = routes_of (get_static_routes s src dst)

  -- add_static_route answers true exactly in the static mode on a route of two PIDs at least; it then
  -- puts the route last among those between its ends, and leaves those between all other ends, as
  -- it leaves all where it answers false.
  pub add_static_route_lem :
      (s : Routing V) (value : NamedRoute) (src dst : Pid)
      → ((add_static_route s value).1 ≡ (same_mode s.route_mode rm_static && leb 2 (length value)))
        × (routes (add_static_route s value).0 src dst ≡ (
            if (add_static_route s value).1 && joins value src dst
            then routes s src dst ++ value ∷ []
            else routes s src dst))
        × (get_num_static_routes (add_static_route s value).0 ≡ (
            if (add_static_route s value).1
            then get_num_static_routes s + 1
            else get_num_static_routes s))
  unfolding add_static_route same_mode joins routes get_static_routes get_num_static_routes
      with_routes
  add_static_route_lem s value src dst = elim (Option-cases (endpoints value)) [
    | inl e ↦ (ground (arith, endpoints_long value), ground arith, ground arith)
    | inr ((a, b), e) ↦ (
      ground (arith, endpoints_long value),
      ground (
        arith,
        routes_of-append s.static_routes
            (record { id = s.next_id; src = a; dst = b; route = value }) src dst,
      ),
      ground (
        arith,
        length-append s.static_routes
            (record { id = s.next_id; src = a; dst = b; route = value } ∷ []),
      ),
    )
  ]

  -- With nodes told apart by their identities, remove_static_route answers, in either mode, whether a
  -- route that equals the given one is there between its ends; it then takes away the first such
  -- route and no other.
  pub remove_static_route_lem :
      (s : Routing V) (value : NamedRoute) (src dst : Pid)
      → IsIdentified s.static_routes
      → ((remove_static_route s value).1
          ≡ elim (endpoints value) [ none ↦ false | some (a, b) ↦ has_route value (routes s a b) ])
        × (routes (remove_static_route s value).0 src dst ≡ (
            if (remove_static_route s value).1 && joins value src dst
            then drop_route value (routes s src dst)
            else routes s src dst))
        × (get_num_static_routes (remove_static_route s value).0 ≡ (
            if (remove_static_route s value).1
            then get_num_static_routes s - 1
            else get_num_static_routes s))
  unfolding remove_static_route joins routes get_static_routes get_num_static_routes with_routes
  remove_static_route_lem s value src dst u = elim (Option-cases (endpoints value)) [
    | inl e ↦ (ground arith, ground arith, ground arith)
    | inr ((a, b), e) ↦
        elim (Option-cases (find_route value (routes_between a b s.static_routes))) [
          | inl f ↦ (
            ground (arith, found_route value (routes_between a b s.static_routes)),
            ground arith,
            ground arith,
          )
          | inr (r, f) ↦ (
            ground (arith, found_route value (routes_between a b s.static_routes)),
            ground (arith, routes-erase_node value a b src dst s.static_routes r u f),
            ground (
              arith,
              length-erase_node s.static_routes r.id,
              found_node value a b s.static_routes r u f,
            ),
          )
        ]
  ]
