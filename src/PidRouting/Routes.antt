-- ===== src/PidRouting/Routes.antt =====
-- What get_static_routes answers after add_static_route and remove_static_route.
use alto.Prelude.{
  ℕ, ◌-◌, ◌≡◌, refl, ◌==◌, Bool, true, false, ◌&&◌, ◌||◌, List, [], ◌∷◌, ◌++◌, none, some, arith,
  if◌then◌else◌, length, ==_iff,
}
use alto.Prelude.Keyed
use alto.Prelude.Keyed.{IsUnique}
use alto.Pid.{Pid}
use alto.Pid.Order.{eq_iff}
use alto.Pid.Sets
use alto.Pid.Sets.{same_iff}
use alto.PidRouting.Nodes.{
  NamedRoute, RouteNode, endpoints, equal, routes_between, find_route, find_node, erase_node,
}

-- Every node has an identity of its own.
unfoldable pub IsIdentified : List RouteNode → Type 0
IsIdentified rs = IsUnique (λ r. r.id) ◌==◌ rs

pub equal_refl : (r : NamedRoute) → equal r r ≡ true
unfolding equal
equal_refl [] = refl
equal_refl (p ∷ ps) = ground (arith, equal_refl ps, (eq_iff p p).1)

-- Does the route lead from one PID to the other?
unfoldable pub joins : NamedRoute → Pid → Pid → Bool
joins value src dst = elim (endpoints value) [
  | none ↦ false
  | some (p, q) ↦ Sets.same p src && Sets.same q dst
]

-- The routes without the first that equals the given one.
unfoldable pub drop_route : NamedRoute → List NamedRoute → List NamedRoute
drop_route value [] = []
drop_route value (r ∷ rs) = if equal value r then rs else r ∷ drop_route value rs

unfoldable pub has_route : NamedRoute → List NamedRoute → Bool
has_route value [] = false
has_route value (r ∷ rs) = equal value r || has_route value rs

unfoldable pub routes_of : List RouteNode → List NamedRoute
routes_of [] = []
routes_of (r ∷ rs) = r.route ∷ routes_of rs

pub routes_of-append :
    (rs : List RouteNode) (n : RouteNode) (src dst : Pid)
    → routes_of (routes_between src dst (rs ++ n ∷ [])) ≡ (
        if Sets.same n.src src && Sets.same n.dst dst
        then routes_of (routes_between src dst rs) ++ n.route ∷ []
        else routes_of (routes_between src dst rs))
unfolding routes_between routes_of
routes_of-append [] n src dst = ground arith
routes_of-append (r ∷ rs) n src dst = ground (arith, routes_of-append rs n src dst)

-- A route found is one that a node has, and that node is found by its identity.
pub found_node :
    (value : NamedRoute) (src dst : Pid) (rs : List RouteNode) (r : RouteNode)
    → IsIdentified rs
    → find_route value (routes_between src dst rs) ≡ some r
    → find_node r.id rs ≡ some r
unfolding find_route routes_between IsIdentified IsUnique Keyed.find
found_node value src dst [] r u h = cc
found_node value src dst (x ∷ xs) r u h =
    ground
      (arith, found_node value src dst xs r u.1, u.0, (==_iff x.id r.id).0, (==_iff r.id r.id).1)

-- Whether there is a route to find.
pub found_route :
    (value : NamedRoute) (rs : List RouteNode)
    → has_route value (routes_of rs) ≡ elim (find_route value rs) [ none ↦ false | some _ ↦ true ]
unfolding has_route routes_of find_route
found_route value [] = refl
found_route value (r ∷ rs) = ground (arith, found_route value rs)

-- Erasing the node found leaves the routes between its ends without the first that equals its
-- route, and those between other ends as they were.
pub routes-erase_node :
    (value : NamedRoute) (a b src dst : Pid) (rs : List RouteNode) (r : RouteNode)
    → IsIdentified rs
    → find_route value (routes_between a b rs) ≡ some r
    → routes_of (routes_between src dst (erase_node r.id rs)) ≡ (
        if Sets.same a src && Sets.same b dst
        then drop_route value (routes_of (routes_between src dst rs))
        else routes_of (routes_between src dst rs))
unfolding find_route routes_between routes_of drop_route IsIdentified IsUnique Keyed.erase
routes-erase_node value a b src dst [] r u h = cc
routes-erase_node value a b src dst (x ∷ xs) r u h = ground (
  arith,
  routes-erase_node value a b src dst xs r u.1,
  found_node value a b xs r u.1,
  u.0,
  (==_iff x.id r.id).0,
  (==_iff x.id r.id).1,
  (same_iff x.src a).0,
  (same_iff x.dst b).0,
  (same_iff a src).0,
  (same_iff b dst).0,
)

pub length-erase_node :
    (rs : List RouteNode) (i : ℕ)
    → length (erase_node i rs) ≡ elim (find_node i rs) [ none ↦ length rs | some _ ↦ length rs - 1 ]
unfolding Keyed.erase Keyed.find
length-erase_node [] i = refl
length-erase_node (x ∷ []) i = ground arith
length-erase_node (x ∷ y ∷ rs) i = ground (arith, length-erase_node (y ∷ rs) i)
