-- ===== src/PidRouting/Nodes.antt =====
-- The static routes of common-server/src/lib/pid_routing.cpp as a multimap from pairs of PIDs to routes,
-- and the multimap from PIDs to iterators into it.
use alto.Prelude.{
  ℕ, ◌==◌, Bool, true, false, not, ◌&&◌, ◌||◌, List, [], ◌∷◌, ◌++◌, Option, none, some,
  if◌then◌else◌,
}
use alto.Prelude.Keyed
use alto.Prelude.Run.{Run, ok, fault}
use alto.Pid
use alto.Pid.{Pid}
use alto.Pid.Sets

-- NamedRoute: the PIDs that a route passes
abbrev pub NamedRoute : Type 0
NamedRoute = List Pid

-- A node of the multimap of static routes, with the identity that an iterator to it has.
pub record RouteNode : Type 0 where
  pub id : ℕ
  pub src : Pid
  pub dst : Pid
  pub route : NamedRoute

-- `value.front()` and `value.back()` of a route with two PIDs at least
unfoldable pub last : Pid → List Pid → Pid
last p [] = p
last p (q ∷ qs) = last q qs

unfoldable pub endpoints : NamedRoute → Option (Pid × Pid)
endpoints [] = none
endpoints (p ∷ []) = none
endpoints (p ∷ q ∷ qs) = some (p, last q qs)

-- `r.size() == s.size() && std::equal(r.begin(), r.end(), s.begin())`
unfoldable pub equal : NamedRoute → NamedRoute → Bool
equal [] [] = true
equal [] (q ∷ qs) = false
equal (p ∷ ps) [] = false
equal (p ∷ ps) (q ∷ qs) = Pid.eq p q && equal ps qs

-- `static_routes_.equal_range(RouteEndpoints(src, dst))`
unfoldable pub routes_between : Pid → Pid → List RouteNode → List RouteNode
routes_between src dst [] = []
routes_between src dst (r ∷ rs) =
    if Sets.same r.src src && Sets.same r.dst dst
    then r ∷ routes_between src dst rs
    else routes_between src dst rs

-- The loop of remove_static_route: the first of the nodes that has the route.
unfoldable pub find_route : NamedRoute → List RouteNode → Option RouteNode
find_route route [] = none
find_route route (r ∷ rs) = if not (equal route r.route) then find_route route rs else some r

-- The node that an iterator refers to.
abbrev pub find_node : ℕ → List RouteNode → Option RouteNode
find_node = Keyed.find (λ r. r.id) ◌==◌

-- `static_routes_.erase(r_itr)`
abbrev pub erase_node : ℕ → List RouteNode → List RouteNode
erase_node = Keyed.erase (λ r. r.id) ◌==◌

-- The loop of add_static_route_ptrs.
unfoldable pub insert_ptrs : List Pid → ℕ → List (Pid × ℕ) → List (Pid × ℕ)
insert_ptrs [] i ptrs = ptrs
insert_ptrs (p ∷ ps) i ptrs = insert_ptrs ps i (ptrs ++ (p, i) ∷ [])

-- The entries of a PID's equal_range that refer to the route, erased.
unfoldable pub erase_ptr : Pid → ℕ → List (Pid × ℕ) → List (Pid × ℕ)
erase_ptr p i [] = []
erase_ptr p i ((q, j) ∷ ptrs) =
    if Sets.same q p && j == i then erase_ptr p i ptrs else (q, j) ∷ erase_ptr p i ptrs

-- The loop of remove_static_route_ptrs over the PIDs of a route.
unfoldable pub erase_ptrs : List Pid → ℕ → List (Pid × ℕ) → List (Pid × ℕ)
erase_ptrs [] i ptrs = ptrs
erase_ptrs (p ∷ ps) i ptrs = erase_ptrs ps i (erase_ptr p i ptrs)

-- append_static_route_ptrs: the set of the routes that the PID's entries refer to. Its order is that of
-- addresses, and does not matter.
unfoldable pub has_id : List ℕ → ℕ → Bool
has_id [] i = false
has_id (j ∷ js) i = j == i || has_id js i

unfoldable pub append_ptrs : Pid → List (Pid × ℕ) → List ℕ → List ℕ
append_ptrs p [] ids = ids
append_ptrs p ((q, i) ∷ ptrs) ids =
    append_ptrs p ptrs (if Sets.same q p && not (has_id ids i) then i ∷ ids else ids)

-- remove_static_route_ptrs on a set of iterators; one that refers to no node is undefined behaviour.
unfoldable pub erase_all_ptrs : List ℕ → List RouteNode → List (Pid × ℕ) → Run (List (Pid × ℕ))
erase_all_ptrs [] rs ptrs = ok ptrs
erase_all_ptrs (i ∷ ids) rs ptrs = elim (find_node i rs) [
  | none ↦ fault
  | some r ↦ erase_all_ptrs ids rs (erase_ptrs r.route i ptrs)
]
