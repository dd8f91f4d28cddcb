-- ===== src/PidRouting/Results.antt =====
-- What get_routes answers in either mode.
use alto.Prelude.{
  ℕ, zero, suc, ◌≡◌, ◌⊎◌, refl, Bool, true, false, ◌&&◌, List, [], ◌∷◌, Option, none, some,
  get_elem?, arith, if◌then◌else◌, inl, inr, Option-cases, Bool-cases,
}
use alto.Prelude.Dict
use alto.Prelude.Run.{ok}
use alto.Pid.{Pid}
use alto.Pid.Order.{eq_iff}
use alto.PidRouting.Nodes.{NamedRoute}
use alto.PidRouting.Pinning.{
  IsMissing, IsPinned, HasStranger, pin_route_found, pin_route_failed, among-has_pinned,
  missing-has_pinned,
}
use alto.PidRouting.{Routing, rm_static, rm_weights, get_static_route}
use alto.PidRouting.Computing.{
  PinnedPid, PinnedRoute, PinnedRouteMap, same_pinned, Network, Context, pin_route, static_loop,
  get_routes_static, fill, get_routes_weights, get_routes,
}
use alto.PidRouting.Traces.{
  pinned-IsEquivalence, has_pinned, IsSeparate, ForEach, IsTraced, IsRouted, weights_loop_lem,
}

-- The predecessors that get_routes_weights works with.
unfoldable pub preds_of {ℓ} : {V : Type ℓ} → Routing V → Network V → PinnedPid → Context V → ℕ → ℕ
preds_of s net src c =
    let c' = fill s net c in
    net.compute_shortest_paths src.vertex c'.vert_indexes c'.edge_weights c'.vert_preds

module _ {ℓ} {V : Type ℓ} where
  -- In the weights mode, if from every PID of the set the predecessors lead to the source within the
  -- fuel, or its vertex is its own predecessor, get_routes ends with true and a result that has, for
  -- each PID of the set, no route in the latter case and else the route that is, backwards, the PID
  -- and the way along the predecessors to the source, with the PIDs of the vertices on it.
  pub get_routes_weights_lem :
      (fuel : ℕ) (s : Routing V) (net : Network V) (src : PinnedPid) (pids : List PinnedPid)
      (c : Context V)
      → s.route_mode ≡ rm_weights
      → IsSeparate pids
      → ForEach (IsTraced fuel net.get_pid (preds_of s net src c) src.vertex) pids
      → (out : Context V) × (get_routes fuel s net src pids c ≡ ok (out, true))
        × ForEach (IsRouted fuel net.get_pid (preds_of s net src c) src.vertex out.result) pids
  unfolding get_routes get_routes_weights preds_of Dict.lookup
  get_routes_weights_lem fuel s net src pids c m sep tr =
      let (result, done, kept, routed) =
        weights_loop_lem fuel net.get_pid (preds_of s net src c) src.vertex pids [] sep tr
          (λ q h. refl) in
      (
        record {
          result = result;
          vert_indexes = (fill s net c).vert_indexes;
          edge_weights = (fill s net c).edge_weights;
          vert_preds = preds_of s net src c;
        },
        simp (m, get_routes, get_routes_weights, done),
        routed,
      )

  -- The static route to a PID, with its hops pinned.
  static_route_to : Routing V → Pid → List PinnedPid → Pid → Option PinnedRoute
  static_route_to s src pids dst = elim (get_static_route s src dst) [
    | none ↦ none
    | some route ↦ pin_route pids route
  ]

  -- Is there no static route to a PID, or one with all hops among the PIDs?
  is_pinned : Routing V → Pid → List PinnedPid → Pid → Bool
  is_pinned s src pids dst = elim (get_static_route s src dst) [
    | none ↦ true
    | some route ↦ elim (pin_route pids route) [ none ↦ false | some _ ↦ true ]
  ]

  all_pinned : Routing V → Pid → List PinnedPid → List PinnedPid → Bool
  all_pinned s src pids [] = true
  all_pinned s src pids (p ∷ ps) = is_pinned s src pids p.pid && all_pinned s src pids ps

  static_loop_flag :
      (s : Routing V) (src : Pid) (pids ps : List PinnedPid) (acc : PinnedRouteMap)
      → (static_loop s src pids ps acc).1 ≡ all_pinned s src pids ps
  unfolding static_loop all_pinned is_pinned
  static_loop_flag s src pids [] acc = refl
  static_loop_flag s src pids (p ∷ ps) acc = elim (Option-cases (get_static_route s src p.pid)) [
    | inl e ↦ ground (arith, static_loop_flag s src pids ps acc)
    | inr (route, e) ↦ elim (Option-cases (pin_route pids route)) [
      | inl f ↦ ground arith
      | inr (r, f) ↦
          ground (arith, static_loop_flag s src pids ps (Dict.assign same_pinned p r acc))
    ]
  ]

  static_loop_lem :
      (s : Routing V) (src : Pid) (pids ps : List PinnedPid) (acc : PinnedRouteMap) (q : PinnedPid)
      → all_pinned s src pids ps ≡ true
      → Dict.lookup same_pinned q (static_loop s src pids ps acc).0 ≡ (
          if has_pinned ps q
          then elim (static_route_to s src pids q.pid) [
            | none ↦ Dict.lookup same_pinned q acc
            | some r ↦ some r
          ]
          else Dict.lookup same_pinned q acc)
  unfolding static_loop all_pinned is_pinned has_pinned static_route_to same_pinned
  static_loop_lem s src pids [] acc q h = refl
  static_loop_lem s src pids (p ∷ ps) acc q h = elim (Option-cases (get_static_route s src p.pid)) [
    | inl e ↦ ground (arith, static_loop_lem s src pids ps acc q, (eq_iff p.pid q.pid).0)
    | inr (route, e) ↦ elim (Option-cases (pin_route pids route)) [
      | inl f ↦ absurd (ground arith)
      | inr (r, f) ↦ ground (
        arith,
        static_loop_lem s src pids ps (Dict.assign same_pinned p r acc) q,
        Dict.lookup-assign same_pinned pinned-IsEquivalence p q r acc,
        (eq_iff p.pid q.pid).0,
      )
    ]
  ]

  all_pinned_member :
      (s : Routing V) (src : Pid) (pids ps : List PinnedPid) (i : ℕ) (p : PinnedPid)
      → all_pinned s src pids ps ≡ true
      → get_elem? ps i ≡ some p
      → is_pinned s src pids p.pid ≡ true
  unfolding all_pinned
  all_pinned_member s src pids [] i p h e = absurd (ground (arith, e))
  all_pinned_member s src pids (x ∷ xs) zero p h e =
      let same : x ≡ p = ground (arith, e) in rw (← same) (ground (arith, h))
  all_pinned_member s src pids (x ∷ xs) (suc i) p h e =
      all_pinned_member s src pids xs i p (ground (arith, h)) e

  unpinned_member :
      (s : Routing V) (src : Pid) (pids ps : List PinnedPid)
      → all_pinned s src pids ps ≡ false
      → (i : ℕ) × (p : PinnedPid) × (route : NamedRoute) × (get_elem? ps i ≡ some p)
        × (get_static_route s src p.pid ≡ some route)
        × HasStranger pids route
  unfolding all_pinned is_pinned
  unpinned_member s src pids [] h = absurd (ground (arith, h))
  unpinned_member s src pids (p ∷ ps) h =
      let further = λ (e : all_pinned s src pids ps ≡ false).
        let (i, q, route, at_i, has_route, stranger) = unpinned_member s src pids ps e in
        later i q route at_i has_route stranger in
      elim (Option-cases (get_static_route s src p.pid)) [
        | inl e ↦ further (ground (arith, h, e))
        | inr (route, e) ↦ elim (Option-cases (pin_route pids route)) [
          | inl f ↦ (0, p, route, refl, e, pin_route_failed pids route f)
          | inr (r, f) ↦ further (ground (arith, h, e, f))
        ]
      ]
    where
      later :
          (i : ℕ) (q : PinnedPid) (route : NamedRoute)
          → get_elem? ps i ≡ some q
          → get_static_route s src q.pid ≡ some route
          → HasStranger pids route
          → (i : ℕ) × (p' : PinnedPid) × (route : NamedRoute) × (get_elem? (p ∷ ps) i ≡ some p')
            × (get_static_route s src p'.pid ≡ some route)
            × HasStranger pids route
      later i q route at_i e stranger = (suc i, q, route, at_i, e, stranger)

  -- What the result of the static mode has for a PID of the set.
  abbrev pub StaticRoute : Routing V → Pid → List PinnedPid → PinnedRouteMap → PinnedPid → Type 0
  StaticRoute s src pids result q =
      ((get_static_route s src q.pid ≡ none) × (Dict.lookup same_pinned q result ≡ none))
      ⊎ ((route : NamedRoute) × (r : PinnedRoute) × (get_static_route s src q.pid ≡ some route)
          × (Dict.lookup same_pinned q result ≡ some r)
          × IsPinned pids route r)

  static_route_of :
      (s : Routing V) (src : Pid) (pids : List PinnedPid) (q : PinnedPid)
      (found : Option PinnedRoute)
      → is_pinned s src pids q.pid ≡ true
      → found ≡ static_route_to s src pids q.pid
      → ((get_static_route s src q.pid ≡ none) × (found ≡ none))
        ⊎ ((route : NamedRoute) × (r : PinnedRoute) × (get_static_route s src q.pid ≡ some route)
            × (found ≡ some r)
            × IsPinned pids route r)
  unfolding is_pinned static_route_to
  static_route_of s src pids q found h is = elim (Option-cases (get_static_route s src q.pid)) [
    | inl e ↦ inl (e, ground (arith, e, is))
    | inr (route, e) ↦ elim (Option-cases (pin_route pids route)) [
      | inl f ↦ absurd (ground (arith, h, e, f))
      | inr (r, f) ↦ inr (route, r, e, ground (arith, e, f, is), pin_route_found pids route r f)
    ]
  ]

  -- In the static mode get_routes ends. Either it answers true, and the result has, for each PID of
  -- the set, the route that get_static_route answers, hop by hop in elements of the set, or no
  -- route where that answers none, and no route to any other PID. Or it answers false, and the
  -- route that get_static_route answers for some PID of the set has a hop that is not in the set.
  pub get_routes_static_lem :
      (fuel : ℕ) (s : Routing V) (net : Network V) (src : PinnedPid) (pids : List PinnedPid)
      (c : Context V)
      → s.route_mode ≡ rm_static
      → (out : Context V) × (done : Bool) × (get_routes fuel s net src pids c ≡ ok (out, done))
        × (((done ≡ true)
              × ((i : ℕ) (q : PinnedPid)
                  → get_elem? pids i ≡ some q
                  → StaticRoute s src.pid pids out.result q)
              × ((q : PinnedPid)
                  → IsMissing pids q.pid
                  → Dict.lookup same_pinned q out.result ≡ none))
            ⊎ ((i : ℕ) × (q : PinnedPid) × (route : NamedRoute) × (done ≡ false)
                × (get_elem? pids i ≡ some q)
                × (get_static_route s src.pid q.pid ≡ some route)
                × HasStranger pids route))
  unfolding get_routes get_routes_static Dict.lookup
  get_routes_static_lem fuel s net src pids c m =
      let result = (static_loop s src.pid pids pids []).0 in
      let answer = all_pinned s src.pid pids pids in
      let has = static_loop_lem s src.pid pids pids [] in
      (
        record {
          result = result;
          vert_indexes = c.vert_indexes;
          edge_weights = c.edge_weights;
          vert_preds = c.vert_preds;
        },
        answer,
        simp (m, get_routes, get_routes_static, static_loop_flag s src.pid pids pids []),
        elim (Bool-cases answer) [
          | inl all ↦ inl (
            all,
            λ i q e.
                static_route_of s src.pid pids q (Dict.lookup same_pinned q result)
                  (all_pinned_member s src.pid pids pids i q all e)
                  (ground (arith, has q all, among-has_pinned pids q i e)),
            λ q h. ground (arith, has q all, missing-has_pinned pids q h),
          )
          | inr not_all ↦
              let (i, q, route, at_i, e, stranger) = unpinned_member s src.pid pids pids not_all in
              inr (i, q, route, not_all, at_i, e, stranger)
        ],
      )
