-- ===== src/PidRouting/Reachable.antt =====
-- The routings that a program can come to, other than by copying one, and what removing a PID does in
-- them.
use alto.Prelude.{
  ℕ, ◌≤◌, ◌≡◌, refl, Bool, true, false, [], none, inl, inr, Option-cases, Bool-cases, ◌⊎◌,
}
use alto.Prelude.Run.{ok}
use alto.Pid.{Pid}
use alto.PidMatrix
use alto.PidMatrix.{PidMatrix, VCost, get_by_pid}
use alto.PidMatrix.Entries.{IsConsistent}
use alto.PidMatrix.Reachable.{add_pid-IsConsistent, set_by_pid-IsConsistent}
use alto.PidRouting.Nodes.{NamedRoute, endpoints, routes_between, find_route, find_node}
use alto.PidRouting.{
  RouteMode, rm_static, rm_weights, same_mode, Routing, new_routing, with_routes, with_mode,
  with_weights, add_static_route, remove_static_route, remove_static_route_ptrs,
  clear_static_routes, get_static_routes, set_route_mode, set_weight, add_pid, remove_pid,
}
use alto.PidRouting.Routes.{IsIdentified, found_node}
use alto.PidRouting.Pointers.{
  has_ptr, IsAnchored, insert-IsAnchored, erase-IsAnchored, empty-IsAnchored,
}

pub data Reachable {ℓ} {V : Type ℓ} : Routing V → Type ℓ where
  created : (w : VCost V) → Reachable (new_routing w)
  route_added :
      {s : Routing V} (value : NamedRoute) → Reachable s → Reachable (add_static_route s value).0
  route_removed :
      {s : Routing V} (value : NamedRoute) → Reachable s → Reachable (remove_static_route s value).0
  routes_cleared : {s : Routing V} → Reachable s → Reachable (clear_static_routes s).0
  mode_set : {s : Routing V} (value : RouteMode) → Reachable s → Reachable (set_route_mode s value)
  weight_set :
      {s : Routing V} (p q : Pid) (v : VCost V) → Reachable s → Reachable (set_weight s p q v).0
  pid_added : {s : Routing V} (p : Pid) → Reachable s → Reachable (add_pid s p)
  pid_removed : {s t : Routing V} (p : Pid) → Reachable s → remove_pid s p ≡ ok t → Reachable t

-- The entries are right while they are in use, which is in the static mode. In the other mode
-- remove_static_route leaves entries behind, and the change to the static mode drops them.
pub record IsTidy {ℓ} {V : Type ℓ} (s : Routing V) : Type ℓ where
  pub identified : IsIdentified s.static_routes
  pub fresh : (i : ℕ) → s.next_id ≤ i → find_node i s.static_routes ≡ none
  pub anchored : s.route_mode ≡ rm_static → IsAnchored s.static_routes s.static_route_ptrs s.next_id
  pub weighed : IsConsistent s.weights

pub Mode-cases : (m : RouteMode) → (m ≡ rm_static) ⊎ (m ≡ rm_weights)
Mode-cases rm_static = inl refl
Mode-cases rm_weights = inr refl

abbrev is_static : RouteMode → Bool
is_static rm_static = true
is_static rm_weights = false

pub weights_not_static : (m : RouteMode) → m ≡ rm_weights → m ≡ rm_static → ⊥
weights_not_static m e f = cc

module _ {ℓ} {V : Type ℓ} (s : Routing V) (h : IsTidy s) where
  pub add_static_route-IsTidy : (value : NamedRoute) → IsTidy (add_static_route s value).0
  unfolding add_static_route with_routes
  add_static_route-IsTidy value = elim (Mode-cases s.route_mode) [
    | inr e ↦ rw (e, add_static_route) h
    | inl e ↦ elim (Option-cases (endpoints value)) [
      | inl f ↦ rw (e, f, add_static_route) h
      | inr ((a, b), f) ↦
          let k =
            insert-IsAnchored s.static_routes s.static_route_ptrs s.next_id a b value
              (h.anchored e) in
          rw (e, f, add_static_route)
            (record {
              identified = k.identified;
              fresh = k.fresh;
              anchored = λ m. k;
              weighed = h.weighed;
            })
    ]
  ]

  -- The nodes alone, as in the mode that does not use the entries.
  pub bare : IsAnchored s.static_routes [] s.next_id
  unfolding has_ptr
  bare = record { identified = h.identified; fresh = h.fresh; anchored = λ p i m. cc }

  pub remove_static_route-IsTidy : (value : NamedRoute) → IsTidy (remove_static_route s value).0
  unfolding remove_static_route with_routes get_static_routes remove_static_route_ptrs
  remove_static_route-IsTidy value = elim (Option-cases (endpoints value)) [
    | inl e ↦ rw (e, remove_static_route) h
    | inr ((a, b), e) ↦
        elim (Option-cases (find_route value (routes_between a b s.static_routes))) [
          | inl f ↦ rw (e, f, remove_static_route, get_static_routes) h
          | inr (r, f) ↦
              let found = found_node value a b s.static_routes r h.identified f in
              let k = erase-IsAnchored s.static_routes [] s.next_id r found bare in
              rw (e, f, remove_static_route, get_static_routes)
                (record {
                  identified = k.identified;
                  fresh = k.fresh;
                  anchored = λ m. rw (m) (
                      erase-IsAnchored s.static_routes s.static_route_ptrs s.next_id r found
                        (h.anchored m));
                  weighed = h.weighed;
                })
        ]
  ]

  pub clear_static_routes-IsTidy : IsTidy (clear_static_routes s).0
  unfolding clear_static_routes with_routes
  clear_static_routes-IsTidy = elim (Mode-cases s.route_mode) [
    | inr e ↦ rw (e, clear_static_routes) h
    | inl e ↦
        let k = empty-IsAnchored s.next_id in
        rw (e, clear_static_routes)
          (record {
            identified = k.identified;
            fresh = k.fresh;
            anchored = λ m. k;
            weighed = h.weighed;
          })
  ]

  pub mode_kept :
      (value : RouteMode) → same_mode s.route_mode value ≡ true → set_route_mode s value ≡ s
  unfolding set_route_mode
  mode_kept value e = rw (e, set_route_mode) refl

  pub mode_changed :
      (value : RouteMode)
      → same_mode s.route_mode value ≡ false
      → set_route_mode s value ≡ (clear_static_routes (with_mode s value)).0
  unfolding set_route_mode
  mode_changed value e = rw (e, set_route_mode) refl

  pub set_route_mode-IsTidy : (value : RouteMode) → IsTidy (set_route_mode s value)
  unfolding set_route_mode clear_static_routes with_routes with_mode same_mode
  set_route_mode-IsTidy rm_static = elim (Mode-cases s.route_mode) [
    | inl e ↦ rw (mode_kept rm_static (rw (e, same_mode) refl)) h
    | inr e ↦
        let k = empty-IsAnchored s.next_id in
        rw (mode_changed rm_static (rw (e, same_mode) refl)) (record {
          identified = k.identified;
          fresh = k.fresh;
          anchored = λ m. k;
          weighed = h.weighed;
        })
  ]
  set_route_mode-IsTidy rm_weights = elim (Mode-cases s.route_mode) [
    | inr e ↦ rw (mode_kept rm_weights (rw (e, same_mode) refl)) h
    | inl e ↦ rw (mode_changed rm_weights (rw (e, same_mode) refl)) (record {
      identified = h.identified;
      fresh = h.fresh;
      anchored = λ m. cc;
      weighed = h.weighed;
    })
  ]

  pub with_weights-IsTidy : (m : PidMatrix V) → IsConsistent m → IsTidy (with_weights s m)
  unfolding with_weights
  with_weights-IsTidy m k = record {
    identified = h.identified;
    fresh = h.fresh;
    anchored = h.anchored;
    weighed = k;
  }

  pub set_weight-IsTidy : (p q : Pid) (v : VCost V) → IsTidy (set_weight s p q v).0
  unfolding set_weight
  set_weight-IsTidy p q v = elim (Bool-cases (PidMatrix.set_by_pid s.weights p q v).1) [
    | inr e ↦ rw (e, set_weight) h
    | inl e ↦
        rw (e, set_weight)
          (with_weights-IsTidy (PidMatrix.set_by_pid s.weights p q v).0
            (set_by_pid-IsConsistent s.weights p q v h.weighed))
  ]

  pub add_pid-IsTidy : (p : Pid) → IsTidy (add_pid s p)
  unfolding add_pid
  add_pid-IsTidy p = elim (Mode-cases s.route_mode) [
    | inl e ↦ rw (e, add_pid) (with_weights-IsTidy s.weights h.weighed)
    | inr e ↦
        rw (e, add_pid)
          (with_weights-IsTidy (PidMatrix.add_pid s.weights p).0
            (add_pid-IsConsistent s.weights p h.weighed))
  ]
