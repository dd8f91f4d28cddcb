-- ===== src/PidRouting/Modes.antt =====
-- set_route_mode, which clears the static routes by the operation that works in the static mode only.
use alto.Prelude.{◌≡◌, not, ◌&&◌, [], arith, if◌then◌else◌}
use alto.PidRouting.{
  RouteMode, rm_static, rm_weights, same_mode, Routing, with_mode, with_routes, clear_static_routes,
  set_route_mode,
}

-- After set_route_mode the mode is the given one; the static routes are gone if that changed it to the static
-- mode, and are all kept if it changed it to the weights mode or not at all.
pub set_route_mode_lem {ℓ} :
    {V : Type ℓ} (s : Routing V) (value : RouteMode)
    → ((set_route_mode s value).route_mode ≡ value)
      × ((set_route_mode s value).static_routes ≡ (
          if not (same_mode s.route_mode value) && same_mode value rm_static
          then []
          else s.static_routes))
unfolding set_route_mode same_mode clear_static_routes with_routes with_mode
set_route_mode_lem s rm_static = ground arith
set_route_mode_lem s rm_weights = ground arith
