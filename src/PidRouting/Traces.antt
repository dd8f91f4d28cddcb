-- ===== src/PidRouting/Traces.antt =====
-- The routes that get_routes_weights finds: the way back from each PID along the predecessors.
use alto.Prelude.{
  ℕ, zero, suc, ◌≤◌, ◌≡◌, ◌≢◌, refl, ◌==◌, Bool, true, false, ◌||◌, List, [], ◌∷◌, none, some,
  arith, inl, inr, Bool-cases, ◌∙◌, ◌⊎◌, ==_iff,
}
use alto.Prelude.Dict
use alto.Prelude.Order.{IsEquivalence}
use alto.Prelude.Run.{ok}
use alto.Pid.{Pid}
use alto.Pid.Order.{eq_iff}
use alto.PidRouting.Computing.{
  PinnedPid, PinnedRoute, PinnedRouteMap, pinned, same_pinned, reverse, trace, route_to,
  weights_loop,
}

-- The vertex that k predecessors lead to.
unfoldable pub back_by : ℕ → (ℕ → ℕ) → ℕ → ℕ
back_by zero preds v = v
back_by (suc k) preds v = back_by k preds (preds v)

-- From a vertex, predecessor by predecessor with their PIDs, to the source and no further.
unfoldable pub IsWayBack : (ℕ → Pid) → (ℕ → ℕ) → ℕ → ℕ → PinnedRoute → Type 0
IsWayBack pid_of preds src v [] = v ≡ src
IsWayBack pid_of preds src v (p ∷ ps) =
    (v ≢ src) × (p ≡ pinned (pid_of (preds v)) (preds v)) × IsWayBack pid_of preds src (preds v) ps

pub trace_lem :
    (fuel k : ℕ) (pid_of : ℕ → Pid) (preds : ℕ → ℕ) (src v : ℕ)
    → k ≤ fuel
    → back_by k preds v ≡ src
    → (out : PinnedRoute) × (trace fuel pid_of preds src v ≡ ok out)
      × IsWayBack pid_of preds src v out
unfolding trace back_by IsWayBack
trace_lem zero zero pid_of preds src v le e = ([], rw (e, (==_iff src src).1 refl) refl, e)
trace_lem zero (suc k) pid_of preds src v le e = absurd (omega arith)
trace_lem (suc fuel) zero pid_of preds src v le e = ([], rw ((==_iff v src).1 e, trace) refl, e)
trace_lem (suc fuel) (suc k) pid_of preds src v le e = elim (Bool-cases (v == src)) [
  | inl h ↦ ([], rw (h, trace) refl, (==_iff v src).0 h)
  | inr h ↦
      let (out, done, way) = trace_lem fuel k pid_of preds src (preds v) (omega arith) e in
      (
        pinned (pid_of (preds v)) (preds v) ∷ out,
        rw (h, trace, done) refl,
        (λ t. ground arith, refl, way),
      )
]

pub pinned-IsEquivalence : IsEquivalence same_pinned
unfolding same_pinned
pinned-IsEquivalence = record {
  same_refl = λ a. (eq_iff a.pid a.pid).1 refl;
  same_sym = λ a b h. ground (arith, (eq_iff a.pid b.pid).0, (eq_iff b.pid a.pid).1);
  same_trans = λ a b c h k.
      ground (arith, (eq_iff a.pid b.pid).0, (eq_iff b.pid c.pid).0, (eq_iff a.pid c.pid).1);
}

unfoldable pub has_pinned : List PinnedPid → PinnedPid → Bool
has_pinned [] q = false
has_pinned (p ∷ ps) q = same_pinned p q || has_pinned ps q

has_pinned_same :
    (ps : List PinnedPid) (p q : PinnedPid)
    → same_pinned p q ≡ true
    → has_pinned ps p ≡ has_pinned ps q
unfolding has_pinned
has_pinned_same [] p q h = refl
has_pinned_same (x ∷ ps) p q h = ground (
  arith,
  has_pinned_same ps p q h,
  pinned-IsEquivalence.same_trans x p q,
  pinned-IsEquivalence.same_trans x q p,
  pinned-IsEquivalence.same_sym p q,
)

-- A set holds each PID once.
unfoldable pub IsSeparate : List PinnedPid → Type 0
IsSeparate [] = Unit
IsSeparate (p ∷ ps) = (has_pinned ps p ≡ false) × IsSeparate ps

unfoldable pub ForEach : (PinnedPid → Type 0) → List PinnedPid → Type 0
ForEach P [] = Unit
ForEach P (p ∷ ps) = P p × ForEach P ps

module _ (fuel : ℕ) (pid_of : ℕ → Pid) (preds : ℕ → ℕ) (src : ℕ) where
  -- A vertex is its own predecessor where no path leads to it, and at the source; from every other
  -- one the predecessors lead to the source.
  unfoldable pub IsTraced : PinnedPid → Type 0
  IsTraced p =
      (preds p.vertex ≡ p.vertex)
      ⊎ ((k : ℕ) × (k ≤ fuel) × (back_by k preds (preds p.vertex) ≡ src))

  -- No route, or the one that is, backwards, the PID and the way from its vertex's predecessor.
  unfoldable pub IsRouted : PinnedRouteMap → PinnedPid → Type 0
  IsRouted result p =
      ((preds p.vertex ≡ p.vertex) × (Dict.lookup same_pinned p result ≡ none))
      ⊎ ((back : PinnedRoute) × (Dict.lookup same_pinned p result
            ≡ some (
                reverse (
                  pinned p.pid p.vertex
                  ∷ pinned (pid_of (preds p.vertex)) (preds p.vertex)
                  ∷ back)))
          × IsWayBack pid_of preds src (preds p.vertex) back)

  found :
      (p : PinnedPid)
      → (preds p.vertex == p.vertex) ≡ false
      → IsTraced p
      → (back : PinnedRoute) × (trace fuel pid_of preds src (preds p.vertex) ≡ ok back)
        × IsWayBack pid_of preds src (preds p.vertex) back
  unfolding IsTraced
  found p h (inl e) = absurd (ground arith)
  found p h (inr (k, le, e)) = trace_lem fuel k pid_of preds src (preds p.vertex) le e

  pub weights_loop_lem :
      (ps : List PinnedPid) (acc : PinnedRouteMap)
      → IsSeparate ps
      → ForEach IsTraced ps
      → ((q : PinnedPid) → has_pinned ps q ≡ true → Dict.lookup same_pinned q acc ≡ none)
      → (out : PinnedRouteMap) × (weights_loop fuel pid_of preds src ps acc ≡ ok out)
        × ((q : PinnedPid)
            → has_pinned ps q ≡ false
            → Dict.lookup same_pinned q out ≡ Dict.lookup same_pinned q acc)
        × ForEach (IsRouted out) ps
  unfolding weights_loop IsSeparate ForEach has_pinned IsRouted route_to
  weights_loop_lem [] acc sep tr new = (acc, refl, λ q h. refl, tt)
  weights_loop_lem (p ∷ ps) acc sep tr new = elim (Bool-cases (preds p.vertex == p.vertex)) [
    | inl h ↦
        let (out, done, kept, routed) =
          weights_loop_lem ps acc sep.1 tr.1 (λ q m. new q (ground arith)) in
        (
          out,
          rw (h, weights_loop) done,
          λ q m. kept q (ground arith),
          (
            inl (
              (==_iff (preds p.vertex) p.vertex).0 h,
              kept p sep.0 ∙ new p (ground (arith, pinned-IsEquivalence.same_refl p)),
            ),
            routed,
          ),
        )
    | inr h ↦
        let (back, traced, way) = found p h tr.0 in
        let route =
          reverse
            (pinned p.pid p.vertex ∷ pinned (pid_of (preds p.vertex)) (preds p.vertex) ∷ back) in
        let (out, done, kept, routed) =
          weights_loop_lem ps (Dict.assign same_pinned p route acc) sep.1 tr.1 (λ q m. ground (
            arith,
            Dict.lookup-assign same_pinned pinned-IsEquivalence p q route acc,
            has_pinned_same ps p q,
            sep.0,
            new q,
          )) in
        (
          out,
          rw (h, weights_loop, traced, route_to) done,
          λ q m.
              ground
                (arith, kept q, Dict.lookup-assign same_pinned pinned-IsEquivalence p q route acc),
          (
            inr (
              back,
              ground (
                arith,
                kept p sep.0,
                Dict.lookup-assign same_pinned pinned-IsEquivalence p p route acc,
                pinned-IsEquivalence.same_refl p,
              ),
              way,
            ),
            routed,
          ),
        )
  ]
