-- ===== src/PidRouting/Removal.antt =====
-- remove_pid, which an entry without its node would send into undefined behaviour, and the invariant
-- that excludes this.
use alto.Prelude.{
  ℕ, ◌≡◌, refl, sym, Bool, true, not, ◌&&◌, ◌||◌, List, [], some, arith, ◌∙◌, if◌then◌else◌, inl,
  inr, Option-cases,
}
use mathlib.Core.Path.{subst}
use alto.Prelude.Run.{ok}
use alto.Pid.{Pid, eq}
use alto.PidMatrix
use alto.PidMatrix.{PidMatrix, VCost}
use alto.PidMatrix.Updates.{empty_matrix-IsConsistent}
use alto.PidMatrix.Members.{get_by_pid-remove_pid}
use alto.PidMatrix.Reachable.{remove_pid-IsConsistent}
use alto.PidRouting.Nodes.{RouteNode, find_node, append_ptrs, erase_all_ptrs, has_id}
use alto.PidRouting.{
  rm_static, rm_weights, Routing, new_routing, with_routes, with_weights, get_weight, remove_pid,
}
use alto.PidRouting.Routes.{IsIdentified}
use alto.PidRouting.Pointers.{
  has_ptr, passes, has_id-append_ptrs, erase_all_ptrs_lem, fewer-IsAnchored, empty-IsAnchored,
}
use alto.PidRouting.Reachable.{
  Reachable, created, route_added, route_removed, routes_cleared, mode_set, weight_set, pid_added,
  pid_removed, IsTidy, Mode-cases, add_static_route-IsTidy, remove_static_route-IsTidy,
  clear_static_routes-IsTidy, set_route_mode-IsTidy, with_weights-IsTidy, set_weight-IsTidy,
  add_pid-IsTidy,
}

passes_node :
    (rs : List RouteNode) (i : ℕ) (p : Pid)
    → passes rs i p ≡ true
    → (r : RouteNode) × (find_node i rs ≡ some r)
unfolding passes
passes_node rs i p h = elim (Option-cases (find_node i rs)) [
  | inl e ↦ absurd (ground arith)
  | inr (r, e) ↦ (r, e)
]

module _ {ℓ} {V : Type ℓ} (s : Routing V) (h : IsTidy s) (p : Pid) where
  -- The entries of every route that an entry of the PID refers to are erased, and no others.
  erased :
      s.route_mode ≡ rm_static
      → (out : List (Pid × ℕ)) × (erase_all_ptrs
            (append_ptrs p s.static_route_ptrs [])
            s.static_routes
            s.static_route_ptrs
          ≡ ok out)
        × ((q : Pid) (i : ℕ)
            → has_ptr out q i
              ≡ (has_ptr s.static_route_ptrs q i && not (has_ptr s.static_route_ptrs p i)))
  unfolding has_id
  erased m =
      let k = h.anchored m in
      let ids = append_ptrs p s.static_route_ptrs [] in
      let listed : (i : ℕ) → has_id ids i ≡ has_ptr s.static_route_ptrs p i =
        λ i. has_id-append_ptrs p s.static_route_ptrs [] i in
      let (out, done, left) =
        erase_all_ptrs_lem ids s.static_routes s.static_route_ptrs
          (λ i t. passes_node s.static_routes i p (k.anchored p i (ground (arith, listed i)))) in
      (
        out,
        done,
        λ q i.
            rest (has_ptr out q i) (has_id ids i) (has_ptr s.static_route_ptrs p i)
              (passes s.static_routes i q) (has_ptr s.static_route_ptrs q i) (left q i) (listed i)
              (k.anchored q i),
      )
    where
      rest :
          (o m n t q : Bool)
          → o ≡ (not (m && t) && q)
          → m ≡ n
          → (q ≡ true → t ≡ true)
          → o ≡ (q && not n)
      rest o m n t q e f g = ground arith

  static_removal :
      (out : List (Pid × ℕ))
      → s.route_mode ≡ rm_static
      → erase_all_ptrs (append_ptrs p s.static_route_ptrs []) s.static_routes s.static_route_ptrs
        ≡ ok out
      → remove_pid s p ≡ ok (with_routes s s.static_routes out s.next_id)
  unfolding remove_pid
  static_removal out m done = simp (m, done, remove_pid)

  weights_removal :
      s.route_mode ≡ rm_weights
      → remove_pid s p ≡ ok (with_weights s (PidMatrix.remove_pid s.weights p).0)
  unfolding remove_pid
  weights_removal m = simp (m, remove_pid)

  -- In a tidy routing remove_pid meets no entry without its node. It keeps all static routes; in
  -- the static mode it erases just the entries of the routes that an entry of the PID refers to, and in
  -- the weights mode get_weight answers the default weight for the PID and what it did for all others.
  pub remove_pid_lem :
      (t : Routing V) × (remove_pid s p ≡ ok t)
      × (t.static_routes ≡ s.static_routes)
      × (s.route_mode ≡ rm_static
          → (q : Pid) (i : ℕ)
          → has_ptr t.static_route_ptrs q i
            ≡ (has_ptr s.static_route_ptrs q i && not (has_ptr s.static_route_ptrs p i)))
      × (s.route_mode ≡ rm_weights
          → (q r : Pid)
          → get_weight t q r ≡ (if eq p q || eq p r then s.default_weight else get_weight s q r))
  unfolding remove_pid with_routes with_weights get_weight
  remove_pid_lem = elim (Mode-cases s.route_mode) [
    | inl m ↦
        let (out, done, left) = erased m in
        (
          with_routes s s.static_routes out s.next_id,
          static_removal out m done,
          refl,
          λ e q i. left q i,
          λ e q r. absurd cc,
        )
    | inr m ↦ (
      with_weights s (PidMatrix.remove_pid s.weights p).0,
      weights_removal m,
      refl,
      λ e q i. absurd cc,
      λ e q r. (get_by_pid-remove_pid s.weights p q r s.default_weight h.weighed).0,
    )
  ]

ok_injective {ℓ} : {A : Type ℓ} (a b : A) → ok a ≡ ok b → a ≡ b
ok_injective a b e = cc

module _ {ℓ} {V : Type ℓ} (s : Routing V) (h : IsTidy s) (p : Pid) where
  static-IsTidy :
      (out : List (Pid × ℕ))
      → s.route_mode ≡ rm_static
      → ((q : Pid) (i : ℕ)
          → has_ptr out q i
            ≡ (has_ptr s.static_route_ptrs q i && not (has_ptr s.static_route_ptrs p i)))
      → IsTidy (with_routes s s.static_routes out s.next_id)
  unfolding with_routes
  static-IsTidy out m left = record {
    identified = h.identified;
    fresh = h.fresh;
    anchored = λ e.
        fewer-IsAnchored s.static_routes s.static_route_ptrs out s.next_id
          (λ q i t. ground (arith, left q i)) (h.anchored m);
    weighed = h.weighed;
  }

  remove_pid-IsTidy : (t : Routing V) → remove_pid s p ≡ ok t → IsTidy t
  remove_pid-IsTidy t e = elim (Mode-cases s.route_mode) [
    | inl m ↦
        let (out, done, left) = erased s h p m in
        subst IsTidy
          (ok_injective (with_routes s s.static_routes out s.next_id) t
            (sym (static_removal s h p out m done) ∙ e))
          (static-IsTidy out m left)
    | inr m ↦
        let w = (PidMatrix.remove_pid s.weights p).0 in
        subst IsTidy (ok_injective (with_weights s w) t (sym (weights_removal s h p m) ∙ e))
          (with_weights-IsTidy s h w (remove_pid-IsConsistent s.weights p h.weighed))
  ]

-- In every routing that a program can come to without copying one, each node has an identity of its own,
-- each entry from a PID refers, in the static mode, to a node whose route passes it, and the matrix of
-- weights is consistent.
pub Reachable-IsTidy {ℓ} : {V : Type ℓ} (s : Routing V) → Reachable s → IsTidy s
unfolding new_routing IsIdentified
Reachable-IsTidy _ (created w) =
    let k = empty-IsAnchored 0 in
    record {
      identified = k.identified;
      fresh = k.fresh;
      anchored = λ m. k;
      weighed = empty_matrix-IsConsistent;
    }
Reachable-IsTidy _ (route_added {s} value r) =
    add_static_route-IsTidy s (Reachable-IsTidy s r) value
Reachable-IsTidy _ (route_removed {s} value r) =
    remove_static_route-IsTidy s (Reachable-IsTidy s r) value
Reachable-IsTidy _ (routes_cleared {s} r) = clear_static_routes-IsTidy s (Reachable-IsTidy s r)
Reachable-IsTidy _ (mode_set {s} value r) = set_route_mode-IsTidy s (Reachable-IsTidy s r) value
Reachable-IsTidy _ (weight_set {s} p q v r) = set_weight-IsTidy s (Reachable-IsTidy s r) p q v
Reachable-IsTidy _ (pid_added {s} p r) = add_pid-IsTidy s (Reachable-IsTidy s r) p
Reachable-IsTidy t (pid_removed {s} p r e) = remove_pid-IsTidy s (Reachable-IsTidy s r) p t e
