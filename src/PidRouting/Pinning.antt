-- ===== src/PidRouting/Pinning.antt =====
-- The static routes with their hops looked up in the set of PIDs, as the inner loop of
-- get_routes_static does: what a pinned route is, told without the loop.
use alto.Prelude.{
  ℕ, zero, suc, ◌≡◌, ◌≢◌, refl, ◌∙◌, sym, ap, true, false, List, [], ◌∷◌, map, none, some,
  get_elem?, arith, inl, inr, Option-cases, Bool-cases,
}
use alto.Pid
use alto.Pid.{Pid}
use alto.Pid.Order.{eq_iff}
use alto.PidRouting.Nodes.{NamedRoute}
use alto.PidRouting.Computing.{PinnedPid, PinnedRoute, same_pinned, find_pinned, pin_route}
use alto.PidRouting.Traces.{has_pinned}

-- The PID is one of the set.
abbrev pub IsAmong : List PinnedPid → PinnedPid → Type 0
IsAmong pids p = (i : ℕ) × (get_elem? pids i ≡ some p)

-- No PID of the set is this one.
abbrev pub IsMissing : List PinnedPid → Pid → Type 0
IsMissing pids hop = (i : ℕ) (p : PinnedPid) → get_elem? pids i ≡ some p → p.pid ≢ hop

-- A route hop by hop, by elements of the set.
pub record IsPinned (pids : List PinnedPid) (route : NamedRoute) (r : PinnedRoute) : Type 0 where
  pub hops : map (λ p. p.pid) r ≡ route
  pub among : (k : ℕ) (p : PinnedPid) → get_elem? r k ≡ some p → IsAmong pids p

-- Some hop of the route is not in the set.
abbrev pub HasStranger : List PinnedPid → NamedRoute → Type 0
HasStranger pids route = (k : ℕ) × (hop : Pid) × (get_elem? route k ≡ some hop) × IsMissing pids hop

found_pinned :
    (hop : Pid) (pids : List PinnedPid) (p : PinnedPid)
    → find_pinned hop pids ≡ some p
    → IsAmong pids p × (p.pid ≡ hop)
unfolding find_pinned
found_pinned hop [] p e = absurd (ground (arith, e))
found_pinned hop (x ∷ xs) p e = elim (Bool-cases (Pid.eq x.pid hop)) [
  | inl here ↦
      let same : x ≡ p = ground (arith, here, e) in
      ((0, ap some same), ap (λ (y : PinnedPid). y.pid) (sym same) ∙ (eq_iff x.pid hop).0 here)
  | inr other ↦
      let ((i, at_i), is_hop) = found_pinned hop xs p (ground (arith, other, e)) in
      ((suc i, at_i), is_hop)
]

not_found_pinned :
    (hop : Pid) (pids : List PinnedPid) → find_pinned hop pids ≡ none → IsMissing pids hop
unfolding find_pinned
not_found_pinned hop [] e i p at_i same = absurd (ground (arith, at_i))
not_found_pinned hop (x ∷ xs) e zero p at_i same =
    ground (arith, at_i, e, same, (eq_iff x.pid hop).1)
not_found_pinned hop (x ∷ xs) e (suc i) p at_i same =
    not_found_pinned hop xs (ground (arith, e)) i p at_i same

pub pin_route_found :
    (pids : List PinnedPid) (route : NamedRoute) (r : PinnedRoute)
    → pin_route pids route ≡ some r
    → IsPinned pids route r
unfolding pin_route
pin_route_found pids [] [] e = record { hops = refl; among = λ k p at_k. cc }
pin_route_found pids [] (p ∷ r) e = absurd (ground (arith, e))
pin_route_found pids (hop ∷ hops) r e = elim (Option-cases (find_pinned hop pids)) [
  | inl none_here ↦ absurd (ground (arith, none_here, e))
  | inr (p, found) ↦ elim (Option-cases (pin_route pids hops)) [
    | inl none_later ↦ absurd (ground (arith, found, none_later, e))
    | inr (ps, later) ↦
        rw (← first p ps found later)
          (step p ps (found_pinned hop pids p found) (pin_route_found pids hops ps later))
  ]
]
  where
    first :
        (p : PinnedPid) (ps : PinnedRoute)
        → find_pinned hop pids ≡ some p
        → pin_route pids hops ≡ some ps
        → (p ∷ ps) ≡ r
    first p ps found later = ground (arith, found, later, e)

    step :
        (p : PinnedPid) (ps : PinnedRoute)
        → IsAmong pids p × (p.pid ≡ hop)
        → IsPinned pids hops ps
        → IsPinned pids (hop ∷ hops) (p ∷ ps)
    step p ps (at_p, is_hop) rest = record {
      hops = rw (is_hop, rest.hops) refl;
      among = among_step p ps at_p rest.among;
    }
      where
        among_step :
            (p : PinnedPid) (ps : PinnedRoute)
            → IsAmong pids p
            → ((k : ℕ) (q : PinnedPid) → get_elem? ps k ≡ some q → IsAmong pids q)
            → (k : ℕ) (q : PinnedPid) → get_elem? (p ∷ ps) k ≡ some q
            → IsAmong pids q
        among_step p ps (i, at_i) later zero q e = (i, at_i ∙ e)
        among_step p ps at_p later (suc k) q e = later k q e

pub pin_route_failed :
    (pids : List PinnedPid) (route : NamedRoute)
    → pin_route pids route ≡ none
    → HasStranger pids route
unfolding pin_route
pin_route_failed pids [] e = absurd (ground (arith, e))
pin_route_failed pids (hop ∷ hops) e = elim (Option-cases (find_pinned hop pids)) [
  | inl gone ↦ (0, hop, refl, not_found_pinned hop pids gone)
  | inr (p, found) ↦
      let (k, stranger, at_k, missing) =
        pin_route_failed pids hops (elim (Option-cases (pin_route pids hops)) [
          | inl e' ↦ e'
          | inr (ps, later) ↦ absurd (ground (arith, found, later, e))
        ]) in
      (suc k, stranger, at_k, missing)
]

pub among-has_pinned :
    (pids : List PinnedPid) (q : PinnedPid) (i : ℕ)
    → get_elem? pids i ≡ some q
    → has_pinned pids q ≡ true
unfolding has_pinned same_pinned
among-has_pinned [] q i e = absurd (ground (arith, e))
among-has_pinned (x ∷ xs) q zero e =
    let same : x ≡ q = ground (arith, e) in
    ground (arith, (eq_iff x.pid q.pid).1 (ap (λ (p : PinnedPid). p.pid) same))
among-has_pinned (x ∷ xs) q (suc i) e = ground (arith, among-has_pinned xs q i e)

pub missing-has_pinned :
    (pids : List PinnedPid) (q : PinnedPid) → IsMissing pids q.pid → has_pinned pids q ≡ false
unfolding has_pinned same_pinned
missing-has_pinned [] q h = refl
missing-has_pinned (x ∷ xs) q h =
    let other : x.pid ≢ q.pid = h 0 x refl in
    ground (arith, other, (eq_iff x.pid q.pid).0, missing-has_pinned xs q (λ i p e. h (suc i) p e))
