-- ===== src/PidRouting/Pointers.antt =====
-- The entries from PIDs to the routes that pass them, through every update of the multimap.
use alto.Prelude.{
  ℕ, suc, ◌≤◌, ◌≡◌, refl, ap, ◌==◌, Bool, true, false, not, ◌&&◌, ◌||◌, List, [], ◌∷◌, ◌++◌, none,
  some, arith, inl, inr, Bool-cases, ==_iff,
}
use alto.Prelude.Keyed
use alto.Prelude.Run.{ok}
use alto.Pid.{Pid}
use alto.Pid.Sets
use alto.Pid.Sets.{same_iff, same_refl}
use alto.PidRouting.Nodes.{
  NamedRoute, RouteNode, find_node, erase_node, insert_ptrs, erase_ptr, erase_ptrs, has_id,
  append_ptrs, erase_all_ptrs,
}
use alto.PidRouting.Routes.{IsIdentified}

-- Is there an entry from the PID to the route?
unfoldable pub has_ptr : List (Pid × ℕ) → Pid → ℕ → Bool
has_ptr [] p i = false
has_ptr ((q, j) ∷ ptrs) p i = (Sets.same q p && j == i) || has_ptr ptrs p i

-- Is there a node with that identity, and a route through the PID?
unfoldable pub passes : List RouteNode → ℕ → Pid → Bool
passes rs i p = elim (find_node i rs) [ none ↦ false | some r ↦ Sets.has r.route p ]

has_ptr-append :
    (ptrs : List (Pid × ℕ)) (q p : Pid) (j i : ℕ)
    → has_ptr (ptrs ++ (q, j) ∷ []) p i ≡ ((Sets.same q p && j == i) || has_ptr ptrs p i)
unfolding has_ptr
has_ptr-append [] q p j i = refl
has_ptr-append ((x, k) ∷ ptrs) q p j i = ground (arith, has_ptr-append ptrs q p j i)

pub has_ptr-insert_ptrs :
    (ps : List Pid) (j : ℕ) (ptrs : List (Pid × ℕ)) (p : Pid) (i : ℕ)
    → has_ptr (insert_ptrs ps j ptrs) p i ≡ ((Sets.has ps p && j == i) || has_ptr ptrs p i)
unfolding insert_ptrs Sets.has
has_ptr-insert_ptrs [] j ptrs p i = refl
has_ptr-insert_ptrs (q ∷ ps) j ptrs p i =
    ground (arith, has_ptr-insert_ptrs ps j (ptrs ++ (q, j) ∷ []) p i, has_ptr-append ptrs q p j i)

has_ptr-erase_ptr :
    (q : Pid) (j : ℕ) (ptrs : List (Pid × ℕ)) (p : Pid) (i : ℕ)
    → has_ptr (erase_ptr q j ptrs) p i ≡ (not (Sets.same q p && j == i) && has_ptr ptrs p i)
unfolding has_ptr erase_ptr
has_ptr-erase_ptr q j [] p i = ground arith
has_ptr-erase_ptr q j ((x, k) ∷ ptrs) p i = ground (
  arith,
  has_ptr-erase_ptr q j ptrs p i,
  (same_iff x q).0,
  (same_iff q p).0,
  (same_iff q p).1,
  (same_iff x p).0,
  (same_iff x q).1,
)

pub has_ptr-erase_ptrs :
    (ps : List Pid) (j : ℕ) (ptrs : List (Pid × ℕ)) (p : Pid) (i : ℕ)
    → has_ptr (erase_ptrs ps j ptrs) p i ≡ (not (Sets.has ps p && j == i) && has_ptr ptrs p i)
unfolding erase_ptrs Sets.has
has_ptr-erase_ptrs [] j ptrs p i = refl
has_ptr-erase_ptrs (q ∷ ps) j ptrs p i =
    ground (arith, has_ptr-erase_ptrs ps j (erase_ptr q j ptrs) p i, has_ptr-erase_ptr q j ptrs p i)

pub has_id-append_ptrs :
    (p : Pid) (ptrs : List (Pid × ℕ)) (ids : List ℕ) (i : ℕ)
    → has_id (append_ptrs p ptrs ids) i ≡ (has_id ids i || has_ptr ptrs p i)
unfolding has_id append_ptrs has_ptr
has_id-append_ptrs p [] ids i = ground arith
has_id-append_ptrs p ((q, j) ∷ ptrs) ids i =
    ground (arith, has_id-append_ptrs p ptrs ids i, has_id-append_ptrs p ptrs (j ∷ ids) i)

one_more :
    (j : ℕ) (ids : List ℕ) (rs : List RouteNode) (ptrs out : List (Pid × ℕ)) (r : RouteNode)
    (p : Pid) (i : ℕ)
    → find_node j rs ≡ some r
    → has_ptr out p i
      ≡ (not (has_id ids i && passes rs i p) && has_ptr (erase_ptrs r.route j ptrs) p i)
    → has_ptr out p i ≡ (not (has_id (j ∷ ids) i && passes rs i p) && has_ptr ptrs p i)
unfolding has_id passes
one_more j ids rs ptrs out r p i found left = elim (Bool-cases (j == i)) [
  | inr e ↦ ground (arith, has_ptr-erase_ptrs r.route j ptrs p i)
  | inl e ↦
      ground
        (arith, has_ptr-erase_ptrs r.route j ptrs p i, ap (λ k. find_node k rs) ((==_iff j i).0 e))
]

-- With a node for each iterator, the entries of its route that refer to it are gone, and no others.
pub erase_all_ptrs_lem :
    (ids : List ℕ) (rs : List RouteNode) (ptrs : List (Pid × ℕ))
    → ((i : ℕ) → has_id ids i ≡ true → (r : RouteNode) × (find_node i rs ≡ some r))
    → (out : List (Pid × ℕ)) × (erase_all_ptrs ids rs ptrs ≡ ok out)
      × ((p : Pid) (i : ℕ)
          → has_ptr out p i ≡ (not (has_id ids i && passes rs i p) && has_ptr ptrs p i))
unfolding erase_all_ptrs has_id
erase_all_ptrs_lem [] rs ptrs h = (ptrs, refl, λ p i. refl)
erase_all_ptrs_lem (j ∷ ids) rs ptrs h =
    let (r, found) = h j (ground arith) in
    let (out, done, left) =
      erase_all_ptrs_lem ids rs (erase_ptrs r.route j ptrs) (λ i m. h i (ground arith)) in
    (out, rw (found, erase_all_ptrs) done, λ p i. one_more j ids rs ptrs out r p i found (left p i))

-- Nodes are told apart, none has the identity of the next one, and each entry from a PID refers to a
-- node whose route passes it.
pub record IsAnchored (rs : List RouteNode) (ptrs : List (Pid × ℕ)) (next : ℕ) : Type 0 where
  pub identified : IsIdentified rs
  pub fresh : (i : ℕ) → next ≤ i → find_node i rs ≡ none
  pub anchored : (p : Pid) (i : ℕ) → has_ptr ptrs p i ≡ true → passes rs i p ≡ true

pub insert-IsAnchored :
    (rs : List RouteNode) (ptrs : List (Pid × ℕ)) (next : ℕ) (src dst : Pid) (value : NamedRoute)
    → IsAnchored rs ptrs next
    → IsAnchored
        (rs ++ record { id = next; src = src; dst = dst; route = value } ∷ [])
        (insert_ptrs value next ptrs)
        (suc next)
unfolding passes IsIdentified
insert-IsAnchored rs ptrs next src dst value h =
    let n : RouteNode = record { id = next; src = src; dst = dst; route = value } in
    record {
      identified =
          Keyed.append-IsUnique (λ r. r.id) ◌==◌ ==_iff rs n h.identified
            (h.fresh next (omega arith));
      fresh = λ i le.
          ground (arith, Keyed.find-append (λ r. r.id) ◌==◌ i rs n, h.fresh i (omega arith));
      anchored = λ p i m. ground (
        arith,
        Keyed.find-append (λ r. r.id) ◌==◌ i rs n,
        has_ptr-insert_ptrs value next ptrs p i,
        h.anchored p i,
        h.fresh i,
      );
    }

pub erase-IsAnchored :
    (rs : List RouteNode) (ptrs : List (Pid × ℕ)) (next : ℕ) (r : RouteNode)
    → find_node r.id rs ≡ some r
    → IsAnchored rs ptrs next
    → IsAnchored (erase_node r.id rs) (erase_ptrs r.route r.id ptrs) next
unfolding passes IsIdentified
erase-IsAnchored rs ptrs next r found h = record {
  identified =
      Keyed.erase-IsUnique (λ r. r.id) ◌==◌ (λ r. r.id) ◌==◌ ==_iff ==_iff r.id rs h.identified;
  fresh = λ i le.
      ground (arith, Keyed.find-erase (λ r. r.id) ◌==◌ ==_iff r.id i rs h.identified, h.fresh i le);
  anchored = λ p i m. elim (Bool-cases (r.id == i)) [
    | inr e ↦ ground (
      arith,
      Keyed.find-erase (λ r. r.id) ◌==◌ ==_iff r.id i rs h.identified,
      has_ptr-erase_ptrs r.route r.id ptrs p i,
      h.anchored p i,
    )
    | inl e ↦ ground (
      arith,
      has_ptr-erase_ptrs r.route r.id ptrs p i,
      h.anchored p i,
      ap (λ k. find_node k rs) ((==_iff r.id i).0 e),
    )
  ];
}

pub fewer-IsAnchored :
    (rs : List RouteNode) (ptrs out : List (Pid × ℕ)) (next : ℕ)
    → ((p : Pid) (i : ℕ) → has_ptr out p i ≡ true → has_ptr ptrs p i ≡ true)
    → IsAnchored rs ptrs next
    → IsAnchored rs out next
fewer-IsAnchored rs ptrs out next w h = record {
  identified = h.identified;
  fresh = h.fresh;
  anchored = λ p i m. h.anchored p i (w p i m);
}

pub empty-IsAnchored : (next : ℕ) → IsAnchored [] [] next
unfolding has_ptr IsIdentified Keyed.IsUnique Keyed.find
empty-IsAnchored next = record { identified = tt; fresh = λ i h. refl; anchored = λ p i m. cc }
