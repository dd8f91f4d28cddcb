-- ===== src/NetState/Merging.antt =====
-- The edges after aggregate_node has copied those of the vertices.
use alto.Prelude.{
  ℕ, ◌≡◌, refl, ◌==◌, Bool, true, false, not, ◌&&◌, ◌||◌, List, [], ◌∷◌, arith, inl, inr,
  Option-cases, ==_iff, ap,
}
use alto.NetState.{NetEdge, joins, find_edge}
use alto.NetState.Edges.{find-edge-append}
use alto.NetState.Reachable.{has_edge}
use alto.NetState.Aggregating.{has_id, add_to_edge, merge_edge, copy_in, copy_out, copy_edges}

-- Is there an edge from one vertex to one of several, or from one of several to one?
unfoldable pub leads_in {ℓ} : {D : Type ℓ} → List ℕ → List (NetEdge D) → ℕ → Bool
leads_in [] es c = false
leads_in (v ∷ vs) es c = has_edge es c v || leads_in vs es c

unfoldable pub leads_out {ℓ} : {D : Type ℓ} → List ℕ → List (NetEdge D) → ℕ → Bool
leads_out [] es d = false
leads_out (v ∷ vs) es d = has_edge es v d || leads_out vs es d

has_none {ℓ} : (D : Type ℓ) (c d : ℕ) → has_edge {D = D} [] c d ≡ false
unfolding has_edge find_edge
has_none D c d = refl

module _ {ℓ} {D : Type ℓ} where
  has_cons :
      (e : NetEdge D) (es : List (NetEdge D)) (c d : ℕ)
      → has_edge (e ∷ es) c d ≡ ((e.src == c && e.dst == d) || has_edge es c d)
  unfolding has_edge find_edge joins
  has_cons e es c d = ground arith

pub same_id : (vs : List ℕ) (a b : ℕ) → (a == b) ≡ true → has_id vs a ≡ has_id vs b
same_id vs a b h = ap (has_id vs) ((==_iff a b).0 h)

module _ {ℓ} {D : Type ℓ} (add : D → D → D) where
  has-add_to_edge :
      (a b c d : ℕ) (e : NetEdge D) (es : List (NetEdge D))
      → has_edge (add_to_edge add a b e es) c d ≡ has_edge es c d
  unfolding has_edge find_edge add_to_edge joins
  has-add_to_edge a b c d e [] = refl
  has-add_to_edge a b c d e (x ∷ es) = ground (arith, has-add_to_edge a b c d e es)

  has-merge_edge :
      (a b c d : ℕ) (e : NetEdge D) (es : List (NetEdge D))
      → has_edge (merge_edge add a b e es) c d ≡ ((a == c && b == d) || has_edge es c d)
  unfolding merge_edge has_edge joins
  has-merge_edge a b c d e es = elim (Option-cases (find_edge a b es)) [
    | inl f ↦ ground (
      arith,
      find-edge-append es
          (record { src = a; dst = b; name = []; traffic = e.traffic; capacity = e.capacity }) c d,
    )
    | inr (x, f) ↦ ground (arith, has-add_to_edge a b c d e es)
  ]

  -- Every edge into v from another vertex has its copy.
  has-copy_in :
      (vertices : List ℕ) (result v c d : ℕ) (ins es : List (NetEdge D))
      → has_edge (copy_in add vertices result v ins es) c d
        ≡ (has_edge es c d || (result == d && (not (has_id vertices c) && has_edge ins c v)))
  unfolding copy_in
  has-copy_in vertices result v c d [] es = rw (has_none D c v) (ground arith)
  has-copy_in vertices result v c d (e ∷ ins) es = ground (
    arith,
    has-copy_in vertices result v c d ins es,
    has-copy_in vertices result v c d ins (merge_edge add e.src result e es),
    has-merge_edge e.src result c d e es,
    has_cons e ins c v,
    same_id vertices e.src c,
  )

  -- Every edge from v to another vertex has its copy.
  has-copy_out :
      (vertices : List ℕ) (result v c d : ℕ) (outs es : List (NetEdge D))
      → has_edge (copy_out add vertices result v outs es) c d
        ≡ (has_edge es c d || (result == c && (not (has_id vertices d) && has_edge outs v d)))
  unfolding copy_out
  has-copy_out vertices result v c d [] es = rw (has_none D v d) (ground arith)
  has-copy_out vertices result v c d (e ∷ outs) es = ground (
    arith,
    has-copy_out vertices result v c d outs es,
    has-copy_out vertices result v c d outs (merge_edge add result e.dst e es),
    has-merge_edge result e.dst c d e es,
    has_cons e outs v d,
    same_id vertices e.dst d,
  )

  leads_in_same :
      (vs : List ℕ) (es fs : List (NetEdge D)) (c : ℕ)
      → ((w : ℕ) → has_id vs w ≡ true → has_edge fs c w ≡ has_edge es c w)
      → leads_in vs fs c ≡ leads_in vs es c
  unfolding leads_in has_id
  leads_in_same [] es fs c h = refl
  leads_in_same (v ∷ vs) es fs c h =
      ground (arith, h v, leads_in_same vs es fs c (λ w m. h w (ground arith)))

  leads_out_same :
      (vs : List ℕ) (es fs : List (NetEdge D)) (d : ℕ)
      → ((w : ℕ) → has_id vs w ≡ true → has_edge fs w d ≡ has_edge es w d)
      → leads_out vs fs d ≡ leads_out vs es d
  unfolding leads_out has_id
  leads_out_same [] es fs d h = refl
  leads_out_same (v ∷ vs) es fs d h =
      ground (arith, h v, leads_out_same vs es fs d (λ w m. h w (ground arith)))

  -- After the vertices' edges are copied, an edge is there that was there, or one to or from the
  -- new vertex where one led to or from an aggregated vertex at the other side.
  pub has-copy_edges :
      (vertices : List ℕ) (result : ℕ) (vs : List ℕ) (es : List (NetEdge D)) (c d : ℕ)
      → has_id vertices result ≡ false
      → ((w : ℕ) → has_id vs w ≡ true → has_id vertices w ≡ true)
      → has_edge (copy_edges add vertices result vs es) c d ≡ (
          has_edge es c d
          || ((result == d && (not (has_id vertices c) && leads_in vs es c))
              || (result == c && (not (has_id vertices d) && leads_out vs es d))))
  unfolding copy_edges leads_in leads_out has_id
  has-copy_edges vertices result [] es c d new sub = ground arith
  has-copy_edges vertices result (v ∷ vs) es c d new sub =
      let ins = copy_in add vertices result v es es in
      let outs = copy_out add vertices result v ins ins in
      let member : has_id vertices v ≡ true = sub v (ground arith) in
      ground (
        arith,
        has-copy_edges vertices result vs outs c d new (λ w m. sub w (ground arith)),
        has-copy_out vertices result v c d ins ins,
        has-copy_in vertices result v c d es es,
        has-copy_in vertices result v v d es es,
        member,
        leads_in_same vs es outs c (λ w m. ground (
          arith,
          sub w,
          has-copy_out vertices result v c w ins ins,
          has-copy_in vertices result v c w es es,
          same_id vertices result w,
        )),
        leads_out_same vs es outs d (λ w m. ground (
          arith,
          sub w,
          has-copy_out vertices result v w d ins ins,
          has-copy_in vertices result v w d es es,
          same_id vertices result w,
        )),
      )
