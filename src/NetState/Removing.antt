-- ===== src/NetState/Removing.antt =====
-- The loop of aggregate_node that removes the aggregated vertices.
use alto.Prelude.{
  ℕ, ◌≡◌, refl, ◌==◌, true, false, not, ◌&&◌, ◌||◌, List, [], ◌∷◌, none, some, arith, if◌then◌else◌,
  inl, inr, Option-cases, ==_iff,
}
use alto.Prelude.Keyed
use alto.Prelude.Run.{ok}
use alto.PidAggregation.{Name}
use alto.NetState.{NetState, find_vertex, with_graph, get_node, get_name, remove_vertex}
use alto.NetState.Names.{name_in}
use alto.NetState.Edges.{find_edge-clear_vertex}
use alto.NetState.Reachable.{IsCoherent, has_vertex, has_edge, without, without-IsCoherent}
use alto.NetState.Aggregating.{has_id, remove_all}
use alto.NetState.Merging.{leads_in, leads_out, same_id}

-- A set holds each vertex once.
unfoldable pub IsDistinct : List ℕ → Type 0
IsDistinct [] = Unit
IsDistinct (v ∷ vs) = (has_id vs v ≡ false) × IsDistinct vs

module _ {ℓ} {D : Type ℓ} where
  pub vertex_name :
      (s : NetState D) (v : ℕ)
      → has_vertex s.vertices v ≡ true
      → (n : Name) × (get_name s v ≡ some n)
  unfolding has_vertex get_name
  vertex_name s v h = elim (Option-cases (find_vertex v s.vertices)) [
    | inl e ↦ absurd (ground arith)
    | inr (x, e) ↦ (x.name, ground arith)
  ]

  pub remove_vertex_of :
      (s : NetState D) (h : IsCoherent s) (v : ℕ) (n : Name)
      → get_name s v ≡ some n
      → remove_vertex s v ≡ ok (without s h v n)
  unfolding remove_vertex without
  remove_vertex_of s h v n e = simp (e, remove_vertex)

  pub edge_left :
      (s : NetState D) (h : IsCoherent s) (v : ℕ) (n : Name) (c d : ℕ)
      → has_edge (without s h v n).edges c d
        ≡ (has_edge s.edges c d && (not (v == c) && not (v == d)))
  unfolding without with_graph has_edge
  edge_left s h v n c d = ground (arith, find_edge-clear_vertex s.edges v c d)

  pub vertex_left :
      (s : NetState D) (h : IsCoherent s) (v : ℕ) (n : Name) (u : ℕ)
      → (has_vertex (without s h v n).vertices u ≡ (has_vertex s.vertices u && not (v == u)))
        × (get_name (without s h v n) u ≡ (if v == u then none else get_name s u))
  unfolding without with_graph has_vertex get_name
  vertex_left s h v n u = (
    ground (arith, Keyed.find-erase (λ v. v.id) ◌==◌ ==_iff v u s.vertices h.names.unique),
    ground (arith, Keyed.find-erase (λ v. v.id) ◌==◌ ==_iff v u s.vertices h.names.unique),
  )

  pub name_node :
      (s : NetState D) (h : IsCoherent s) (v : ℕ) (n : Name)
      → get_name s v ≡ some n
      → get_node s n ≡ some v
  unfolding get_name get_node name_in
  name_node s h v n e = (h.names.named n v).1 e

  pub remove_all_lem :
      (vs : List ℕ) (s : NetState D)
      → IsCoherent s
      → IsDistinct vs
      → ((w : ℕ) → has_id vs w ≡ true → has_vertex s.vertices w ≡ true)
      → (t : NetState D) × (remove_all vs s ≡ ok t)
        × IsCoherent t
        × ((c d : ℕ)
            → has_edge t.edges c d
              ≡ (has_edge s.edges c d && (not (has_id vs c) && not (has_id vs d))))
        × ((u : ℕ) → get_name t u ≡ (if has_id vs u then none else get_name s u))
  unfolding remove_all IsDistinct has_id
  remove_all_lem [] s h dist live = (s, refl, h, λ c d. ground arith, λ u. refl)
  remove_all_lem (v ∷ vs) s h dist live =
      let (n, named) = vertex_name s v (live v (ground arith)) in
      let s' = without s h v n in
      let (t, done, coherent, edges, names) =
        remove_all_lem vs s' (without-IsCoherent s h n v (name_node s h v n named)) dist.1
          (λ w m. ground (arith, live w, (vertex_left s h v n w).0, dist.0, same_id vs v w)) in
      (
        t,
        simp (remove_all, remove_vertex_of s h v n named, done),
        coherent,
        λ c d. ground (arith, edges c d, edge_left s h v n c d),
        λ u. ground (arith, names u, (vertex_left s h v n u).1),
      )

  pub leads_known :
      (s : NetState D) (vs : List ℕ) (c : ℕ)
      → ((a b : ℕ)
          → has_edge s.edges a b ≡ true
          → (has_vertex s.vertices a && has_vertex s.vertices b) ≡ true)
      → ((leads_in vs s.edges c || leads_out vs s.edges c) ≡ true → has_vertex s.vertices c ≡ true)
  unfolding leads_in leads_out
  leads_known s [] c h e = cc
  leads_known s (v ∷ vs) c h e = ground (arith, leads_known s vs c h, h c v, h v c)
