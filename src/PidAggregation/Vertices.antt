-- ===== src/PidAggregation/Vertices.antt =====
-- set_vertices, add_vertices, remove_vertices and clear_vertices: what a PID gathers afterwards, while
-- names, PIDs and links stay.
use alto.Prelude.{
  ◌≡◌, refl, Bool, true, false, not, ◌&&◌, ◌||◌, List, [], arith, if◌then◌else◌, none, some, inl,
  inr, Option-cases,
}
use alto.Prelude.Keyed
use alto.Pid.{Pid, eq}
use alto.Pid.Order.{eq_iff}
use alto.Pid.Sets
use alto.Pid.Sets.{same_iff}
use alto.PidAggregation.{
  Name, NameSet, PidRecord, Aggregation, same_name, find_name, find_pid, erase_pid, insert_record,
  has, lookup, reverse_lookup, get_vertices, replace_vertices, set_vertices, add_vertices,
  remove_vertices, clear_vertices, insert_names, erase_names,
}
use alto.PidAggregation.Names.{same_name_iff, has_vertex, has-insert_names, has-erase_names}
use alto.PidAggregation.Records.{
  IsOneToOne, find_pid-insert_record, find_name-insert_record, insert_record-IsOneToOne,
  erase_pid-IsOneToOne, found_both,
}

-- Does a PID gather a vertex?
unfoldable pub gathers : Aggregation → Pid → Name → Bool
gathers a p w = elim (get_vertices a p) [ none ↦ false | some vs ↦ has_vertex vs w ]

-- A record with other vertices.
abbrev changed_to : PidRecord → (NameSet → NameSet) → PidRecord
changed_to r f = record { name = r.name; pid = r.pid; vertices = f r.vertices }

-- The records after one is taken out and put in with other vertices.
replaced : PidRecord → (NameSet → NameSet) → Pid → List PidRecord → List PidRecord
replaced r f p rs = insert_record (changed_to r f) (erase_pid p rs)

module _ (rs : List PidRecord) (u : IsOneToOne rs) (p : Pid) (r : PidRecord)
    (found : find_pid p rs ≡ some r) (f : NameSet → NameSet) where
  gone : (find_name r.name (erase_pid p rs) ≡ none) × (find_pid r.pid (erase_pid p rs) ≡ none)
  unfolding IsOneToOne
  gone = (
    ground (
      arith,
      Keyed.find-erase-other (λ r. r.name) same_name (λ r. r.pid) Sets.same same_name_iff same_iff p
          r.name rs u.0 u.1,
      Keyed.find_key (λ r. r.pid) Sets.same same_iff p rs r found,
      (found_both rs r u).1,
      (same_iff r.pid p).1,
    ),
    ground (
      arith,
      Keyed.find-erase (λ r. r.pid) Sets.same same_iff p r.pid rs u.1,
      Keyed.find_key (λ r. r.pid) Sets.same same_iff p rs r found,
      (same_iff p r.pid).1,
    ),
  )

  find_pid-replaced :
      (q : Pid)
      → find_pid q (replaced r f p rs)
        ≡ (if Sets.same p q then some (changed_to r f) else find_pid q rs)
  unfolding replaced IsOneToOne
  find_pid-replaced q = ground (
    arith,
    find_pid-insert_record (changed_to r f) (erase_pid p rs) q gone.0 gone.1,
    Keyed.find-erase (λ r. r.pid) Sets.same same_iff p q rs u.1,
    Keyed.find_key (λ r. r.pid) Sets.same same_iff p rs r found,
  )

  find_name-replaced :
      (n : Name)
      → find_name n (replaced r f p rs) ≡ elim (find_name n rs) [
        | none ↦ none
        | some x ↦ (if Sets.same x.pid p then some (changed_to r f) else some x)
      ]
  unfolding replaced IsOneToOne
  find_name-replaced n = elim (Option-cases (find_name n rs)) [
    | inl e ↦ ground (
      arith,
      find_name-insert_record (changed_to r f) (erase_pid p rs) n gone.0 gone.1,
      Keyed.find-erase-other (λ r. r.name) same_name (λ r. r.pid) Sets.same same_name_iff same_iff p
          n rs u.0 u.1,
      Keyed.find_key (λ r. r.pid) Sets.same same_iff p rs r found,
      (found_both rs r u).1,
      (same_name_iff r.name n).0,
    )
    | inr (x, e) ↦ ground (
      arith,
      find_name-insert_record (changed_to r f) (erase_pid p rs) n gone.0 gone.1,
      Keyed.find-erase-other (λ r. r.name) same_name (λ r. r.pid) Sets.same same_name_iff same_iff p
          n rs u.0 u.1,
      Keyed.find_key (λ r. r.pid) Sets.same same_iff p rs r found,
      Keyed.find_key (λ r. r.name) same_name same_name_iff n rs x e,
      (found_both rs r u).1,
      (found_both rs x u).0,
      (same_name_iff r.name n).0,
      (same_name_iff r.name n).1,
      (same_iff x.pid p).0,
      (same_iff x.pid p).1,
    )
  ]

module _ (a : Aggregation) (u : IsOneToOne a.pid_records) where
  get-replace_vertices :
      (p q : Pid) (f : NameSet → NameSet)
      → get_vertices (replace_vertices a p f).0 q ≡ elim (get_vertices a q) [
        | none ↦ none
        | some vs ↦ some (if Sets.same p q then f vs else vs)
      ]
  unfolding get_vertices replace_vertices replaced
  get-replace_vertices p q f = elim (Option-cases (find_pid p a.pid_records)) [
    | inl e ↦ ground (arith, (same_iff p q).0)
    | inr (r, e) ↦ ground (arith, find_pid-replaced a.pid_records u p r e f q, (same_iff p q).0)
  ]

  pub replace_vertices-IsOneToOne :
      (p : Pid) (f : NameSet → NameSet) → IsOneToOne (replace_vertices a p f).0.pid_records
  unfolding replace_vertices
  replace_vertices-IsOneToOne p f = elim (Option-cases (find_pid p a.pid_records)) [
    | inl e ↦ rw (e, replace_vertices) u
    | inr (r, e) ↦
        rw (e, replace_vertices)
          (insert_record-IsOneToOne (changed_to r f) (erase_pid p a.pid_records)
            (erase_pid-IsOneToOne p a.pid_records u))
  ]

  -- Replacing the vertices of a PID keeps its name, as it keeps those of all others.
  names-replace_vertices :
      (p q : Pid) (n : Name) (f : NameSet → NameSet)
      → (reverse_lookup (replace_vertices a p f).0 q ≡ reverse_lookup a q)
        × (lookup (replace_vertices a p f).0 n ≡ lookup a n)
        × ((replace_vertices a p f).1 ≡ has a p)
  unfolding reverse_lookup lookup has replace_vertices replaced
  names-replace_vertices p q n f = elim (Option-cases (find_pid p a.pid_records)) [
    | inl e ↦ rw (e, replace_vertices) (refl, refl, ground arith)
    | inr (r, e) ↦ (
      ground (arith, find_pid-replaced a.pid_records u p r e f q, (same_iff p q).0),
      elim (Option-cases (find_name n a.pid_records)) [
        | inl h ↦ ground (arith, find_name-replaced a.pid_records u p r e f n)
        | inr (x, h) ↦ ground (
          arith,
          find_name-replaced a.pid_records u p r e f n,
          Keyed.find_key (λ r. r.pid) Sets.same same_iff p a.pid_records r e,
          (same_iff x.pid p).0,
        )
      ],
      ground arith,
    )
  ]

  has_gathers : (p : Pid) → elim (get_vertices a p) [ none ↦ false | some _ ↦ true ] ≡ has a p
  unfolding get_vertices has
  has_gathers p = ground arith

  same_eq : (p q : Pid) → Sets.same p q ≡ eq p q
  same_eq p q = ground (arith, (same_iff p q).0, (same_iff p q).1, (eq_iff p q).0, (eq_iff p q).1)

  -- What holds of a vertex in each set that f makes holds after the replacement.
  gathers-replace_vertices :
      (p q : Pid) (w : Name) (f : NameSet → NameSet) (g : Bool → Bool)
      → ((s : NameSet) → has_vertex (f s) w ≡ g (has_vertex s w))
      → gathers (replace_vertices a p f).0 q w
        ≡ (if eq p q && has a p then g (gathers a q w) else gathers a q w)
  unfolding gathers
  gathers-replace_vertices p q w f g h = elim (Option-cases (get_vertices a q)) [
    | inl e ↦ ground (arith, get-replace_vertices p q f, same_eq p q, has_gathers p, (eq_iff p q).0)
    | inr (old, e) ↦
        ground
          (arith, get-replace_vertices p q f, same_eq p q, has_gathers p, (eq_iff p q).0, h old)
  ]

  -- In an aggregation with one record for each name and each PID, set_vertices on a known PID lets it
  -- gather just the given vertices, add_vertices those as well, remove_vertices those no longer and
  -- clear_vertices none; the other PIDs gather what they did, and so do all on an unknown PID.
  pub gathers_lem :
      (p q : Pid) (vs : NameSet) (w : Name)
      → (gathers (set_vertices a p vs).0 q w
          ≡ (if eq p q && has a p then has_vertex vs w else gathers a q w))
        × (gathers (add_vertices a p vs).0 q w
            ≡ (if eq p q && has a p then has_vertex vs w || gathers a q w else gathers a q w))
        × (gathers (remove_vertices a p vs).0 q w
            ≡ (if eq p q && has a p then not (has_vertex vs w) && gathers a q w else gathers a q w))
        × (gathers (clear_vertices a p).0 q w
            ≡ (if eq p q && has a p then false else gathers a q w))
  unfolding set_vertices add_vertices remove_vertices clear_vertices has_vertex
  gathers_lem p q vs w = (
    gathers-replace_vertices p q w (λ s. vs) (λ b. has_vertex vs w) (λ s. refl),
    gathers-replace_vertices p q w (insert_names vs) (λ b. has_vertex vs w || b)
        (λ s. has-insert_names vs s w),
    gathers-replace_vertices p q w (erase_names vs) (λ b. not (has_vertex vs w) && b)
        (λ s. has-erase_names vs s w),
    gathers-replace_vertices p q w (λ s. []) (λ b. false) (λ s. refl),
  )
