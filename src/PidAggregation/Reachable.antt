-- ===== src/PidAggregation/Reachable.antt =====
-- The aggregations that a program can come to, by the operations on a new one.
use alto.Prelude.{◌≡◌, [], arith, inl, inr, Option-cases, Bool-cases}
use alto.Prelude.Keyed
use alto.Prelude.Keyed.{IsUnique}
use alto.Pid.{Pid}
use alto.PidAggregation.{
  Name, NameSet, Aggregation, same_name, find_pid, find_link, empty_aggregation, do_copy_properties,
  has, has_name, add, remove, replace_vertices, set_vertices, add_vertices, remove_vertices,
  clear_vertices, insert_names, erase_names, with_links, define_link, undefine_link,
}
use alto.PidAggregation.Names.{same_name_iff}
use alto.PidAggregation.Records.{IsOneToOne, insert_record-IsOneToOne, erase_pid-IsOneToOne}
use alto.PidAggregation.Vertices.{replace_vertices-IsOneToOne}
use alto.PidAggregation.Links.{IsNamed, erase_ends-IsNamed, insert_link-IsNamed}

pub data Reachable : Aggregation → Type 0 where
  created : Reachable empty_aggregation
  added :
      {a : Aggregation} (n : Name) (p : Pid) (vs : NameSet)
      → Reachable a
      → Reachable (add a n p vs).0
  removed : {a : Aggregation} (p : Pid) → Reachable a → Reachable (remove a p).0
  vertices_set :
      {a : Aggregation} (p : Pid) (vs : NameSet) → Reachable a → Reachable (set_vertices a p vs).0
  vertices_added :
      {a : Aggregation} (p : Pid) (vs : NameSet) → Reachable a → Reachable (add_vertices a p vs).0
  vertices_removed :
      {a : Aggregation} (p : Pid) (vs : NameSet)
      → Reachable a
      → Reachable (remove_vertices a p vs).0
  vertices_cleared : {a : Aggregation} (p : Pid) → Reachable a → Reachable (clear_vertices a p).0
  link_defined :
      {a : Aggregation} (n : Name) (src dst : Pid)
      → Reachable a
      → Reachable (define_link a n src dst).0
  link_undefined : {a : Aggregation} (n : Name) → Reachable a → Reachable (undefine_link a n).0
  copied : {a : Aggregation} → Reachable a → Reachable (do_copy_properties a)

-- Both containers hold one record for each key of their unique indices.
pub record IsSound (a : Aggregation) : Type 0 where
  pub one_to_one : IsOneToOne a.pid_records
  pub named : IsNamed a.link_records

empty_aggregation-IsSound : IsSound empty_aggregation
unfolding empty_aggregation IsOneToOne IsNamed IsUnique
empty_aggregation-IsSound = record { one_to_one = (tt, tt); named = tt }

copy-IsSound : (a : Aggregation) → IsSound a → IsSound (do_copy_properties a)
unfolding do_copy_properties IsNamed IsUnique
copy-IsSound a h = record { one_to_one = h.one_to_one; named = tt }

add-IsSound :
    (a : Aggregation) (n : Name) (p : Pid) (vs : NameSet) → IsSound a → IsSound (add a n p vs).0
unfolding add
add-IsSound a n p vs h = elim (Bool-cases (has a p)) [
  | inl e ↦ rw (e, add) h
  | inr e ↦ elim (Bool-cases (has_name a n)) [
    | inl f ↦ rw (e, f, add) h
    | inr f ↦
        rw (e, f, add)
          (record {
            one_to_one =
                insert_record-IsOneToOne (record { name = n; pid = p; vertices = vs }) a.pid_records
                  h.one_to_one;
            named = h.named;
          })
  ]
]

remove-IsSound : (a : Aggregation) (p : Pid) → IsSound a → IsSound (remove a p).0
unfolding remove
remove-IsSound a p h = elim (Option-cases (find_pid p a.pid_records)) [
  | inl e ↦ rw (e, remove) h
  | inr (r, e) ↦
      rw (e, remove)
        (record {
          one_to_one = erase_pid-IsOneToOne p a.pid_records h.one_to_one;
          named = erase_ends-IsNamed p a.link_records h.named;
        })
]

links-replace_vertices :
    (a : Aggregation) (p : Pid) (f : NameSet → NameSet)
    → (replace_vertices a p f).0.link_records ≡ a.link_records
unfolding replace_vertices
links-replace_vertices a p f = ground arith

replace_vertices-IsSound :
    (a : Aggregation) (p : Pid) (f : NameSet → NameSet)
    → IsSound a
    → IsSound (replace_vertices a p f).0
replace_vertices-IsSound a p f h = record {
  one_to_one = replace_vertices-IsOneToOne a h.one_to_one p f;
  named = rw (links-replace_vertices a p f) h.named;
}

define_link-IsSound :
    (a : Aggregation) (n : Name) (src dst : Pid) → IsSound a → IsSound (define_link a n src dst).0
unfolding define_link with_links
define_link-IsSound a n src dst h = elim (Option-cases (find_link n a.link_records)) [
  | inr (l, e) ↦ rw (e, define_link) h
  | inl e ↦
      rw (e, define_link)
        (record {
          one_to_one = h.one_to_one;
          named =
              insert_link-IsNamed (record { name = n; src = src; dst = dst }) a.link_records
                h.named;
        })
]

undefine_link-IsSound : (a : Aggregation) (n : Name) → IsSound a → IsSound (undefine_link a n).0
unfolding undefine_link with_links IsNamed
undefine_link-IsSound a n h = elim (Option-cases (find_link n a.link_records)) [
  | inl e ↦ rw (e, undefine_link) h
  | inr (l, e) ↦
      rw (e, undefine_link)
        (record {
          one_to_one = h.one_to_one;
          named =
              Keyed.erase-IsUnique (λ l. l.name) same_name (λ l. l.name) same_name same_name_iff
                same_name_iff n a.link_records h.named;
        })
]

-- In every aggregation that a program can come to, each name and each PID has one record, and
-- each link name one link.
pub Reachable-IsSound : (a : Aggregation) → Reachable a → IsSound a
unfolding set_vertices add_vertices remove_vertices clear_vertices
Reachable-IsSound _ created = empty_aggregation-IsSound
Reachable-IsSound _ (added {a} n p vs r) = add-IsSound a n p vs (Reachable-IsSound a r)
Reachable-IsSound _ (removed {a} p r) = remove-IsSound a p (Reachable-IsSound a r)
Reachable-IsSound _ (vertices_set {a} p vs r) =
    replace_vertices-IsSound a p (λ s. vs) (Reachable-IsSound a r)
Reachable-IsSound _ (vertices_added {a} p vs r) =
    replace_vertices-IsSound a p (insert_names vs) (Reachable-IsSound a r)
Reachable-IsSound _ (vertices_removed {a} p vs r) =
    replace_vertices-IsSound a p (erase_names vs) (Reachable-IsSound a r)
Reachable-IsSound _ (vertices_cleared {a} p r) =
    replace_vertices-IsSound a p (λ s. []) (Reachable-IsSound a r)
Reachable-IsSound _ (link_defined {a} n src dst r) =
    define_link-IsSound a n src dst (Reachable-IsSound a r)
Reachable-IsSound _ (link_undefined {a} n r) = undefine_link-IsSound a n (Reachable-IsSound a r)
Reachable-IsSound _ (copied {a} r) = copy-IsSound a (Reachable-IsSound a r)
