-- ===== src/PidAggregation/Tests.antt =====
-- Runs and witnesses for the aggregation.
use alto.Prelude.{
  ◌+◌, length, ◌≡◌, refl, true, false, not, ◌&&◌, ◌||◌, ◌↔◌, [], ◌∷◌, none, some, if◌then◌else◌,
}
use alto.Prelude.Order.{equiv}
use alto.Prelude.Keyed
use alto.Pid.{Pid, eq, less, bytes_less, bytes_eq, bool_less}
use alto.Pid.Sets
use alto.PidAggregation.{
  Name, Aggregation, find_name, find_pid, same_name, insert_record, insert_link, empty_aggregation,
  has, has_name, lookup, reverse_lookup, add, remove, set_vertices, add_vertices, remove_vertices,
  clear_vertices, define_link, get_link, get_link_between, with_links, links_from, first_to,
  replace_vertices, insert_names, insert_name,
}
use alto.PidAggregation.Names.{has_vertex}
use alto.PidAggregation.Records.{lookup_inverse, add_lem}
use alto.PidAggregation.Vertices.{gathers, gathers_lem}
use alto.PidAggregation.Links.{get_link-remove}
use alto.PidAggregation.Reachable.{
  Reachable, IsSound, created, added, vertices_added, link_defined, Reachable-IsSound,
}

abbrev west : Pid
west = record { isp = b'w' ∷ []; num = 1; external = false }

abbrev east : Pid
east = record { isp = b'e' ∷ []; num = 2; external = false }

abbrev mid : Pid
mid = record { isp = b'm' ∷ []; num = 3; external = false }

abbrev w : Name
w = b'w' ∷ []

abbrev e : Name
e = b'e' ∷ []

abbrev trunk : Name
trunk = b't' ∷ []

-- Two PIDs, the first with a vertex, and a link between them.
abbrev linked : Aggregation
linked =
    (define_link
      (add_vertices (add (add empty_aggregation w west []).0 e east []).0 west (w ∷ [])).0 trunk
      west east).0

abbrev linked-Reachable : Reachable linked
linked-Reachable =
    link_defined trunk west east
      (vertices_added west (w ∷ []) (added e east [] (added w west [] created)))

abbrev linked-IsSound : IsSound linked
linked-IsSound = Reachable-IsSound linked linked-Reachable

link_found : get_link_between linked west east ≡ some trunk
unfolding get_link_between Keyed.find links_from first_to define_link with_links insert_link
    add_vertices replace_vertices insert_names insert_name add has has_name insert_record
    empty_aggregation Keyed.erase Sets.same same_name less bytes_less bytes_eq bool_less equiv eq
link_found = refl

lookup_inverse_example :
    (reverse_lookup linked west ≡ some w) ↔ ((has_name linked w ≡ true) × (lookup linked w ≡ west))
lookup_inverse_example = lookup_inverse linked west w linked-IsSound.one_to_one

gathers_lem_example :
    (gathers (set_vertices linked west (e ∷ [])).0 west w
      ≡ (if eq west west && has linked west then has_vertex (e ∷ []) w else gathers linked west w))
    × (gathers (add_vertices linked west (e ∷ [])).0 west w ≡ (
        if eq west west && has linked west
        then has_vertex (e ∷ []) w || gathers linked west w
        else gathers linked west w))
    × (gathers (remove_vertices linked west (e ∷ [])).0 west w ≡ (
        if eq west west && has linked west
        then not (has_vertex (e ∷ []) w) && gathers linked west w
        else gathers linked west w))
    × (gathers (clear_vertices linked west).0 west w
        ≡ (if eq west west && has linked west then false else gathers linked west w))
gathers_lem_example = gathers_lem linked linked-IsSound.one_to_one west west (e ∷ []) w

get_link-remove_example : get_link (remove linked east).0 trunk ≡ elim (get_link linked trunk) [
  | none ↦ none
  | some (src, dst) ↦
      (if has linked east && (eq src east || eq dst east) then none else some (src, dst))
]
get_link-remove_example = get_link-remove linked east trunk linked-IsSound.named

add_lem_example :
    ((add linked trunk mid (w ∷ [])).1 ≡ (not (has linked mid) && not (has_name linked trunk)))
    × (find_pid west (add linked trunk mid (w ∷ [])).0.pid_records ≡ (
        if (add linked trunk mid (w ∷ [])).1 && Sets.same mid west
        then some (record { name = trunk; pid = mid; vertices = w ∷ [] })
        else find_pid west linked.pid_records))
    × (find_name trunk (add linked trunk mid (w ∷ [])).0.pid_records ≡ (
        if (add linked trunk mid (w ∷ [])).1 && same_name trunk trunk
        then some (record { name = trunk; pid = mid; vertices = w ∷ [] })
        else find_name trunk linked.pid_records))
    × (length (add linked trunk mid (w ∷ [])).0.pid_records ≡ (
        if (add linked trunk mid (w ∷ [])).1
        then length linked.pid_records + 1
        else length linked.pid_records))
    × ((add linked trunk mid (w ∷ [])).0.link_records ≡ linked.link_records)
add_lem_example = add_lem linked trunk trunk mid west (w ∷ [])
