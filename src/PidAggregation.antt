-- ===== src/PidAggregation.antt =====
-- common-server/src/include/p4pserver/pid_aggregation.h and common-server/src/lib/pid_aggregation.cpp:
-- the named PIDs of a network, the vertices that each one gathers, and the named links between them.
-- Callers hold the lock that check_read and check_write ask for; `changed_fired` is what
-- LocalObject::changed leaves behind.
pub mod Names
pub mod Records
pub mod Vertices
pub mod Links
pub mod Reachable
mod Tests
use alto.Prelude.{
  ℕ, Bool, true, false, not, ◌&&◌, List, [], ◌∷◌, ◌++◌, Option, none, some, if◌then◌else◌,
}
use alto.Prelude.Order.{equiv}
use alto.Prelude.Keyed
use alto.Pid
use alto.Pid.{Pid, bytes_less}
use alto.Pid.Sets

-- std::string: the names of PIDs, of links and of network vertices
abbrev pub Name : Type 0
Name = List ℕ

-- Containers know names by operator< only.
unfoldable pub same_name : Name → Name → Bool
same_name = equiv bytes_less

-- NetVertexNameSet, a std::set, by its elements in their order
abbrev pub NameSet : Type 0
NameSet = List Name

-- `s.insert(v)`
unfoldable pub insert_name : Name → NameSet → NameSet
insert_name v [] = v ∷ []
insert_name v (w ∷ ws) =
    if bytes_less v w then v ∷ w ∷ ws else if bytes_less w v then w ∷ insert_name v ws else w ∷ ws

-- `s.erase(v)`
unfoldable pub erase_name : Name → NameSet → NameSet
erase_name v [] = []
erase_name v (w ∷ ws) = if same_name w v then erase_name v ws else w ∷ erase_name v ws

pub record PidRecord : Type 0 where
  pub name : Name
  pub pid : Pid
  pub vertices : NameSet

pub record LinkRecord : Type 0 where
  pub name : Name
  pub src : Pid
  pub dst : Pid

-- Both containers by their records in the order of insertion, which is the order of the records with
-- one key in an ordered_non_unique index.
pub record Aggregation : Type 0 where
  pub pid_records : List PidRecord
  pub link_records : List LinkRecord
  pub changed_fired : Bool

-- `pid_records_by_name_.find(n)`
abbrev pub find_name : Name → List PidRecord → Option PidRecord
find_name = Keyed.find (λ r. r.name) same_name

-- `pid_records_by_pid_.find(p)`
abbrev pub find_pid : Pid → List PidRecord → Option PidRecord
find_pid = Keyed.find (λ r. r.pid) Sets.same

-- `pid_records_by_pid_.erase(pid_records_by_pid_.find(p))`
abbrev pub erase_pid : Pid → List PidRecord → List PidRecord
erase_pid = Keyed.erase (λ r. r.pid) Sets.same

-- `link_records_by_name_.find(n)`
abbrev pub find_link : Name → List LinkRecord → Option LinkRecord
find_link = Keyed.find (λ l. l.name) same_name

-- `link_records_by_src_.erase(p)`
abbrev pub erase_src : Pid → List LinkRecord → List LinkRecord
erase_src = Keyed.erase_all (λ l. l.src) Sets.same

-- `link_records_by_dst_.erase(p)`
abbrev pub erase_dst : Pid → List LinkRecord → List LinkRecord
erase_dst = Keyed.erase_all (λ l. l.dst) Sets.same

-- `pid_records_.insert(r)`, which either unique index can refuse
unfoldable pub insert_record : PidRecord → List PidRecord → List PidRecord
insert_record r rs = elim (find_name r.name rs) [
  | some _ ↦ rs
  | none ↦ elim (find_pid r.pid rs) [ some _ ↦ rs | none ↦ rs ++ r ∷ [] ]
]

-- `link_records_.insert(l)`
unfoldable pub insert_link : LinkRecord → List LinkRecord → List LinkRecord
insert_link l ls = elim (find_link l.name ls) [ some _ ↦ ls | none ↦ ls ++ l ∷ [] ]

unfoldable pub empty_aggregation : Aggregation
empty_aggregation = record { pid_records = []; link_records = []; changed_fired = false }

-- do_copy_properties, which leaves the links behind.
unfoldable pub do_copy_properties : Aggregation → Aggregation
do_copy_properties a = record {
  pid_records = a.pid_records;
  link_records = [];
  changed_fired = false;
}

-- has on a PID
unfoldable pub has : Aggregation → Pid → Bool
has a p = elim (find_pid p a.pid_records) [ none ↦ false | some _ ↦ true ]

-- has on a name
unfoldable pub has_name : Aggregation → Name → Bool
has_name a n = elim (find_name n a.pid_records) [ none ↦ false | some _ ↦ true ]

unfoldable pub lookup : Aggregation → Name → Pid
lookup a n = elim (find_name n a.pid_records) [ none ↦ Pid.invalid | some r ↦ r.pid ]

-- `none` is the result false.
unfoldable pub reverse_lookup : Aggregation → Pid → Option Name
reverse_lookup a p = elim (find_pid p a.pid_records) [ none ↦ none | some r ↦ some r.name ]

unfoldable pub add : Aggregation → Name → Pid → NameSet → Aggregation × Bool
add a n p vs = if has a p then (a, false) else if has_name a n then (a, false) else (
  record {
    pid_records = insert_record (record { name = n; pid = p; vertices = vs }) a.pid_records;
    link_records = a.link_records;
    changed_fired = true;
  },
  true,
)

unfoldable pub remove : Aggregation → Pid → Aggregation × Bool
remove a p = elim (find_pid p a.pid_records) [
  | none ↦ (a, false)
  | some _ ↦ (
    record {
      pid_records = erase_pid p a.pid_records;
      link_records = erase_dst p (erase_src p a.link_records);
      changed_fired = true;
    },
    true,
  )
]

-- `none` is the result false.
unfoldable pub get_vertices : Aggregation → Pid → Option NameSet
get_vertices a p = elim (find_pid p a.pid_records) [ none ↦ none | some r ↦ some r.vertices ]

-- The record of a PID taken out and one with other vertices put in, as the next four operations do.
unfoldable pub replace_vertices : Aggregation → Pid → (NameSet → NameSet) → Aggregation × Bool
replace_vertices a p f = elim (find_pid p a.pid_records) [
  | none ↦ (a, false)
  | some r ↦ (
    record {
      pid_records =
          insert_record (record { name = r.name; pid = r.pid; vertices = f r.vertices })
            (erase_pid p a.pid_records);
      link_records = a.link_records;
      changed_fired = true;
    },
    true,
  )
]

unfoldable pub set_vertices : Aggregation → Pid → NameSet → Aggregation × Bool
set_vertices a p vs = replace_vertices a p (λ old. vs)

unfoldable pub insert_names : NameSet → NameSet → NameSet
insert_names [] s = s
insert_names (v ∷ vs) s = insert_names vs (insert_name v s)

unfoldable pub add_vertices : Aggregation → Pid → NameSet → Aggregation × Bool
add_vertices a p vs = replace_vertices a p (insert_names vs)

unfoldable pub erase_names : NameSet → NameSet → NameSet
erase_names [] s = s
erase_names (v ∷ vs) s = erase_names vs (erase_name v s)

unfoldable pub remove_vertices : Aggregation → Pid → NameSet → Aggregation × Bool
remove_vertices a p vs = replace_vertices a p (erase_names vs)

unfoldable pub clear_vertices : Aggregation → Pid → Aggregation × Bool
clear_vertices a p = replace_vertices a p (λ old. [])

unfoldable pub with_links : Aggregation → List LinkRecord → Aggregation
with_links a ls = record { pid_records = a.pid_records; link_records = ls; changed_fired = true }

unfoldable pub define_link : Aggregation → Name → Pid → Pid → Aggregation × Bool
define_link a n src dst = elim (find_link n a.link_records) [
  | some _ ↦ (a, false)
  | none ↦
      (with_links a (insert_link (record { name = n; src = src; dst = dst }) a.link_records), true)
]

unfoldable pub undefine_link : Aggregation → Name → Aggregation × Bool
undefine_link a n = elim (find_link n a.link_records) [
  | none ↦ (a, false)
  | some _ ↦ (with_links a (Keyed.erase (λ l. l.name) same_name n a.link_records), true)
]

-- get_link on a name, for the PIDs of its ends; `none` is the result false.
unfoldable pub get_link : Aggregation → Name → Option (Pid × Pid)
get_link a n = elim (find_link n a.link_records) [ none ↦ none | some l ↦ some (l.src, l.dst) ]

-- get_link on a name, for the names of its ends
unfoldable pub get_link_names : Aggregation → Name → Option (Name × Name)
get_link_names a n = elim (get_link a n) [
  | none ↦ none
  | some (src, dst) ↦ elim (reverse_lookup a src) [
    | none ↦ none
    | some s ↦ elim (reverse_lookup a dst) [ none ↦ none | some d ↦ some (s, d) ]
  ]
]

-- The records of `link_records_by_src_.equal_range(src)`, and the loop over them.
unfoldable pub links_from : Pid → List LinkRecord → List LinkRecord
links_from src [] = []
links_from src (l ∷ ls) = if Sets.same l.src src then l ∷ links_from src ls else links_from src ls

unfoldable pub first_to : Pid → List LinkRecord → Option Name
first_to dst [] = none
first_to dst (l ∷ ls) = if not (Pid.eq l.dst dst) then first_to dst ls else some l.name

-- get_link on two PIDs
unfoldable pub get_link_between : Aggregation → Pid → Pid → Option Name
get_link_between a src dst = first_to dst (links_from src a.link_records)
