-- ===== src/PidAggregation/Records.antt =====
-- The records of PIDs: names and PIDs stand for each other, whatever is added and removed.
use alto.Prelude.{
  ◌+◌, length, length-append, ◌≡◌, true, not, ◌&&◌, List, [], ◌∷◌, arith, ◌↔◌, if◌then◌else◌, none,
  some, inl, inr, Option-cases,
}
use alto.Prelude.Keyed
use alto.Prelude.Keyed.{IsKeyTest, IsUnique}
use alto.Pid.{Pid}
use alto.Pid.Sets
use alto.Pid.Sets.{same_iff}
use alto.PidAggregation.{
  Name, NameSet, PidRecord, Aggregation, same_name, find_name, find_pid, erase_pid, insert_record,
  has, has_name, lookup, reverse_lookup, add, remove,
}
use alto.PidAggregation.Names.{same_name_iff}

-- Each name and each PID has one record.
unfoldable pub IsOneToOne : List PidRecord → Type 0
IsOneToOne rs = IsUnique (λ r. r.name) same_name rs × IsUnique (λ r. r.pid) Sets.same rs

pub find_pid-insert_record :
    (r : PidRecord) (rs : List PidRecord) (q : Pid)
    → find_name r.name rs ≡ none
    → find_pid r.pid rs ≡ none
    → find_pid q (insert_record r rs) ≡ (if Sets.same r.pid q then some r else find_pid q rs)
unfolding insert_record
find_pid-insert_record r rs q e f =
    ground (arith, Keyed.find-append (λ r. r.pid) Sets.same q rs r, (same_iff r.pid q).0)

pub find_name-insert_record :
    (r : PidRecord) (rs : List PidRecord) (n : Name)
    → find_name r.name rs ≡ none
    → find_pid r.pid rs ≡ none
    → find_name n (insert_record r rs) ≡ (if same_name r.name n then some r else find_name n rs)
unfolding insert_record
find_name-insert_record r rs n e f =
    ground (arith, Keyed.find-append (λ r. r.name) same_name n rs r, (same_name_iff r.name n).0)

pub insert_record-IsOneToOne :
    (r : PidRecord) (rs : List PidRecord) → IsOneToOne rs → IsOneToOne (insert_record r rs)
unfolding insert_record IsOneToOne
insert_record-IsOneToOne r rs u = elim (Option-cases (find_name r.name rs)) [
  | inr (x, e) ↦ rw (e, insert_record) u
  | inl e ↦ elim (Option-cases (find_pid r.pid rs)) [
    | inr (x, f) ↦ rw (e, f, insert_record) u
    | inl f ↦
        rw (e, f, insert_record)
          (
            Keyed.append-IsUnique (λ r. r.name) same_name same_name_iff rs r u.0 e,
            Keyed.append-IsUnique (λ r. r.pid) Sets.same same_iff rs r u.1 f,
          )
  ]
]

pub erase_pid-IsOneToOne :
    (p : Pid) (rs : List PidRecord) → IsOneToOne rs → IsOneToOne (erase_pid p rs)
unfolding IsOneToOne
erase_pid-IsOneToOne p rs u = (
  Keyed.erase-IsUnique (λ r. r.name) same_name (λ r. r.pid) Sets.same same_name_iff same_iff p rs
      u.0,
  Keyed.erase-IsUnique (λ r. r.pid) Sets.same (λ r. r.pid) Sets.same same_iff same_iff p rs u.1,
)

-- The record found by a name is found by its PID, and the other way round.
pub found_both :
    (rs : List PidRecord) (r : PidRecord)
    → IsOneToOne rs
    → (find_name r.name rs ≡ some r) ↔ (find_pid r.pid rs ≡ some r)
unfolding IsOneToOne IsUnique Keyed.find
found_both [] r u = (λ h. cc, λ h. cc)
found_both (x ∷ xs) r u = (
  λ h. ground (
    arith,
    (found_both xs r (u.0.1, u.1.1)).0,
    u.1.0,
    (same_name_iff x.name r.name).0,
    (same_iff x.pid r.pid).0,
    (same_iff r.pid r.pid).1,
  ),
  λ h. ground (
    arith,
    (found_both xs r (u.0.1, u.1.1)).1,
    u.0.0,
    (same_name_iff x.name r.name).0,
    (same_iff x.pid r.pid).0,
    (same_name_iff r.name r.name).1,
  ),
)

-- With one record for each name and each PID, reverse_lookup answers a name for a PID exactly if
-- the name is known and lookup answers that PID for it.
pub lookup_inverse :
    (a : Aggregation) (p : Pid) (n : Name)
    → IsOneToOne a.pid_records
    → (reverse_lookup a p ≡ some n) ↔ ((has_name a n ≡ true) × (lookup a n ≡ p))
unfolding reverse_lookup has_name lookup
lookup_inverse a p n u = (
  λ h. elim (Option-cases (find_pid p a.pid_records)) [
    | inl e ↦ absurd (ground arith)
    | inr (r, e) ↦ ground (
      arith,
      Keyed.find_key (λ r. r.pid) Sets.same same_iff p a.pid_records r e,
      (found_both a.pid_records r u).1,
    )
  ],
  λ h. elim (Option-cases (find_name n a.pid_records)) [
    | inl e ↦ absurd (ground arith)
    | inr (r, e) ↦ ground (
      arith,
      Keyed.find_key (λ r. r.name) same_name same_name_iff n a.pid_records r e,
      (found_both a.pid_records r u).0,
    )
  ],
)

-- add answers true exactly if neither the PID nor the name is known. Then the aggregation has one
-- more record, of the PID under that name with those vertices, which is found by either; where it
-- answers false no record is added. What is found by any other PID and by any other name stays, and
-- so do the links.
pub add_lem :
    (a : Aggregation) (n m : Name) (p q : Pid) (vs : NameSet)
    → ((add a n p vs).1 ≡ (not (has a p) && not (has_name a n)))
      × (find_pid q (add a n p vs).0.pid_records ≡ (
          if (add a n p vs).1 && Sets.same p q
          then some (record { name = n; pid = p; vertices = vs })
          else find_pid q a.pid_records))
      × (find_name m (add a n p vs).0.pid_records ≡ (
          if (add a n p vs).1 && same_name n m
          then some (record { name = n; pid = p; vertices = vs })
          else find_name m a.pid_records))
      × (length (add a n p vs).0.pid_records
          ≡ (if (add a n p vs).1 then length a.pid_records + 1 else length a.pid_records))
      × ((add a n p vs).0.link_records ≡ a.link_records)
unfolding add has has_name insert_record
add_lem a n m p q vs =
    let r : PidRecord = record { name = n; pid = p; vertices = vs } in
    (
      ground arith,
      ground (arith, find_pid-insert_record r a.pid_records q),
      ground (arith, find_name-insert_record r a.pid_records m),
      ground (arith, length-append a.pid_records (r ∷ [])),
      ground arith,
    )

-- In an aggregation with one record for each name and each PID, remove answers whether the PID was
-- known, and takes away its record under both indices and no other.
pub remove_lem :
    (a : Aggregation) (p q : Pid) (n : Name)
    → IsOneToOne a.pid_records
    → ((remove a p).1 ≡ has a p)
      × (find_pid q (remove a p).0.pid_records
          ≡ (if Sets.same p q then none else find_pid q a.pid_records))
      × (find_name n (remove a p).0.pid_records ≡ elim (find_name n a.pid_records) [
        | none ↦ none
        | some r ↦ (if Sets.same r.pid p then none else some r)
      ])
unfolding remove has IsOneToOne
remove_lem a p q n u = elim (Option-cases (find_pid p a.pid_records)) [
  | inr (x, e) ↦
      rw (e, remove)
        (
          ground arith,
          Keyed.find-erase (λ r. r.pid) Sets.same same_iff p q a.pid_records u.1,
          Keyed.find-erase-other (λ r. r.name) same_name (λ r. r.pid) Sets.same same_name_iff
              same_iff p n a.pid_records u.0 u.1,
        )
  | inl e ↦
      rw (e, remove)
        (
          ground arith,
          ground (arith, (same_iff p q).0),
          elim (Option-cases (find_name n a.pid_records)) [
            | inl f ↦ ground arith
            | inr (r, f) ↦ ground (
              arith,
              Keyed.find_key (λ r. r.name) same_name same_name_iff n a.pid_records r f,
              (found_both a.pid_records r u).0,
              (same_iff r.pid p).0,
            )
          ],
        )
]
