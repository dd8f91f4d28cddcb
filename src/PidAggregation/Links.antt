-- ===== src/PidAggregation/Links.antt =====
-- The links: one for each name, and none whose end was removed.
use alto.Prelude.{
  ◌≡◌, ◌≢◌, true, false, ◌&&◌, ◌||◌, List, [], ◌∷◌, arith, if◌then◌else◌, Option, none, some, inl,
  inr, Option-cases,
}
use alto.Prelude.Keyed
use alto.Prelude.Keyed.{IsUnique}
use alto.Pid.{Pid, eq}
use alto.Pid.Order.{eq_iff}
use alto.Pid.Sets
use alto.Pid.Sets.{same_iff}
use alto.PidAggregation.{
  Name, LinkRecord, Aggregation, same_name, find_link, erase_src, erase_dst, insert_link, has,
  remove, with_links, define_link, undefine_link, get_link, links_from, first_to, get_link_between,
}
use alto.PidAggregation.Names.{same_name_iff}

-- Each name has one link.
unfoldable pub IsNamed : List LinkRecord → Type 0
IsNamed ls = IsUnique (λ l. l.name) same_name ls

pub erase_ends-IsNamed :
    (p : Pid) (ls : List LinkRecord) → IsNamed ls → IsNamed (erase_dst p (erase_src p ls))
unfolding IsNamed
erase_ends-IsNamed p ls u =
    Keyed.erase_all-IsUnique (λ l. l.name) same_name (λ l. l.dst) Sets.same same_name_iff same_iff p
      (erase_src p ls)
      (Keyed.erase_all-IsUnique (λ l. l.name) same_name (λ l. l.src) Sets.same same_name_iff
        same_iff p ls u)

pub insert_link-IsNamed :
    (l : LinkRecord) (ls : List LinkRecord) → IsNamed ls → IsNamed (insert_link l ls)
unfolding insert_link IsNamed
insert_link-IsNamed l ls u = elim (Option-cases (find_link l.name ls)) [
  | inr (x, e) ↦ rw (e, insert_link) u
  | inl e ↦
      rw (e, insert_link) (Keyed.append-IsUnique (λ l. l.name) same_name same_name_iff ls l u e)
]

find-insert_link :
    (l : LinkRecord) (ls : List LinkRecord) (n : Name)
    → find_link l.name ls ≡ none
    → find_link n (insert_link l ls) ≡ (if same_name l.name n then some l else find_link n ls)
unfolding insert_link
find-insert_link l ls n e =
    ground (arith, Keyed.find-append (λ l. l.name) same_name n ls l, (same_name_iff l.name n).0)

find-erase_ends :
    (p : Pid) (ls : List LinkRecord) (n : Name)
    → IsNamed ls
    → find_link n (erase_dst p (erase_src p ls)) ≡ elim (find_link n ls) [
      | none ↦ none
      | some l ↦ (if Sets.same l.src p || Sets.same l.dst p then none else some l)
    ]
unfolding IsNamed
find-erase_ends p ls n u = ground (
  arith,
  Keyed.find-erase_all (λ l. l.name) same_name (λ l. l.src) Sets.same same_name_iff same_iff p n ls
      u,
  Keyed.find-erase_all (λ l. l.name) same_name (λ l. l.dst) Sets.same same_name_iff same_iff p n
      (erase_src p ls)
      (Keyed.erase_all-IsUnique (λ l. l.name) same_name (λ l. l.src) Sets.same same_name_iff
        same_iff p ls u),
)

-- After remove of a known PID, get_link answers for a name what it did, unless one end of the link was that
-- PID, and then nothing; remove of an unknown PID changes no answer.
pub get_link-remove :
    (a : Aggregation) (p : Pid) (n : Name)
    → IsNamed a.link_records
    → get_link (remove a p).0 n ≡ elim (get_link a n) [
      | none ↦ none
      | some (src, dst) ↦ (if has a p && (eq src p || eq dst p) then none else some (src, dst))
    ]
unfolding get_link remove has IsNamed
get_link-remove a p n u = elim (Option-cases (find_link n a.link_records)) [
  | inl e ↦ ground (arith, find-erase_ends p a.link_records n u)
  | inr (l, e) ↦ ground (
    arith,
    find-erase_ends p a.link_records n u,
    (same_iff l.src p).0,
    (same_iff l.src p).1,
    (same_iff l.dst p).0,
    (same_iff l.dst p).1,
    (eq_iff l.src p).0,
    (eq_iff l.src p).1,
    (eq_iff l.dst p).0,
    (eq_iff l.dst p).1,
  )
]

-- define_link answers true exactly if the name has no link yet, and undefine_link exactly if it has
-- one; then get_link answers the new ends for the name, or nothing, and what it did for all other
-- names; where they answer false, for all names.
pub get_link-define_link :
    (a : Aggregation) (n k : Name) (src dst : Pid)
    → IsNamed a.link_records
    → ((define_link a n src dst).1 ≡ elim (get_link a n) [ none ↦ true | some _ ↦ false ])
      × (get_link (define_link a n src dst).0 k ≡ (
          if (define_link a n src dst).1 && same_name n k then some (src, dst) else get_link a k))
      × ((undefine_link a n).1 ≡ elim (get_link a n) [ none ↦ false | some _ ↦ true ])
      × (get_link (undefine_link a n).0 k ≡ (if same_name n k then none else get_link a k))
unfolding get_link define_link undefine_link with_links IsNamed
get_link-define_link a n k src dst u = (
  ground arith,
  ground (arith, find-insert_link (record { name = n; src = src; dst = dst }) a.link_records k),
  ground arith,
  ground (
    arith,
    Keyed.find-erase (λ l. l.name) same_name same_name_iff n k a.link_records u,
    (same_name_iff n k).0,
  ),
)

between : Pid → Pid → List LinkRecord → Option Name
between src dst ls = first_to dst (links_from src ls)

between-some :
    (src dst : Pid) (ls : List LinkRecord) (n : Name)
    → IsNamed ls
    → between src dst ls ≡ some n
    → find_link n ls ≡ some (record { name = n; src = src; dst = dst })
unfolding between links_from first_to IsNamed IsUnique Keyed.find
between-some src dst [] n u h = cc
between-some src dst (l ∷ ls) n u h = ground (
  arith,
  between-some src dst ls n u.1,
  u.0,
  (same_iff l.src src).0,
  (eq_iff l.dst dst).0,
  (same_name_iff l.name n).0,
  (same_name_iff l.name n).1,
)

between-none :
    (src dst : Pid) (ls : List LinkRecord) (n : Name) (l : LinkRecord)
    → between src dst ls ≡ none
    → find_link n ls ≡ some l
    → (eq l.src src && eq l.dst dst) ≡ false
unfolding between links_from first_to Keyed.find
between-none src dst [] n x h f = cc
between-none src dst (l ∷ ls) n x h f =
    ground (arith, between-none src dst ls n x, (same_iff l.src src).1, (eq_iff l.src src).0)

-- With one link for each name, get_link on two PIDs answers the name of a link that get_link gives
-- just these ends, and answers nothing only if no name has such a link.
pub get_link_between_lem :
    (a : Aggregation) (src dst : Pid) (n : Name)
    → IsNamed a.link_records
    → (get_link_between a src dst ≡ some n → get_link a n ≡ some (src, dst))
      × (get_link_between a src dst ≡ none → get_link a n ≢ some (src, dst))
unfolding get_link get_link_between between
get_link_between_lem a src dst n u = (
  λ h. ground (arith, between-some src dst a.link_records n u h),
  λ h g. elim (Option-cases (find_link n a.link_records)) [
    | inl e ↦ ground arith
    | inr (l, e) ↦ ground (
      arith,
      between-none src dst a.link_records n l h e,
      (eq_iff l.src src).1,
      (eq_iff l.dst dst).1,
    )
  ],
)
