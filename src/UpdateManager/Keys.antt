-- ===== src/UpdateManager/Keys.antt =====
-- The two comparators of the queue, and the time under which a list of tasks knows a key.
use alto.Prelude.{
  ℕ, ◌+◌, ◌<◌, ◌≤◌, ◌≡◌, ◌∙◌, refl, ◌==◌, Bool, true, ◌&&◌, List, [], ◌∷◌, Option, none, some, inl,
  inr, ltb, get_elem?, suc, zero, if◌then◌else◌, arith, Perm, Bool-cases, Option-cases, sym,
}
use alto.Prelude.Int.{ℤ, eq_ℤ, eq_ℤ_iff, eq_ℤ_refl}
use alto.Prelude.Order.{IsStrictWeak, equiv, IsEquivalence, equiv-IsEquivalence}
use alto.Prelude.Count.{count_if, count_if-cons, count_if-perm}
use alto.UpdateManager.{Task, rank, task_less, sooner}

-- Two tasks are one to the queue if they have the type, the ISP and the selection manager in common.
abbrev pub same_key : Task → Task → Bool
same_key a b = equiv task_less a b

pub same_key_iff :
    (a b : Task)
    → same_key a b
      ≡ (rank a.type_of == rank b.type_of && (a.isp == b.isp && a.sel_mgr == b.sel_mgr))
unfolding equiv task_less
same_key_iff a b = ground arith

pub task_less-IsStrictWeak : IsStrictWeak task_less
unfolding task_less
task_less-IsStrictWeak = record {
  irrefl = λ a. ground arith;
  asym = λ a b h. ground arith;
  nontrans = λ a b c h k. ground arith;
}

pub sooner-IsStrictWeak : IsStrictWeak sooner
unfolding sooner
sooner-IsStrictWeak = record {
  irrefl = λ a. ground arith;
  asym = λ a b h. ground arith;
  nontrans = λ a b c h k. ground arith;
}

pub same : IsEquivalence same_key
same = equiv-IsEquivalence task_less-IsStrictWeak

-- The time of the first task with a key.
unfoldable pub time_in : Task → List Task → Option ℤ
time_in probe [] = none
time_in probe (t ∷ ts) = if same_key t probe then some t.exectime else time_in probe ts

-- How many tasks have a key.
unfoldable pub count : Task → List Task → ℕ
count probe ts = count_if (λ t. same_key t probe) ts

pub count-cons :
    (probe t : Task) (ts : List Task)
    → count probe (t ∷ ts) ≡ (if same_key t probe then 1 else 0) + count probe ts
unfolding count
count-cons probe t ts = count_if-cons (λ t. same_key t probe) t ts

pub count-perm : (probe : Task) {a b : List Task} → Perm a b → count probe a ≡ count probe b
unfolding count
count-perm probe p = count_if-perm (λ t. same_key t probe) p

pub time_in-none : (probe : Task) (ts : List Task) → count probe ts ≡ 0 → time_in probe ts ≡ none
unfolding time_in
time_in-none probe [] h = refl
time_in-none probe (t ∷ ts) h = ground (arith, time_in-none probe ts, count-cons probe t ts)

-- A task of the key, and of that time.
timed : Task → ℤ → Task → Bool
timed probe time t = same_key t probe && eq_ℤ t.exectime time

timed_le :
    (probe : Task) (time : ℤ) (ts : List Task) → count_if (timed probe time) ts ≤ count probe ts
unfolding timed count
timed_le probe time [] = unfold count_if in omega arith
timed_le probe time (t ∷ ts) =
    ground
      (arith, timed_le probe time ts, count_if-cons (timed probe time) t ts, count-cons probe t ts)

time_in-timed :
    (probe : Task) (time : ℤ) (ts : List Task)
    → time_in probe ts ≡ some time
    → 0 < count_if (timed probe time) ts
unfolding time_in timed
time_in-timed probe time [] h = absurd (ground arith)
time_in-timed probe time (t ∷ ts) h = ground (
  arith,
  count_if-cons (timed probe time) t ts,
  time_in-timed probe time ts,
  eq_ℤ_refl t.exectime,
)

timed-time_in :
    (probe : Task) (time : ℤ) (ts : List Task)
    → count probe ts ≤ 1
    → 0 < count_if (timed probe time) ts
    → time_in probe ts ≡ some time
unfolding time_in timed
timed-time_in probe time [] h k = absurd (unfold count_if in omega arith)
timed-time_in probe time (t ∷ ts) h k = ground (
  arith,
  count_if-cons (timed probe time) t ts,
  count-cons probe t ts,
  timed_le probe time ts,
  timed-time_in probe time ts,
  (eq_ℤ_iff t.exectime time).0,
)

time_in-gone : (probe : Task) (ts : List Task) → time_in probe ts ≡ none → count probe ts ≡ 0
unfolding time_in
time_in-gone probe [] h = unfold count count_if in refl
time_in-gone probe (t ∷ ts) h = ground (arith, time_in-gone probe ts, count-cons probe t ts)

-- Where a key stands once at most, its time does not depend on the order of the tasks.
pub time_in-perm :
    (probe : Task) {a b : List Task}
    → Perm a b
    → count probe a ≤ 1
    → time_in probe a ≡ time_in probe b
time_in-perm probe {a} {b} p h = elim (Option-cases (time_in probe a)) [
  | inl gone ↦
      gone
      ∙ sym (time_in-none probe b (omega (arith, count-perm probe p, time_in-gone probe a gone)))
  | inr (time, e) ↦
      e
      ∙ sym (
          timed-time_in probe time b (omega (arith, count-perm probe p))
            (omega (arith, count_if-perm (timed probe time) p, time_in-timed probe time a e)))
]

pub count-at :
    (probe : Task) (ts : List Task) (i : ℕ) (t : Task)
    → get_elem? ts i ≡ some t
    → same_key t probe ≡ true
    → 0 < count probe ts
count-at probe [] i t e h = absurd (ground arith)
count-at probe (x ∷ ts) zero t e h = ground (arith, count-cons probe x ts)
count-at probe (x ∷ ts) (suc i) t e h =
    ground (arith, count-at probe ts i t e h, count-cons probe x ts)

pub find-count :
    (probe : Task) (ts : List Task)
    → 0 < count probe ts
    → (i : ℕ) × (t : Task) × (get_elem? ts i ≡ some t) × (same_key t probe ≡ true)
find-count probe [] h = absurd (unfold count count_if in omega arith)
find-count probe (x ∷ ts) h = elim (Bool-cases (same_key x probe)) [
  | inl q ↦ (zero, x, refl, q)
  | inr q ↦
      let (i, t, e, k) = find-count probe ts (ground (arith, q, count-cons probe x ts)) in
      (suc i, t, e, k)
]

-- A list in which a key stands at one index at most.
pub count_le_one :
    (probe : Task) (ts : List Task)
    → ((i j : ℕ) (x y : Task)
        → get_elem? ts i ≡ some x
        → get_elem? ts j ≡ some y
        → same_key x probe ≡ true
        → same_key y probe ≡ true
        → i ≡ j)
    → count probe ts ≤ 1
count_le_one probe [] h = unfold count count_if in omega arith
count_le_one probe (x ∷ ts) h =
    let rest =
      count_le_one probe ts
        (λ i j a b ea eb ha hb. omega (arith, h (suc i) (suc j) a b ea eb ha hb)) in
    elim (Bool-cases (same_key x probe)) [
      | inr q ↦ ground (arith, q, rest, count-cons probe x ts)
      | inl q ↦ elim (Bool-cases (ltb 0 (count probe ts))) [
        | inr none_left ↦ ground (arith, q, none_left, count-cons probe x ts)
        | inl more ↦
            let (i, t, e, k) = find-count probe ts (ground (arith, more)) in
            absurd (omega (arith, h zero (suc i) x t refl e q k))
      ]
    ]
