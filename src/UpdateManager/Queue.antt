-- ===== src/UpdateManager/Queue.antt =====
-- What push, erase and find of the heap do to the times of the keys.
use alto.Prelude.{
  ℕ, zero, suc, ◌≤◌, ◌≡◌, true, List, [], ◌∷◌, Option, none, some, inl, inr, ltb, get_elem?,
  if◌then◌else◌, arith, Perm, Bool-cases, Option-cases,
}
use alto.Prelude.Int.{ℤ}
use alto.RandomAccessSet
use alto.RandomAccessSet.{RandomAccessSet}
use alto.RandomAccessSet.Index.{init-IsIndexed, index_unique, find_at}
use alto.RandomAccessSet.Contents.{find_iff}
use alto.MaxHeapWithDelete.Order.{over-none}
use alto.MaxHeapWithDelete.Insert.{IsValid}
use alto.UpdateManager.{Task, task_less, sooner}
use alto.UpdateManager.Keys.{
  same_key, same, task_less-IsStrictWeak, time_in, count, count-perm, count-cons, count-at,
  find-count, count_le_one, time_in-perm, time_in-none,
}

-- The queue is a valid heap of the tasks.
abbrev pub IsQueue : RandomAccessSet Task → Type 0
IsQueue q = IsValid task_less sooner q

pub init-IsQueue : IsQueue RandomAccessSet.init
init-IsQueue = record {
  indexed = init-IsIndexed task_less task_less-IsStrictWeak;
  heap = λ c p. over-none sooner none;
}

-- The time for which a key is in the queue.
unfoldable pub time_of : RandomAccessSet Task → Task → Option ℤ
time_of q probe = time_in probe q.vec

time_in-at :
    (probe : Task) (ts : List Task) (i : ℕ) (t : Task)
    → count probe ts ≤ 1
    → get_elem? ts i ≡ some t
    → same_key t probe ≡ true
    → time_in probe ts ≡ some t.exectime
unfolding time_in
time_in-at probe [] i t h e k = absurd (ground arith)
time_in-at probe (x ∷ ts) zero t h e k = ground arith
time_in-at probe (x ∷ ts) (suc i) t h e k =
    ground (arith, count-cons probe x ts, count-at probe ts i t e k, time_in-at probe ts i t)

module _ (q : RandomAccessSet Task) (v : IsQueue q) where
  once_in : (probe : Task) → count probe q.vec ≤ 1
  once_in probe = count_le_one probe q.vec (λ i j x y hi hj hx hy.
      index_unique task_less task_less-IsStrictWeak i j x y v.indexed hi hj
        (same.same_trans x probe y hx (same.same_sym y probe hy)))

  count_fresh_in :
      (probe : Task) → count probe q.vec ≡ 0 → RandomAccessSet.find task_less q probe ≡ none
  count_fresh_in probe h = elim (Option-cases (RandomAccessSet.find task_less q probe)) [
    | inl fresh ↦ fresh
    | inr (i, found) ↦
        let (y, at_i, k) =
          (find_iff task_less task_less-IsStrictWeak q probe i v.indexed).0 found in
        absurd (omega (arith, count-at probe q.vec i y at_i k))
  ]

module _ (q : RandomAccessSet Task) (v : IsQueue q) where
  once : (probe : Task) → count probe q.vec ≤ 1
  once probe = once_in q v probe

  fresh_count :
      (probe : Task) → RandomAccessSet.find task_less q probe ≡ none → count probe q.vec ≡ 0
  fresh_count probe fresh = elim (Bool-cases (ltb 0 (count probe q.vec))) [
    | inr none_left ↦ ground (arith, none_left)
    | inl more ↦
        let (i, t, e, k) = find-count probe q.vec (ground (arith, more)) in
        absurd (cc (find_at task_less task_less-IsStrictWeak q t probe i v.indexed e k, fresh))
  ]

  -- A task that is in the queue gives its key its time.
  pub time_at :
      (probe : Task) (i : ℕ) (t : Task)
      → get_elem? q.vec i ≡ some t
      → same_key t probe ≡ true
      → time_of q probe ≡ some t.exectime
  unfolding time_of
  time_at probe i t e k = time_in-at probe q.vec i t (once probe) e k

  -- A new key, in a queue with a task in front.
  pub times_push :
      (task : Task) (r : RandomAccessSet Task)
      → IsQueue r
      → Perm r.vec (task ∷ q.vec)
      → (probe : Task)
      → time_of r probe ≡ (if same_key task probe then some task.exectime else time_of q probe)
  unfolding time_of time_in
  times_push task r w p probe = time_in-perm probe p (once_in r w probe)

  -- A key that has left.
  pub times_erase :
      (y : Task) (r : RandomAccessSet Task)
      → Perm (y ∷ r.vec) q.vec
      → (probe : Task) → time_of r probe ≡ (if same_key y probe then none else time_of q probe)
  unfolding time_of time_in
  times_erase y r p probe =
      let total = count-perm probe p in
      let cons = count-cons probe y r.vec in
      let at_most = once probe in
      let same_time = time_in-perm probe p (omega (arith, total, at_most)) in
      elim (Bool-cases (same_key y probe)) [
        | inl k ↦ rw k (time_in-none probe r.vec (ground (arith, k, total, cons, at_most)))
        | inr k ↦ ground (arith, k, same_time)
      ]

  -- Nothing with the key of a task that has left is found any more.
  pub gone_fresh :
      (y probe : Task) (r : RandomAccessSet Task)
      → Perm (y ∷ r.vec) q.vec
      → same_key y probe ≡ true
      → IsQueue r
      → RandomAccessSet.find task_less r probe ≡ none
  gone_fresh y probe r p k w =
      count_fresh_in r w probe
        (ground (arith, k, count-perm probe p, count-cons probe y r.vec, once probe))

  pub time_none :
      (probe : Task) → RandomAccessSet.find task_less q probe ≡ none → time_of q probe ≡ none
  unfolding time_of
  time_none probe fresh = time_in-none probe q.vec (fresh_count probe fresh)
