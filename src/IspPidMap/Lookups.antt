-- ===== src/IspPidMap/Lookups.antt =====
-- Every index that the map answers is the index of one of its PIDs.
use alto.Prelude.{
  ℕ, zero, suc, ◌+◌, ◌<◌, ◌≤◌, ◌^◌, false, List, [], ◌∷◌, none, some, inl, inr, length, get_elem?,
  ◌≡◌, ◌≢◌, refl, ap, ◌⊎◌, arith, Option-cases, Bool-cases, Sum-cases, get_elem?_lt,
  lt_of_get_elem?,
}
use alto.Prelude.Int.{ℤ, pos}
use alto.Prelude.Words.{to_i32}
use alto.Pid
use alto.Pid.{Pid, invalid}
use alto.Pid.Order.{eq_iff}
use alto.SwarmState.{err_unknown_pid}
use alto.DataSource.{World, Meta, retrieve}
use alto.IspPidMap.{
  Tries, AnswersAdded, PidPrefixes, IspPidMap, lookup, get_pid_info, index_from, get_pid_index,
  add_prefixes, build, load_p4p_info, default_ttl,
}

-- An `int` that is an index below `n`.
abbrev pub IsBelow : ℕ → ℤ → Type 0
IsBelow n z = (i : ℕ) × (z ≡ pos i) × (i < n)

not_at :
    (p : Pid) (ps : List Pid) (pid : Pid) (j : ℕ)
    → Pid.eq p pid ≡ false
    → ((i : ℕ) → j ≡ suc i → get_elem? ps i ≢ some pid)
    → get_elem? (p ∷ ps) j ≢ some pid
not_at p ps pid zero other later at_0 = ground (arith, other, (eq_iff p pid).1)
not_at p ps pid (suc j) other later at_j = later j refl at_j

-- The loop of getPIDIndex from index `i` on finds the first place of the PID.
index_from_lem :
    (i : ℕ) (ps : List Pid) (pid : Pid)
    → i + length ps ≤ 2 ^ 31
    → ((index_from i ps pid ≡ err_unknown_pid) × ((j : ℕ) → get_elem? ps j ≢ some pid))
      ⊎ ((k : ℕ) × (index_from i ps pid ≡ pos (i + k))
          × (get_elem? ps k ≡ some pid)
          × ((j : ℕ) → j < k → get_elem? ps j ≢ some pid))
unfolding index_from
index_from_lem i [] pid h = inl (refl, λ j e. cc)
index_from_lem i (p ∷ ps) pid h = elim (Bool-cases (Pid.eq p pid)) [
  | inl here ↦
      inr (
        0,
        ground (arith, here),
        ground (arith, (eq_iff p pid).0 here),
        λ j l. absurd (omega arith),
      )
  | inr other ↦ elim (index_from_lem (suc i) ps pid (omega arith)) [
    | inl (e, absent) ↦ inl (rw (other) e, λ j. not_at p ps pid j other λ j' e'. absent j')
    | inr (k, e, at_k, first) ↦ inr (
      suc k,
      ground (arith, other, e),
      at_k,
      λ j l. not_at p ps pid j other λ j' e'. first j' (omega arith),
    )
  ]
]

module _ (tries : Tries) where
  open tries use {Addr, Prefix, Trie, new_trie, add, lookup_trie}

  abbrev TriePointsBelow : ℕ → Trie → Type 0
  TriePointsBelow n t = (a : Addr) (r : Prefix × ℤ) → lookup_trie t a ≡ some r → IsBelow n r.1

  -- The trie holds indexes of the map's PIDs only.
  pub record PointsInside (s : IspPidMap tries) : Type 0 where
    pub inside : TriePointsBelow (length s.pids) s.trie

  module _ (answers : AnswersAdded tries) where
    prefixes_below :
        (n : ℕ) (t : Trie) (i : ℕ) (ps : List Prefix)
        → i < n
        → n ≤ 2 ^ 31
        → TriePointsBelow n t
        → TriePointsBelow n (add_prefixes tries t i ps)
    unfolding add_prefixes
    prefixes_below n t i [] h m b = b
    prefixes_below n t i (p ∷ ps) h m b = prefixes_below n (add t p (to_i32 i)) i ps h m λ a r e.
        elim (answers.lookup_add t p (to_i32 i) a r e) [
          | inl (fresh, _) ↦
              let is_i : r.1 ≡ to_i32 i = ap (λ (x : Prefix × ℤ). x.1) fresh in
              (i, ground (arith, is_i), h)
          | inr old ↦ b a r old
        ]

    build_below :
        (n : ℕ) (t : Trie) (i : ℕ) (entries : List (PidPrefixes tries))
        → i + length entries ≤ n
        → n ≤ 2 ^ 31
        → TriePointsBelow n t
        → TriePointsBelow n (build tries t i entries).2
    unfolding build
    build_below n t i [] h m b = b
    build_below n t i (entry ∷ entries) h m b =
        build_below n (add_prefixes tries t i entry.prefixes) (suc i) entries (omega arith) m
          (prefixes_below n t i entry.prefixes (omega arith) m b)

    length-build :
        (t : Trie) (i : ℕ) (entries : List (PidPrefixes tries))
        → length (build tries t i entries).0 ≡ length entries
    unfolding build
    length-build t i [] = refl
    length-build t i (entry ∷ entries) =
        rw (length-build (add_prefixes tries t i entry.prefixes) (suc i) entries) refl

    -- Over a trie that answers only what was added to it, a load keeps every index in the trie the
    -- index of one of the PIDs, whether it fails or reads at most 2^31 of them.
    pub load-PointsInside :
        (world : World (List (PidPrefixes tries))) (s : IspPidMap tries)
        → ((entries : List (PidPrefixes tries)) (meta : Meta)
            → retrieve default_ttl world s.source ≡ inr (entries, meta)
            → length entries ≤ 2 ^ 31)
        → PointsInside s
        → PointsInside (load_p4p_info tries world s).0
    unfolding load_p4p_info
    load-PointsInside world s small v = elim (Sum-cases (retrieve default_ttl world s.source)) [
      | inl (error, e) ↦ rw (e, load_p4p_info) v
      | inr ((entries, meta), e) ↦
          let empty : TriePointsBelow (length entries) new_trie =
            λ a r h. absurd (ground (arith, answers.lookup_new a, h)) in
          rw (e, load_p4p_info)
            (record {
              inside = rw (length-build new_trie 0 entries) (
                  build_below (length entries) new_trie 0 entries (omega arith)
                    (small entries meta e) empty);
            })
    ]

  -- In a map whose trie holds indexes of its PIDs only, a lookup is either the error, with no
  -- prefix, or the index of one of the PIDs, which getPIDInfo then returns.
  pub lookup_lem :
      (s : IspPidMap tries) (addr : Addr)
      → PointsInside s
      → (lookup tries s addr ≡ (err_unknown_pid, none))
        ⊎ ((i : ℕ) × (p : Pid) × (prefix : Prefix) × (lookup tries s addr ≡ (pos i, some prefix))
            × (get_elem? s.pids i ≡ some p)
            × (get_pid_info tries s (pos i) ≡ p))
  unfolding lookup get_pid_info
  lookup_lem s addr v = elim (Option-cases (lookup_trie s.trie addr)) [
    | inl e ↦ inl (rw (e, lookup) refl)
    | inr ((prefix, pid), e) ↦
        let (i, is_i, h) = v.inside addr (prefix, pid) e in
        let (p, at_i) = get_elem?_lt s.pids i h in
        inr (i, p, prefix, rw (e, lookup, is_i) refl, at_i, ground (arith, at_i, h))
  ]

  -- getPIDIndex answers the first index of the PID, at which getPIDInfo returns it, or the error if
  -- the PID is not in the map; for a map of at most 2^31 PIDs.
  pub get_pid_index_lem :
      (s : IspPidMap tries) (pid : Pid)
      → length s.pids ≤ 2 ^ 31
      → ((get_pid_index tries s pid ≡ err_unknown_pid) × ((j : ℕ) → get_elem? s.pids j ≢ some pid))
        ⊎ ((k : ℕ) × (get_pid_index tries s pid ≡ pos k)
            × (get_elem? s.pids k ≡ some pid)
            × (get_pid_info tries s (pos k) ≡ pid)
            × ((j : ℕ) → j < k → get_elem? s.pids j ≢ some pid))
  unfolding get_pid_index get_pid_info
  get_pid_index_lem s pid h = elim (index_from_lem 0 s.pids pid (omega arith)) [
    | inl (e, absent) ↦ inl (e, absent)
    | inr (k, e, at_k, first) ↦
        inr (
          k,
          ground (arith, e),
          at_k,
          ground (arith, at_k, lt_of_get_elem? s.pids k pid at_k),
          first,
        )
  ]
