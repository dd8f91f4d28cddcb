-- ===== src/IspPidMap/Loads.antt =====
-- What a load changes, and what the map answers afterwards.
use alto.Prelude.{
  ℕ, zero, suc, ◌≤◌, ◌^◌, not, Bool, List, [], ◌∷◌, map, none, some, inl, inr, length, get_elem?,
  ◌≡◌, refl, ap, ◌∙◌, sym, ◌⊎◌, arith, Option-cases, lt_of_get_elem?,
}
use alto.Prelude.Int.{pos}
use alto.Prelude.Count.{count_if, count_if-nil, count_if-cons}
use alto.SwarmState.{err_unknown_pid}
use alto.DataSource.{World, Meta}
use alto.DataSource.Outcomes.{Supplies, Fails, retrieve_cases}
use alto.IspPidMap.{
  Tries, AnswersAdded, PidPrefixes, IspPidMap, lookup, get_pid_info, list_pids, get_num_pids,
  add_prefixes, build, load_p4p_info,
}
use alto.IspPidMap.Contents.{IsFrom, IsOf, build_found, build_covered}

module _ (tries : Tries) where
  open tries use {Addr, Prefix, Trie, new_trie, lookup_trie}

  abbrev pub is_internal : PidPrefixes tries → Bool
  is_internal entry = not entry.pid.external

  build_pids :
      (t : Trie) (i : ℕ) (entries : List (PidPrefixes tries))
      → (build tries t i entries).0 ≡ map (λ e. e.pid) entries
  unfolding build
  build_pids t i [] = refl
  build_pids t i (entry ∷ entries) =
      rw (build_pids (add_prefixes tries t i entry.prefixes) (suc i) entries) refl

  build_internal :
      (t : Trie) (i : ℕ) (entries : List (PidPrefixes tries))
      → (build tries t i entries).1 ≡ count_if is_internal entries
  unfolding build
  build_internal t i [] = sym (count_if-nil is_internal)
  build_internal t i (entry ∷ entries) =
      rw
        (
          count_if-cons is_internal entry entries,
          build_internal (add_prefixes tries t i entry.prefixes) (suc i) entries,
        )
        (ground arith)

  get_elem?-pids :
      (entries : List (PidPrefixes tries)) (j : ℕ) (entry : PidPrefixes tries)
      → get_elem? entries j ≡ some entry
      → get_elem? (map (λ e. e.pid) entries) j ≡ some entry.pid
  get_elem?-pids [] j entry e = absurd (ground (arith, e))
  get_elem?-pids (x ∷ entries) zero entry e = ground (arith, e)
  get_elem?-pids (x ∷ entries) (suc j) entry e = get_elem?-pids entries j entry e

  length-pids :
      (entries : List (PidPrefixes tries))
      → length (map (λ (e : PidPrefixes tries). e.pid) entries) ≡ length entries
  length-pids [] = refl
  length-pids (x ∷ entries) = ap suc (length-pids entries)

  module _ (answers : AnswersAdded tries) where
    -- What a lookup of an address answers in a map of these entries: the error if no prefix of an
    -- entry covers it, else such a prefix with the index of its entry, at which getPIDInfo
    -- returns the entry's PID.
    abbrev pub LooksUp : List (PidPrefixes tries) → IspPidMap tries → Addr → Type 0
    LooksUp entries s a =
        ((lookup tries s a ≡ (err_unknown_pid, none))
          × ((j : ℕ) (p : Prefix) → ¬ IsOf tries answers entries j a p))
        ⊎ ((j : ℕ) × (p : Prefix) × (entry : PidPrefixes tries) × (get_elem? entries j ≡ some entry)
            × IsFrom tries answers entry.prefixes a p
            × (lookup tries s a ≡ (pos j, some p))
            × (get_pid_info tries s (pos j) ≡ entry.pid))

    looks_up :
        (entries : List (PidPrefixes tries)) (s : IspPidMap tries) (a : Addr)
        → length entries ≤ 2 ^ 31
        → s.pids ≡ map (λ e. e.pid) entries
        → s.trie ≡ (build tries new_trie 0 entries).2
        → LooksUp entries s a
    unfolding lookup get_pid_info
    looks_up entries s a small pids trie =
        elim (Option-cases (lookup_trie (build tries new_trie 0 entries).2 a)) [
          | inl e ↦ inl (
            rw (trie, e, lookup) refl,
            λ j p k.
                let (r, f) = build_covered tries answers new_trie 0 entries a j p k in
                ground (arith, e, f),
          )
          | inr ((p, v), e) ↦ elim (build_found tries answers new_trie 0 entries a (p, v) e) [
            | inr old ↦ absurd (ground (arith, old, answers.lookup_new a))
            | inl (j, (entry, at_j, from), is_j) ↦
                let below = lt_of_get_elem? entries j entry at_j in
                let is_pos : v ≡ pos j = is_j ∙ ground (arith, below, small) in
                inr (
                  j,
                  p,
                  entry,
                  at_j,
                  from,
                  rw (trie, e, is_pos, lookup) refl,
                  rw (pids, get_pid_info)
                      (ground
                        (arith, get_elem?-pids entries j entry at_j, length-pids entries, below)),
                )
          ]
        ]

    -- Over a trie that keeps what was added to it: where the data source in use fails, a load returns
    -- the code of the failure and changes nothing. Where it supplies at most 2^31 entries, a load
    -- returns 0; the map then lists their PIDs in their order and counts them and the internal
    -- ones among them, and a lookup of an address finds a prefix that covers it with the index of
    -- the PID that it belongs to, or the error if no prefix covers it. The time to live and the
    -- version are those supplied, the time is that of the load, and the data source stays.
    pub load_p4p_info_lem :
        (world : World (List (PidPrefixes tries))) (s : IspPidMap tries)
        → ((entries : List (PidPrefixes tries)) (meta : Meta)
            → Supplies 172800 world s.source entries meta
            → length entries ≤ 2 ^ 31)
        → let (s', rc) = load_p4p_info tries world s in
          (Fails world s.source rc × (s' ≡ s))
          ⊎ ((entries : List (PidPrefixes tries)) × (meta : Meta) × Supplies 172800 world s.source
                entries meta
              × (rc ≡ pos 0)
              × (list_pids tries s' ≡ map (λ e. e.pid) entries)
              × (get_num_pids tries s' ≡ (count_if is_internal entries, length entries))
              × ((a : Addr) → LooksUp entries s' a)
              × (s'.ttl ≡ meta.ttl)
              × (s'.version ≡ meta.version)
              × (s'.last_update ≡ world.now)
              × (s'.source ≡ s.source))
    unfolding load_p4p_info
    load_p4p_info_lem world s small = elim (retrieve_cases 172800 world s.source) [
      | inr (error, e, fails) ↦ rw (e, load_p4p_info) (inl (fails, refl))
      | inl (entries, meta, e, supplies) ↦
          let s' = (load_p4p_info tries world s).0 in
          let pids : s'.pids ≡ map (λ x. x.pid) entries =
            rw (e, load_p4p_info) (build_pids new_trie 0 entries) in
          inr (
            entries,
            meta,
            supplies,
            rw (e, load_p4p_info) refl,
            pids,
            rw
                (
                  e,
                  load_p4p_info,
                  build_pids new_trie 0 entries,
                  length-pids entries,
                  build_internal new_trie 0 entries,
                )
                refl,
            λ a.
                looks_up entries s' a (small entries meta supplies) pids
                  (rw (e, load_p4p_info) refl),
            rw (e, load_p4p_info) refl,
            rw (e, load_p4p_info) refl,
            rw (e, load_p4p_info) refl,
            rw (e, load_p4p_info) refl,
          )
    ]
