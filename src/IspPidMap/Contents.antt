-- ===== src/IspPidMap/Contents.antt =====
-- What the trie holds once loadP4PInfo has added the prefixes of each PID under its index.
use alto.Prelude.{
  ℕ, zero, suc, ◌+◌, true, List, [], ◌∷◌, some, inl, inr, get_elem?, ◌≡◌, refl, ap, sym, ◌∙◌, ◌⊎◌,
  arith,
}
use alto.Prelude.Int.{ℤ}
use alto.Prelude.Words.{to_i32}
use alto.IspPidMap.{Tries, AnswersAdded, PidPrefixes, add_prefixes, build}

module _ (tries : Tries) (answers : AnswersAdded tries) where
  open tries use {Addr, Prefix, Trie, add, lookup_trie}
  open answers use {covers, lookup_add, lookup_kept, lookup_covered}

  -- Some prefix of the list is the answer, and covers the address.
  abbrev pub IsFrom : List Prefix → Addr → Prefix → Type 0
  IsFrom ps a p = (k : ℕ) × (get_elem? ps k ≡ some p) × (covers p a ≡ true)

  abbrev IsAnswered : Trie → Addr → Type 0
  IsAnswered t a = (r : Prefix × ℤ) × (lookup_trie t a ≡ some r)

  prefixes_found :
      (t : Trie) (i : ℕ) (ps : List Prefix) (a : Addr) (r : Prefix × ℤ)
      → lookup_trie (add_prefixes tries t i ps) a ≡ some r
      → (IsFrom ps a r.0 × (r.1 ≡ to_i32 i)) ⊎ (lookup_trie t a ≡ some r)
  unfolding add_prefixes
  prefixes_found t i [] a r e = inr e
  prefixes_found t i (p ∷ ps) a r e = elim (prefixes_found (add t p (to_i32 i)) i ps a r e) [
    | inl ((k, at_k, c), is_i) ↦ inl ((suc k, at_k, c), is_i)
    | inr earlier ↦ elim (lookup_add t p (to_i32 i) a r earlier) [
      | inr old ↦ inr old
      | inl (fresh, c) ↦
          let is_p : p ≡ r.0 = ap (λ (x : Prefix × ℤ). x.0) (sym fresh) in
          inl ((0, ap some is_p, rw (← is_p) c), ap (λ (x : Prefix × ℤ). x.1) fresh)
    ]
  ]

  prefixes_kept :
      (t : Trie) (i : ℕ) (ps : List Prefix) (a : Addr)
      → IsAnswered t a
      → IsAnswered (add_prefixes tries t i ps) a
  unfolding add_prefixes
  prefixes_kept t i [] a h = h
  prefixes_kept t i (p ∷ ps) a (r, e) =
      prefixes_kept (add t p (to_i32 i)) i ps a (lookup_kept t p (to_i32 i) a r e)

  prefixes_covered :
      (t : Trie) (i : ℕ) (ps : List Prefix) (a : Addr) (p : Prefix)
      → IsFrom ps a p
      → IsAnswered (add_prefixes tries t i ps) a
  unfolding add_prefixes
  prefixes_covered t i [] a p (k, at_k, c) = absurd (ground (arith, at_k))
  prefixes_covered t i (q ∷ ps) a p (zero, at_k, c) =
      let same : q ≡ p = ground (arith, at_k) in
      prefixes_kept (add t q (to_i32 i)) i ps a (lookup_covered t q (to_i32 i) a (rw (same) c))
  prefixes_covered t i (q ∷ ps) a p (suc k, at_k, c) =
      prefixes_covered (add t q (to_i32 i)) i ps a p (k, at_k, c)

  -- The answer is a prefix of the entry with that index.
  abbrev pub IsOf : List (PidPrefixes tries) → ℕ → Addr → Prefix → Type 0
  IsOf entries j a p =
      (entry : PidPrefixes tries) × (get_elem? entries j ≡ some entry) × IsFrom entry.prefixes a p

  pub build_found :
      (t : Trie) (i : ℕ) (entries : List (PidPrefixes tries)) (a : Addr) (r : Prefix × ℤ)
      → lookup_trie (build tries t i entries).2 a ≡ some r
      → ((j : ℕ) × IsOf entries j a r.0 × (r.1 ≡ to_i32 (i + j))) ⊎ (lookup_trie t a ≡ some r)
  unfolding build
  build_found t i [] a r e = inr e
  build_found t i (entry ∷ entries) a r e =
      elim (build_found (add_prefixes tries t i entry.prefixes) (suc i) entries a r e) [
        | inl (j, (entry', at_j, from), is_j) ↦
            inl (suc j, (entry', at_j, from), is_j ∙ ap to_i32 (omega arith))
        | inr earlier ↦ elim (prefixes_found t i entry.prefixes a r earlier) [
          | inr old ↦ inr old
          | inl (from, is_i) ↦ inl (0, (entry, refl, from), is_i ∙ ap to_i32 (omega arith))
        ]
      ]

  build_kept :
      (t : Trie) (i : ℕ) (entries : List (PidPrefixes tries)) (a : Addr)
      → IsAnswered t a
      → IsAnswered (build tries t i entries).2 a
  unfolding build
  build_kept t i [] a h = h
  build_kept t i (entry ∷ entries) a h =
      build_kept (add_prefixes tries t i entry.prefixes) (suc i) entries a
        (prefixes_kept t i entry.prefixes a h)

  pub build_covered :
      (t : Trie) (i : ℕ) (entries : List (PidPrefixes tries)) (a : Addr) (j : ℕ) (p : Prefix)
      → IsOf entries j a p
      → (r : Prefix × ℤ) × (lookup_trie (build tries t i entries).2 a ≡ some r)
  unfolding build
  build_covered t i [] a j p (entry, at_j, from) = absurd (ground (arith, at_j))
  build_covered t i (x ∷ entries) a zero p (entry, at_j, from) =
      let same : x ≡ entry = ground (arith, at_j) in
      build_kept (add_prefixes tries t i x.prefixes) (suc i) entries a
        (prefixes_covered t i x.prefixes a p (rw (same) from))
  build_covered t i (x ∷ entries) a (suc j) p (entry, at_j, from) =
      build_covered (add_prefixes tries t i x.prefixes) (suc i) entries a j p (entry, at_j, from)
