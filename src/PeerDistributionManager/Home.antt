-- ===== src/PeerDistributionManager/Home.antt =====
-- The home that addPeer chooses: the internal PID with the longest matching prefix over all ISPs.
use alto.Prelude.{
  ℕ, zero, suc, ◌≤◌, ◌≡◌, ◌≢◌, refl, ◌∙◌, sym, ap, ◌⊎◌, inl, inr, true, false, List, [], ◌∷◌, none,
  some, ltb, get_elem?, arith, Bool-cases, Option-cases, ◌==◌, if◌then◌else◌,
}
use alto.Prelude.Int.{ℤ, pos, ltb_ℤ}
use alto.Prelude.Words.{Floats, to_i32}
use alto.Prelude.Dict
use alto.Prelude.Order.{==-IsEquivalence}
use alto.PeerDistributionManager.{Isps, Choice, choose, no_choice, set_home}

module _ {ℓ} {V : Type ℓ} (isps : Isps) (peer : ℕ) where
  -- The choice over the ISPs of a list of views, in its order.
  unfoldable pub choose_all : List (ℕ × V) → Choice → Choice
  choose_all [] c = c
  choose_all ((isp, _) ∷ views) c = choose_all views (choose isps peer isp c)

-- The ISP maps the peer's address to one of its internal PIDs, by a prefix of that length.
pub record IsCandidate (isps : Isps) (peer isp : ℕ) (pid : ℤ) (len : ℕ) : Type 0 where
  pub looked_up : isps.lookup_pid isp peer ≡ (pid, len)
  pub valid : ltb_ℤ pid (pos 0) ≡ false
  pub internal : ltb_ℤ pid (to_i32 (isps.num_pids isp).0) ≡ true

module _ (isps : Isps) (peer : ℕ) where
  -- What one step of the choice does.
  record IsStep (isp : ℕ) (c r : Choice) : Type 0 where
    grows : c.longest_prefix_length ≤ r.longest_prefix_length
    longest :
        (len : ℕ) (pid : ℤ)
        → IsCandidate isps peer isp pid len
        → (len ≤ r.longest_prefix_length) × (r.home_isp ≢ none)
    chosen :
        (r ≡ c)
        ⊎ ((r.home_isp ≡ some isp) × IsCandidate isps peer isp r.home_pid r.longest_prefix_length)
    keeps : c.home_isp ≢ none → r.home_isp ≢ none

  -- A step that changes nothing, for a view that is no candidate.
  passed_over :
      (isp : ℕ) (c : Choice)
      → ((len : ℕ) (pid : ℤ)
          → IsCandidate isps peer isp pid len
          → (len ≤ c.longest_prefix_length) × (c.home_isp ≢ none))
      → IsStep isp c c
  passed_over isp c none_here = record {
    grows = omega arith;
    longest = none_here;
    chosen = inl refl;
    keeps = λ h. h;
  }

  choose-IsStep :
      (isp : ℕ) (c : Choice)
      → (c.home_isp ≡ none → c.longest_prefix_length ≡ 0)
      → IsStep isp c (choose isps peer isp c)
  choose-IsStep isp c start =
      let pid = (isps.lookup_pid isp peer).0 in
      let len = (isps.lookup_pid isp peer).1 in
      elim (Bool-cases (ltb_ℤ pid (pos 0))) [
        | inl bad ↦ rw (bad) (
            passed_over isp c
              λ l q k. absurd (ground (arith, bad, k.valid, ap (λ (r : ℤ × ℕ). r.0) k.looked_up)))
        | inr valid ↦ elim (Bool-cases (ltb_ℤ pid (to_i32 (isps.num_pids isp).0))) [
          | inr external ↦
              rw (valid, external)
                (passed_over isp c λ l q k.
                  absurd
                    (ground (arith, external, k.internal, ap (λ (r : ℤ × ℕ). r.0) k.looked_up)))
          | inl internal ↦ elim (Bool-cases (ltb len c.longest_prefix_length)) [
            | inl shorter ↦
                rw (valid, internal, shorter)
                  (passed_over isp c λ l q k. (
                    ground (arith, shorter, ap (λ (r : ℤ × ℕ). r.1) k.looked_up),
                    λ e. ground (arith, shorter, start e),
                  ))
            | inr not_shorter ↦
                rw (valid, internal, not_shorter)
                  (record {
                    grows = ground (arith, not_shorter);
                    longest =
                        λ l q k. (ground (arith, ap (λ (r : ℤ × ℕ). r.1) k.looked_up), λ e. cc);
                    chosen =
                        inr (refl, record { looked_up = refl; valid = valid; internal = internal });
                    keeps = λ h e. cc;
                  })
          ]
        ]
      ]

module _ {ℓ} {V : Type ℓ} (isps : Isps) (peer : ℕ) where
  -- What a choice says of the views it has seen and the choice it began with.
  pub record IsBest (views : List (ℕ × V)) (c r : Choice) : Type ℓ where
    pub grows : c.longest_prefix_length ≤ r.longest_prefix_length
    pub longest :
        (i isp len : ℕ) (pid : ℤ) (view : V)
        → get_elem? views i ≡ some (isp, view)
        → IsCandidate isps peer isp pid len
        → (len ≤ r.longest_prefix_length) × (r.home_isp ≢ none)
    pub chosen :
        (r ≡ c)
        ⊎ ((i isp : ℕ) × (view : V) × (get_elem? views i ≡ some (isp, view))
            × (r.home_isp ≡ some isp)
            × IsCandidate isps peer isp r.home_pid r.longest_prefix_length)
    pub keeps : c.home_isp ≢ none → r.home_isp ≢ none

  pub choose_all-IsBest :
      (views : List (ℕ × V)) (c : Choice)
      → (c.home_isp ≡ none → c.longest_prefix_length ≡ 0)
      → IsBest views c (choose_all isps peer views c)
  unfolding choose_all
  choose_all-IsBest [] c start = record {
    grows = omega arith;
    longest = λ i isp len pid view e k. cc;
    chosen = inl refl;
    keeps = λ h. h;
  }
  choose_all-IsBest ((isp, view) ∷ views) c start =
      let first = choose-IsStep isps peer isp c start in
      let clean : (choose isps peer isp c).home_isp ≡ none
          → (choose isps peer isp c).longest_prefix_length ≡ 0 =
        λ e. elim first.chosen [
          | inl same ↦
              ap (λ (x : Choice). x.longest_prefix_length) same
              ∙ start (sym (ap (λ (x : Choice). x.home_isp) same) ∙ e)
          | inr (home, _) ↦ absurd (ground (arith, home, e))
        ] in
      let rest = choose_all-IsBest views (choose isps peer isp c) clean in
      record {
        grows = omega (arith, first.grows, rest.grows);
        longest = best views first rest;
        chosen = elim rest.chosen [
          | inr (i, isp', view', e, home, k) ↦ inr (suc i, isp', view', e, home, k)
          | inl same ↦ elim first.chosen [
            | inl same' ↦ inl (same ∙ same')
            | inr (home, k) ↦ inr (0, isp, view, refl, rw (same) home, rw (same) k)
          ]
        ];
        keeps = λ h. rest.keeps (first.keeps h);
      }
    where
      best :
          {c1 r : Choice} (vs : List (ℕ × V))
          → IsStep isps peer isp c c1
          → IsBest vs c1 r
          → (i isp' len : ℕ) (pid : ℤ) (view' : V)
          → get_elem? ((isp, view) ∷ vs) i ≡ some (isp', view')
          → IsCandidate isps peer isp' pid len
          → (len ≤ r.longest_prefix_length) × (r.home_isp ≢ none)
      best vs step rest zero isp' len pid view' e k =
          let same : isp' ≡ isp = ground (arith, e) in
          let (l, h) = step.longest len pid (rw (same) at k) in
          (omega (arith, l, rest.grows), rest.keeps h)
      best vs step rest (suc i) isp' len pid view' e k = rest.longest i isp' len pid view' e k

-- What becomes of the homes: nothing if no view's ISP is a candidate; else the peer's home is a
-- candidate that no other exceeds in the length of its prefix, and every other home stays.
abbrev pub HomeSet {ℓ} :
    {V : Type ℓ} → Isps → ℕ → List (ℕ × V) → List (ℕ × (ℕ × ℤ)) → List (ℕ × (ℕ × ℤ)) → Type ℓ
HomeSet {V} isps peer views homes homes' =
    (((i isp len : ℕ) (pid : ℤ) (view : V)
        → get_elem? views i ≡ some (isp, view)
        → ¬ IsCandidate isps peer isp pid len)
      × (homes' ≡ homes))
    ⊎ ((i isp len : ℕ) × (pid : ℤ) × (view : V) × (get_elem? views i ≡ some (isp, view))
        × IsCandidate isps peer isp pid len
        × ((i' isp' len' : ℕ) (pid' : ℤ) (view' : V)
            → get_elem? views i' ≡ some (isp', view')
            → IsCandidate isps peer isp' pid' len'
            → len' ≤ len)
        × ((q : ℕ)
            → Dict.lookup ◌==◌ q homes'
              ≡ (if peer == q then some (isp, pid) else Dict.lookup ◌==◌ q homes)))

pub set_home-HomeSet {ℓ} :
    {V : Type ℓ} (isps : Isps) (floats : Floats {0}) (peer : ℕ) (views : List (ℕ × V))
    (homes : List (ℕ × (ℕ × ℤ)))
    → HomeSet isps peer views homes
        (set_home isps floats peer (choose_all isps peer views no_choice) homes)
set_home-HomeSet isps floats peer views homes =
    let c = choose_all isps peer views no_choice in
    let best = choose_all-IsBest isps peer views no_choice (λ _. refl) in
    elim (Option-cases c.home_isp) [
      | inl homeless ↦
          inl (
            λ i isp len pid view e k. (best.longest i isp len pid view e k).1 homeless,
            rw homeless,
          )
      | inr (home, at_home) ↦ elim best.chosen [
        | inl same ↦ absurd (ground (arith, at_home, ap (λ (x : Choice). x.home_isp) same))
        | inr (i, isp, view, e, is_home, k) ↦ inr (
          i,
          isp,
          c.longest_prefix_length,
          c.home_pid,
          view,
          e,
          k,
          λ i' isp' len' pid' view' e' k'. (best.longest i' isp' len' pid' view' e' k').0,
          λ q. rw is_home (Dict.lookup-assign ◌==◌ ==-IsEquivalence peer q (isp, c.home_pid) homes),
        )
      ]
    ]
